-- ===== src/Worker/System/Balance.antt =====
-- src/worker.rs: what every exporter has received, against what waits in the map.
use chalk_metrics.Aggregator.Drained.{exported_counts}
use chalk_metrics.Deps.{Channel, HashTable}
use chalk_metrics.Float.{Float}
use chalk_metrics.Prelude.{◌≡◌, sym, ap, ◌∙◌, List, [], ◌∷◌, ◌++◌, map, arith}
use chalk_metrics.Prelude.Int.{ℤ, pos, i64_add, IsI64, i64_add-IsI64}
use chalk_metrics.Prelude.Int.Residues.{i64_add_comm, i64_add_assoc, i64_add-zero}
use chalk_metrics.Worker.{Call, Exporter, export, export_raw_points}
use chalk_metrics.Worker.Delivery.{called}

module _ ⦃fl : Float⦄ ⦃ht : HashTable⦄ ⦃ch : Channel⦄ where
  open fl use {F}

  -- The sum of the counts in the calls that an exporter has had.
  abbrev pub received : List (Call F) → ℤ
  received [] = pos 0
  received (export metrics ∷ calls) = i64_add (exported_counts metrics) (received calls)
  received (export_raw_points points ∷ calls) = received calls

  pub received-IsI64 : (calls : List (Call F)) → IsI64 (received calls)
  received-IsI64 [] = omega arith
  received-IsI64 (export metrics ∷ calls) = i64_add-IsI64 (exported_counts metrics) (received calls)
  received-IsI64 (export_raw_points points ∷ calls) = received-IsI64 calls

  received-snoc :
      (calls : List (Call F)) (c : Call F)
      → received (calls ++ c ∷ []) ≡ i64_add (received calls) (received (c ∷ []))
  received-snoc [] c = sym (i64_add-zero (received (c ∷ [])) (received-IsI64 (c ∷ [])))
  received-snoc (export metrics ∷ calls) c =
      ap (i64_add (exported_counts metrics)) (received-snoc calls c)
      ∙ sym (i64_add_assoc (exported_counts metrics) (received calls) (received (c ∷ [])))
  received-snoc (export_raw_points points ∷ calls) c = received-snoc calls c

  -- Of each exporter, what it has received and the counts `p'` that wait now exceed what it had
  -- received and the counts `p` that waited by `d`.
  abbrev pub AreBalanced : ℤ → ℤ → ℤ → List (Exporter F) → List (Exporter F) → Type 0
  AreBalanced p p' d [] [] = Unit {0}
  AreBalanced p p' d (e ∷ es) [] = ⊥
  AreBalanced p p' d [] (e ∷ es) = ⊥
  AreBalanced p p' d (e ∷ es) (e' ∷ es') =
      (i64_add (received e'.calls) p' ≡ i64_add d (i64_add (received e.calls) p))
      × AreBalanced p p' d es es'

  -- The exporters as they are, where a delta has been recorded.
  pub balanced_recorded :
      (p p' d : ℤ) (es : List (Exporter F)) → p' ≡ i64_add d p → AreBalanced p p' d es es
  balanced_recorded p p' d [] h = tt
  balanced_recorded p p' d (e ∷ es) h = (
    ap (i64_add (received e.calls)) h
        ∙ sym (i64_add_assoc (received e.calls) d p)
        ∙ ap (λ x. i64_add x p) (i64_add_comm (received e.calls) d)
        ∙ i64_add_assoc d (received e.calls) p,
    balanced_recorded p p' d es h,
  )

  -- What waited has been exported to each.
  pub balanced_exported :
      (p : ℤ) (c : Call F) (es : List (Exporter F))
      → received (c ∷ []) ≡ p
      → AreBalanced p (pos 0) (pos 0) es (map (called c) es)
  balanced_exported p c [] h = tt
  balanced_exported p c (e ∷ es) h = (
    i64_add_comm (received (e.calls ++ c ∷ [])) (pos 0)
        ∙ ap (i64_add (pos 0)) (received-snoc e.calls c ∙ ap (i64_add (received e.calls)) h),
    balanced_exported p c es h,
  )

  pub balanced_trans :
      (p p' p'' d d' : ℤ) (es es' es'' : List (Exporter F))
      → AreBalanced p p' d es es'
      → AreBalanced p' p'' d' es' es''
      → AreBalanced p p'' (i64_add d' d) es es''
  balanced_trans p p' p'' d d' [] [] [] a b = tt
  balanced_trans p p' p'' d d' [] [] (e'' ∷ es'') a b = b
  balanced_trans p p' p'' d d' [] (e' ∷ es') es'' a b = absurd a
  balanced_trans p p' p'' d d' (e ∷ es) [] es'' a b = absurd a
  balanced_trans p p' p'' d d' (e ∷ es) (e' ∷ es') [] a b = absurd b
  balanced_trans p p' p'' d d' (e ∷ es) (e' ∷ es') (e'' ∷ es'') a b = (
    b.0 ∙ ap (i64_add d') a.0 ∙ sym (i64_add_assoc d' d (i64_add (received e.calls) p)),
    balanced_trans p p' p'' d d' es es' es'' a.1 b.1,
  )
