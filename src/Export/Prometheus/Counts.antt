-- ===== src/Export/Prometheus/Counts.antt =====
-- src/export/prometheus.rs: the counts of the histogram's buckets.
use chalk_metrics.Export.Prometheus.{bucket_counts, max_u64}
use chalk_metrics.Float.{Float}
use chalk_metrics.Prelude.{
  ℕ, ◌≤◌, ◌≡◌, refl, ap, List, [], ◌∷◌, arith, inl, inr, Bool-cases, ◌==◌, nat_eq, Returns,
}
use chalk_metrics.Sketch.Links.Iteration.{iter-Represents}
use chalk_metrics.Sketch.Links.Represents.{Buckets, Represents}
use chalk_metrics.Sketch.Udd.{UddSketch, estimate_quantile_at_value, fraction_below, key}

-- Each count is at least the one before, the first at least `n`.
abbrev pub AreRising : {F : Type 0} → ℕ → List (F × ℕ) → Type 0
AreRising n [] = Unit {0}
AreRising n ((le, c) ∷ l) = (n ≤ c) × AreRising c l

max_u64-le : (a b : ℕ) → a ≤ max_u64 a b
max_u64-le a b = ground arith

abbrev pub boundaries : {F : Type 0} → List (F × ℕ) → List F
boundaries [] = []
boundaries ((le, c) ∷ l) = le ∷ boundaries l

module _ ⦃fl : Float⦄ where
  open fl use {F}

  quantile_at_value-ok :
      (s : UddSketch F) (l : Buckets) (v : F)
      → Represents s.buckets l
      → Returns (estimate_quantile_at_value s v) (λ q. Unit {0})
  unfolding estimate_quantile_at_value
  quantile_at_value-ok s l v rep = elim (Bool-cases (s.num_values == 0)) [
    | inl none ↦ (fl.zero, rw none, tt)
    | inr some ↦ (
      fraction_below (key s v) s.num_values fl.zero l,
      rw some (rw (iter-Represents s.buckets l rep)),
      tt,
    )
  ]

  -- On a sketch whose map represents a sorted list of buckets, the counts of the boundaries are
  -- computed without a panic, one for each boundary in their order, and they never fall.
  pub bucket_counts-AreRising :
      (s : UddSketch F) (l : Buckets) (n : ℕ) (les : List F)
      → Represents s.buckets l
      → Returns (bucket_counts s n les) (λ r. AreRising n r × (boundaries r ≡ les))
  unfolding bucket_counts
  bucket_counts-AreRising s l n [] rep = ([], refl, (tt, refl))
  bucket_counts-AreRising s l n (le ∷ les) rep =
      let (q, run, _) = quantile_at_value-ok s l le rep in
      let next = max_u64 n (fl.to_u64 (fl.round (fl.mul q (fl.of_u64 s.num_values)))) in
      let (r, run', (rising, same)) = bucket_counts-AreRising s l next les rep in
      ((le, next) ∷ r, rw run (rw run'), ((max_u64-le n _, rising), ap (◌∷◌ le) same))
