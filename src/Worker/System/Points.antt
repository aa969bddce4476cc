-- ===== src/Worker/System/Points.antt =====
-- src/worker.rs: the raw points that the exporters have got, and those that steps record.
use chalk_metrics.Aggregator.{RawDistributionPoint}
use chalk_metrics.Aggregator.Histograms.{point_of}
use chalk_metrics.Aggregator.History.{counts_by, sets, observes, flushes}
use chalk_metrics.Deps.{Channel, HashTable}
use chalk_metrics.Float.{Float}
use chalk_metrics.Prelude.{
  ◌≡◌, refl, sym, ap, ◌∙◌, List, [], ◌∷◌, ◌++◌, map, append_assoc, append-nil, ok, panic,
  out_of_fuel,
}
use chalk_metrics.Worker.{Call, Exporter, export, export_raw_points}
use chalk_metrics.Worker.Delivery.{called}
use chalk_metrics.Worker.System.{Step, records, wakes}

module _ ⦃fl : Float⦄ ⦃ht : HashTable⦄ ⦃ch : Channel⦄ where
  open fl use {F}

  -- The raw points in the calls that an exporter has had.
  abbrev pub points_in : List (Call F) → List (RawDistributionPoint F)
  points_in [] = []
  points_in (export metrics ∷ calls) = points_in calls
  points_in (export_raw_points points ∷ calls) = points ++ points_in calls

  points_in-snoc :
      (calls : List (Call F)) (c : Call F)
      → points_in (calls ++ c ∷ []) ≡ points_in calls ++ points_in (c ∷ [])
  points_in-snoc [] c = refl
  points_in-snoc (export metrics ∷ calls) c = points_in-snoc calls c
  points_in-snoc (export_raw_points points ∷ calls) c =
      ap (λ x. points ++ x) (points_in-snoc calls c)
      ∙ sym (append_assoc points (points_in calls) (points_in (c ∷ [])))

  -- Each exporter has got these points more.
  abbrev pub HaveGot :
      List (RawDistributionPoint F) → List (Exporter F) → List (Exporter F) → Type 0
  HaveGot points [] [] = Unit {0}
  HaveGot points (e ∷ es) [] = ⊥
  HaveGot points [] (e ∷ es) = ⊥
  HaveGot points (e ∷ es) (e' ∷ es') =
      (points_in e'.calls ≡ points_in e.calls ++ points) × HaveGot points es es'

  pub got_nothing : (es : List (Exporter F)) → HaveGot [] es es
  got_nothing [] = tt
  got_nothing (e ∷ es) = (sym (append-nil (points_in e.calls)), got_nothing es)

  pub got_called :
      (c : Call F) (es : List (Exporter F)) → HaveGot (points_in (c ∷ [])) es (map (called c) es)
  got_called c [] = tt
  got_called c (e ∷ es) = (points_in-snoc e.calls c, got_called c es)

  pub got_trans :
      (a b : List (RawDistributionPoint F)) (es es' es'' : List (Exporter F))
      → HaveGot a es es'
      → HaveGot b es' es''
      → HaveGot (a ++ b) es es''
  got_trans a b [] [] [] g h = tt
  got_trans a b [] [] (e'' ∷ es'') g h = h
  got_trans a b [] (e' ∷ es') es'' g h = absurd g
  got_trans a b (e ∷ es) [] es'' g h = absurd g
  got_trans a b (e ∷ es) (e' ∷ es') [] g h = absurd h
  got_trans a b (e ∷ es) (e' ∷ es') (e'' ∷ es'') g h = (
    h.0 ∙ ap (λ x. x ++ b) g.0 ∙ append_assoc (points_in e.calls) a b,
    got_trans a b es es' es'' g.1 h.1,
  )

  -- The raw point that a step records.
  abbrev pub point_in : Step → List (RawDistributionPoint F)
  point_in wakes = []
  point_in (records (counts_by i delta)) = []
  point_in (records (sets i value)) = []
  point_in (records flushes) = []
  point_in (records (observes i value)) = elim i.make_tags [
    | ok tags ↦ point_of i tags value ∷ []
    | panic ↦ []
    | out_of_fuel ↦ []
  ]

  abbrev pub recorded_points : List Step → List (RawDistributionPoint F)
  recorded_points [] = []
  recorded_points (s ∷ steps) = point_in s ++ recorded_points steps
