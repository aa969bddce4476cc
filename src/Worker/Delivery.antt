-- ===== src/Worker/Delivery.antt =====
-- src/worker.rs, the worker's calls: what reaches the exporters, and how its loop ends.
use Prim.Native.Nat.{zero}
use chalk_metrics.Aggregator.{RawDistributionPoint}
use chalk_metrics.Deps.{Channel, HashTable, IsChannel}
use chalk_metrics.Float.{Float}
use chalk_metrics.Prelude.{
  ℕ, suc, ◌<◌, ◌≡◌, refl, ap, sym, ◌∙◌, List, [], ◌∷◌, ◌++◌, map, Option, none, some, length,
  Outcome, ok, ◌>>=◌, Returns, Outcome-cases, arith, inl, inr, true, append_assoc, append-nil,
  Option-cases,
}
use chalk_metrics.Prelude.Text.{Str}
use chalk_metrics.Worker.{
  drop_receiver, Call, Exporter, invoke, export_each, Event, tick, shutdown, WorkerState,
  receive_all, round, work,
}

-- The answer of an exporter as lines of the log.
abbrev pub error_lines : Option Str → List Str
error_lines none = []
error_lines (some message) = message ∷ []

-- The errors that the exporters answer a call with, in their order.
abbrev pub errors_of : {F : Type 0} → Call F → List (Exporter F) → List Str
errors_of c [] = []
errors_of c (e ∷ es) = error_lines (e.answer e.calls c) ++ errors_of c es

abbrev pub called : {F : Type 0} → Call F → Exporter F → Exporter F
called c e = record e { calls = e.calls ++ c ∷ [] }

-- Every exporter gets the call, whatever the ones before it answer, and the errors are logged in
-- the exporters' order.
pub export_each-all :
    {F : Type 0} (c : Call F) (es : List (Exporter F)) (log : List Str)
    → ((export_each c es log).0 ≡ map (called c) es)
      × ((export_each c es log).1 ≡ log ++ errors_of c es)
unfolding export_each invoke
export_each-all c [] log = (refl, sym (append-nil log))
export_each-all c (e ∷ es) log = elim (Option-cases (e.answer e.calls c)) [
  | inl quiet ↦
      rw quiet (ap (◌∷◌ (called c e)) (export_each-all c es log).0, (export_each-all c es log).1)
  | inr (message, err) ↦
      let (sent, logged) = export_each-all c es (log ++ message ∷ []) in
      rw err (ap (◌∷◌ (called c e)) sent, logged ∙ append_assoc log (message ∷ []) (errors_of c es))
]

abbrev pub ticks : ℕ → List Event
ticks zero = []
ticks (suc n) = tick ∷ ticks n

module _ ⦃fl : Float⦄ ⦃ht : HashTable⦄ ⦃ch : Channel⦄ where
  open fl use {F}

  pub receive_all-drains :
      IsChannel ch
      → (fuel : ℕ) (l : List (RawDistributionPoint F)) (q : ch.Queue (RawDistributionPoint F))
      → ch.waiting q ≡ l
      → length l < fuel
      → Returns (receive_all fuel q) λ r.
        (r.0 ≡ l)
        × (ch.waiting r.1 ≡ [])
        × (ch.capacity r.1 ≡ ch.capacity q)
        × (ch.is_closed r.1 ≡ ch.is_closed q)
  unfolding receive_all
  receive_all-drains law zero l q h f = absurd (omega arith)
  receive_all-drains law (suc fuel) [] q h f =
      (([], q), rw (law.try_recv-empty _ q h, receive_all), (refl, h, refl, refl))
  receive_all-drains law (suc fuel) (p ∷ l) q h f =
      let (q', first, rest, same, alike) = law.try_recv-first _ q p l h in
      let (r, run, (points, left, kept, still)) =
        receive_all-drains law fuel l q' rest (omega arith) in
      (
        (p ∷ r.0, r.1),
        rw (first, receive_all) (rw run),
        (ap (◌∷◌ p) points, left, kept ∙ same, still ∙ alike),
      )

  -- Over a lawful channel, and with fuel for one try more than there are waiting points, the drain
  -- returns all of them in the order in which they were sent, and leaves the channel empty.
  pub receive_all-waiting :
      IsChannel ch
      → (fuel : ℕ) (l : List (RawDistributionPoint F)) (q : ch.Queue (RawDistributionPoint F))
      → ch.waiting q ≡ l
      → length l < fuel
      → Returns (receive_all fuel q) (λ r. (r.0 ≡ l) × (ch.waiting r.1 ≡ []))
  receive_all-waiting law fuel l q h f =
      let (r, run, (points, left, _, _)) = receive_all-drains law fuel l q h f in
      (r, run, (points, left))

  -- A number of rounds, one after another.
  abbrev pub rounds : ℕ → ℕ → WorkerState → Outcome WorkerState
  rounds fuel zero w = ok w
  rounds fuel (suc n) w = round fuel w >>= rounds fuel n

  -- After any number of ticks the first shutdown ends the loop behind one more round, whatever
  -- events come later, and the receiver of the raw points is dropped then; a panic or a lack of
  -- fuel in a round is passed on.
  pub work-shutdown :
      (fuel : ℕ) (n : ℕ) (events : List Event) (w : WorkerState)
      → work fuel (ticks n ++ shutdown ∷ events) w
        ≡ (rounds fuel (suc n) w >>= λ r. ok (true, drop_receiver r))
  unfolding work
  work-shutdown fuel zero events w = elim (Outcome-cases (round fuel w)) [
    | inl (r, e) ↦ rw e
    | inr (inl e) ↦ rw e
    | inr (inr e) ↦ rw e
  ]
  work-shutdown fuel (suc n) events w = elim (Outcome-cases (round fuel w)) [
    | inl (r, e) ↦ rw e (work-shutdown fuel n events r)
    | inr (inl e) ↦ rw e
    | inr (inr e) ↦ rw e
  ]
