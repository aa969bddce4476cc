-- ===== src/Tests/Standins.antt =====
-- Small instances of the interfaces of third-party code, with the laws that the theorems take.
use mathlib.Core.HLevel.{Σ_prop_path}
use native.Mathlib.Bridge.{le_prop}
use chalk_metrics.Deps.{Channel, IsChannel, HashTable, IsHashTable, AreDistinct, change, keep}
use chalk_metrics.Float.{Float, IsFloat}
use chalk_metrics.Prelude.{
  ℕ, ◌+◌, ◌-◌, ◌*◌, ◌%◌, ◌^◌, ◌<◌, ◌≡◌, refl, false, List, [], ◌∷◌, ◌++◌, length, Option, some,
  none, not, ◌&&◌, true, Bool, ◌≤◌, ltb, leb, nat_beq, if◌then◌else◌, arith, Bool-cases,
  Option-cases, inl, inr, ◌==◌, nat_eq, ap, ◌∙◌, ◌≢◌,
}
use chalk_metrics.Prelude.Int.{ℤ, pos, IsI64}
use chalk_metrics.Prelude.HashMap.{get}
use chalk_metrics.Prelude.Text.{show_u64}

-- A number below 2 ^ 64.
abbrev pub Word : Type 0
Word = (n : ℕ) × (n < 2 ^ 64)

abbrev pub word : ℕ → Word
word n = (n % 2 ^ 64, omega arith)

abbrev pub on_words : (ℕ → ℕ → ℕ) → Word → Word → Word
on_words f (a, p) (b, q) = word (f a b)

abbrev pub small_int : ℕ → ℤ
small_int n = if leb n 9 then pos n else pos 9

small_int-IsI64 : (n : ℕ) → IsI64 (small_int n)
small_int-IsI64 n = ground arith

-- Whole numbers below 2 ^ 64 in the place of `f64`; the logarithm gives back its argument.
instance abbrev pub whole : Float
whole = record {
  F = Word;
  zero = word 0;
  one = word 1;
  two = word 2;
  hundred = word 100;
  smallest_error = word 0;
  le_limit = word 1000;
  largest = word 1000000;
  lowest = word 0;
  add = on_words (λ a b. a + b);
  sub = on_words (λ a b. a - b);
  mul = on_words (λ a b. a * b);
  div = on_words (λ a b. a);
  neg = λ a. a;
  abs = λ a. a;
  floor = λ a. a;
  ceil = λ a. a;
  round = λ a. a;
  log = λ a b. a;
  powi = λ a n. a;
  powf = λ a b. a;
  min = λ a b. if ltb b.0 a.0 then b else a;
  max = λ a b. if ltb a.0 b.0 then b else a;
  lt = λ a b. ltb a.0 b.0;
  le = λ a b. leb a.0 b.0;
  eq = λ a b. nat_beq a.0 b.0;
  is_nan = λ a. false;
  of_u64 = word;
  of_i64 = λ n. word 0;
  to_u64 = λ a. a.0;
  to_u32 = λ a. a.0 % 2 ^ 32;
  to_i64 = λ a. small_int a.0;
  to_bits = λ a. a.0;
  from_bits = word;
  display = λ a. show_u64 a.0;
}

from_bits_word : (x : Word) → word x.0 ≡ x
from_bits_word (a, p) = Σ_prop_path (λ n. le_prop) (omega arith)

pub whole-IsFloat : IsFloat whole
whole-IsFloat = record {
  to_i64_range = λ x. small_int-IsI64 x.0;
  to_bits-lt = λ x. x.1;
  from_bits-to_bits = from_bits_word;
}

get-change :
    {V : Type 0} (k j : ℕ) (v : V) (l : List (ℕ × V)) → get j l ≡ none → get j (change k v l) ≡ none
unfolding get
get-change k j v [] h = refl
get-change k j v ((i, w) ∷ l) h = ground (arith, get-change k j v l)

pub change-AreDistinct :
    {V : Type 0} (k : ℕ) (v : V) (l : List (ℕ × V)) → AreDistinct l → AreDistinct (change k v l)
change-AreDistinct k v [] d = tt
change-AreDistinct k v ((i, w) ∷ l) d = elim (Bool-cases (i == k)) [
  | inl e ↦ rw e (get-change k i v l d.0, change-AreDistinct k v l d.1)
  | inr e ↦ rw e (get-change k i v l d.0, change-AreDistinct k v l d.1)
]

get-keep :
    {V : Type 0} (f : V → Option V) (j : ℕ) (l : List (ℕ × V))
    → get j l ≡ none
    → get j (keep f l) ≡ none
unfolding get
get-keep f j [] h = refl
get-keep f j ((i, w) ∷ l) h = elim (Bool-cases (i == j)) [
  | inl e ↦ absurd (some≢none w (rw e at h))
  | inr e ↦ elim (Option-cases (f w)) [
    | inl g ↦ rw (g, keep) (get-keep f j l (rw e at h))
    | inr (u, g) ↦ rw (g, keep) (rw e (get-keep f j l (rw e at h)))
  ]
]
  where
    some≢none : {V : Type 0} (v : V) → some v ≢ none
    some≢none v e = cc

pub keep-AreDistinct :
    {V : Type 0} (f : V → Option V) (l : List (ℕ × V)) → AreDistinct l → AreDistinct (keep f l)
keep-AreDistinct f [] d = tt
keep-AreDistinct f ((i, w) ∷ l) d = elim (Option-cases (f w)) [
  | inl g ↦ rw (g, keep) (keep-AreDistinct f l d.1)
  | inr (u, g) ↦ rw (g, keep) (get-keep f i l d.0, keep-AreDistinct f l d.1)
]

abbrev Listed : Type 0 → Type 0
Listed V = (l : List (ℕ × V)) × AreDistinct l

abbrev pub insert_new :
    {V : Type 0} (k : ℕ) (v : V) (t : Listed V) (o : Option V) → get k t.0 ≡ o → Listed V
insert_new k v t none e = ((k, v) ∷ t.0, (e, t.1))
insert_new k v t (some w) e = t

-- An association list without a key twice, which always has room for one entry more.
instance abbrev pub listed : HashTable
listed = record {
  Table = Listed;
  empty = ([], tt);
  entries = λ t. t.0;
  capacity = λ t. length t.0 + 1;
  find = λ k t. get k t.0;
  insert = λ k v t. insert_new k v t (get k t.0) refl;
  modify = λ k v t. (change k v t.0, change-AreDistinct k v t.0 t.1);
  retain = λ f t. (keep f t.0, keep-AreDistinct f t.0 t.1);
}

insert_new-absent :
    {V : Type 0} (k : ℕ) (v : V) (t : Listed V) (o : Option V) (e : get k t.0 ≡ o)
    → o ≡ none
    → (insert_new k v t o e).0 ≡ (k, v) ∷ t.0
insert_new-absent k v t none e h = refl
insert_new-absent k v t (some w) e h = cc

get-first :
    {V : Type 0} (k j : ℕ) (v : V) (l : List (ℕ × V))
    → get j ((k, v) ∷ l) ≡ (if k == j then some v else get j l)
unfolding get
get-first k j v l = refl

pub listed-IsHashTable : IsHashTable listed
listed-IsHashTable = record {
  entries-empty = λ V. refl;
  find-empty = λ V k. unfold get in refl;
  find-insert = λ V k v t c h room. (
    (λ j. refl, (insert_new k v t (get k t.0) refl).1),
    λ j. ap (get j) (insert_new-absent k v t (get k t.0) refl h) ∙ get-first k j v t.0,
  );
  entries-modify = λ V k v t c. refl;
  modify-IsConsistent = λ V k v t c. (λ j. refl, change-AreDistinct k v t.0 t.1);
  entries-retain = λ V f t. refl;
  retain-IsConsistent = λ V f t c. (λ j. refl, keep-AreDistinct f t.0 t.1);
}

-- A queue with its capacity, and whether its receiver is gone.
pub record Bounded (A : Type 0) : Type 0 where
  pub capacity : ℕ
  pub waiting : List A
  pub closed : Bool

abbrev pub bounded_send : {A : Type 0} → A → Bounded A → Option (Bounded A)
bounded_send a q =
    if not q.closed && ltb (length q.waiting) q.capacity
    then some (record q { waiting = q.waiting ++ a ∷ [] })
    else none

abbrev pub first_and_rest : {A : Type 0} → ℕ → Bool → List A → Option (A × Bounded A)
first_and_rest n c [] = none
first_and_rest n c (a ∷ l) = some (a, record { capacity = n; waiting = l; closed = c })

instance abbrev pub bounded : Channel
bounded = record {
  Queue = Bounded;
  channel = λ n. record { capacity = n; waiting = []; closed = false };
  waiting = λ q. q.waiting;
  capacity = λ q. q.capacity;
  is_closed = λ q. q.closed;
  close = λ q. record q { closed = true };
  try_send = bounded_send;
  try_recv = λ q. first_and_rest q.capacity q.closed q.waiting;
}

refused :
    {A : Type 0} (c : Bool) (a : A) (q : Bounded A)
    → q.capacity ≤ length q.waiting
    → (if not c && ltb (length q.waiting) q.capacity
        then some (record q { waiting = q.waiting ++ a ∷ [] })
        else none)
      ≡ none
refused true a q h = refl
refused false a q h = ground arith

pub bounded-IsChannel : IsChannel bounded
bounded-IsChannel = record {
  waiting-channel = λ A n. refl;
  is_closed-channel = λ A n. refl;
  is_closed-close = λ A q. refl;
  try_send-closed = λ A a q h. rw h;
  try_send-full = λ A a q h. refused q.closed a q h;
  try_send-room =
      λ A a q c h. (record q { waiting = q.waiting ++ a ∷ [] }, rw c (ground arith), refl, refl, c);
  try_recv-empty = λ A q h. rw h;
  try_recv-first = λ A q a l h. (record q { waiting = l }, rw h, refl, refl, refl);
}
