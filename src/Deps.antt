-- ===== src/Deps.antt =====
-- The third-party code that the crate builds on, as interfaces: `hashbrown::HashMap` with its raw
-- entries, and the bounded channel of `tokio::sync::mpsc`.
use chalk_metrics.Prelude.{
  ℕ, ◌<◌, ◌≤◌, ◌≡◌, ◌⊎◌, Bool, true, false, List, [], ◌∷◌, ◌++◌, Option, none, some, length,
  if◌then◌else◌, ◌==◌, nat_eq,
}
use chalk_metrics.Prelude.HashMap.{get}

-- The keys of the table are hashes. `entries` is the order in which `retain` visits.
pub record HashTable : Type 1 where
  pub Table : Type 0 → Type 0
  pub empty : {V : Type 0} → Table V
  pub entries : {V : Type 0} → Table V → List (ℕ × V)
  -- how many entries there may be without a reallocation
  pub capacity : {V : Type 0} → Table V → ℕ
  -- `raw_entry_mut().from_hash(..)`
  pub find : {V : Type 0} → ℕ → Table V → Option V
  -- `insert_hashed_nocheck` at a vacant entry, with the key for the hash
  pub insert : {V : Type 0} → ℕ → V → Table V → Table V
  -- a change of the value at an occupied entry
  pub modify : {V : Type 0} → ℕ → V → Table V → Table V
  -- `retain`, with the values that it leaves
  pub retain : {V : Type 0} → (V → Option V) → Table V → Table V

abbrev pub change : {V : Type 0} → ℕ → V → List (ℕ × V) → List (ℕ × V)
change k v [] = []
change k v ((j, w) ∷ l) = (if j == k then (j, v) else (j, w)) ∷ change k v l

abbrev pub keep : {V : Type 0} → (V → Option V) → List (ℕ × V) → List (ℕ × V)
keep f [] = []
keep f ((j, w) ∷ l) = let rest = keep f l in elim (f w) [ none ↦ rest | some v ↦ (j, v) ∷ rest ]

-- No key stands twice in the list.
abbrev pub AreDistinct : {V : Type 0} → List (ℕ × V) → Type 0
AreDistinct [] = Unit {0}
AreDistinct ((k, v) ∷ l) = (get k l ≡ none) × AreDistinct l

-- Every entry is found under its own key as the hash, and no key stands twice. A table is so as
-- long as nothing has been placed anew: hashbrown places an entry by the hash that it is given, but
-- where it has to make room it places the entries that are there by the hashes that the map's own
-- hasher makes of the keys.
abbrev pub IsConsistent : (ht : HashTable) {V : Type 0} → ht.Table V → Type 0
IsConsistent ht t = ((k : ℕ) → ht.find k t ≡ get k (ht.entries t)) × AreDistinct (ht.entries t)

-- One more entry places no other anew.
abbrev pub HasRoom : (ht : HashTable) {V : Type 0} → ht.Table V → Type 0
HasRoom ht t = (ht.entries t ≡ []) ⊎ (length (ht.entries t) < ht.capacity t)

-- What hashbrown documents of a map with raw entries, where nothing has been placed anew.
pub record IsHashTable (ht : HashTable) : Type 1 where
  pub entries-empty : (V : Type 0) → ht.entries (ht.empty {V = V}) ≡ []
  pub find-empty : (V : Type 0) (k : ℕ) → ht.find k (ht.empty {V = V}) ≡ none
  pub find-insert :
      (V : Type 0) (k : ℕ) (v : V) (t : ht.Table V)
      → IsConsistent ht t
      → ht.find k t ≡ none
      → HasRoom ht t
      → IsConsistent ht (ht.insert k v t)
        × ((j : ℕ) → ht.find j (ht.insert k v t) ≡ (if k == j then some v else ht.find j t))
  pub entries-modify :
      (V : Type 0) (k : ℕ) (v : V) (t : ht.Table V)
      → IsConsistent ht t
      → ht.entries (ht.modify k v t) ≡ change k v (ht.entries t)
  pub modify-IsConsistent :
      (V : Type 0) (k : ℕ) (v : V) (t : ht.Table V)
      → IsConsistent ht t
      → IsConsistent ht (ht.modify k v t)
  pub entries-retain :
      (V : Type 0) (f : V → Option V) (t : ht.Table V)
      → ht.entries (ht.retain f t) ≡ keep f (ht.entries t)
  pub retain-IsConsistent :
      (V : Type 0) (f : V → Option V) (t : ht.Table V)
      → IsConsistent ht t
      → IsConsistent ht (ht.retain f t)

-- A bounded channel, by the values that wait in it.
pub record Channel : Type 1 where
  pub Queue : Type 0 → Type 0
  pub channel : {A : Type 0} → ℕ → Queue A
  pub waiting : {A : Type 0} → Queue A → List A
  pub capacity : {A : Type 0} → Queue A → ℕ
  -- the receiver has been dropped
  pub is_closed : {A : Type 0} → Queue A → Bool
  -- `none` is an error, and the value is lost
  pub try_send : {A : Type 0} → A → Queue A → Option (Queue A)
  pub try_recv : {A : Type 0} → Queue A → Option (A × Queue A)
  -- the receiver is dropped
  pub close : {A : Type 0} → Queue A → Queue A

pub record IsChannel (ch : Channel) : Type 1 where
  pub waiting-channel : (A : Type 0) (n : ℕ) → ch.waiting (ch.channel {A = A} n) ≡ []
  pub is_closed-channel : (A : Type 0) (n : ℕ) → ch.is_closed (ch.channel {A = A} n) ≡ false
  pub is_closed-close : (A : Type 0) (q : ch.Queue A) → ch.is_closed (ch.close q) ≡ true
  pub try_send-closed :
      (A : Type 0) (a : A) (q : ch.Queue A) → ch.is_closed q ≡ true → ch.try_send a q ≡ none
  pub try_send-full :
      (A : Type 0) (a : A) (q : ch.Queue A)
      → ch.capacity q ≤ length (ch.waiting q)
      → ch.try_send a q ≡ none
  pub try_send-room :
      (A : Type 0) (a : A) (q : ch.Queue A)
      → ch.is_closed q ≡ false
      → length (ch.waiting q) < ch.capacity q
      → (r : ch.Queue A) × (ch.try_send a q ≡ some r)
        × (ch.waiting r ≡ ch.waiting q ++ a ∷ [])
        × (ch.capacity r ≡ ch.capacity q)
        × (ch.is_closed r ≡ false)
  pub try_recv-empty : (A : Type 0) (q : ch.Queue A) → ch.waiting q ≡ [] → ch.try_recv q ≡ none
  pub try_recv-first :
      (A : Type 0) (q : ch.Queue A) (a : A) (l : List A)
      → ch.waiting q ≡ a ∷ l
      → (r : ch.Queue A) × (ch.try_recv q ≡ some (a, r))
        × (ch.waiting r ≡ l)
        × (ch.capacity r ≡ ch.capacity q)
        × (ch.is_closed r ≡ ch.is_closed q)
