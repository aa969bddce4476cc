-- ===== src/Export/Statsd/Reconnection.antt =====
-- src/export/statsd.rs, `send_buffer` over a Unix socket: which connection each datagram goes to.
use chalk_metrics.Export.Statsd.{
  uds, Observation, Wire, inode_or_zero, send_buffer, refresh, deliver,
}
use chalk_metrics.Prelude.{
  ℕ, ◌+◌, Bool, Bool-cases, ◌≡◌, refl, sym, ap, ◌∙◌, ◌⊎◌, inl, inr, true, List, [], ◌∷◌, ◌++◌,
  append_assoc, append-nil, Option, none, some, All, if◌then◌else◌, ◌==◌, nat_eq, arith,
}
use chalk_metrics.Prelude.Text.{Str}

-- Datagrams one after another, each with what the operating system answers at it.
abbrev pub send_many : List Str → Wire → Wire
send_many [] w = w
send_many (bytes ∷ rest) w = send_many rest (send_buffer bytes w)

-- The inode at the path, or the one known so far where there is none.
abbrev pub inode_now : ℕ → Observation → ℕ
inode_now known o = if inode_or_zero o.inode == 0 then known else inode_or_zero o.inode

-- Each datagram with the inode at the path when it is sent.
abbrev pub addressed : ℕ → List (Observation × Str) → List (ℕ × Str)
addressed known [] = []
addressed known ((o, bytes) ∷ l) = let now = inode_now known o in (now, bytes) ∷ addressed now l

abbrev pub texts : List (Observation × Str) → List Str
texts [] = []
texts ((o, bytes) ∷ l) = bytes ∷ texts l

abbrev pub answers : List (Observation × Str) → List Observation
answers [] = []
answers ((o, bytes) ∷ l) = o ∷ answers l

refresh-connected :
    (o : Observation) (known : ℕ)
    → o.connects ≡ true
    → refresh o (some known) known ≡ (some (inode_now known o), inode_now known o)
unfolding refresh
refresh-connected o known h = ground arith

-- A wire over a Unix socket, with the attempts so far and what the operating system takes.
abbrev pub uds_wire : ℕ → (ℕ → Bool) → Option ℕ → ℕ → List (ℕ × Str) → List Observation → Wire
uds_wire attempts takes socket last_inode sent observations = record {
  socket = uds socket last_inode;
  sent = sent;
  observations = observations;
  attempts = attempts;
  takes = takes;
}

-- What is taken of the attempts from the one with number `n` on.
abbrev pub taken : {A : Type 0} → (ℕ → Bool) → ℕ → List A → List A
taken takes n [] = []
taken takes n (x ∷ l) = let rest = taken takes (n + 1) l in if takes n then x ∷ rest else rest

refreshed :
    {r : Option ℕ × ℕ} (n : ℕ) (takes : ℕ → Bool) (o : Observation) (s : Option ℕ) (i : ℕ)
    (bytes : Str) (sent : List (ℕ × Str)) (l : List (Observation × Str))
    → refresh o s i ≡ r
    → send_many (texts ((o, bytes) ∷ l)) (uds_wire n takes s i sent (answers ((o, bytes) ∷ l)))
      ≡ send_many (texts l) (deliver r.0 bytes (uds_wire n takes r.0 r.1 sent (answers l)))
unfolding send_buffer
refreshed n takes o s i bytes sent l e =
    ap
      (λ (x : Option ℕ × ℕ).
        send_many (texts l) (deliver x.0 bytes (uds_wire n takes x.0 x.1 sent (answers l))))
      e

-- Let a Unix socket be connected to the inode that is stored, and let every attempt to connect
-- succeed. Then every datagram is tried, in their order, over a connection that was made when the
-- path showed the inode that it shows when the datagram is sent, or the last one seen where it
-- shows none; and those that the operating system takes have been sent.
pub send_many-addressed :
    (n : ℕ) (takes : ℕ → Bool) (known : ℕ) (sent : List (ℕ × Str)) (l : List (Observation × Str))
    → All (λ (x : Observation × Str). x.0.connects ≡ true) l
    → (send_many (texts l) (uds_wire n takes (some known) known sent (answers l))).sent
      ≡ sent ++ taken takes n (addressed known l)
unfolding send_buffer deliver
send_many-addressed n takes known sent [] h = sym (append-nil sent)
send_many-addressed n takes known sent ((o, bytes) ∷ l) h =
    let now = inode_now known o in
    ap (λ w. w.sent)
      (refreshed n takes o (some known) known bytes sent l (refresh-connected o known h.0))
    ∙ send_many-addressed (n + 1) takes now (if takes n then sent ++ (now, bytes) ∷ [] else sent) l
        h.1
    ∙ (elim (Bool-cases (takes n)) [
      | inl x ↦ rw x (append_assoc sent ((now, bytes) ∷ []) (taken takes (n + 1) (addressed now l)))
      | inr x ↦ rw x
    ])

-- No answer names an inode other than the stored one.
abbrev pub IsUnchanged : ℕ → Observation → Type 0
IsUnchanged i o = (inode_or_zero o.inode ≡ 0) ⊎ (inode_or_zero o.inode ≡ i)

refresh-unchanged : (o : Observation) (i : ℕ) → IsUnchanged i o → refresh o none i ≡ (none, i)
unfolding refresh
refresh-unchanged o i (inl h) = ground arith
refresh-unchanged o i (inr h) = ground arith

-- Let the last attempt to connect have failed, with the inode stored. As long as the path shows no
-- other inode, nothing is sent, whether connecting would succeed or not.
pub send_many-lost :
    (n : ℕ) (takes : ℕ → Bool) (i : ℕ) (sent : List (ℕ × Str)) (l : List (Observation × Str))
    → All (λ (x : Observation × Str). IsUnchanged i x.0) l
    → send_many (texts l) (uds_wire n takes none i sent (answers l))
      ≡ uds_wire n takes none i sent []
unfolding send_buffer deliver
send_many-lost n takes i sent [] h = refl
send_many-lost n takes i sent ((o, bytes) ∷ l) h =
    refreshed n takes o none i bytes sent l (refresh-unchanged o i h.0)
    ∙ send_many-lost n takes i sent l h.1
