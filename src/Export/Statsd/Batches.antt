-- ===== src/Export/Statsd/Batches.antt =====
-- src/export/statsd.rs, `send_lines`: how the lines are put into datagrams.
use chalk_metrics.Export.Statsd.{is_empty, send_loop, send_lines}
use chalk_metrics.Prelude.{
  ℕ, ◌+◌, ◌≤◌, ◌<◌, ◌≡◌, refl, sym, ap, ◌∙◌, ◌⊎◌, inl, inr, true, false, List, [], ◌∷◌, ◌++◌,
  length, length-append, ltb, ltb→lt, ltb-false→le, Bool-cases, arith, All, append_assoc,
}
use chalk_metrics.Prelude.Text.{Str, codes, join, join-snoc}

-- The lines of one datagram: the first, and the rest.
abbrev pub Group : Type 0
Group = Str × List Str

abbrev pub lines_of : List Group → List Str
lines_of [] = []
lines_of ((l, ls) ∷ gs) = (l ∷ ls) ++ lines_of gs

abbrev pub datagram : Group → Str
datagram (l, ls) = join (codes "\n") (l ∷ ls)

-- A datagram fits the buffer, or has one line alone.
abbrev pub Fits : ℕ → Group → Type 0
Fits limit (l, ls) = (ls ≡ []) ⊎ (length (datagram (l, ls)) ≤ limit)

-- The first line of the next datagram would not have fitted.
abbrev pub IsFull : ℕ → Group → List Group → Type 0
IsFull limit g [] = Unit {0}
IsFull limit g ((l, ls) ∷ gs) = limit < length (datagram g) + 1 + length l

abbrev pub AreBatches : ℕ → List Group → Type 0
AreBatches limit [] = Unit {0}
AreBatches limit (g ∷ gs) = Fits limit g × IsFull limit g gs × AreBatches limit gs

-- The datagrams sent one after another.
abbrev pub send_all {ℓ} : {S : Type ℓ} → (Str → S → S) → List Group → S → S
send_all send [] w = w
send_all send (g ∷ gs) w = send_all send gs (send (datagram g) w)

abbrev pub IsLine : Str → Type 0
IsLine s = 0 < length s

not_empty : (l : Str) (ls : List Str) → IsLine l → 0 < length (join (codes "\n") (l ∷ ls))
unfolding join
not_empty l [] h = h
not_empty l (m ∷ ls) h = omega (
  arith,
  length-append (l ++ codes "\n") (join (codes "\n") (m ∷ ls)),
  length-append l (codes "\n"),
)

filled : (s : Str) → 0 < length s → is_empty s ≡ false
unfolding is_empty
filled [] h = absurd (omega arith)
filled (c ∷ s) h = refl

grown :
    (l : Str) (ls : List Str) (line : Str)
    → datagram (l, ls) ++ codes "\n" ++ line ≡ datagram (l, ls ++ line ∷ [])
grown l ls line = sym (join-snoc (codes "\n") l ls line)

grown_length :
    (l : Str) (ls : List Str) (line : Str)
    → length (datagram (l, ls ++ line ∷ [])) ≡ length (datagram (l, ls)) + 1 + length line
grown_length l ls line =
    ap length (sym (grown l ls line))
    ∙ omega (
      arith,
      length-append (datagram (l, ls) ++ codes "\n") line,
      length-append (datagram (l, ls)) (codes "\n"),
    )

module _ {ℓ} {S : Type ℓ} (send : Str → S → S) (limit : ℕ) where
  step_full :
      (buffer line : Str) (lines : List Str) (w : S)
      → is_empty buffer ≡ false
      → ltb limit (length buffer + 1 + length line) ≡ true
      → send_loop send limit buffer (line ∷ lines) w
        ≡ send_loop send limit line lines (send buffer w)
  unfolding send_loop is_empty
  step_full buffer line lines w some full = rw some (rw full)

  step_room :
      (buffer line : Str) (lines : List Str) (w : S)
      → is_empty buffer ≡ false
      → ltb limit (length buffer + 1 + length line) ≡ false
      → send_loop send limit buffer (line ∷ lines) w
        ≡ send_loop send limit (buffer ++ codes "\n" ++ line) lines w
  unfolding send_loop
  step_room buffer line lines w some room = rw some (rw room (rw some))

  -- The datagrams of a run whose first one begins with `l`.
  abbrev Sends : Str → List Str → S → S → Type ℓ
  Sends l lines w r =
      (ls : List Str) × (gs : List Group) × (r ≡ send_all send ((l, ls) ∷ gs) w)
      × (lines_of ((l, ls) ∷ gs) ≡ lines)
      × AreBatches limit ((l, ls) ∷ gs)

  -- The loop with a group in the buffer: what it sends in all.
  loop-Batches :
      (l : Str) (ls lines : List Str) (w : S)
      → IsLine l
      → All IsLine lines
      → Fits limit (l, ls)
      → Sends l (l ∷ ls ++ lines) w (send_loop send limit (datagram (l, ls)) lines w)
  unfolding send_loop is_empty join
  loop-Batches l ls [] w hl h fits =
      (ls, [], rw (filled _ (not_empty l ls hl)), refl, (fits, tt, tt))
  loop-Batches l ls (line ∷ lines) w hl h fits =
      elim (Bool-cases (ltb limit (length (datagram (l, ls)) + 1 + length line))) [
        | inl full ↦
            let (ls', gs, run, same, batches) =
              loop-Batches line [] lines (send (datagram (l, ls)) w) h.0 h.1 (inl refl) in
            (
              ls,
              (line, ls') ∷ gs,
              step_full (datagram (l, ls)) line lines w (filled _ (not_empty l ls hl)) full ∙ run,
              ap (λ x. l ∷ ls ++ x) same,
              (fits, ltb→lt _ _ full, batches),
            )
        | inr room ↦
            let (ls', gs, run, same, batches) =
              loop-Batches l (ls ++ line ∷ []) lines w hl h.1
                (inr (omega (arith, grown_length l ls line, ltb-false→le _ _ room))) in
            (
              ls',
              gs,
              step_room (datagram (l, ls)) line lines w (filled _ (not_empty l ls hl)) room
                  ∙ ap (λ b. send_loop send limit b lines w) (grown l ls line)
                  ∙ run,
              same ∙ ap (◌∷◌ l) (append_assoc ls (line ∷ []) lines),
              batches,
            )
      ]

  -- Lines none of which is empty are sent once each, in their order, in datagrams that join them by
  -- line feeds. A datagram is within the limit unless it is one line alone, and a datagram is closed
  -- only when the next line would not have fitted.
  pub send_lines-Batches :
      (lines : List Str) (w : S)
      → All IsLine lines
      → (gs : List Group) × (send_lines send limit lines w ≡ send_all send gs w)
        × (lines_of gs ≡ lines)
        × AreBatches limit gs
  unfolding send_lines send_loop is_empty join
  send_lines-Batches [] w h = ([], refl, refl, tt)
  send_lines-Batches (line ∷ lines) w h =
      let (ls, gs, run, same, batches) = loop-Batches line [] lines w h.0 h.1 (inl refl) in
      ((line, ls) ∷ gs, run, same, batches)
