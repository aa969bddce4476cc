-- ===== src/Export/Statsd/Datagrams.antt =====
-- src/export/statsd.rs: datagrams that carry the lines of samples, and what is read in them.
use chalk_metrics.Export.Statsd.{Wire, send_buffer, send_lines}
use chalk_metrics.Export.Statsd.Batches.{
  Group, lines_of, datagram, AreBatches, send_all, IsLine, send_lines-Batches,
}
use chalk_metrics.Export.Statsd.Reading.{
  Sample, read_line, read_datagram, cons_read, read_all, split-join, Lacks, IsSample, tags_text,
  line_of, read_line-line_of, line_of-Lacks,
}
use chalk_metrics.Export.Statsd.Samples.{AreSamples}
use chalk_metrics.Prelude.{
  ℕ, ◌≡◌, refl, sym, ap, ◌∙◌, List, [], ◌∷◌, ◌++◌, map, Option, none, some, All, All-split, arith,
  subst, length-append, append_assoc,
}
use chalk_metrics.Prelude.Text.{Str}

-- The lines of each datagram are read, and those of all datagrams put together.
abbrev join_read : Option (List Sample) → Option (List Sample) → Option (List Sample)
join_read none rest = none
join_read (some l) none = none
join_read (some l) (some m) = some (l ++ m)

abbrev pub read_datagrams : List Str → Option (List Sample)
read_datagrams [] = some []
read_datagrams (s ∷ l) = join_read (read_datagram s) (read_datagrams l)

join_read_inv :
    (x y : Option (List Sample)) (l : List Sample)
    → join_read x y ≡ some l
    → (a : List Sample) × (b : List Sample) × (x ≡ some a) × (y ≡ some b) × (a ++ b ≡ l)
join_read_inv none y l e = cc
join_read_inv (some a) none l e = cc
join_read_inv (some a) (some b) l e = (a, b, refl, refl, cc)

-- Datagrams behind others.
pub read_datagrams-append :
    (ds ds' : List Str) (l m : List Sample)
    → read_datagrams ds ≡ some l
    → read_datagrams ds' ≡ some m
    → read_datagrams (ds ++ ds') ≡ some (l ++ m)
read_datagrams-append [] ds' l m h k = let same : [] ≡ l = cc in k ∙ ap (λ x. some (x ++ m)) same
read_datagrams-append (d ∷ ds) ds' l m h k =
    let (a, b, first, rest, same) = join_read_inv (read_datagram d) (read_datagrams ds) l h in
    ap (join_read (read_datagram d)) (read_datagrams-append ds ds' b m rest k)
    ∙ ap (λ x. join_read x (some (b ++ m))) first
    ∙ ap some (sym (append_assoc a b m) ∙ ap (λ x. x ++ m) same)

-- The line is that of a sample that can be read back.
abbrev IsRead : Str → Type 0
IsRead line = (s : Sample) × (line ≡ line_of s) × IsSample s

all-IsRead : (samples : List Sample) → AreSamples samples → All IsRead (map line_of samples)
all-IsRead [] h = tt
all-IsRead (s ∷ samples) h = ((s, refl, h.0), all-IsRead samples h.1)

line-Lacks : (line : Str) → IsRead line → Lacks b'\n' line
line-Lacks line (s, e, h) = subst (Lacks b'\n') (sym e) (line_of-Lacks s h)

lines-Lacks : (lines : List Str) → All IsRead lines → All (Lacks b'\n') lines
lines-Lacks [] h = tt
lines-Lacks (line ∷ lines) h = (line-Lacks line h.0, lines-Lacks lines h.1)

join_read-nil : (m : Option (List Sample)) → join_read (some []) m ≡ m
join_read-nil none = refl
join_read-nil (some m) = refl

read_all-append :
    (l m : List Str)
    → read_all read_line (l ++ m) ≡ join_read (read_all read_line l) (read_all read_line m)
read_all-append [] m = sym (join_read-nil (read_all read_line m))
read_all-append (s ∷ l) m =
    ap (cons_read (read_line s)) (read_all-append l m)
    ∙ joined (read_line s) (read_all read_line l) (read_all read_line m)
  where
    joined :
        (a : Option Sample) (l m : Option (List Sample))
        → cons_read a (join_read l m) ≡ join_read (cons_read a l) m
    joined none l m = refl
    joined (some a) none m = refl
    joined (some a) (some l) none = refl
    joined (some a) (some l) (some m) = refl

-- The lines in the datagrams are read as the lines alone are.
read_datagrams-lines_of :
    (gs : List Group)
    → All IsRead (lines_of gs)
    → read_datagrams (map datagram gs) ≡ read_all read_line (lines_of gs)
read_datagrams-lines_of [] h = refl
read_datagrams-lines_of ((l, ls) ∷ gs) h =
    let (a, b) = All-split IsRead (l ∷ ls) (lines_of gs) h in
    ap (λ x. join_read (read_all read_line x) (read_datagrams (map datagram gs)))
      (split-join b'\n' l ls (lines-Lacks (l ∷ ls) a))
    ∙ ap (join_read (read_all read_line (l ∷ ls))) (read_datagrams-lines_of gs b)
    ∙ sym (read_all-append (l ∷ ls) (lines_of gs))

read_all-samples :
    (samples : List Sample)
    → AreSamples samples
    → read_all read_line (map line_of samples) ≡ some samples
read_all-samples [] h = refl
read_all-samples (s ∷ samples) h =
    ap (λ x. cons_read x (read_all read_line (map line_of samples))) (read_line-line_of s h.0)
    ∙ ap (cons_read (some s)) (read_all-samples samples h.1)

lines-IsLine : (samples : List Sample) → All IsLine (map line_of samples)
lines-IsLine [] = tt
lines-IsLine (s ∷ samples) = (
  omega (arith, length-append s.name (b':' ∷ s.value ++ (b'|' ∷ s.kind ++ tags_text s.tags))),
  lines-IsLine samples,
)

-- Lines of samples are sent in batches, and read back.
pub send_lines-read :
    (limit : ℕ) (lines : List Str) (samples : List Sample) (w : Wire)
    → lines ≡ map line_of samples
    → AreSamples samples
    → (gs : List Group) × (send_lines send_buffer limit lines w ≡ send_all send_buffer gs w)
      × AreBatches limit gs
      × (read_datagrams (map datagram gs) ≡ some samples)
send_lines-read limit lines samples w same good =
    let (gs, sent, all, batches) =
      send_lines-Batches send_buffer limit lines w
        (subst (All IsLine) (sym same) (lines-IsLine samples)) in
    let whole : lines_of gs ≡ map line_of samples = all ∙ same in
    (
      gs,
      sent,
      batches,
      read_datagrams-lines_of gs (subst (All IsRead) (sym whole) (all-IsRead samples good))
          ∙ ap (read_all read_line) whole
          ∙ read_all-samples samples good,
    )
