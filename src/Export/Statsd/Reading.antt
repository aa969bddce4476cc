-- ===== src/Export/Statsd/Reading.antt =====
-- src/export/statsd.rs: how a receiver reads the datagrams, as the DogStatsD protocol has it. The
-- independent side of the formats.
use chalk_metrics.Export.Statsd.{tag_text}
use chalk_metrics.Prelude.{
  ℕ, ◌≡◌, refl, ap, ◌∙◌, false, List, [], ◌∷◌, ◌++◌, map, Option, none, some, ◌==◌, nat_eq,
  if◌then◌else◌, All, append-nil, append_assoc, ==_refl,
}
use chalk_metrics.Prelude.Text.{Str, codes, join}

-- The text in front of the first `c`, and what follows it.
abbrev pub read_until : ℕ → Str → Option (Str × Str)
read_until c [] = none
read_until c (x ∷ s) =
    if x == c
    then some ([], s)
    else elim (read_until c s) [ none ↦ none | some (a, b) ↦ some (x ∷ a, b) ]

abbrev cons_head : ℕ → List Str → List Str
cons_head x [] = (x ∷ []) ∷ []
cons_head x (s ∷ l) = (x ∷ s) ∷ l

-- The texts between the `c`s.
abbrev pub split : ℕ → Str → List Str
split c [] = [] ∷ []
split c (x ∷ s) = if x == c then [] ∷ split c s else cons_head x (split c s)

abbrev pub cons_read {ℓ} : {A : Type ℓ} → Option A → Option (List A) → Option (List A)
cons_read none rest = none
cons_read (some a) none = none
cons_read (some a) (some l) = some (a ∷ l)

-- Each of the texts is read, or none.
abbrev pub read_all {ℓ} : {A : Type ℓ} → (Str → Option A) → List Str → Option (List A)
read_all read [] = some []
read_all read (s ∷ l) = cons_read (read s) (read_all read l)

pub record Sample : Type 0 where
  pub name : Str
  pub value : Str
  pub kind : Str
  pub tags : List (Str × Str)

-- The tags behind `#`, by commas, each with a colon.
abbrev pub read_tags : Str → Option (List (Str × Str))
read_tags [] = none
read_tags (x ∷ s) = if x == b'#' then read_all (read_until b':') (split b',' s) else none

abbrev with_tags : Str → Str → Str → Option (List (Str × Str)) → Option Sample
with_tags name value kind none = none
with_tags name value kind (some l) =
    some (record { name = name; value = value; kind = kind; tags = l })

abbrev with_kind : Str → Str → Str → Option (Str × Str) → Option Sample
with_kind name value s none = with_tags name value s (some [])
with_kind name value s (some (kind, tags)) = with_tags name value kind (read_tags tags)

abbrev with_value : Str → Option (Str × Str) → Option Sample
with_value name none = none
with_value name (some (value, s)) = with_kind name value s (read_until b'|' s)

abbrev with_name : Option (Str × Str) → Option Sample
with_name none = none
with_name (some (name, s)) = with_value name (read_until b'|' s)

-- `name:value|kind`, and `|#key:value,key:value` where there are tags.
abbrev pub read_line : Str → Option Sample
read_line s = with_name (read_until b':' s)

-- The lines of a datagram.
abbrev pub read_datagram : Str → Option (List Sample)
read_datagram s = read_all read_line (split b'\n' s)

-- The byte does not stand in the text.
abbrev pub Lacks : ℕ → Str → Type 0
Lacks c s = All (λ x. (x == c) ≡ false) s

pub Lacks-append : (c : ℕ) (s t : Str) → Lacks c s → Lacks c t → Lacks c (s ++ t)
Lacks-append c [] t h k = k
Lacks-append c (x ∷ s) t h k = (h.0, Lacks-append c s t h.1 k)

pub Lacks-join :
    (c : ℕ) (sep : Str) (l : List Str) → Lacks c sep → All (Lacks c) l → Lacks c (join sep l)
unfolding join
Lacks-join c sep [] h k = tt
Lacks-join c sep (s ∷ []) h k = k.0
Lacks-join c sep (s ∷ t ∷ l) h k =
    Lacks-append c (s ++ sep) (join sep (t ∷ l)) (Lacks-append c s sep k.0 h)
      (Lacks-join c sep (t ∷ l) h k.1)

read_until-append : (c : ℕ) (s t : Str) → Lacks c s → read_until c (s ++ c ∷ t) ≡ some (s, t)
read_until-append c [] t h = rw (==_refl c)
read_until-append c (x ∷ s) t h = rw (h.0) (rw (read_until-append c s t h.1))

read_until-Lacks : (c : ℕ) (s : Str) → Lacks c s → read_until c s ≡ none
read_until-Lacks c [] h = refl
read_until-Lacks c (x ∷ s) h = rw (h.0) (rw (read_until-Lacks c s h.1))

split-append : (c : ℕ) (s t : Str) → Lacks c s → split c (s ++ c ∷ t) ≡ s ∷ split c t
split-append c [] t h = rw (==_refl c)
split-append c (x ∷ s) t h = rw (h.0) (rw (split-append c s t h.1))

split-Lacks : (c : ℕ) (s : Str) → Lacks c s → split c s ≡ s ∷ []
split-Lacks c [] h = refl
split-Lacks c (x ∷ s) h = rw (h.0) (rw (split-Lacks c s h.1))

pub split-join :
    (c : ℕ) (s : Str) (l : List Str)
    → All (Lacks c) (s ∷ l)
    → split c (join (c ∷ []) (s ∷ l)) ≡ s ∷ l
unfolding join
split-join c s [] h = split-Lacks c s h.0
split-join c s (t ∷ l) h =
    ap (split c) (append_assoc s (c ∷ []) (join (c ∷ []) (t ∷ l)))
    ∙ split-append c s (join (c ∷ []) (t ∷ l)) h.0
    ∙ ap (◌∷◌ s) (split-join c t l h.1)

-- No bar, comma or line feed; and no colon either.
pub record IsTagText (s : Str) : Type 0 where
  pub bar : Lacks b'|' s
  pub comma : Lacks b',' s
  pub line_feed : Lacks b'\n' s

pub record IsPlain (s : Str) : Type 0 where
  pub colon : Lacks b':' s
  pub text : IsTagText s

abbrev pub IsTag : Str × Str → Type 0
IsTag (k, v) = IsPlain k × IsTagText v

-- What can be read back.
pub record IsSample (s : Sample) : Type 0 where
  pub name : IsPlain s.name
  pub value : IsPlain s.value
  pub kind : IsPlain s.kind
  pub tags : All IsTag s.tags

-- The text of the tags.
abbrev pub tags_text : List (Str × Str) → Str
tags_text [] = []
tags_text (t ∷ l) = codes "|#" ++ join (codes ",") (map tag_text (t ∷ l))

abbrev pub line_of : Sample → Str
line_of s = s.name ++ (b':' ∷ s.value ++ (b'|' ∷ s.kind ++ tags_text s.tags))

tag_text-Lacks :
    (c : ℕ) (k v : Str) → (b':' == c) ≡ false → Lacks c k → Lacks c v → Lacks c (tag_text (k, v))
tag_text-Lacks c k v h a b =
    Lacks-append c (k ++ codes ":") v (Lacks-append c k (codes ":") a (h, tt)) b

read_tag_texts :
    (l : List (Str × Str)) → All IsTag l → read_all (read_until b':') (map tag_text l) ≡ some l
read_tag_texts [] h = refl
read_tag_texts ((k, v) ∷ l) ((a, b), h) =
    ap (λ x. cons_read (read_until b':' x) (read_all (read_until b':') (map tag_text l)))
      (append_assoc k (codes ":") v)
    ∙ ap (λ x. cons_read x (read_all (read_until b':') (map tag_text l)))
        (read_until-append b':' k v a.colon)
    ∙ ap (cons_read (some (k, v))) (read_tag_texts l h)

tag_text-comma : (l : List (Str × Str)) → All IsTag l → All (Lacks b',') (map tag_text l)
tag_text-comma [] h = tt
tag_text-comma ((k, v) ∷ l) ((a, b), h) =
    (tag_text-Lacks b',' k v refl a.text.comma b.comma, tag_text-comma l h)

tag_text-line_feed : (l : List (Str × Str)) → All IsTag l → All (Lacks b'\n') (map tag_text l)
tag_text-line_feed [] h = tt
tag_text-line_feed ((k, v) ∷ l) ((a, b), h) =
    (tag_text-Lacks b'\n' k v refl a.text.line_feed b.line_feed, tag_text-line_feed l h)

with_kind-tags :
    (name value kind : Str) (l : List (Str × Str))
    → Lacks b'|' kind
    → All IsTag l
    → with_kind name value (kind ++ tags_text l) (read_until b'|' (kind ++ tags_text l))
      ≡ some (record { name = name; value = value; kind = kind; tags = l })
with_kind-tags name value kind [] h k =
    ap (λ x. with_kind name value x (read_until b'|' x)) (append-nil kind)
    ∙ ap (with_kind name value kind) (read_until-Lacks b'|' kind h)
with_kind-tags name value kind (t ∷ l) h k =
    ap (with_kind name value (kind ++ tags_text (t ∷ l)))
      (read_until-append b'|' kind (b'#' ∷ join (codes ",") (map tag_text (t ∷ l))) h)
    ∙ ap (λ x. with_tags name value kind (read_all (read_until b':') x))
        (split-join b',' (tag_text t) (map tag_text l) (tag_text-comma (t ∷ l) k))
    ∙ ap (with_tags name value kind) (read_tag_texts (t ∷ l) k)

-- A line is read back.
pub read_line-line_of : (s : Sample) → IsSample s → read_line (line_of s) ≡ some s
read_line-line_of s h =
    ap with_name
      (read_until-append b':' s.name (s.value ++ (b'|' ∷ s.kind ++ tags_text s.tags)) h.name.colon)
    ∙ ap (with_value s.name)
        (read_until-append b'|' s.value (s.kind ++ tags_text s.tags) h.value.text.bar)
    ∙ with_kind-tags s.name s.value s.kind s.tags h.kind.text.bar h.tags

-- No line feed stands in a line.
pub line_of-Lacks : (s : Sample) → IsSample s → Lacks b'\n' (line_of s)
line_of-Lacks s h =
    Lacks-append b'\n' s.name (b':' ∷ s.value ++ (b'|' ∷ s.kind ++ tags_text s.tags))
      h.name.text.line_feed
      (
        refl,
        Lacks-append b'\n' s.value (b'|' ∷ s.kind ++ tags_text s.tags) h.value.text.line_feed (
          refl,
          Lacks-append b'\n' s.kind (tags_text s.tags) h.kind.text.line_feed
              (tags_lack s.tags h.tags),
        ),
      )
  where
    tags_lack : (l : List (Str × Str)) → All IsTag l → Lacks b'\n' (tags_text l)
    tags_lack [] k = tt
    tags_lack (t ∷ l) k = (
      refl,
      (
        refl,
        Lacks-join b'\n' (codes ",") (map tag_text (t ∷ l)) (refl, tt)
            (tag_text-line_feed (t ∷ l) k),
      ),
    )
