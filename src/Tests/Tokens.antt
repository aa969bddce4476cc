-- ===== src/Tests/Tokens.antt =====
-- A small instance of the interface of `syn`: a stream is a tree of tokens.
use Prim.Native.Nat.{zero}
use chalk_metrics.Macros.{Parsed, parsed, error, unfinished, ◌>>=◌, str_beq}
use chalk_metrics.Macros.Syn.{
  Delimiter, Token, ident, punct, lit_str, group, Mark, sign, Syn, IsSyn, starts, delimiter_beq,
  path_tokens, is_nil, IsPath, EndsPath, Reads,
}
use chalk_metrics.Prelude.{
  ℕ, suc, ◌<◌, ◌≤◌, ◌≡◌, refl, ap, ◌∙◌, ◌⊎◌, inl, inr, Bool, true, false, ◌||◌, Bool-cases, List,
  [], ◌∷◌, ◌++◌, length, arith,
}
use chalk_metrics.Prelude.Text.{Str, codes}

pub data Stream : Type 0 where
  end : Stream
  named : Str → Stream → Stream
  marked : Str → Stream → Stream
  quoted : Str → Stream → Stream
  nested : Delimiter → Stream → Stream → Stream

abbrev pub tokens : Stream → List (Token Stream)
tokens end = []
tokens (named x s) = ident x ∷ tokens s
tokens (marked x s) = punct x ∷ tokens s
tokens (quoted x s) = lit_str x ∷ tokens s
tokens (nested d c s) = group d c ∷ tokens s

abbrev pub from_tokens : List (Token Stream) → Stream
from_tokens [] = end
from_tokens (ident x ∷ l) = named x (from_tokens l)
from_tokens (punct x ∷ l) = marked x (from_tokens l)
from_tokens (lit_str x ∷ l) = quoted x (from_tokens l)
from_tokens (group d c ∷ l) = nested d c (from_tokens l)

tokens-from_tokens : (l : List (Token Stream)) → tokens (from_tokens l) ≡ l
tokens-from_tokens [] = refl
tokens-from_tokens (ident x ∷ l) = ap (◌∷◌ (ident x)) (tokens-from_tokens l)
tokens-from_tokens (punct x ∷ l) = ap (◌∷◌ (punct x)) (tokens-from_tokens l)
tokens-from_tokens (lit_str x ∷ l) = ap (◌∷◌ (lit_str x)) (tokens-from_tokens l)
tokens-from_tokens (group d c ∷ l) = ap (◌∷◌ (group d c)) (tokens-from_tokens l)

-- A visibility is `pub` or nothing.
pub data Visibility : Type 0 where
  inherited : Visibility
  public : Visibility

abbrev pub visibility_tokens : Visibility → List (Token Stream)
visibility_tokens inherited = []
visibility_tokens public = ident (codes "pub") ∷ []

abbrev pub reserved : Str → Bool
reserved x = str_beq x (codes "pub") || str_beq x (codes "as")

abbrev refusal : Str
refusal = codes "expected something else"

abbrev tail : Stream → Stream
tail end = end
tail (named x s) = s
tail (marked x s) = s
tail (quoted x s) = s
tail (nested d c s) = s

abbrev pub parse_mark : Mark → Stream → Parsed Stream
parse_mark m s = elim (starts m (tokens s)) [ true ↦ parsed (tail s) | false ↦ error refusal ]

abbrev pub parse_ident : Stream → Parsed (Str × Stream)
parse_ident (named x s) = elim (reserved x) [ true ↦ error refusal | false ↦ parsed (x, s) ]
parse_ident end = error refusal
parse_ident (marked x s) = error refusal
parse_ident (quoted x s) = error refusal
parse_ident (nested d c s) = error refusal

abbrev pub parse_lit_str : Stream → Parsed (Str × Stream)
parse_lit_str (quoted x s) = parsed (x, s)
parse_lit_str end = error refusal
parse_lit_str (marked x s) = error refusal
parse_lit_str (named x s) = error refusal
parse_lit_str (nested d c s) = error refusal

-- The rest of a path behind a segment.
abbrev pub parse_segments : Str → Stream → Parsed (List Str × Stream)
parse_segments x (marked m (named y s)) =
    let rest = parse_segments y s in
    elim (str_beq m (codes "::")) [
      | true ↦ rest >>= λ r. parsed (x ∷ r.0, r.1)
      | false ↦ parsed (x ∷ [], marked m (named y s))
    ]
parse_segments x s = parsed (x ∷ [], s)

abbrev pub parse_path : Stream → Parsed (List Str × Stream)
parse_path (named x s) = parse_segments x s
parse_path end = error refusal
parse_path (marked x s) = error refusal
parse_path (quoted x s) = error refusal
parse_path (nested d c s) = error refusal

abbrev pub parse_visibility : Stream → Parsed (Visibility × Stream)
parse_visibility (named x s) = elim (str_beq x (codes "pub")) [
  | true ↦ parsed (public, s)
  | false ↦ parsed (inherited, named x s)
]
parse_visibility end = parsed (inherited, end)
parse_visibility (marked x s) = parsed (inherited, marked x s)
parse_visibility (quoted x s) = parsed (inherited, quoted x s)
parse_visibility (nested d c s) = parsed (inherited, nested d c s)

abbrev pub delimited : Delimiter → Stream → Parsed (Stream × Stream)
delimited d (nested d' c s) = elim (delimiter_beq d' d) [
  | true ↦ parsed (c, s)
  | false ↦ error refusal
]
delimited d end = error refusal
delimited d (marked x s) = error refusal
delimited d (named x s) = error refusal
delimited d (quoted x s) = error refusal

-- Behind an item stands nothing, or a comma and the other items.
abbrev pub go_on : {A : Type 0} → (Stream → Parsed (List A)) → Bool → A × Stream → Parsed (List A)
go_on rest true (a, r) = parsed (a ∷ [])
go_on rest false (a, r) = parse_mark (sign (codes ",")) r >>= λ r'. rest r' >>= λ l. parsed (a ∷ l)

abbrev pub leave : Stream → Parsed (Unit {0})
leave s = elim (is_nil (tokens s)) [ true ↦ parsed tt | false ↦ error refusal ]

abbrev pub terminated : {A : Type 0} → ℕ → (Stream → Parsed (A × Stream)) → Stream → Parsed (List A)
terminated zero f s = unfinished
terminated (suc fuel) f s = elim (is_nil (tokens s)) [
  | true ↦ parsed []
  | false ↦ f s >>= λ a. go_on (terminated fuel f) (is_nil (tokens a.1)) a
]

abbrev pub trees : Syn
trees = record {
  Stream = Stream;
  Visibility = Visibility;
  tokens = tokens;
  from_tokens = from_tokens;
  visibility_tokens = visibility_tokens;
  reserved = reserved;
  is_empty = λ s. is_nil (tokens s);
  peek = λ m s. starts m (tokens s);
  parse_mark = parse_mark;
  parse_ident = parse_ident;
  parse_lit_str = parse_lit_str;
  parse_path = parse_path;
  parse_visibility = parse_visibility;
  delimited = delimited;
  leave = leave;
  parse_terminated = λ f s. terminated (suc (length (tokens s))) f s;
}

tokens-tail :
    (s : Stream) (t : Token Stream) (l : List (Token Stream))
    → tokens s ≡ t ∷ l
    → tokens (tail s) ≡ l
tokens-tail end t l e = cc
tokens-tail (named x s) t l e = cc
tokens-tail (marked x s) t l e = cc
tokens-tail (quoted x s) t l e = cc
tokens-tail (nested d c s) t l e = cc

str_beq_refl : (s : Str) → str_beq s s ≡ true
str_beq_refl [] = refl
str_beq_refl (a ∷ s) = ground (arith, str_beq_refl s)

delimiter_beq_refl : (d : Delimiter) → delimiter_beq d d ≡ true
delimiter_beq_refl Delimiter.parenthesis = refl
delimiter_beq_refl Delimiter.brace = refl
delimiter_beq_refl Delimiter.bracket = refl

parse_mark_lem :
    (m : Mark) (s : Stream) (t : Token Stream) (l : List (Token Stream))
    → tokens s ≡ t ∷ l
    → starts m (t ∷ l) ≡ true
    → (r : Stream) × (parse_mark m s ≡ parsed r) × (tokens r ≡ l)
parse_mark_lem m s t l e h =
    let begins : starts m (tokens s) ≡ true = ap (starts m) e ∙ h in
    (tail s, rw (begins, parse_mark), tokens-tail s t l e)

parse_ident_lem :
    (s : Stream) (x : Str) (l : List (Token Stream))
    → tokens s ≡ ident x ∷ l
    → reserved x ≡ false
    → Reads trees (parse_ident s) x l
parse_ident_lem (named y s) x l e h =
    let same : y ≡ x = cc in
    let free : reserved y ≡ false = ap reserved same ∙ h in
    (s, rw (free, parse_ident) (ap (λ z. parsed (z, s)) same), cc)
parse_ident_lem end x l e h = cc
parse_ident_lem (marked y s) x l e h = cc
parse_ident_lem (quoted y s) x l e h = cc
parse_ident_lem (nested d c s) x l e h = cc

parse_lit_str_lem :
    (s : Stream) (x : Str) (l : List (Token Stream))
    → tokens s ≡ lit_str x ∷ l
    → Reads trees (parse_lit_str s) x l
parse_lit_str_lem (quoted y s) x l e = (s, cc, cc)
parse_lit_str_lem end x l e = cc
parse_lit_str_lem (marked y s) x l e = cc
parse_lit_str_lem (named y s) x l e = cc
parse_lit_str_lem (nested d c s) x l e = cc

delimited_lem :
    (d : Delimiter) (s content : Stream) (l : List (Token Stream))
    → tokens s ≡ group d content ∷ l
    → Reads trees (delimited d s) content l
delimited_lem d (nested d' c s) content l e =
    let same : d' ≡ d = cc in
    let fits : delimiter_beq d' d ≡ true =
      ap (λ x. delimiter_beq x d) same ∙ delimiter_beq_refl d in
    let inside : c ≡ content = cc in (s, rw (fits, delimited) (ap (λ x. parsed (x, s)) inside), cc)
delimited_lem d end content l e = cc
delimited_lem d (marked x s) content l e = cc
delimited_lem d (named x s) content l e = cc
delimited_lem d (quoted x s) content l e = cc

-- The tokens of the segments behind the first.
abbrev segments : List Str → List (Token Stream)
segments [] = []
segments (y ∷ p) = punct (codes "::") ∷ ident y ∷ segments p

path_tokens-segments : (x : Str) (p : List Str) → path_tokens (x ∷ p) ≡ ident x ∷ segments p
path_tokens-segments x [] = refl
path_tokens-segments x (y ∷ p) =
    ap (λ l. ident x ∷ punct (codes "::") ∷ l) (path_tokens-segments y p)

parse_segments-end :
    (x : Str) (s : Stream)
    → starts (sign (codes "::")) (tokens s) ≡ false
    → parse_segments x s ≡ parsed (x ∷ [], s)
parse_segments-end x (marked m (named y s)) h = rw (h, parse_segments)
parse_segments-end x (marked m end) h = refl
parse_segments-end x (marked m (marked y s)) h = refl
parse_segments-end x (marked m (quoted y s)) h = refl
parse_segments-end x (marked m (nested d c s)) h = refl
parse_segments-end x end h = refl
parse_segments-end x (named y s) h = refl
parse_segments-end x (quoted y s) h = refl
parse_segments-end x (nested d c s) h = refl

parse_segments_lem :
    (x : Str) (p : List Str) (s : Stream) (l : List (Token Stream))
    → tokens s ≡ segments p ++ l
    → EndsPath l
    → Reads trees (parse_segments x s) (x ∷ p) l
parse_segments_lem x [] s l e h =
    (s, parse_segments-end x s (ap (starts (sign (codes "::"))) e ∙ h.0), e)
parse_segments_lem x (y ∷ p) (marked m (named z s)) l e h =
    let is_sign : m ≡ codes "::" = cc in
    let same : z ≡ y = cc in
    let (r, run, left) = parse_segments_lem y p s l (cc) h in
    let joins : str_beq m (codes "::") ≡ true = ap (λ k. str_beq k (codes "::")) is_sign in
    (r, rw (joins, parse_segments) (rw same (rw run)), left)
parse_segments_lem x (y ∷ p) (marked m end) l e h = cc
parse_segments_lem x (y ∷ p) (marked m (marked z s)) l e h = cc
parse_segments_lem x (y ∷ p) (marked m (quoted z s)) l e h = cc
parse_segments_lem x (y ∷ p) (marked m (nested d c s)) l e h = cc
parse_segments_lem x (y ∷ p) end l e h = cc
parse_segments_lem x (y ∷ p) (named z s) l e h = cc
parse_segments_lem x (y ∷ p) (quoted z s) l e h = cc
parse_segments_lem x (y ∷ p) (nested d c s) l e h = cc

parse_path_lem :
    (s : Stream) (p : List Str) (l : List (Token Stream))
    → tokens s ≡ path_tokens p ++ l
    → IsPath trees p
    → EndsPath l
    → Reads trees (parse_path s) p l
parse_path_lem s [] l e h k = absurd h
parse_path_lem (named y s) (x ∷ p) l e h k =
    let e' : ident y ∷ tokens s ≡ ident x ∷ (segments p ++ l) =
      e ∙ ap (λ t. t ++ l) (path_tokens-segments x p) in
    let same : y ≡ x = cc in
    let (r, run, left) = parse_segments_lem x p s l (cc) k in (r, rw same run, left)
parse_path_lem end (x ∷ p) l e h k = cc (path_tokens-segments x p)
parse_path_lem (marked y s) (x ∷ p) l e h k = cc (path_tokens-segments x p)
parse_path_lem (quoted y s) (x ∷ p) l e h k = cc (path_tokens-segments x p)
parse_path_lem (nested d c s) (x ∷ p) l e h k = cc (path_tokens-segments x p)

free-ne-pub : (x : Str) → reserved x ≡ false → str_beq x (codes "pub") ≡ false
free-ne-pub x h = elim (Bool-cases (str_beq x (codes "pub"))) [
  | inl e ↦ let hit : reserved x ≡ true = rw (e, reserved) in cc
  | inr e ↦ e
]

parse_visibility_lem :
    (s : Stream) (v : Visibility) (x : Str) (l : List (Token Stream))
    → tokens s ≡ visibility_tokens v ++ ident x ∷ l
    → reserved x ≡ false
    → Reads trees (parse_visibility s) v (ident x ∷ l)
parse_visibility_lem (named y s) inherited x l e h =
    let same : y ≡ x = cc in
    let other : str_beq y (codes "pub") ≡ false =
      ap (λ z. str_beq z (codes "pub")) same ∙ free-ne-pub x h in
    (named y s, rw (other, parse_visibility), e)
parse_visibility_lem (named y s) public x l e h =
    let same : y ≡ codes "pub" = cc in
    let hit : str_beq y (codes "pub") ≡ true = ap (λ z. str_beq z (codes "pub")) same in
    (s, rw (hit, parse_visibility), cc)
parse_visibility_lem end inherited x l e h = cc
parse_visibility_lem end public x l e h = cc
parse_visibility_lem (marked y s) inherited x l e h = cc
parse_visibility_lem (marked y s) public x l e h = cc
parse_visibility_lem (quoted y s) inherited x l e h = cc
parse_visibility_lem (quoted y s) public x l e h = cc
parse_visibility_lem (nested d c s) inherited x l e h = cc
parse_visibility_lem (nested d c s) public x l e h = cc

visibility_tokens-first :
    (v : Visibility)
    → (visibility_tokens v ≡ [])
      ⊎ ((l : List (Token Stream)) × (visibility_tokens v ≡ ident (codes "pub") ∷ l))
visibility_tokens-first inherited = inl refl
visibility_tokens-first public = inr ([], refl)

-- What the first parser reads, the second one reads.
abbrev Extends : {A : Type 0} → Parsed A → Parsed A → Type 0
Extends {A} p q = (a : A) → p ≡ parsed a → q ≡ parsed a

bind-Extends :
    {A B : Type 0} (m m' : Parsed A) (g g' : A → Parsed B)
    → Extends m m'
    → ((a : A) → Extends (g a) (g' a))
    → Extends (m >>= g) (m' >>= g')
bind-Extends (parsed a) m' g g' h k b e = rw (h a refl) (k a b e)
bind-Extends (error x) m' g g' h k b e = cc
bind-Extends unfinished m' g g' h k b e = cc

module _ {A : Type 0} where
  go_on-Extends :
      (rest rest' : Stream → Parsed (List A)) (b : Bool) (a : A × Stream)
      → ((s : Stream) → Extends (rest s) (rest' s))
      → Extends (go_on rest b a) (go_on rest' b a)
  go_on-Extends rest rest' true (a, r) h = λ l e. e
  go_on-Extends rest rest' false (a, r) h =
      bind-Extends (parse_mark (sign (codes ",")) r) (parse_mark (sign (codes ",")) r)
        (λ r'. rest r' >>= λ l. parsed (a ∷ l)) (λ r'. rest' r' >>= λ l. parsed (a ∷ l)) (λ x y. y)
        λ r'.
          bind-Extends (rest r') (rest' r') (λ l. parsed (a ∷ l)) (λ l. parsed (a ∷ l)) (h r')
            λ l m e. e

  -- More fuel makes no difference to a list that was read.
  terminated-Extends :
      (f : Stream → Parsed (A × Stream)) (fuel fuel' : ℕ) (s : Stream)
      → fuel ≤ fuel'
      → Extends (terminated fuel f s) (terminated fuel' f s)
  terminated-Extends f zero fuel' s b l e = cc
  terminated-Extends f (suc fuel) zero s b l e = absurd (omega (arith, b))
  terminated-Extends f (suc fuel) (suc fuel') s b l e = elim (Bool-cases (is_nil (tokens s))) [
    | inl x ↦ rw (x, terminated) ((rw (x, terminated) at e))
    | inr x ↦
        rw (x, terminated)
          (bind-Extends (f s) (f s) (λ a. go_on (terminated fuel f) (is_nil (tokens a.1)) a)
            (λ a. go_on (terminated fuel' f) (is_nil (tokens a.1)) a) (λ y z. z)
            (λ a.
              go_on-Extends (terminated fuel f) (terminated fuel' f) (is_nil (tokens a.1)) a
                λ r. terminated-Extends f fuel fuel' r (omega (arith, b)))
            l (rw (x, terminated) at e))
  ]

  terminated-more :
      (f : Stream → Parsed (A × Stream)) (s r r' : Stream) (a : A) (l : List A)
      → is_nil (tokens s) ≡ false
      → f s ≡ parsed (a, r)
      → is_nil (tokens r) ≡ false
      → parse_mark (sign (codes ",")) r ≡ parsed r'
      → length (tokens r') < length (tokens s)
      → terminated (suc (length (tokens r'))) f r' ≡ parsed l
      → terminated (suc (length (tokens s))) f s ≡ parsed (a ∷ l)
  terminated-more f s r r' a l more of_f comma mark shorter rest =
      let whole : terminated (length (tokens s)) f r' ≡ parsed l =
        terminated-Extends f (suc (length (tokens r'))) (length (tokens s)) r' shorter l rest in
      rw (more, terminated) (rw of_f (rw (comma, go_on) (rw mark (rw whole))))

pub trees-IsSyn : IsSyn trees
trees-IsSyn = record {
  tokens-from_tokens = tokens-from_tokens;
  is_empty-tokens = λ s. refl;
  peek-starts = λ m s. refl;
  parse_mark_lem = parse_mark_lem;
  parse_ident_lem = parse_ident_lem;
  parse_lit_str_lem = parse_lit_str_lem;
  parse_path_lem = parse_path_lem;
  parse_visibility_lem = parse_visibility_lem;
  visibility_tokens-first = visibility_tokens-first;
  delimited_lem = delimited_lem;
  leave-empty = λ s h. rw (ap is_nil h, leave);
  terminated-empty = λ A f s h. rw (h, terminated);
  terminated-more = λ A f s r r' a l. terminated-more f s r r' a l;
}
