-- ===== src/Macros/Syn.antt =====
-- The crate `syn`, on which chalk-metrics-macros/src/lib.rs parses its input, as an interface.
use chalk_metrics.Macros.{Parsed, parsed, str_beq}
use chalk_metrics.Prelude.{
  ◌⊎◌, ◌≡◌, Bool, true, false, List, [], ◌∷◌, ◌++◌, length, ◌<◌, All, nat_eq,
}
use chalk_metrics.Prelude.Text.{Str, codes}

pub data Delimiter : Type 0 where
  parenthesis : Delimiter
  brace : Delimiter
  bracket : Delimiter

-- A token over streams of the type `S`. A punctuation of several characters is one token.
pub data Token (S : Type 0) : Type 0 where
  ident : Str → Token S
  punct : Str → Token S
  lit_str : Str → Token S
  group : Delimiter → S → Token S

-- What `peek` and `parse::<Token![..]>` name.
pub data Mark : Type 0 where
  word : Str → Mark
  sign : Str → Mark
  opening : Delimiter → Mark

pub record Syn : Type 1 where
  pub Stream : Type 0
  pub Visibility : Type 0
  pub tokens : Stream → List (Token Stream)
  pub from_tokens : List (Token Stream) → Stream
  -- `to_tokens`
  pub visibility_tokens : Visibility → List (Token Stream)
  -- the keywords of Rust, which are no identifiers
  pub reserved : Str → Bool
  pub is_empty : Stream → Bool
  pub peek : Mark → Stream → Bool
  -- `parse::<Token![..]>`, and `parse` of a custom keyword
  pub parse_mark : Mark → Stream → Parsed Stream
  pub parse_ident : Stream → Parsed (Str × Stream)
  pub parse_lit_str : Stream → Parsed (Str × Stream)
  pub parse_path : Stream → Parsed (List Str × Stream)
  pub parse_visibility : Stream → Parsed (Visibility × Stream)
  -- `parenthesized!`, `braced!` and `bracketed!`: the content and what follows
  pub delimited : Delimiter → Stream → Parsed (Stream × Stream)
  -- the error for tokens that are left in a content when it is dropped, which syn reports at the
  -- end of the parse
  pub leave : Stream → Parsed (Unit {0})
  -- `Punctuated::parse_terminated` with the separator `Token![,]`
  pub parse_terminated : {A : Type 0} → (Stream → Parsed (A × Stream)) → Stream → Parsed (List A)

abbrev pub delimiter_beq : Delimiter → Delimiter → Bool
delimiter_beq parenthesis parenthesis = true
delimiter_beq brace brace = true
delimiter_beq bracket bracket = true
delimiter_beq parenthesis brace = false
delimiter_beq parenthesis bracket = false
delimiter_beq brace parenthesis = false
delimiter_beq brace bracket = false
delimiter_beq bracket parenthesis = false
delimiter_beq bracket brace = false

-- Whether the tokens start with the mark.
abbrev pub starts : {S : Type 0} → Mark → List (Token S) → Bool
starts m [] = false
starts (word k) (ident x ∷ l) = str_beq x k
starts (sign k) (punct x ∷ l) = str_beq x k
starts (opening d) (group d' s ∷ l) = delimiter_beq d' d
starts (word k) (punct x ∷ l) = false
starts (word k) (lit_str x ∷ l) = false
starts (word k) (group d s ∷ l) = false
starts (sign k) (ident x ∷ l) = false
starts (sign k) (lit_str x ∷ l) = false
starts (sign k) (group d s ∷ l) = false
starts (opening d) (ident x ∷ l) = false
starts (opening d) (punct x ∷ l) = false
starts (opening d) (lit_str x ∷ l) = false

-- A path by its segments, as tokens.
abbrev pub path_tokens : {S : Type 0} → List Str → List (Token S)
path_tokens [] = []
path_tokens (x ∷ []) = ident x ∷ []
path_tokens (x ∷ y ∷ p) = ident x ∷ punct (codes "::") ∷ path_tokens (y ∷ p)

-- No path goes on with these tokens.
abbrev pub EndsPath : {S : Type 0} → List (Token S) → Type 0
EndsPath l =
    (starts (sign (codes "::")) l ≡ false)
    × (starts (sign (codes "<")) l ≡ false)
    × (starts (opening parenthesis) l ≡ false)

abbrev pub is_nil : {A : Type 0} → List A → Bool
is_nil [] = true
is_nil (x ∷ l) = false

module _ (syn : Syn) where
  abbrev pub IsIdent : Str → Type 0
  IsIdent x = syn.reserved x ≡ false

  abbrev pub IsPath : List Str → Type 0
  IsPath [] = ⊥
  IsPath (x ∷ p) = IsIdent x × All IsIdent p

  -- The parser reads the value and leaves the tokens.
  abbrev pub Reads : {A : Type 0} → Parsed (A × syn.Stream) → A → List (Token syn.Stream) → Type 0
  Reads p a l = (r : syn.Stream) × (p ≡ parsed (a, r)) × (syn.tokens r ≡ l)

  -- What syn documents of its parsers.
  pub record IsSyn : Type 1 where
    pub tokens-from_tokens : (l : List (Token syn.Stream)) → syn.tokens (syn.from_tokens l) ≡ l
    pub is_empty-tokens : (s : syn.Stream) → syn.is_empty s ≡ is_nil (syn.tokens s)
    pub peek-starts : (m : Mark) (s : syn.Stream) → syn.peek m s ≡ starts m (syn.tokens s)
    pub parse_mark_lem :
        (m : Mark) (s : syn.Stream) (t : Token syn.Stream) (l : List (Token syn.Stream))
        → syn.tokens s ≡ t ∷ l
        → starts m (t ∷ l) ≡ true
        → (r : syn.Stream) × (syn.parse_mark m s ≡ parsed r) × (syn.tokens r ≡ l)
    pub parse_ident_lem :
        (s : syn.Stream) (x : Str) (l : List (Token syn.Stream))
        → syn.tokens s ≡ ident x ∷ l
        → IsIdent x
        → Reads (syn.parse_ident s) x l
    pub parse_lit_str_lem :
        (s : syn.Stream) (x : Str) (l : List (Token syn.Stream))
        → syn.tokens s ≡ lit_str x ∷ l
        → Reads (syn.parse_lit_str s) x l
    pub parse_path_lem :
        (s : syn.Stream) (p : List Str) (l : List (Token syn.Stream))
        → syn.tokens s ≡ path_tokens p ++ l
        → IsPath p
        → EndsPath l
        → Reads (syn.parse_path s) p l
    pub parse_visibility_lem :
        (s : syn.Stream) (v : syn.Visibility) (x : Str) (l : List (Token syn.Stream))
        → syn.tokens s ≡ syn.visibility_tokens v ++ ident x ∷ l
        → IsIdent x
        → Reads (syn.parse_visibility s) v (ident x ∷ l)
    pub visibility_tokens-first :
        (v : syn.Visibility)
        → (syn.visibility_tokens v ≡ [])
          ⊎ ((l : List (Token syn.Stream)) × (syn.visibility_tokens v ≡ ident (codes "pub") ∷ l))
    pub delimited_lem :
        (d : Delimiter) (s content : syn.Stream) (l : List (Token syn.Stream))
        → syn.tokens s ≡ group d content ∷ l
        → Reads (syn.delimited d s) content l
    pub leave-empty : (s : syn.Stream) → syn.tokens s ≡ [] → syn.leave s ≡ parsed tt
    pub terminated-empty :
        (A : Type 0) (f : syn.Stream → Parsed (A × syn.Stream)) (s : syn.Stream)
        → syn.is_empty s ≡ true
        → syn.parse_terminated f s ≡ parsed []
    pub terminated-more :
        (A : Type 0) (f : syn.Stream → Parsed (A × syn.Stream)) (s r r' : syn.Stream) (a : A)
        (l : List A)
        → syn.is_empty s ≡ false
        → f s ≡ parsed (a, r)
        → syn.is_empty r ≡ false
        → syn.parse_mark (sign (codes ",")) r ≡ parsed r'
        → length (syn.tokens r') < length (syn.tokens s)
        → syn.parse_terminated f r' ≡ parsed l
        → syn.parse_terminated f s ≡ parsed (a ∷ l)
