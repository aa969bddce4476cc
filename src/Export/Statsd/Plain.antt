-- ===== src/Export/Statsd/Plain.antt =====
-- src/export/statsd.rs: the texts that the lines are made of, and what they lack.
use Prim.Native.Nat.{zero}
use chalk_metrics.Export.Statsd.Reading.{Lacks, Lacks-append, IsPlain}
use chalk_metrics.Prelude.{
  ℕ, suc, ◌+◌, ◌%◌, ◌/◌, ◌≤◌, ◌<◌, ◌≡◌, ◌⊎◌, refl, ◌∙◌, false, List, [], ◌∷◌, ◌++◌, inl, inr,
  Bool-cases, ltb, ltb→lt, ◌==◌, nat_eq, ==_ne, All, append_assoc, arith,
}
use chalk_metrics.Prelude.Int.{ℤ, pos, negsuc}
use chalk_metrics.Prelude.Text.{Str, codes, join, show_digits, show_u64, show_i64}

abbrev AreDigits : Str → Type 0
AreDigits s = All (λ x. (47 < x) × (x < 58)) s

digits-Lacks : (c : ℕ) (s : Str) → (c ≤ 47) ⊎ (58 ≤ c) → AreDigits s → Lacks c s
digits-Lacks c [] h d = tt
digits-Lacks c (x ∷ s) h ((a, b), d) = (
  ==_ne x c
      (λ e. elim h [ inl low ↦ omega (arith, low, a, e) | inr high ↦ omega (arith, high, b, e) ]),
  digits-Lacks c s h d,
)

digits-IsPlain : (s : Str) → AreDigits s → IsPlain s
digits-IsPlain s d = record {
  colon = digits-Lacks b':' s (inr (omega arith)) d;
  text = record {
    bar = digits-Lacks b'|' s (inr (omega arith)) d;
    comma = digits-Lacks b',' s (inl (omega arith)) d;
    line_feed = digits-Lacks b'\n' s (inl (omega arith)) d;
  };
}

digits_snoc : (s : Str) (x : ℕ) → AreDigits s → 47 < x → x < 58 → AreDigits (s ++ x ∷ [])
digits_snoc [] x d a b = ((a, b), tt)
digits_snoc (y ∷ s) x d a b = (d.0, digits_snoc s x d.1 a b)

show_digits-AreDigits : (fuel n : ℕ) → AreDigits (show_digits fuel n)
unfolding show_digits
show_digits-AreDigits zero n = tt
show_digits-AreDigits (suc fuel) n = elim (Bool-cases (ltb n 10)) [
  | inl one ↦ rw one ((omega (arith, ltb→lt n 10 one), omega (arith, ltb→lt n 10 one)), tt)
  | inr more ↦ rw more (
      digits_snoc (show_digits fuel (n / 10)) (48 + n % 10) (show_digits-AreDigits fuel (n / 10))
        (omega arith) (omega arith))
]

pub plain_append : (s t : Str) → IsPlain s → IsPlain t → IsPlain (s ++ t)
plain_append s t h k = record {
  colon = Lacks-append b':' s t h.colon k.colon;
  text = record {
    bar = Lacks-append b'|' s t h.text.bar k.text.bar;
    comma = Lacks-append b',' s t h.text.comma k.text.comma;
    line_feed = Lacks-append b'\n' s t h.text.line_feed k.text.line_feed;
  };
}

pub plain_nil : IsPlain []
plain_nil = record { colon = tt; text = record { bar = tt; comma = tt; line_feed = tt } }

pub plain_cons :
    (x : ℕ) (s : Str)
    → (x == b':') ≡ false
    → (x == b'|') ≡ false
    → (x == b',') ≡ false
    → (x == b'\n') ≡ false
    → IsPlain s
    → IsPlain (x ∷ s)
plain_cons x s a b c d h = record {
  colon = (a, h.colon);
  text = record {
    bar = (b, h.text.bar);
    comma = (c, h.text.comma);
    line_feed = (d, h.text.line_feed);
  };
}

pub plain_dot : (s : Str) → IsPlain s → IsPlain (b'.' ∷ s)
plain_dot s h = plain_cons b'.' s refl refl refl refl h

-- The names of the kinds, and the suffixes of a histogram's names.
pub plain_c : IsPlain (codes "c")
plain_c = plain_cons b'c' [] refl refl refl refl plain_nil

pub plain_g : IsPlain (codes "g")
plain_g = plain_cons b'g' [] refl refl refl refl plain_nil

pub plain_d : IsPlain (codes "d")
plain_d = plain_cons b'd' [] refl refl refl refl plain_nil

pub plain_count : IsPlain (codes ".count")
plain_count = plain_dot (codes "count") (plain_append (codes "c") (codes "ount") plain_c ount)
  where
    ount : IsPlain (codes "ount")
    ount = record {
      colon = (refl, (refl, (refl, (refl, tt))));
      text = record {
        bar = (refl, (refl, (refl, (refl, tt))));
        comma = (refl, (refl, (refl, (refl, tt))));
        line_feed = (refl, (refl, (refl, (refl, tt))));
      };
    }

pub plain_avg : IsPlain (codes ".avg")
plain_avg = record {
  colon = (refl, (refl, (refl, (refl, tt))));
  text = record {
    bar = (refl, (refl, (refl, (refl, tt))));
    comma = (refl, (refl, (refl, (refl, tt))));
    line_feed = (refl, (refl, (refl, (refl, tt))));
  };
}

pub plain_join : (l : List Str) → All IsPlain l → IsPlain (join (codes ".") l)
unfolding join
plain_join [] h = plain_nil
plain_join (s ∷ []) h = h.0
plain_join (s ∷ t ∷ l) h =
    plain_append (s ++ codes ".") (join (codes ".") (t ∷ l))
      (plain_append s (codes ".") h.0 (plain_dot [] plain_nil)) (plain_join (t ∷ l) h.1)

pub plain_u64 : (n : ℕ) → IsPlain (show_u64 n)
unfolding show_u64
plain_u64 n = digits-IsPlain (show_digits 20 n) (show_digits-AreDigits 20 n)

pub plain_i64 : (n : ℤ) → IsPlain (show_i64 n)
unfolding show_i64
plain_i64 (pos n) = plain_u64 n
plain_i64 (negsuc n) = plain_cons b'-' (show_u64 (suc n)) refl refl refl refl (plain_u64 (suc n))

-- A line as it is formatted.
pub line_lem :
    (name value kind tags : Str)
    → name ++ codes ":" ++ value ++ (b'|' ∷ kind) ++ tags
      ≡ name ++ (b':' ∷ value ++ (b'|' ∷ kind ++ tags))
line_lem name value kind tags =
    append_assoc (name ++ codes ":" ++ value) (b'|' ∷ kind) tags
    ∙ append_assoc (name ++ codes ":") value (b'|' ∷ kind ++ tags)
    ∙ append_assoc name (codes ":") (value ++ (b'|' ∷ kind ++ tags))
