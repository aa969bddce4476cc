-- ===== src/Prelude/Int/Residues.antt =====
-- Wrap-around sums of `i64` are associative and commutative: they are sums of residues.
use chalk_metrics.Prelude.{
  ℕ, ◌+◌, ◌-◌, ◌%◌, ◌^◌, ◌≡◌, refl, sym, ap, ◌∙◌, ltb, if◌then◌else◌, arith,
}
use chalk_metrics.Prelude.Int.{ℤ, pos, negsuc, u64_mod, wrap_i64, i64_add, ◌+ℤ◌, IsI64}

-- The number modulo 2 ^ 64.
residue : ℤ → ℕ
residue (pos n) = n % u64_mod
residue (negsuc n) = u64_mod - 1 - n % u64_mod

of_residue : ℕ → ℤ
of_residue r = if ltb r (2 ^ 63) then pos r else negsuc (u64_mod - 1 - r)

wrap-residue : (a : ℤ) → wrap_i64 a ≡ of_residue (residue a)
unfolding wrap_i64 residue of_residue
wrap-residue (pos n) = refl
wrap-residue (negsuc n) = ground arith

residue-wrap : (a : ℤ) → residue (wrap_i64 a) ≡ residue a
unfolding wrap_i64 residue
residue-wrap (pos n) = ground arith
residue-wrap (negsuc n) = ground arith

residue-add : (a b : ℤ) → residue (a +ℤ b) ≡ (residue a + residue b) % u64_mod
unfolding residue ◌+ℤ◌
residue-add (pos a) (pos b) = ground arith
residue-add (pos a) (negsuc b) = ground arith
residue-add (negsuc a) (pos b) = ground arith
residue-add (negsuc a) (negsuc b) = ground arith

i64_add-residue : (a b : ℤ) → i64_add a b ≡ of_residue ((residue a + residue b) % u64_mod)
i64_add-residue a b = unfold i64_add in wrap-residue (a +ℤ b) ∙ ap of_residue (residue-add a b)

residue-i64_add : (a b : ℤ) → residue (i64_add a b) ≡ (residue a + residue b) % u64_mod
residue-i64_add a b = unfold i64_add in residue-wrap (a +ℤ b) ∙ residue-add a b

pub i64_add_comm : (a b : ℤ) → i64_add a b ≡ i64_add b a
i64_add_comm a b = i64_add-residue a b ∙ ap of_residue (omega arith) ∙ sym (i64_add-residue b a)

pub i64_add_assoc : (a b c : ℤ) → i64_add (i64_add a b) c ≡ i64_add a (i64_add b c)
i64_add_assoc a b c =
    i64_add-residue (i64_add a b) c
    ∙ ap of_residue (omega (arith, residue-i64_add a b, residue-i64_add b c))
    ∙ sym (i64_add-residue a (i64_add b c))

-- A sum that stays in range does not wrap.
pub i64_add-exact : (a b : ℤ) → IsI64 (a +ℤ b) → i64_add a b ≡ a +ℤ b
i64_add-exact a b h = unfold i64_add in wrap_exact (a +ℤ b) h
  where
    wrap_exact : (c : ℤ) → IsI64 c → wrap_i64 c ≡ c
    wrap_exact (pos n) k = unfold wrap_i64 in ground arith
    wrap_exact (negsuc n) k = unfold wrap_i64 in ground arith

pub i64_add-zero : (a : ℤ) → IsI64 a → i64_add (pos 0) a ≡ a
unfolding i64_add
i64_add-zero (pos n) h = ground arith
i64_add-zero (negsuc n) h = ground arith

-- Only the whole sum counts: a wrap on the way does no harm.
pub i64_add-wrap : (a b : ℤ) → i64_add (wrap_i64 a) b ≡ wrap_i64 (a +ℤ b)
i64_add-wrap a b =
    i64_add-residue (wrap_i64 a) b
    ∙ ap of_residue (omega (arith, residue-wrap a, residue-add a b))
    ∙ sym (wrap-residue (a +ℤ b))

pub wrap_exact : (c : ℤ) → IsI64 c → wrap_i64 c ≡ c
unfolding wrap_i64
wrap_exact (pos n) k = ground arith
wrap_exact (negsuc n) k = ground arith

pub +ℤ_assoc : (a b c : ℤ) → a +ℤ b +ℤ c ≡ a +ℤ (b +ℤ c)
unfolding ◌+ℤ◌
+ℤ_assoc a b c = ground arith

pub zero-+ℤ : (a : ℤ) → pos 0 +ℤ a ≡ a
unfolding ◌+ℤ◌
zero-+ℤ a = ground arith

pub +ℤ-zero : (a : ℤ) → a +ℤ pos 0 ≡ a
unfolding ◌+ℤ◌
+ℤ-zero a = ground arith
