-- ===== src/Sketch/Key/Order.antt =====
-- src/aggregator/sketch.rs: the laws of `SketchHashKey::partial_cmp`.
use chalk_metrics.Prelude.{◌≡◌, refl, ap, arith, Ordering}
use chalk_metrics.Prelude.Int.{ℤ, pos, negsuc, int_cmp}
use chalk_metrics.Sketch.Key.{
  SketchHashKey, negative, zero, positive, invalid, partial_cmp, reverse_order,
}

int_cmp_eq : (a b : ℤ) → int_cmp a b ≡ Ordering.eq → a ≡ b
int_cmp_eq (pos a) (pos b) h = ground arith
int_cmp_eq (negsuc a) (negsuc b) h = ground arith
int_cmp_eq (pos a) (negsuc b) h = cc
int_cmp_eq (negsuc a) (pos b) h = cc

int_cmp_refl : (a : ℤ) → int_cmp a a ≡ Ordering.eq
int_cmp_refl (pos a) = ground arith
int_cmp_refl (negsuc a) = ground arith

pub int_cmp_flip : (a b : ℤ) → int_cmp b a ≡ reverse_order (int_cmp a b)
unfolding reverse_order
int_cmp_flip (pos a) (pos b) = ground arith
int_cmp_flip (negsuc a) (negsuc b) = ground arith
int_cmp_flip (pos a) (negsuc b) = refl
int_cmp_flip (negsuc a) (pos b) = refl

int_cmp_trans :
    (a b c : ℤ) → int_cmp a b ≡ Ordering.lt → int_cmp b c ≡ Ordering.lt → int_cmp a c ≡ Ordering.lt
int_cmp_trans (pos a) (pos b) (pos c) h k = ground arith
int_cmp_trans (negsuc a) (negsuc b) (negsuc c) h k = ground arith
int_cmp_trans _ _ _ h k = ground arith

-- Two keys compare as equal exactly when they are equal.
pub cmp_eq : (a b : SketchHashKey) → partial_cmp a b ≡ Ordering.eq → a ≡ b
unfolding partial_cmp
cmp_eq (positive a) (positive b) h = ap positive (int_cmp_eq a b h)
cmp_eq (negative a) (negative b) h = ground (arith, int_cmp_eq a b)
cmp_eq _ _ h = ground arith

pub cmp_refl : (a : SketchHashKey) → partial_cmp a a ≡ Ordering.eq
unfolding partial_cmp
cmp_refl (positive a) = int_cmp_refl a
cmp_refl (negative a) = rw (int_cmp_refl a)
cmp_refl zero = refl
cmp_refl invalid = refl

pub cmp_flip : (a b : SketchHashKey) → partial_cmp b a ≡ reverse_order (partial_cmp a b)
unfolding partial_cmp
cmp_flip (positive a) (positive b) = int_cmp_flip a b
cmp_flip (negative a) (negative b) = ground (arith, int_cmp_flip a b)
cmp_flip zero zero = refl
cmp_flip invalid invalid = refl
cmp_flip _ _ = refl

-- The order of the keys is transitive: a key below a second, which is below a third, is below it.
pub cmp_trans :
    (a b c : SketchHashKey)
    → partial_cmp a b ≡ Ordering.lt
    → partial_cmp b c ≡ Ordering.lt
    → partial_cmp a c ≡ Ordering.lt
unfolding partial_cmp
cmp_trans (positive a) (positive b) (positive c) h k = int_cmp_trans a b c h k
cmp_trans (negative a) (negative b) (negative c) h k =
    ground (arith, int_cmp_trans c b a, int_cmp_flip a b, int_cmp_flip b c, int_cmp_flip a c)
cmp_trans _ _ _ h k = ground arith
