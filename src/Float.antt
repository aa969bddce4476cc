-- ===== src/Float.antt =====
-- `f64`: the type, the operations of the standard library that the code calls, and the constants it
-- writes, as an interface. `IsFloat` is what the standard library documents of them and some
-- theorems use.
use chalk_metrics.Prelude.{ℕ, ◌<◌, ◌^◌, ◌≡◌, Bool}
use chalk_metrics.Prelude.Int.{ℤ, IsI64}
use chalk_metrics.Prelude.Text.{Str}

pub record Float : Type 1 where
  pub F : Type 0
  -- 0.0, 1.0, 2.0, 100.0, 1e-12, 1e15, `f64::MAX`, `f64::MIN`
  pub zero : F
  pub one : F
  pub two : F
  pub hundred : F
  pub smallest_error : F
  pub le_limit : F
  pub largest : F
  pub lowest : F
  pub add : F → F → F
  pub sub : F → F → F
  pub mul : F → F → F
  pub div : F → F → F
  pub neg : F → F
  pub abs : F → F
  pub floor : F → F
  pub ceil : F → F
  pub round : F → F
  pub log : F → F → F
  pub powi : F → ℤ → F
  pub powf : F → F → F
  pub min : F → F → F
  pub max : F → F → F
  -- `a < b`, `a <= b` and `a == b`, which fail on a NaN
  pub lt : F → F → Bool
  pub le : F → F → Bool
  pub eq : F → F → Bool
  pub is_nan : F → Bool
  -- the casts `as`
  pub of_u64 : ℕ → F
  pub of_i64 : ℤ → F
  pub to_u64 : F → ℕ
  pub to_u32 : F → ℕ
  pub to_i64 : F → ℤ
  pub to_bits : F → ℕ
  pub from_bits : ℕ → F
  pub display : F → Str

-- `as i64` saturates; `to_bits` and `from_bits` are inverse to one another.
pub record IsFloat (fl : Float) : Type 0 where
  pub to_i64_range : (x : fl.F) → IsI64 (fl.to_i64 x)
  pub to_bits-lt : (x : fl.F) → fl.to_bits x < 2 ^ 64
  pub from_bits-to_bits : (x : fl.F) → fl.from_bits (fl.to_bits x) ≡ x
