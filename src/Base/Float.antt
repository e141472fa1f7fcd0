-- ===== src/Base/Float.antt =====
-- Go's float64 as a type with the operations that the program calls. Nothing is assumed of them:
-- a theorem that needs a law of rounding takes it as a hypothesis.
use mathlib.Core.Bool.{Bool}
use esi_isk.Base.Int.{ℤ}

pub record Float64 (F : Type 0) : Type 0 where
  pub zero_f : F
  pub hundred : F
  -- the constant 0.01
  pub one_percent : F
  -- the column default 0.1
  pub one_tenth : F
  -- the conversion `float64(n)`
  pub of_int : ℤ → F
  pub add : F → F → F
  pub sub : F → F → F
  pub mul : F → F → F
  pub div : F → F → F
  -- `math.Round`
  pub round : F → F
  -- `a < b` and `a <= b`
  pub lt : F → F → Bool
  pub le : F → F → Bool
  -- `a == b`
  pub eq : F → F → Bool
