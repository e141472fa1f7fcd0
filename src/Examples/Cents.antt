-- ===== src/Examples/Cents.antt =====
-- Amounts for the examples: integers, in place of float64.
use esi_isk.Base.{◌+◌, Bool, not, ◌&&◌, arith}
use esi_isk.Base.Int.{ℤ, pos, pos_part, neg_part, sub_ℕ, ltb_ℤ}
use esi_isk.Base.Float.{Float64}
use esi_isk.Db.Totals.Prune.{KeepsWhole}

abbrev add_ℤ : ℤ → ℤ → ℤ
add_ℤ x y = sub_ℕ (pos_part x + pos_part y) (neg_part x + neg_part y)

abbrev minus : ℤ → ℤ → ℤ
minus x y = sub_ℕ (pos_part x + neg_part y) (neg_part x + pos_part y)

abbrev at_most : ℤ → ℤ → Bool
at_most x y = not (ltb_ℤ y x)

instance unfoldable pub cents : Float64 ℤ
cents = record {
  zero_f = pos 0;
  hundred = pos 100;
  one_percent = pos 1;
  one_tenth = pos 10;
  of_int = λ x. x;
  add = add_ℤ;
  sub = minus;
  mul = λ x y. x;
  div = λ x y. x;
  round = λ x. x;
  lt = ltb_ℤ;
  le = at_most;
  eq = λ x y. at_most x y && at_most y x;
}

pub cents-KeepsWhole : KeepsWhole cents
unfolding cents
cents-KeepsWhole = record { add_whole = λ m n b. ground arith; sub_whole = λ m n b. ground arith }
