-- ===== src/Api/Rows/Bounds.antt =====
-- getRowPatterns of isk/api/custom.go always gives rows, and not more than it is asked for.
use esi_isk.Base.{
  ℕ, zero, suc, ◌≤◌, ◌≡◌, refl, String, ◌||◌, List, [], ◌∷◌, Option, none, some, length, str_eq,
  Bool-cases, inl, inr, arith,
}
use esi_isk.Base.Int.{ℤ, pos_part}
use esi_isk.Base.Float.{Float64}
use esi_isk.Db.Types.{CharDetails, Donation, Contract}
use esi_isk.Db.PrefTypes.{Prefs}
use esi_isk.Db.Store.{Db, Result, ok, err, panic, attempt}
use esi_isk.Db.Store.Calm.{Calm, Calm-pure, Calm-fail, Calm-bind, attempt-Succeeds}
use esi_isk.Db.Names.{get_name}
use esi_isk.Db.Names.Laws.{Calm-get_name}
use esi_isk.Api.Format.{Formats}
use esi_isk.Api.Rows.{
  RowPattern, Next, too_old, row_loop, get_donation_row, get_contract_row, donation_row,
  contract_row, next_donation, next_contract, get_row_patterns,
}

module _ {F : Type 0} where
  -- The call gives a list of at most that many rows.
  abbrev pub RowsLe : ℕ → Result (List RowPattern) × Db F → Type 0
  RowsLe n r = (rows : List RowPattern) × (w : Db F) × (r ≡ (ok rows, w)) × (length rows ≤ n)

  row_loop-le :
      {A : Type 0} (next : Next F A) (max_age : ℤ) (clock : ℕ → ℕ)
      → ((xs : List A) → Calm (next xs))
      → (left : ℕ) (xs : List A) (w : Db F) → RowsLe left (row_loop next max_age clock left xs w)
  unfolding row_loop
  row_loop-le {A} next max_age clock h zero xs w = ([], w, refl, omega arith)
  row_loop-le {A} next max_age clock h (suc left) xs w =
      let (r, w₁, e) = attempt-Succeeds (next xs) w (h xs) in
      go r w₁ e (row_loop-le next max_age clock h left)
    where
      go :
          (r : Result (RowPattern × List A)) (w₁ : Db F)
          → attempt (next xs) w ≡ (ok r, w₁)
          → ((ys : List A) (w₂ : Db F)
              → (rows : List RowPattern) × (w₃ : Db F) × (row_loop next max_age clock left ys w₂
                  ≡ (ok rows, w₃))
                × (length rows ≤ left))
          → (rows : List RowPattern) × (w₂ : Db F) × (row_loop next max_age clock (suc left) xs w
              ≡ (ok rows, w₂))
            × (length rows ≤ suc left)
      go (ok (r, rest)) w₁ e ih = elim (Bool-cases (too_old (clock left) max_age r.ts)) [
        | inl o ↦ ([], w₁, ground arith, omega arith)
        | inr o ↦
            let (rows, w₂, run, few) = ih rest w₁ in
            (r ∷ rows, w₂, ground arith, omega (arith, few))
      ]
      go (err x) w₁ e ih = ([], w₁, ground arith, omega arith)
      go panic w₁ e ih = absurd (ground arith)

module _ {F : Type 0} ⦃f : Float64 F⦄ (fmt : Formats F) (c : CharDetails F) (p : Prefs F) where
  Calm-donation_row : (o : Option (Donation F × List (Donation F))) → Calm (donation_row fmt c p o)
  unfolding donation_row get_donation_row
  Calm-donation_row none = Calm-fail _
  Calm-donation_row (some (d, rest)) =
      Calm-bind {m = get_donation_row fmt c p d}
        (Calm-bind {m = get_name d.donator} (Calm-get_name d.donator) (λ n. Calm-pure _))
        (λ s. Calm-pure _)

  Calm-contract_row : (o : Option (Contract F × List (Contract F))) → Calm (contract_row fmt c p o)
  unfolding contract_row get_contract_row
  Calm-contract_row none = Calm-fail _
  Calm-contract_row (some (k, rest)) =
      Calm-bind {m = get_contract_row fmt c p k}
        (Calm-bind {m = get_name k.donator} (Calm-get_name k.donator) (λ n. Calm-pure _))
        (λ s. Calm-pure _)

  -- getRowPatterns always gives rows, whatever calls of the database fail and whatever the clock does,
  -- for any type of preferences, and at most as many as the preferences ask for.
  pub get_row_patterns-RowsLe :
      (clock : ℕ → ℕ) (t : String) (w : Db F)
      → RowsLe (pos_part p.rows) (get_row_patterns fmt clock c p t w)
  unfolding get_row_patterns next_donation next_contract
  get_row_patterns-RowsLe clock t w = elim (Bool-cases (str_eq t "d" || str_eq t "")) [
    | inl e ↦ rw e (
        row_loop-le (next_donation fmt c p) p.max_age clock (λ xs. Calm-donation_row _)
          (pos_part p.rows) c.donations w)
    | inr e ↦ elim (Bool-cases (str_eq t "c")) [
      | inl k ↦
          rw (e, k)
            (row_loop-le (next_contract fmt c p) p.max_age clock (λ xs. Calm-contract_row _)
              (pos_part p.rows) c.contracts w)
      | inr k ↦ rw (e, k) ([], w, refl, omega arith)
    ]
  ]
