-- ===== src/Api/Rows.antt =====
-- The rows of the custom view: getRowPatterns and what it calls in isk/api/custom.go. An index that
-- only moves forward through a slice is the part of the list that is left.
pub mod Laws
pub mod Bounds
use esi_isk.Base.{
  ℕ, zero, suc, ◌+◌, ◌*◌, ◌^◌, String, Bool, true, false, not, ◌&&◌, ◌||◌, List, [], ◌∷◌, ◌++◌,
  Option, none, some, length, take, ltb, leb, ◌==◌, str_eq, if◌then◌else◌, map,
}
use esi_isk.Base.Int.{ℤ, pos, negsuc, pos_part, neg_part}
use esi_isk.Base.Float.{Float64}
use esi_isk.Db.Types.{Donation, Contract, CharDetails}
use esi_isk.Db.PrefTypes.{Prefs, Preferences}
use esi_isk.Db.Store.{
  Db, Error, not_valid, Result, ok, err, panic, Action, pure, fail, crash, ◌>>=◌, ◌>>◌, attempt,
}
use esi_isk.Db.Names.{get_name}
use esi_isk.Api.Format.{Formats, donation_text, contract_text}

pub record RowPattern : Type 0 where
  pub str : String
  pub ts : ℕ

-- a second, in nanoseconds
abbrev pub second_ns : ℕ
second_ns = 1000000000

-- `ts.Before(now.Add(-time.Duration(maxAge) * time.Second))`
unfoldable pub is_stale : ℕ → ℤ → ℕ → Bool
is_stale now max_age ts =
    ltb (ts + pos_part max_age * second_ns) (now + neg_part max_age * second_ns)

-- `p.MaxAge != 0` and the test behind it
unfoldable pub too_old : ℕ → ℤ → ℕ → Bool
unfolding is_stale
too_old now (pos zero) ts = false
too_old now (pos (suc n)) ts = is_stale now (pos (suc n)) ts
too_old now (negsuc n) ts = is_stale now (negsuc n) ts

-- What is left of a slice once one row was made.
abbrev pub Next : Type 0 → Type 0 → Type 0
Next F A = List A → Action F (RowPattern × List A)

module _ {F : Type 0} where
  -- the loop of getRowPatterns: `left` rounds, the clock read anew in each
  unfoldable pub row_loop :
      {A : Type 0} → Next F A → ℤ → (ℕ → ℕ) → ℕ → List A → Action F (List RowPattern)
  unfolding too_old
  row_loop next max_age clock zero rest = pure []
  row_loop next max_age clock (suc left) rest = do
    r ← attempt (next rest)
    elim r [
      | ok (row, rest') ↦
          if too_old (clock left) max_age row.ts
          then pure []
          else (do rows ← row_loop next max_age clock left rest'; pure (row ∷ rows))
      | err e ↦ pure []
      | panic ↦ crash
    ]

module _ {F : Type 0} ⦃f : Float64 F⦄ (fmt : Formats F) where
  open f use {le}

  -- getValidDonation: the first donation of at least the minimum, and what is behind it
  unfoldable pub get_valid_donation :
      F → List (Donation F) → Option (Donation F × List (Donation F))
  get_valid_donation minimum [] = none
  get_valid_donation minimum (d ∷ ds) =
      if le minimum d.amount then some (d, ds) else get_valid_donation minimum ds

  -- getValidContract
  unfoldable pub get_valid_contract :
      F → List (Contract F) → Option (Contract F × List (Contract F))
  get_valid_contract minimum [] = none
  get_valid_contract minimum (k ∷ ks) =
      if le minimum k.value then some (k, ks) else get_valid_contract minimum ks

  -- getDonationRow
  unfoldable pub get_donation_row : CharDetails F → Prefs F → Donation F → Action F String
  unfolding get_name donation_text
  get_donation_row c p d = do
    donator ← get_name d.donator
    pure (donation_text fmt c.character.name donator d.note d.amount d.timestamp p.pattern)

  -- getContractRow
  unfoldable pub get_contract_row : CharDetails F → Prefs F → Contract F → Action F String
  unfolding get_name contract_text
  get_contract_row c p k = do
    contractor ← get_name k.donator
    pure (
        contract_text fmt c.character.name contractor k.note (length k.items) k.value k.issued
          p.pattern)

  -- the case "d" of getRowPattern
  donation_row :
      CharDetails F
      → Prefs F
      → Option (Donation F × List (Donation F))
      → Action F (RowPattern × List (Donation F))
  unfolding get_donation_row
  donation_row c p none = fail not_valid
  donation_row c p (some (d, rest)) = do
    str ← get_donation_row c p d
    pure (record { str = str; ts = d.timestamp }, rest)

  unfoldable pub next_donation : CharDetails F → Prefs F → Next F (Donation F)
  unfolding donation_row get_valid_donation
  next_donation c p rest = donation_row c p (get_valid_donation p.minimum rest)

  -- the case "c" of getRowPattern
  contract_row :
      CharDetails F
      → Prefs F
      → Option (Contract F × List (Contract F))
      → Action F (RowPattern × List (Contract F))
  unfolding get_contract_row
  contract_row c p none = fail not_valid
  contract_row c p (some (k, rest)) = do
    str ← get_contract_row c p k
    pure (record { str = str; ts = k.issued }, rest)

  unfoldable pub next_contract : CharDetails F → Prefs F → Next F (Contract F)
  unfolding contract_row get_valid_contract
  next_contract c p rest = contract_row c p (get_valid_contract p.minimum rest)

  -- getRowPatterns: any other type of preferences gives an error in the first round
  unfoldable pub get_row_patterns :
      (ℕ → ℕ) → CharDetails F → Prefs F → String → Action F (List RowPattern)
  unfolding row_loop next_donation next_contract
  get_row_patterns clock c p t =
      if str_eq t "d" || str_eq t ""
      then row_loop (next_donation c p) p.max_age clock (pos_part p.rows) c.donations
      else if str_eq t "c"
      then row_loop (next_contract c p) p.max_age clock (pos_part p.rows) c.contracts
      else pure []
