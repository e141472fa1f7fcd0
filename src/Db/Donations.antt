-- ===== src/Db/Donations.antt =====
-- isk/db/donation.go.
use esi_isk.Base.{ℕ, Bool, List, [], ◌∷◌, ltb, map}
use esi_isk.Base.Float.{Float64}
use esi_isk.Db.Types.{Donation}
use esi_isk.Db.Store.{Action, pure, ◌>>=◌}
use esi_isk.Db.Statements.Gifts.{
  stmt_char_donations, stmt_char_donated, stmt_char_standing_isk, stmt_add_donation,
  stmt_get_stale_donations, stmt_remove_donation,
}
use esi_isk.Db.Characters.Rows.{round2}

module _ {F : Type 0} where
  -- Less of Donations: the latest first
  abbrev pub later_donation : Donation F → Donation F → Bool
  later_donation a b = ltb b.timestamp a.timestamp

  -- SaveDonation
  unfoldable pub save_donation : Donation F → Action F (Unit {0})
  unfolding stmt_add_donation
  save_donation donation = stmt_add_donation donation

  -- PruneDonation
  unfoldable pub prune_donation : Donation F → Action F (Unit {0})
  unfolding stmt_remove_donation
  prune_donation donation = stmt_remove_donation donation.id

  -- GetStaleDonations
  unfoldable pub get_stale_donations : Action F (List (Donation F))
  unfolding stmt_get_stale_donations
  get_stale_donations = stmt_get_stale_donations

module _ {F : Type 0} ⦃f : Float64 F⦄ where
  open f use {add}

  -- the loop of GetCharStandingISK
  unfoldable pub sum_amounts : F → List (Donation F) → F
  sum_amounts total [] = total
  sum_amounts total (d ∷ ds) = sum_amounts (add total d.amount) ds

-- `sort` is Go's sort.Sort over Donations.
module _ {F : Type 0} ⦃f : Float64 F⦄ (sort : List (Donation F) → List (Donation F)) where
  open f use {zero_f}

  -- the last part of getDonations, behind the query that its key names
  unfoldable pub get_donations : Action F (List (Donation F)) → Action F (List (Donation F))
  unfolding round2
  get_donations stmt = do
    rows ← stmt
    pure (sort (map (λ (d : Donation F). record d { amount = round2 d.amount }) rows))

  -- GetCharDonations
  unfoldable pub get_char_donations : ℕ → Action F (List (Donation F))
  unfolding get_donations stmt_char_donations
  get_char_donations char_id = get_donations (stmt_char_donations char_id)

  -- GetCharDonated
  unfoldable pub get_char_donated : ℕ → Action F (List (Donation F))
  unfolding get_donations stmt_char_donated
  get_char_donated char_id = get_donations (stmt_char_donated char_id)

  -- GetCharStandingISK
  unfoldable pub get_char_standing_isk : ℕ → ℕ → Action F F
  unfolding get_donations stmt_char_standing_isk sum_amounts
  get_char_standing_isk owner char_id = do
    donations ← get_donations (stmt_char_standing_isk owner char_id)
    pure (sum_amounts zero_f donations)
