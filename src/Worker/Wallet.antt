-- ===== src/Worker/Wallet.antt =====
-- isk/worker/wallet.go: the donations in a wallet journal. `sort` is Go's sort.Sort over the journal,
-- by the date (Less), and `parse_int32` is strconv.ParseInt.
pub mod Whole
pub mod Laws
pub mod Run
pub mod Fresh
use esi_isk.Base.{
  ℕ, String, Bool, true, false, ◌&&◌, List, [], ◌∷◌, ◌++◌, map, Option, none, some, ltb, ◌==◌,
  str_eq, if◌then◌else◌,
}
use esi_isk.Base.Int.{ℤ}
use esi_isk.Base.Float.{Float64}
use esi_isk.Db.Types.{Donation, User, Affiliation, NullInt64}
use esi_isk.Db.Store.{Result, ok, err, panic, Action, pure, fail, crash, ◌>>=◌, ◌>>◌}
use esi_isk.Db.Preferences.{return}
use esi_isk.Db.Donations.{save_donation}
use esi_isk.Db.Names.{save_names}
use esi_isk.Db.Characters.{save_character_donations}
use esi_isk.Worker.Esi.{JournalEntry, Pages, Directory}
use esi_isk.Worker.Names.{get_names}
use esi_isk.Worker.Paging.{expand}

module _ {F : Type 0} where
  -- Less of walletDonationEntries
  abbrev pub earlier : JournalEntry F → JournalEntry F → Bool
  earlier a b = ltb a.date b.date

  -- `hasLastID && entry.Id == lastID`, with getLastJournalID
  abbrev pub is_last : User → JournalEntry F → Bool
  is_last user entry = user.last_journal_id.valid && entry.id == user.last_journal_id.int64

  -- knownEntry
  unfoldable pub known_entry : List (JournalEntry F) → User → Bool
  known_entry [] user = false
  known_entry (entry ∷ entries) user = if is_last user entry then true else known_entry entries user

  -- the test and the literal in parseForDonations
  abbrev pub is_donation : User → JournalEntry F → Bool
  is_donation user entry =
      str_eq entry.ref_type "player_donation" && entry.second_party_id == user.character_id

  abbrev pub to_donation : User → JournalEntry F → Donation F
  to_donation user entry = record {
    id = entry.id;
    donator = entry.first_party_id;
    recipient = user.character_id;
    timestamp = entry.date;
    note = entry.reason;
    amount = entry.amount;
  }

  -- parseForDonations
  unfoldable pub parse_for_donations : List (JournalEntry F) → User → List (Donation F)
  parse_for_donations [] user = []
  parse_for_donations (entry ∷ entries) user =
      let rest = parse_for_donations entries user in
      if is_last user entry
      then []
      else if is_donation user entry
      then to_donation user entry ∷ rest
      else rest

  -- setLastJournalID: the first entry, in the order of the sort
  unfoldable pub set_last_journal_id : List (JournalEntry F) → User → User
  set_last_journal_id [] user = user
  set_last_journal_id (entry ∷ entries) user = record user {
    last_journal_id = record { int64 = entry.id; valid = true };
  }

  -- getWalletJournal
  unfoldable pub get_wallet_journal :
      (String → Option ℤ) → Pages (JournalEntry F) → User → Result (List (JournalEntry F))
  unfolding known_entry expand
  get_wallet_journal parse_int32 pages user = elim pages.first [
    | ok entries ↦
        if known_entry entries user then ok entries else (elim (expand parse_int32 pages) [
          | ok additional ↦ ok (entries ++ additional)
          | err e ↦ err e
          | panic ↦ panic
        ])
    | err e ↦ err e
    | panic ↦ panic
  ]

  -- the ids that characterWallet returns
  unfoldable pub wallet_ids : User → List (Donation F) → List ℕ
  wallet_ids user [] = []
  wallet_ids user (d ∷ ds) = user.character_id ∷ map (λ x. x.donator) (d ∷ ds)

module _ {F : Type 0} ⦃f : Float64 F⦄ where
  -- the first loop of saveWalletRun, which ends at the first error
  unfoldable pub save_donations : List (Donation F) → Action F (Unit {0})
  unfolding save_donation
  save_donations [] = pure tt
  save_donations (d ∷ ds) = do save_donation d; save_donations ds

  -- saveWalletRun
  unfoldable pub save_wallet_run : List (Donation F) → List Affiliation → Action F (Unit {0})
  unfolding save_donations save_names save_character_donations
  save_wallet_run donations affiliations = do
    save_donations donations
    save_names affiliations
    save_character_donations donations affiliations true

  -- what characterWallet does with the sorted journal: it returns the user with its new last entry,
  -- and the ids of the characters involved
  unfoldable pub enter_journal : Directory → List (JournalEntry F) → User → Action F (User × List ℕ)
  unfolding parse_for_donations set_last_journal_id wallet_ids save_wallet_run get_names
  enter_journal esi entries user = do
    affiliations ← return (get_names esi (parse_for_donations entries user))
    save_wallet_run (parse_for_donations entries user) affiliations
    pure (set_last_journal_id entries user, wallet_ids user (parse_for_donations entries user))

  -- characterWallet
  unfoldable pub character_wallet :
      (List (JournalEntry F) → List (JournalEntry F))
      → (String → Option ℤ)
      → Directory
      → Pages (JournalEntry F)
      → User
      → Action F (User × List ℕ)
  unfolding get_wallet_journal enter_journal
  character_wallet sort parse_int32 esi pages user = do
    entries ← return (get_wallet_journal parse_int32 pages user)
    enter_journal esi (sort entries) user
