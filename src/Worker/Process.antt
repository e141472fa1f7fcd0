-- ===== src/Worker/Process.antt =====
-- isk/worker/esi.go: one round of the worker. Run repeats it without end.
pub mod Laws
pub mod Standings
pub mod Rating
use esi_isk.Base.{
  ℕ, String, Bool, true, false, ◌&&◌, List, [], ◌∷◌, ◌++◌, Option, elem, ◌==◌, str_eq,
  if◌then◌else◌,
}
use esi_isk.Base.Int.{ℤ}
use esi_isk.Base.Float.{Float64}
use esi_isk.Cx.{Options}
use esi_isk.Db.Types.{User, Character, Donation, Contract}
use esi_isk.Db.Store.{Result, ok, err, panic, service, Action, pure, crash, ◌>>=◌, ◌>>◌, attempt}
use esi_isk.Db.Characters.{get_character, save_character}
use esi_isk.Db.Donations.{get_char_standing_isk}
use esi_isk.Db.Users.{get_users_to_process, save_user}
use esi_isk.Worker.Contracts.{character_contracts}
use esi_isk.Worker.Esi.{JournalEntry, EsiContract, EsiItem, Pages, Directory}
use esi_isk.Worker.Wallet.{character_wallet}

-- What the worker takes from outside the program.
pub record Services (F : Type 0) : Type 0 where
  pub sort_journal : List (JournalEntry F) → List (JournalEntry F)
  pub sort_esi_contracts : List (EsiContract F) → List (EsiContract F)
  pub sort_contracts : List (Contract F) → List (Contract F)
  pub sort_donations : List (Donation F) → List (Donation F)
  pub parse_int32 : String → Option ℤ
  pub visit : List (ℕ × ℤ) → List (ℕ × ℤ)
  pub prices : ℕ → F
  pub items_of : EsiContract F → Result (List EsiItem)
  pub directory : Directory
  pub journal_of : User → Pages (JournalEntry F)
  pub contracts_of : User → Pages (EsiContract F)
  -- the token of a user, refreshed and verified: its character and owner
  pub verify : User → Result (ℕ × String)

-- the test of getCharacterToken
unfoldable pub check_token : User → Result (ℕ × String) → Result (Unit {0})
check_token user (ok (char_id, owner)) =
    if char_id == user.character_id && str_eq owner user.owner_hash then ok tt else err service
check_token user (err e) = err e
check_token user panic = panic

-- the loop of processUsers over the ids of one user
unfoldable pub add_processed : List ℕ → List ℕ → List ℕ
add_processed processed [] = processed
add_processed processed (id ∷ ids) =
    add_processed (if elem id processed then processed else processed ++ id ∷ []) ids

module _ {F : Type 0} ⦃f : Float64 F⦄ (sv : Services F) where
  open f use {mul, lt, one_percent}

  -- getCharacterToken
  unfoldable pub get_character_token : User → Result (Unit {0})
  unfolding check_token
  get_character_token user = check_token user (sv.verify user)

  -- pullCharacter
  unfoldable pub pull_character : User → Action F (List ℕ)
  unfolding character_wallet character_contracts save_user
  pull_character user = do
    wallet ← character_wallet sv.sort_journal sv.parse_int32 sv.directory (sv.journal_of user) user
    contracts ←
        character_contracts sv.sort_esi_contracts sv.sort_contracts sv.parse_int32 sv.visit
          sv.prices sv.items_of sv.directory (sv.contracts_of wallet.0) wallet.0
    save_user contracts.0
    pure (wallet.1 ++ contracts.1)

  -- what processUsers does with the result of pullCharacter
  abbrev pub processed_with : List ℕ → Result (List ℕ) → List ℕ
  processed_with processed (ok ids) = add_processed processed ids
  processed_with processed _ = processed

  -- the loop of processUsers; `has_ctx` says whether ctx is not nil, as it is after addCharacterAuth
  -- has failed
  unfoldable pub process_each : Bool → List User → List ℕ → Action F (List ℕ)
  unfolding get_character_token pull_character add_processed
  process_each has_ctx [] processed = pure processed
  process_each has_ctx (user ∷ users) processed =
      if has_ctx
      then (elim (get_character_token user) [
        | ok _ ↦ do
          pulled ← attempt (pull_character user)
          process_each true users (processed_with processed pulled)
        | err _ ↦ process_each false users processed
        | panic ↦ crash
      ])
      else crash

  unfoldable pub process_found : Result (List User) → Action F (List ℕ)
  unfolding process_each
  process_found (ok users) = process_each true users []
  process_found (err _) = pure []
  process_found panic = crash

  -- processUsers
  unfoldable pub process_users : Action F (List ℕ)
  unfolding get_users_to_process process_found
  process_users = do users ← attempt get_users_to_process; process_found users

  -- the end of the loop of updateStandings
  unfoldable pub set_standing : Character F → F → Action F (Unit {0})
  unfolding save_character
  set_standing char standing_isk = do
    attempt (
        save_character
          (record char { good_standing = lt (mul char.received_isk_30 one_percent) standing_isk }))
    pure tt

  rate_by : Character F → Result F → Action F (Unit {0})
  unfolding set_standing
  rate_by char (ok isk) = set_standing char isk
  rate_by char (err _) = pure tt
  rate_by char panic = crash

  unfoldable pub rate : ℕ → ℕ → Character F → Action F (Unit {0})
  unfolding get_char_standing_isk rate_by
  rate owner char_id char = do
    standing ← attempt (get_char_standing_isk sv.sort_donations owner char_id)
    rate_by char standing

  rate_found : ℕ → ℕ → Result (Character F) → Action F (Unit {0})
  unfolding rate
  rate_found owner char_id (ok char) = rate owner char_id char
  rate_found owner char_id (err _) = pure tt
  rate_found owner char_id panic = crash

  -- the body of the loop of updateStandings
  unfoldable pub update_standing : Options → ℕ → Action F (Unit {0})
  unfolding get_character rate_found
  update_standing opts char_id =
      if char_id == opts.character_id
      then pure tt
      else (do found ← attempt (get_character char_id); rate_found opts.character_id char_id found)

  -- updateStandings
  unfoldable pub update_standings : Options → List ℕ → Action F (Unit {0})
  unfolding update_standing
  update_standings opts [] = pure tt
  update_standings opts (char_id ∷ char_ids) = do
    update_standing opts char_id
    update_standings opts char_ids
