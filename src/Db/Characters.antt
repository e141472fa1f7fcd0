-- ===== src/Db/Characters.antt =====
-- isk/db/character.go: reading a character, and entering a batch of donations or contracts into the
-- rows of everybody involved.
pub mod Rows
pub mod Reading
pub mod Meeting
pub mod Laws
pub mod Success
pub mod Contracts
pub mod Creating
pub mod Saving
pub mod Known
pub mod Complete
use esi_isk.Base.{
  ℕ, zero, Bool, true, false, List, [], ◌∷◌, ◌++◌, Option, none, some, map, elem, keep, ltb, ◌==◌,
  if◌then◌else◌,
}
use esi_isk.Base.Float.{Float64}
use esi_isk.Db.Types.{Name, Affiliation, Donation, Contract, CharacterRow, Character}
use esi_isk.Db.Store.{
  Db, Error, character_not_found, failed_characters, Result, ok, err, panic, Action, pure, fail,
  crash, ◌>>=◌, ◌>>◌, attempt,
}
use esi_isk.Db.Statements.Characters.{
  stmt_char_details, stmt_create_character, stmt_update_character,
}
use esi_isk.Db.Names.{NameMap, get_names}
use esi_isk.Db.Totals.{
  add_to_totals, remove_from_totals, add_to_contract_totals, remove_from_contract_totals,
}
use esi_isk.Db.Characters.Rows.{to_character, to_row, empty_row}

-- getAffiliation: it panics where no affiliation is found, and at one without a character
unfoldable pub get_affiliation : ℕ → List Affiliation → Result Affiliation
get_affiliation char_id [] = panic
get_affiliation char_id (aff ∷ affiliations) = elim aff.character [
  | none ↦ panic
  | some c ↦ if c.id == char_id then ok aff else get_affiliation char_id affiliations
]

-- the ids that getCharacterNames looks up: the positive ones
abbrev pub positive : List ℕ → List ℕ
positive ids = keep (λ id. ltb 0 id) ids

-- a row, and whether it is missing from the table
pub record Bound (F : Type 0) : Type 0 where
  pub row : CharacterRow F
  pub is_new : Bool

-- newCharacters, updatedCharacters and allCharacters
pub record Batch (F : Type 0) : Type 0 where
  pub fresh : List (CharacterRow F)
  pub updated : List (CharacterRow F)
  pub all : List ℕ

module _ {F : Type 0} ⦃f : Float64 F⦄ where
  -- the body of the last loop of getCharacterNames
  pub fill_name : Name → Character F → Character F
  fill_name n char =
      if n.id == char.id
      then record char { name = n.name }
      else if n.id == char.corporation_id
      then record char { corporation_name = n.name }
      else if n.id == char.alliance_id
      then record char { alliance_name = n.name }
      else char

  pub fill_names : NameMap → Character F → Character F
  unfolding fill_name
  fill_names [] char = char
  fill_names (n ∷ names) char = fill_names names (fill_name n char)

  -- getCharacterNames
  unfoldable pub get_character_names : CharacterRow F → Action F (Character F)
  unfolding get_names fill_names to_character
  get_character_names row = do
    names ← get_names (positive (row.id ∷ row.corporation_id ∷ row.alliance_id ∷ []))
    pure (fill_names names (to_character row))

  -- the rest of GetCharacter, on what scanCharacterRow finds
  named : Option (CharacterRow F) → Action F (Character F)
  unfolding get_character_names
  named none = fail character_not_found
  named (some row) = get_character_names row

  -- GetCharacter
  unfoldable pub get_character : ℕ → Action F (Character F)
  unfolding stmt_char_details named
  get_character char_id = do found ← stmt_char_details char_id; named found

  -- NewCharacter
  unfoldable pub new_character : CharacterRow F → Action F (Unit {0})
  unfolding stmt_create_character
  new_character char = stmt_create_character char

  -- updateCharacter
  unfoldable pub update_character : CharacterRow F → Action F (Unit {0})
  unfolding stmt_update_character
  update_character char = stmt_update_character char

  -- SaveCharacter
  unfoldable pub save_character : Character F → Action F (Unit {0})
  unfolding update_character to_row
  save_character char = update_character (to_row char)

  -- what bindAffiliation starts from: any error of GetCharacter counts as "not in the table"
  pub bound_of : ℕ → Result (Character F) → Bound F
  unfolding to_row empty_row
  bound_of char_id (ok char) = record { row = to_row char; is_new = false }
  bound_of char_id _ = record { row = empty_row char_id; is_new = true }

  -- the assignments at the end of bindAffiliation
  pub affiliate : Affiliation → ℕ → Bound F → Bound F
  affiliate aff corporation_id b = record b {
    row = record b.row {
      corporation_id = corporation_id;
      alliance_id = elim aff.alliance [ none ↦ b.row.alliance_id | some alliance ↦ alliance.id ];
    };
  }

  -- the end of bindAffiliation, which fails at an affiliation without a corporation
  pub finish_bound : ℕ → Affiliation → Result (Character F) → Action F (Bound F)
  unfolding bound_of affiliate
  finish_bound char_id aff r = elim aff.corporation [
    | none ↦ crash
    | some corporation ↦ pure (affiliate aff corporation.id (bound_of char_id r))
  ]

  pub bind_with : ℕ → Affiliation → Action F (Bound F)
  unfolding get_character finish_bound
  bind_with char_id aff = do r ← attempt (get_character char_id); finish_bound char_id aff r

  -- bindAffiliation
  unfoldable pub bind_affiliation : ℕ → List Affiliation → Action F (Bound F)
  unfolding get_affiliation bind_with
  bind_affiliation char_id affiliations = elim (get_affiliation char_id affiliations) [
    | ok aff ↦ bind_with char_id aff
    | err e ↦ fail e
    | panic ↦ crash
  ]

  abbrev pub no_batch : Batch F
  no_batch = record { fresh = []; updated = []; all = [] }

  -- `allCharacters = append(allCharacters, charID)` and the append to one of the two slices
  unfoldable pub enlist : ℕ → Batch F → Bound F → Batch F
  enlist char_id s b =
      if b.is_new
      then record s { fresh = s.fresh ++ b.row ∷ []; all = s.all ++ char_id ∷ [] }
      else record s { updated = s.updated ++ b.row ∷ []; all = s.all ++ char_id ∷ [] }

  -- the body of the inner loop: a character is bound when it is first met
  unfoldable pub meet : List Affiliation → ℕ → Batch F → Action F (Batch F)
  unfolding bind_affiliation enlist
  meet affiliations char_id s =
      if elem char_id s.all
      then pure s
      else do b ← bind_affiliation char_id affiliations; pure (enlist char_id s b)

  -- the call of addToTotals or removeFromTotals
  pub enter_totals : Bool → Donation F → Batch F → Batch F
  unfolding add_to_totals remove_from_totals
  enter_totals addition d s =
      if addition
      then record s { fresh = add_to_totals d s.fresh; updated = add_to_totals d s.updated }
      else record s {
        fresh = remove_from_totals d s.fresh;
        updated = remove_from_totals d s.updated;
      }

  enter_recipient : List Affiliation → Bool → Donation F → Batch F → Action F (Batch F)
  unfolding meet enter_totals
  enter_recipient affiliations addition d s = do
    s' ← meet affiliations d.recipient s
    pure (enter_totals addition d s')

  -- the body of the outer loop of SaveCharacterDonations
  unfoldable pub enter_donation :
      List Affiliation → Bool → Donation F → Batch F → Action F (Batch F)
  unfolding meet enter_recipient
  enter_donation affiliations addition d s = do
    s' ← meet affiliations d.donator s
    enter_recipient affiliations addition d s'

  unfoldable pub enter_donations :
      List Affiliation → Bool → List (Donation F) → Batch F → Action F (Batch F)
  unfolding enter_donation
  enter_donations affiliations addition [] s = pure s
  enter_donations affiliations addition (d ∷ ds) s = do
    s' ← enter_donation affiliations addition d s
    enter_donations affiliations addition ds s'

  -- the body of the outer loop of SaveCharacterContracts, which skips what is not accepted
  unfoldable pub enter_contract :
      List Affiliation → Bool → Contract F → Batch F → Action F (Batch F)
  unfolding meet add_to_contract_totals remove_from_contract_totals
  enter_contract affiliations addition k s =
      if k.accepted
      then (do
        s₁ ← meet affiliations k.donator s
        s₂ ← meet affiliations k.receiver s₁
        pure (
            if addition
            then record s₂ {
              fresh = add_to_contract_totals k s₂.fresh;
              updated = add_to_contract_totals k s₂.updated;
            }
            else record s₂ {
              fresh = remove_from_contract_totals k s₂.fresh;
              updated = remove_from_contract_totals k s₂.updated;
            }))
      else pure s

  unfoldable pub enter_contracts :
      List Affiliation → Bool → List (Contract F) → Batch F → Action F (Batch F)
  unfolding enter_contract
  enter_contracts affiliations addition [] s = pure s
  enter_contracts affiliations addition (k ∷ ks) s = do
    s' ← enter_contract affiliations addition k s
    enter_contracts affiliations addition ks s'

  -- a loop of saveCharacters, which goes on after a failure and notes the id
  pub save_each :
      (CharacterRow F → Action F (Unit {0})) → List (CharacterRow F) → List ℕ → Action F (List ℕ)
  save_each save [] failed = pure failed
  save_each save (c ∷ cs) failed = do
    r ← attempt (save c)
    save_each save cs (elim r [ ok _ ↦ failed | err _ ↦ failed ++ c.id ∷ [] | panic ↦ failed ])

  abbrev report_failed : List ℕ → Action F (Unit {0})
  report_failed [] = pure tt
  report_failed (id ∷ ids) = fail (failed_characters (id ∷ ids))

  -- saveCharacters
  unfoldable pub save_characters : Batch F → Action F (Unit {0})
  unfolding save_each new_character update_character
  save_characters s = do
    failed ← save_each new_character s.fresh []
    failed' ← save_each update_character s.updated failed
    report_failed failed'

  -- SaveCharacterDonations
  unfoldable pub save_character_donations :
      List (Donation F) → List Affiliation → Bool → Action F (Unit {0})
  unfolding enter_donations save_characters
  save_character_donations donations affiliations addition = do
    s ← enter_donations affiliations addition donations no_batch
    save_characters s

  -- SaveCharacterContracts
  unfoldable pub save_character_contracts :
      List (Contract F) → List Affiliation → Bool → Action F (Unit {0})
  unfolding enter_contracts save_characters
  save_character_contracts contracts affiliations addition = do
    s ← enter_contracts affiliations addition contracts no_batch
    save_characters s
