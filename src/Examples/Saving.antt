-- ===== src/Examples/Saving.antt =====
-- The theorems on whole batches at the gifts and contracts between the characters 7 and 8.
use esi_isk.Base.{ℕ, ◌+◌, ◌≤◌, ◌≡◌, refl, true, false, List, [], ◌∷◌, arith}
use esi_isk.Base.Int.{ℤ}
use esi_isk.Db.Types.{CharacterRow, Contract}
use esi_isk.Db.Store.{ok}
use esi_isk.Db.Statements.Tables.{find_by}
use esi_isk.Db.Statements.Characters.{char_key}
use esi_isk.Db.Characters.{
  Batch, save_characters, save_character_donations, save_character_contracts,
}
use esi_isk.Db.Characters.Contracts.{accepted_donations, save_character_contracts-eq}
use esi_isk.Db.Characters.Meeting.{IsBatch, occurs}
use esi_isk.Db.Characters.Creating.{IsPresent, written}
use esi_isk.Db.Characters.Saving.{save_characters-written}
use esi_isk.Db.Characters.Known.{IsNamedRow}
use esi_isk.Db.Characters.Complete.{save_character_donations-written}
use esi_isk.Examples.Cents.{cents}
use esi_isk.Examples.Data.{gifts, contract_of_7_to_8, row_of_8, affiliations, tables, name_of}
use esi_isk.Examples.Totals.{seven, eight}

-- a contract that was accepted, and one that was not
abbrev contracts : List (Contract ℤ)
contracts = contract_of_7_to_8 ∷ record contract_of_7_to_8 { id = 4; accepted = false } ∷ []

save_character_contracts-eq_example :
    save_character_contracts contracts affiliations true tables
    ≡ save_character_donations (accepted_donations contracts) affiliations true tables
save_character_contracts-eq_example = save_character_contracts-eq contracts affiliations true tables

abbrev row_of_7 : CharacterRow ℤ
row_of_7 = record row_of_8 { id = 7 }

-- a new row and an updated one
abbrev two_rows : Batch ℤ
two_rows = record { fresh = row_of_7 ∷ []; updated = row_of_8 ∷ []; all = 7 ∷ 8 ∷ [] }

two_rows_once : (i : ℕ) → occurs i two_rows.fresh + occurs i two_rows.updated ≤ 1
two_rows_once i = ground arith

row_of_8-IsPresent : IsPresent tables.characters row_of_8
row_of_8-IsPresent = (row_of_8, refl)

save_characters-written_example :
    (rows : List (CharacterRow ℤ)) × (n : ℕ) × (save_characters two_rows tables
      ≡ (ok tt, record tables { characters = rows; calls = n }))
    × ((i : ℕ)
        → find_by char_key i rows
          ≡ written two_rows.updated i
              (written two_rows.fresh i (find_by char_key i tables.characters)))
save_characters-written_example =
    save_characters-written two_rows tables (λ n. refl) two_rows_once (refl, tt)
      (row_of_8-IsPresent, tt)

pub names_of_8 : IsNamedRow tables.names row_of_8
names_of_8 = ((name_of 8 "Eight", refl), ((name_of 90 "Corp", refl), tt))

save_character_donations-written_example :
    (s : Batch ℤ) × (rows : List (CharacterRow ℤ)) × (n : ℕ) × (save_character_donations gifts
        affiliations true tables
      ≡ (ok tt, record tables { characters = rows; calls = n }))
    × IsBatch tables.characters affiliations gifts s
    × ((i : ℕ)
        → find_by char_key i rows
          ≡ written s.updated i (written s.fresh i (find_by char_key i tables.characters)))
save_character_donations-written_example =
    save_character_donations-written affiliations gifts tables (λ n. refl) (names_of_8, tt)
      ((seven, eight), ((eight, seven), tt))
