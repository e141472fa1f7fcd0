-- ===== src/Examples/Totals.antt =====
-- The theorems on totals and rows at the gifts between the characters 7 and 8.
use esi_isk.Base.{◌≡◌, refl, true, [], ◌∷◌, map, arith}
use esi_isk.Base.Int.{ℤ, pos}
use esi_isk.Db.Store.{Db, ok}
use esi_isk.Db.Store.Laws.{SameTables}
use esi_isk.Db.Totals.Laws.{
  IsEntered, HasCounters, gift_of_donation, gift_of_contract, add_all, add_all-IsEntered,
  add_all_contracts, add_all_contracts-IsEntered,
}
use esi_isk.Db.Totals.Prune.{AreWorth, whole, remove_all, remove_all-add_all}
use esi_isk.Db.Characters.{Batch, no_batch, enter_donations, get_affiliation}
use esi_isk.Db.Characters.Meeting.{IsBatch}
use esi_isk.Db.Characters.Success.{Resolves, enter_donations_total}
use esi_isk.Db.Characters.Rows.{to_row, to_character, round2, to_row-to_character}
use esi_isk.Examples.Cents.{cents, cents-KeepsWhole}
use esi_isk.Examples.Data.{gifts, contract_of_7_to_8, row_of_8, affiliations, tables, name_of}

row_of_8-HasCounters : HasCounters row_of_8
row_of_8-HasCounters = ground arith

add_all-IsEntered_example : IsEntered (map gift_of_donation gifts) row_of_8 (add_all gifts row_of_8)
add_all-IsEntered_example = add_all-IsEntered gifts row_of_8 row_of_8-HasCounters

add_all_contracts-IsEntered_example :
    IsEntered
      (map gift_of_contract (contract_of_7_to_8 ∷ []))
      row_of_8
      (add_all_contracts (contract_of_7_to_8 ∷ []) row_of_8)
add_all_contracts-IsEntered_example =
    add_all_contracts-IsEntered (contract_of_7_to_8 ∷ []) row_of_8 row_of_8-HasCounters

gifts-AreWorth : AreWorth (map gift_of_donation gifts) 5200
unfolding cents
gifts-AreWorth = (5000, 200, refl, (200, 0, refl, refl, refl), refl)

row_of_8-donated_whole : row_of_8.donated_isk_30 ≡ whole 300
unfolding cents
row_of_8-donated_whole = refl

row_of_8-received_whole : row_of_8.received_isk_30 ≡ whole 0
unfolding cents
row_of_8-received_whole = refl

remove_all-add_all_example :
    remove_all gifts (add_all gifts row_of_8) ≡ record (add_all gifts row_of_8) {
      donated_30 = 1;
      received_30 = 0;
      donated_isk_30 = pos 300;
      received_isk_30 = pos 0;
    }
remove_all-add_all_example =
    remove_all-add_all cents-KeepsWhole gifts row_of_8 300 0 5200 row_of_8-HasCounters
      gifts-AreWorth row_of_8-donated_whole row_of_8-received_whole (omega arith) (omega arith)

to_row-to_character_example : to_row (to_character row_of_8) ≡ record row_of_8 {
  received_isk = round2 (pos 0);
  received_isk_30 = round2 (pos 0);
  donated_isk = round2 (pos 300);
  donated_isk_30 = round2 (pos 300);
}
to_row-to_character_example = to_row-to_character row_of_8 refl refl

pub seven : Resolves affiliations 7
unfolding get_affiliation
seven = (_, name_of 90 "Corp", refl, refl)

pub eight : Resolves affiliations 8
unfolding get_affiliation
eight = (_, name_of 91 "Other", refl, refl)

enter_donations_total_example :
    (s : Batch ℤ) × (w' : Db ℤ) × (enter_donations affiliations true gifts no_batch tables
      ≡ (ok s, w'))
    × IsBatch tables.characters affiliations gifts s
    × SameTables tables w'
enter_donations_total_example =
    enter_donations_total affiliations gifts tables ((seven, eight), ((eight, seven), tt))
