-- ===== src/Db/Totals.antt =====
-- The totals of a character row: addToTotals and removeFromTotals of isk/db/character.go, and
-- addToContractTotals and removeFromContractTotals of isk/db/contract.go. The source walks over
-- slices of pointers; every id has one row, so a walk maps a function over each list.
pub mod Laws
pub mod Prune
use esi_isk.Base.{ℕ, ltb, ◌==◌, if◌then◌else◌, Bool, true, false, not, ◌||◌, List, [], ◌∷◌, map}
use esi_isk.Base.Word.{inc64, dec64}
use esi_isk.Base.Float.{Float64}
use esi_isk.Db.Types.{NullTime, Donation, Contract, CharacterRow}

-- `if !last.Valid || last.Time.Before(t) { last = pq.NullTime{Time: t, Valid: true} }`
unfoldable pub latest : NullTime → ℕ → NullTime
latest last t =
    if not last.valid || ltb last.time t then record { time = t; valid = true } else last

module _ {F : Type 0} ⦃f : Float64 F⦄ where
  open f use {add, sub}

  -- the body of the loop of addToTotals
  unfoldable pub add_to_row : Donation F → CharacterRow F → CharacterRow F
  unfolding latest inc64
  add_to_row donation char =
      if char.id == donation.donator
      then record char {
        donated_isk = add char.donated_isk donation.amount;
        donated = inc64 char.donated;
        donated_isk_30 = add char.donated_isk_30 donation.amount;
        donated_30 = inc64 char.donated_30;
        last_donated = latest char.last_donated donation.timestamp;
      }
      else if char.id == donation.recipient
      then record char {
        received_isk = add char.received_isk donation.amount;
        received = inc64 char.received;
        received_isk_30 = add char.received_isk_30 donation.amount;
        received_30 = inc64 char.received_30;
        last_received = latest char.last_received donation.timestamp;
      }
      else char

  -- addToTotals, on one of the slices
  unfoldable pub add_to_totals : Donation F → List (CharacterRow F) → List (CharacterRow F)
  unfolding add_to_row
  add_to_totals donation chars = map (add_to_row donation) chars

  -- the body of the loop of removeFromTotals
  unfoldable pub remove_from_row : Donation F → CharacterRow F → CharacterRow F
  unfolding dec64
  remove_from_row donation char =
      if char.id == donation.donator
      then record char {
        donated_isk_30 = sub char.donated_isk_30 donation.amount;
        donated_30 = dec64 char.donated_30;
      }
      else if char.id == donation.recipient
      then record char {
        received_isk_30 = sub char.received_isk_30 donation.amount;
        received_30 = dec64 char.received_30;
      }
      else char

  -- removeFromTotals, on one of the slices
  unfoldable pub remove_from_totals : Donation F → List (CharacterRow F) → List (CharacterRow F)
  unfolding remove_from_row
  remove_from_totals donation chars = map (remove_from_row donation) chars

  -- the body of the loop of addToContractTotals
  unfoldable pub add_contract_to_row : Contract F → CharacterRow F → CharacterRow F
  unfolding latest inc64
  add_contract_to_row contract char =
      if char.id == contract.donator
      then record char {
        donated_isk = add char.donated_isk contract.value;
        donated = inc64 char.donated;
        donated_isk_30 = add char.donated_isk_30 contract.value;
        donated_30 = inc64 char.donated_30;
        last_donated = latest char.last_donated contract.issued;
      }
      else if char.id == contract.receiver
      then record char {
        received_isk = add char.received_isk contract.value;
        received = inc64 char.received;
        received_isk_30 = add char.received_isk_30 contract.value;
        received_30 = inc64 char.received_30;
        last_received = latest char.last_received contract.issued;
      }
      else char

  -- addToContractTotals, on one of the slices
  unfoldable pub add_to_contract_totals : Contract F → List (CharacterRow F) → List (CharacterRow F)
  unfolding add_contract_to_row
  add_to_contract_totals contract chars = map (add_contract_to_row contract) chars

  -- the body of the loop of removeFromContractTotals
  unfoldable pub remove_contract_from_row : Contract F → CharacterRow F → CharacterRow F
  unfolding dec64
  remove_contract_from_row contract char =
      if char.id == contract.donator
      then record char {
        donated_isk_30 = sub char.donated_isk_30 contract.value;
        donated_30 = dec64 char.donated_30;
      }
      else if char.id == contract.receiver
      then record char {
        received_isk_30 = sub char.received_isk_30 contract.value;
        received_30 = dec64 char.received_30;
      }
      else char

  -- removeFromContractTotals, on one of the slices
  unfoldable pub remove_from_contract_totals :
      Contract F → List (CharacterRow F) → List (CharacterRow F)
  unfolding remove_contract_from_row
  remove_from_contract_totals contract chars = map (remove_contract_from_row contract) chars
