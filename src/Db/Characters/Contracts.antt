-- ===== src/Db/Characters/Contracts.antt =====
-- SaveCharacterContracts of isk/db/character.go and contract.go against SaveCharacterDonations: the
-- source has the same code twice.
use esi_isk.Base.{
  ◌≡◌, refl, sym, ap, ◌∙◌, Bool, true, false, List, [], ◌∷◌, map, keep, Bool-cases, inl, inr, arith,
}
use esi_isk.Base.Float.{Float64}
use esi_isk.Db.Types.{Affiliation, Donation, Contract}
use esi_isk.Db.Store.{Db, ok}
use esi_isk.Db.Store.Laws.{>>=-ok, >>=-cong}
use esi_isk.Db.Totals.{
  add_to_row, remove_from_row, add_contract_to_row, remove_contract_from_row, add_to_totals,
  remove_from_totals, add_to_contract_totals, remove_from_contract_totals,
}
use esi_isk.Db.Totals.Laws.{as_donation}
use esi_isk.Db.Characters.{
  Batch, no_batch, enter_totals, enter_recipient, enter_donation, enter_donations, enter_contract,
  enter_contracts, save_characters, save_character_donations, save_character_contracts,
}

module _ {F : Type 0} ⦃f : Float64 F⦄ where
  -- The contracts that count, as the donations that they amount to.
  abbrev pub accepted_donations : List (Contract F) → List (Donation F)
  accepted_donations ks = map as_donation (keep (λ k. k.accepted) ks)

  enter_contract_accepted :
      (affs : List Affiliation) (addition : Bool) (k : Contract F) (s : Batch F) (w : Db F)
      → k.accepted ≡ true
      → enter_contract affs addition k s w ≡ enter_donation affs addition (as_donation k) s w
  unfolding enter_contract enter_donation enter_recipient enter_totals add_to_totals
      remove_from_totals add_to_contract_totals remove_from_contract_totals add_contract_to_row
      add_to_row remove_contract_from_row remove_from_row
  enter_contract_accepted affs true k s w e = rw e refl
  enter_contract_accepted affs false k s w e = rw e refl

  enter_contract_skipped :
      (affs : List Affiliation) (addition : Bool) (k : Contract F) (s : Batch F) (w : Db F)
      → k.accepted ≡ false
      → enter_contract affs addition k s w ≡ (ok s, w)
  unfolding enter_contract
  enter_contract_skipped affs addition k s w e = ground arith

  accepted_donations_kept :
      (k : Contract F) (ks : List (Contract F))
      → k.accepted ≡ true
      → accepted_donations (k ∷ ks) ≡ as_donation k ∷ accepted_donations ks
  accepted_donations_kept k ks e = ground arith

  accepted_donations_skipped :
      (k : Contract F) (ks : List (Contract F))
      → k.accepted ≡ false
      → accepted_donations (k ∷ ks) ≡ accepted_donations ks
  accepted_donations_skipped k ks e = ground arith

  enter_contracts-from :
      (affs : List Affiliation) (addition : Bool) (ks : List (Contract F)) (s : Batch F) (w : Db F)
      → enter_contracts affs addition ks s w
        ≡ enter_donations affs addition (accepted_donations ks) s w
  unfolding enter_contracts enter_donations
  enter_contracts-from affs addition [] s w = refl
  enter_contracts-from affs addition (k ∷ ks) s w = elim (Bool-cases k.accepted) [
    | inl e ↦
        >>=-cong (enter_contract affs addition k s) (enter_donation affs addition (as_donation k) s)
          (enter_contracts affs addition ks) (enter_donations affs addition (accepted_donations ks))
          w (enter_contract_accepted affs addition k s w e) (enter_contracts-from affs addition ks)
        ∙ ap (λ ds. enter_donations affs addition ds s w) (sym (accepted_donations_kept k ks e))
    | inr e ↦
        >>=-ok (enter_contract affs addition k s) (enter_contracts affs addition ks) w
          (enter_contract_skipped affs addition k s w e)
        ∙ enter_contracts-from affs addition ks s w
        ∙ ap (λ ds. enter_donations affs addition ds s w) (sym (accepted_donations_skipped k ks e))
  ]

  -- SaveCharacterContracts does to the tables, and answers, what SaveCharacterDonations does for the
  -- accepted contracts as donations of their values at the times of their issue: with additions and
  -- with removals, and whatever calls of the database fail.
  pub save_character_contracts-eq :
      (ks : List (Contract F)) (affs : List Affiliation) (addition : Bool) (w : Db F)
      → save_character_contracts ks affs addition w
        ≡ save_character_donations (accepted_donations ks) affs addition w
  unfolding save_character_contracts save_character_donations
  save_character_contracts-eq ks affs addition w =
      >>=-cong (enter_contracts affs addition ks no_batch)
        (enter_donations affs addition (accepted_donations ks) no_batch) save_characters
        save_characters w (enter_contracts-from affs addition ks no_batch w) (λ s w₁. refl)
