-- ===== src/Worker/Maint.antt =====
-- isk/worker/maint.go: what is older than thirty days leaves the tables and the 30-day totals. An
-- error is logged, and the work goes on as it does there; a panic ends the worker.
pub mod Laws
use esi_isk.Base.{ℕ, Bool, false, List, [], ◌∷◌}
use esi_isk.Base.Float.{Float64}
use esi_isk.Db.Types.{Donation, Contract}
use esi_isk.Db.Store.{Result, ok, err, panic, Action, pure, crash, ◌>>=◌, ◌>>◌, attempt}
use esi_isk.Db.Preferences.{return}
use esi_isk.Db.Characters.{save_character_donations, save_character_contracts}
use esi_isk.Db.Contracts.{get_stale_contracts, prune_contract}
use esi_isk.Db.Donations.{get_stale_donations, prune_donation}
use esi_isk.Worker.Esi.{Directory}
use esi_isk.Worker.Names.{get_names, get_contract_names}

module _ {F : Type 0} where
  -- the loop of pruneDonations
  unfoldable pub prune_each_donation : List (Donation F) → Action F (Unit {0})
  unfolding prune_donation
  prune_each_donation [] = pure tt
  prune_each_donation (donation ∷ donations) = do
    attempt (prune_donation donation)
    prune_each_donation donations

  -- the loop of pruneContracts
  unfoldable pub prune_each_contract : List (Contract F) → Action F (Unit {0})
  unfolding prune_contract
  prune_each_contract [] = pure tt
  prune_each_contract (contract ∷ contracts) = do
    attempt (prune_contract contract)
    prune_each_contract contracts

module _ {F : Type 0} ⦃f : Float64 F⦄ (esi : Directory) where
  -- the end of pruneDonations
  deduct_donations : List (Donation F) → Action F (Unit {0})
  unfolding get_names save_character_donations
  deduct_donations [] = pure tt
  deduct_donations (d ∷ ds) = do
    aff ← return (get_names esi (d ∷ ds))
    attempt (save_character_donations (d ∷ ds) aff false)
    pure tt

  prune_found_donations : Result (List (Donation F)) → Action F (Unit {0})
  unfolding prune_each_donation deduct_donations
  prune_found_donations (ok donations) = do
    prune_each_donation donations
    deduct_donations donations
  prune_found_donations (err _) = pure tt
  prune_found_donations panic = crash

  -- pruneDonations
  unfoldable pub prune_donations : Action F (Unit {0})
  unfolding get_stale_donations prune_found_donations
  prune_donations = do found ← attempt get_stale_donations; prune_found_donations found

  -- the end of pruneContracts
  deduct_contracts : List (Contract F) → Action F (Unit {0})
  unfolding get_contract_names save_character_contracts
  deduct_contracts [] = pure tt
  deduct_contracts (c ∷ cs) = do
    aff ← return (get_contract_names esi (c ∷ cs))
    attempt (save_character_contracts (c ∷ cs) aff false)
    pure tt

  prune_found_contracts : Result (List (Contract F)) → Action F (Unit {0})
  unfolding prune_each_contract deduct_contracts
  prune_found_contracts (ok contracts) = do
    prune_each_contract contracts
    deduct_contracts contracts
  prune_found_contracts (err _) = pure tt
  prune_found_contracts panic = crash

  -- pruneContracts
  unfoldable pub prune_contracts : Action F (Unit {0})
  unfolding get_stale_contracts prune_found_contracts
  prune_contracts = do found ← attempt get_stale_contracts; prune_found_contracts found
