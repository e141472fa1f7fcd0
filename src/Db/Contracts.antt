-- ===== src/Db/Contracts.antt =====
-- isk/db/contract.go, but for the totals.
use esi_isk.Base.{ℕ, Bool, true, List, [], ◌∷◌, ltb, map}
use esi_isk.Base.Float.{Float64}
use esi_isk.Db.Types.{Affiliation, Contract, Item}
use esi_isk.Db.Store.{Action, pure, ◌>>=◌, ◌>>◌}
use esi_isk.Db.Statements.Gifts.{
  stmt_char_contracts, stmt_char_contracted, stmt_contract_items, stmt_add_contract,
  stmt_add_contract_items, stmt_get_outstanding_contracts, stmt_accept_contract,
  stmt_get_stale_contracts, stmt_remove_contract, stmt_remove_contract_items,
}
use esi_isk.Db.Characters.{save_character_contracts}
use esi_isk.Db.Characters.Rows.{round2}

module _ {F : Type 0} where
  -- Less of Contracts: the latest first
  abbrev pub later_contract : Contract F → Contract F → Bool
  later_contract a b = ltb b.issued a.issued

  -- GetContractItems, which returns the contracts that the source fills in
  unfoldable pub fill_contract_items : List (Contract F) → Action F (List (Contract F))
  unfolding stmt_contract_items
  fill_contract_items [] = pure []
  fill_contract_items (contract ∷ contracts) = do
    items ← stmt_contract_items contract.id
    rest ← fill_contract_items contracts
    pure (record contract { items = items } ∷ rest)

  -- saveContractItems: the column item_id is always 0
  unfoldable pub save_contract_items : List Item → Action F (Unit {0})
  unfolding stmt_add_contract_items
  save_contract_items [] = pure tt
  save_contract_items (item ∷ items) = do
    stmt_add_contract_items (record item { item_id = 0 })
    save_contract_items items

  -- SaveContract
  unfoldable pub save_contract : Contract F → Action F (Unit {0})
  unfolding stmt_add_contract save_contract_items
  save_contract contract = do stmt_add_contract contract; save_contract_items contract.items

  -- PruneContract
  unfoldable pub prune_contract : Contract F → Action F (Unit {0})
  unfolding stmt_remove_contract stmt_remove_contract_items
  prune_contract c = do stmt_remove_contract c.id; stmt_remove_contract_items c.id

  -- GetStaleContracts
  unfoldable pub get_stale_contracts : Action F (List (Contract F))
  unfolding stmt_get_stale_contracts
  get_stale_contracts = stmt_get_stale_contracts

  -- the loop of UpdateContracts
  unfoldable pub accept_contracts : List (Contract F) → Action F (Unit {0})
  unfolding stmt_accept_contract
  accept_contracts [] = pure tt
  accept_contracts (contract ∷ contracts) = do
    stmt_accept_contract contract.id contract.receiver
    accept_contracts contracts

-- `sort` is Go's sort.Sort over Contracts.
module _ {F : Type 0} ⦃f : Float64 F⦄ (sort : List (Contract F) → List (Contract F)) where
  -- getContracts, behind the query that its key names
  unfoldable pub get_contracts : Action F (List (Contract F)) → Action F (List (Contract F))
  unfolding round2 fill_contract_items
  get_contracts stmt = do
    rows ← stmt
    fill_contract_items (sort (map (λ (c : Contract F). record c { value = round2 c.value }) rows))

  -- getCharContracts
  unfoldable pub get_char_contracts : ℕ → Action F (List (Contract F))
  unfolding get_contracts stmt_char_contracts
  get_char_contracts char_id = get_contracts (stmt_char_contracts char_id)

  -- getCharContracted
  unfoldable pub get_char_contracted : ℕ → Action F (List (Contract F))
  unfolding get_contracts stmt_char_contracted
  get_char_contracted char_id = get_contracts (stmt_char_contracted char_id)

  -- GetOutstandingContracts
  unfoldable pub get_outstanding_contracts : ℕ → Action F (List ℕ)
  unfolding get_contracts stmt_get_outstanding_contracts
  get_outstanding_contracts c = do
    contracts ← get_contracts (stmt_get_outstanding_contracts c)
    pure (map (λ (k : Contract F). k.id) contracts)

module _ {F : Type 0} ⦃f : Float64 F⦄ where
  -- UpdateContracts
  unfoldable pub update_contracts : List (Contract F) → List Affiliation → Action F (Unit {0})
  unfolding save_character_contracts accept_contracts
  update_contracts contracts aff = do
    save_character_contracts contracts aff true
    accept_contracts contracts
