-- ===== src/Worker/Contracts.antt =====
-- isk/worker/contracts.go: contracts that give items for nothing. The market prices are what the
-- prices were when they were last fetched; `sort` is Go's sort.Sort, by the date of issue (Less).
pub mod Laws
pub mod Run
use esi_isk.Base.{
  ℕ, String, Bool, true, false, not, ◌&&◌, List, [], ◌∷◌, ◌++◌, map, Option, ltb, ◌==◌, str_eq,
  if◌then◌else◌,
}
use esi_isk.Base.Int.{ℤ, pos, ◌+ℤ◌}
use esi_isk.Base.Word.{int32}
use esi_isk.Base.Float.{Float64}
use esi_isk.Db.Types.{Contract, Item, User, Affiliation, NullInt64}
use esi_isk.Db.Store.{Result, ok, err, panic, Action, pure, fail, crash, ◌>>=◌, ◌>>◌}
use esi_isk.Db.Preferences.{return}
use esi_isk.Db.Contracts.{save_contract, update_contracts, get_outstanding_contracts}
use esi_isk.Db.Names.{save_names}
use esi_isk.Db.Characters.{save_character_contracts}
use esi_isk.Worker.Esi.{EsiContract, EsiItem, Pages, Directory}
use esi_isk.Worker.Names.{get_contract_names}
use esi_isk.Worker.Paging.{expand}

module _ {F : Type 0} where
  -- Less of zeroISKContracts
  abbrev pub issued_earlier : EsiContract F → EsiContract F → Bool
  issued_earlier a b = ltb a.date_issued b.date_issued

  -- knownContract, with getLastContractID
  unfoldable pub known_contract : List (EsiContract F) → User → Bool
  known_contract [] user = false
  known_contract (contract ∷ contracts) user =
      if user.last_contract_id.valid && contract.contract_id == user.last_contract_id.int64
      then true
      else known_contract contracts user

  -- expandContracts
  unfoldable pub expand_contracts :
      (String → Option ℤ) → Pages (EsiContract F) → Result (List (EsiContract F))
  unfolding expand
  expand_contracts parse_int32 pages = expand parse_int32 pages

  -- getContracts
  unfoldable pub get_contracts :
      (String → Option ℤ) → Pages (EsiContract F) → User → Result (List (EsiContract F))
  unfolding known_contract expand_contracts
  get_contracts parse_int32 pages user = elim pages.first [
    | ok entries ↦
        if known_contract entries user
        then ok entries
        else (elim (expand_contracts parse_int32 pages) [
          | ok additional ↦ ok (entries ++ additional)
          | err e ↦ err e
          | panic ↦ panic
        ])
    | err e ↦ err e
    | panic ↦ panic
  ]

  -- setLastContractID: the first contract, in the order of the sort
  unfoldable pub set_last_contract_id : List (EsiContract F) → User → User
  set_last_contract_id [] user = user
  set_last_contract_id (contract ∷ contracts) user = record user {
    last_contract_id = record { int64 = contract.contract_id; valid = true };
  }

  -- toDbContract: the value is 0 and there are no items
  unfoldable pub to_db_contract : F → EsiContract F → Contract F
  to_db_contract zero_value c = record {
    id = c.contract_id;
    donator = c.issuer_id;
    receiver = c.assignee_id;
    location = c.start_location_id;
    issued = c.date_issued;
    expires = c.date_expired;
    accepted = str_eq c.status "finished";
    value = zero_value;
    note = c.title;
    items = [];
  }

  -- the literal in getContractItems
  unfoldable pub to_items : EsiContract F → List EsiItem → List Item
  to_items contract items =
      map
        (λ (item : EsiItem). record {
          id = item.record_id;
          contract_id = contract.contract_id;
          type_id = item.type_id;
          quantity = item.quantity;
          item_id = 0;
        })
        items

  -- the innermost loop of parseForZeroISK: once for each time that the contract is outstanding
  unfoldable pub updated_by : EsiContract F → List ℕ → List (EsiContract F)
  updated_by contract [] = []
  updated_by contract (id ∷ outstanding) =
      let rest = updated_by contract outstanding in
      if id == contract.contract_id
      then (if not (str_eq contract.status "outstanding") then contract ∷ rest else rest)
      else rest

-- `itemQuantities[typeID] += quantity`, on int32
pub add_quantity : ℕ → ℤ → List (ℕ × ℤ) → List (ℕ × ℤ)
add_quantity type_id quantity [] = (type_id, int32 quantity) ∷ []
add_quantity type_id quantity ((id, sum) ∷ rest) =
    if id == type_id
    then (id, int32 (sum +ℤ quantity)) ∷ rest
    else (id, sum) ∷ add_quantity type_id quantity rest

-- the loop of getContractValue
pub quantities : List Item → List (ℕ × ℤ) → List (ℕ × ℤ)
unfolding add_quantity
quantities [] sums = sums
quantities (item ∷ items) sums = quantities items (add_quantity item.type_id item.quantity sums)

module _ {F : Type 0} ⦃f : Float64 F⦄ where
  open f use {zero_f, add, mul, of_int, eq}

  -- the price is 0 and the contract an exchange of items
  abbrev pub is_zero_isk : EsiContract F → Bool
  is_zero_isk contract = str_eq contract.kind "item_exchange" && eq contract.price zero_f

  -- the loop of parseForZeroISK, `new_contracts` being its flag
  unfoldable pub parse_from :
      ℕ → List ℕ → Bool → List (EsiContract F) → List (EsiContract F) × List (EsiContract F)
  unfolding updated_by
  parse_from prev_id outstanding new_contracts [] = ([], [])
  parse_from prev_id outstanding new_contracts (contract ∷ contracts) =
      let still_new = if contract.contract_id == prev_id then false else new_contracts in
      let (new, updated) = parse_from prev_id outstanding still_new contracts in
      if is_zero_isk contract
      then (if still_new
          then (contract ∷ new, updated)
          else (new, updated_by contract outstanding ++ updated))
      else (new, updated)

  -- parseForZeroISK
  unfoldable pub parse_for_zero_isk :
      List (EsiContract F) → ℕ → List ℕ → List (EsiContract F) × List (EsiContract F)
  unfolding parse_from
  parse_for_zero_isk contracts prev_id outstanding = parse_from prev_id outstanding true contracts

  -- marketPrices.value
  unfoldable pub value_of : (ℕ → F) → List (ℕ × ℤ) → F → F
  value_of prices [] sum = sum
  value_of prices ((type_id, quantity) ∷ items) sum =
      value_of prices items (add sum (mul (prices type_id) (of_int quantity)))

  -- getContractValue; `visit` is the order in which `range` goes through the map
  unfoldable pub get_contract_value : (List (ℕ × ℤ) → List (ℕ × ℤ)) → (ℕ → F) → List Item → F
  unfolding value_of quantities
  get_contract_value visit prices items = value_of prices (visit (quantities items [])) zero_f

  -- asDbContracts: a contract whose items cannot be fetched is passed over
  unfoldable pub as_new_contracts :
      (List (ℕ × ℤ) → List (ℕ × ℤ))
      → (ℕ → F)
      → (EsiContract F → Result (List EsiItem))
      → List (EsiContract F)
      → List (Contract F)
  unfolding get_contract_value to_db_contract to_items
  as_new_contracts visit prices items_of [] = []
  as_new_contracts visit prices items_of (contract ∷ contracts) =
      let rest = as_new_contracts visit prices items_of contracts in
      elim (items_of contract) [
        | ok items ↦
            record (to_db_contract zero_f contract) {
              value = get_contract_value visit prices (to_items contract items);
              items = to_items contract items;
            }
            ∷ rest
        | _ ↦ rest
      ]

  -- the second loop of asDbContracts
  unfoldable pub as_updates : List (EsiContract F) → List (Contract F)
  unfolding to_db_contract
  as_updates updates = map (to_db_contract zero_f) updates

  -- the first loop of saveContractRun
  unfoldable pub save_contracts : List (Contract F) → Action F (Unit {0})
  unfolding save_contract
  save_contracts [] = pure tt
  save_contracts (contract ∷ contracts) = do save_contract contract; save_contracts contracts

  -- saveContractRun
  unfoldable pub save_contract_run :
      List (Contract F) → List (Contract F) → List Affiliation → Action F (Unit {0})
  unfolding save_contracts update_contracts save_names save_character_contracts
  save_contract_run contracts updates affiliations = do
    save_contracts contracts
    update_contracts updates affiliations
    save_names affiliations
    save_character_contracts contracts affiliations true

  -- the ids that characterContracts returns
  unfoldable pub contract_ids : User → List (Contract F) → List ℕ
  contract_ids user [] = []
  contract_ids user (k ∷ ks) = user.character_id ∷ map (λ (x : Contract F). x.donator) (k ∷ ks)

  -- the end of characterContracts, with the new contracts and the updates
  unfoldable pub enter_run :
      Directory → User → List (Contract F) → List (Contract F) → Action F (List ℕ)
  unfolding get_contract_names save_contract_run contract_ids
  enter_run esi user donations updates = do
    affiliations ← return (get_contract_names esi donations)
    save_contract_run donations updates affiliations
    pure (contract_ids user donations)

  -- characterContracts: it returns the user with its new last contract, and the ids
  unfoldable pub character_contracts :
      (List (EsiContract F) → List (EsiContract F))
      → (List (Contract F) → List (Contract F))
      → (String → Option ℤ)
      → (List (ℕ × ℤ) → List (ℕ × ℤ))
      → (ℕ → F)
      → (EsiContract F → Result (List EsiItem))
      → Directory
      → Pages (EsiContract F)
      → User
      → Action F (User × List ℕ)
  unfolding get_contracts set_last_contract_id get_outstanding_contracts parse_for_zero_isk
      as_new_contracts as_updates enter_run
  character_contracts sort sort_db parse_int32 visit prices items_of esi pages user = do
    entries ← return (get_contracts parse_int32 pages user)
    outstanding ← get_outstanding_contracts sort_db user.character_id
    let parsed = parse_for_zero_isk (sort entries) user.last_contract_id.int64 outstanding
    ids ← enter_run esi user (as_new_contracts visit prices items_of parsed.0) (as_updates parsed.1)
    pure (set_last_contract_id (sort entries) user, ids)
