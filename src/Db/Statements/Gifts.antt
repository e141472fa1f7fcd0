-- ===== src/Db/Statements/Gifts.antt =====
-- The statements on the tables `donations`, `contracts` and `contractItems`.
use esi_isk.Base.{ℕ, ◌+◌, ◌*◌, true, not, ◌&&◌, List, [], take, keep, ltb, ◌==◌, if◌then◌else◌}
use esi_isk.Db.Types.{Donation, Contract, Item}
use esi_isk.Db.Store.{ok, err, panic, Action, query, execute}
use esi_isk.Db.Statements.Tables.{insert_by, update_by, delete_by}

-- INTERVAL '30 days', in nanoseconds
abbrev pub thirty_days : ℕ
thirty_days = 30 * 24 * 3600 * 1000000000

module _ {F : Type 0} where
  abbrev pub donation_key : Donation F → ℕ
  donation_key d = d.id

  abbrev pub contract_key : Contract F → ℕ
  contract_key c = c.id

  -- StmtCharDonations
  unfoldable pub stmt_char_donations : ℕ → Action F (List (Donation F))
  stmt_char_donations id = query (λ w. keep (λ d. d.recipient == id) w.donations)

  -- StmtCharContracts
  unfoldable pub stmt_char_contracts : ℕ → Action F (List (Contract F))
  stmt_char_contracts id = query (λ w. keep (λ c. c.receiver == id) w.contracts)

  -- StmtCharDonated
  unfoldable pub stmt_char_donated : ℕ → Action F (List (Donation F))
  stmt_char_donated id = query (λ w. keep (λ d. d.donator == id) w.donations)

  -- StmtCharContracted
  unfoldable pub stmt_char_contracted : ℕ → Action F (List (Contract F))
  stmt_char_contracted id = query (λ w. keep (λ c. c.donator == id) w.contracts)

  -- StmtContractItems, with its LIMIT 1
  unfoldable pub stmt_contract_items : ℕ → Action F (List Item)
  stmt_contract_items id = query (λ w. take 1 (keep (λ i. i.contract_id == id) w.contract_items))

  -- StmtCharStandingISK: the donations of a character to the owning character
  unfoldable pub stmt_char_standing_isk : ℕ → ℕ → Action F (List (Donation F))
  stmt_char_standing_isk owner id =
      query (λ w. keep (λ d. d.recipient == owner && d.donator == id) w.donations)

  -- StmtAddDonation
  unfoldable pub stmt_add_donation : Donation F → Action F (Unit {0})
  unfolding insert_by
  stmt_add_donation d = execute λ w. elim (insert_by donation_key d w.donations) [
    | ok rows ↦ ok (record w { donations = rows })
    | err e ↦ err e
    | panic ↦ panic
  ]

  -- StmtAddContract: the items go to a table of their own
  unfoldable pub stmt_add_contract : Contract F → Action F (Unit {0})
  unfolding insert_by
  stmt_add_contract c = execute λ w.
      elim (insert_by contract_key (record c { items = [] }) w.contracts) [
        | ok rows ↦ ok (record w { contracts = rows })
        | err e ↦ err e
        | panic ↦ panic
      ]

  -- StmtAddContractItems
  unfoldable pub stmt_add_contract_items : Item → Action F (Unit {0})
  unfolding insert_by
  stmt_add_contract_items i = execute λ w.
      elim (insert_by (λ (j : Item). j.id) i w.contract_items) [
        | ok rows ↦ ok (record w { contract_items = rows })
        | err e ↦ err e
        | panic ↦ panic
      ]

  -- StmtGetOutstandingContracts
  unfoldable pub stmt_get_outstanding_contracts : ℕ → Action F (List (Contract F))
  stmt_get_outstanding_contracts id =
      query (λ w. take 100 (keep (λ c. not c.accepted && c.receiver == id) w.contracts))

  -- StmtAcceptContract
  unfoldable pub stmt_accept_contract : ℕ → ℕ → Action F (Unit {0})
  unfolding update_by
  stmt_accept_contract contract_id character_id = execute λ w. ok (record w {
    contracts =
        update_by contract_key contract_id
          (λ c. if c.receiver == character_id then record c { accepted = true } else c) w.contracts;
  })

  -- StmtGetStaleContracts
  unfoldable pub stmt_get_stale_contracts : Action F (List (Contract F))
  stmt_get_stale_contracts =
      query (λ w. take 100 (keep (λ c. ltb (c.issued + thirty_days) w.now) w.contracts))

  -- StmtGetStaleDonations
  unfoldable pub stmt_get_stale_donations : Action F (List (Donation F))
  stmt_get_stale_donations =
      query (λ w. take 100 (keep (λ d. ltb (d.timestamp + thirty_days) w.now) w.donations))

  -- StmtRemoveContract
  unfoldable pub stmt_remove_contract : ℕ → Action F (Unit {0})
  unfolding delete_by
  stmt_remove_contract id =
      execute λ w. ok (record w { contracts = delete_by contract_key id w.contracts })

  -- StmtRemoveContractItems
  unfoldable pub stmt_remove_contract_items : ℕ → Action F (Unit {0})
  unfolding delete_by
  stmt_remove_contract_items id = execute λ w.
      ok (record w { contract_items = delete_by (λ (i : Item). i.contract_id) id w.contract_items })

  -- StmtRemoveDonation
  unfoldable pub stmt_remove_donation : ℕ → Action F (Unit {0})
  unfolding delete_by
  stmt_remove_donation id =
      execute λ w. ok (record w { donations = delete_by donation_key id w.donations })
