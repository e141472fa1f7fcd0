-- ===== src/Worker/Contracts/Run.antt =====
-- What saveContractRun of isk/worker/contracts.go writes: no contract is entered twice.
use esi_isk.Base.{
  ℕ, ◌≡◌, refl, sym, subst, ◌∙◌, true, List, [], ◌∷◌, map, elem, some, ◌==◌, inl, inr, Bool-cases,
  Option-cases, arith,
}
use esi_isk.Base.Float.{Float64}
use esi_isk.Db.Types.{Contract, Item, Affiliation}
use esi_isk.Db.Store.{Db, Result, ok, err, panic, Action, execute, call, ◌>>=◌, ◌>>◌}
use esi_isk.Db.Store.Laws.{>>=-ok, >>=-err}
use esi_isk.Db.Store.Calm.{IsCalm}
use esi_isk.Db.Statements.Tables.{find_by, insert_by, find_by-append_some}
use esi_isk.Db.Statements.Gifts.{stmt_add_contract, stmt_add_contract_items, contract_key}
use esi_isk.Db.Contracts.{save_contract, save_contract_items, update_contracts}
use esi_isk.Db.Names.{save_names}
use esi_isk.Db.Characters.{save_character_contracts}
use esi_isk.Worker.Contracts.{save_contracts, save_contract_run}
use esi_isk.Worker.Wallet.Run.{KeepsTotals, Fails, FailsCleanly}

module _ {F : Type 0} ⦃f : Float64 F⦄ where
  -- What storing contracts may do: totals, names and users stay, and no contract is lost.
  pub record Grows (w w' : Db F) : Type 0 where
    pub kept : KeepsTotals w w'
    pub found :
        (k : ℕ) (x : Contract F)
        → find_by contract_key k w.contracts ≡ some x
        → find_by contract_key k w'.contracts ≡ some x

  Stays : {A : Type 0} → Db F → Result A × Db F → Type 0
  Stays w r = IsCalm r × Grows w r.1

  Grows-trans : (a b c : Db F) → Grows a b → Grows b c → Grows a c
  Grows-trans a b c h g = record {
    kept = record {
      characters = g.kept.characters ∙ h.kept.characters;
      names = g.kept.names ∙ h.kept.names;
      users = g.kept.users ∙ h.kept.users;
    };
    found = λ k x e. g.found k x (h.found k x e);
  }

  >>=-Stays :
      {A B : Type 0} (m : Action F A) (k : A → Action F B) (w : Db F)
      → Stays w (m w)
      → ((a : A) (w₁ : Db F) → Stays w₁ (k a w₁))
      → Stays w ((m >>= k) w)
  unfolding Stays
  >>=-Stays {A} {B} m k w h next = go (m w) refl h
    where
      go : (p : Result A × Db F) → m w ≡ p → Stays w p → Stays w ((m >>= k) w)
      go (ok a, w₁) e s =
          let (calm, grows) = next a w₁ in
          subst (Stays w) (sym (>>=-ok m k w e)) (calm, Grows-trans w w₁ _ s.1 grows)
      go (err x, w₁) e s = subst (Stays w) (sym (>>=-err m k w e)) s
      go (panic, w₁) e s = absurd s.0

  stmt_add_contract_items-Stays : (i : Item) (w : Db F) → Stays w (stmt_add_contract_items i w)
  unfolding Stays stmt_add_contract_items execute call insert_by
  stmt_add_contract_items-Stays i w = elim (Bool-cases (w.answers w.calls)) [
    | inl up ↦ elim (Option-cases (find_by (λ (j : Item). j.id) i.id w.contract_items)) [
      | inl free ↦ rw (up, free) ground arith
      | inr (x, taken) ↦ rw (up, taken) ground arith
    ]
    | inr down ↦ rw down ground arith
  ]

  save_contract_items-Stays : (items : List Item) (w : Db F) → Stays w (save_contract_items items w)
  unfolding Stays save_contract_items
  save_contract_items-Stays [] w = ground arith
  save_contract_items-Stays (i ∷ items) w =
      >>=-Stays (stmt_add_contract_items (record i { item_id = 0 }))
        (λ _. save_contract_items items) w
        (stmt_add_contract_items-Stays (record i { item_id = 0 }) w)
        (λ _ w₁. save_contract_items-Stays items w₁)

  stmt_add_contract-Stays : (c : Contract F) (w : Db F) → Stays w (stmt_add_contract c w)
  unfolding Stays stmt_add_contract execute call insert_by
  stmt_add_contract-Stays c w = elim (Bool-cases (w.answers w.calls)) [
    | inl up ↦ elim (Option-cases (find_by contract_key c.id w.contracts)) [
      | inl free ↦
          rw (up, free)
            (
              tt,
              record {
                kept = ground arith;
                found = λ k x e. find_by-append_some contract_key k w.contracts _ x e;
              },
            )
      | inr (x, taken) ↦ rw (up, taken) ground arith
    ]
    | inr down ↦ rw down ground arith
  ]

  -- A contract that is stored already is refused.
  stmt_add_contract_taken :
      (c : Contract F) (w : Db F) (x : Contract F)
      → find_by contract_key c.id w.contracts ≡ some x
      → Fails (stmt_add_contract c w)
  unfolding stmt_add_contract execute call insert_by
  stmt_add_contract_taken c w x taken = elim (Bool-cases (w.answers w.calls)) [
    | inl up ↦ rw (up, taken) tt
    | inr down ↦ rw down tt
  ]

  save_contract-Stays : (c : Contract F) (w : Db F) → Stays w (save_contract c w)
  unfolding save_contract
  save_contract-Stays c w =
      >>=-Stays (stmt_add_contract c) (λ _. save_contract_items c.items) w
        (stmt_add_contract-Stays c w) (λ _ w₁. save_contract_items-Stays c.items w₁)

  >>=-Fails :
      {A B : Type 0} (m : Action F A) (k : A → Action F B) (w : Db F)
      → Fails (m w)
      → Fails ((m >>= k) w)
  >>=-Fails {A} {B} m k w h = go (m w) refl h
    where
      go : (p : Result A × Db F) → m w ≡ p → Fails p → Fails ((m >>= k) w)
      go (ok a, w₁) e f = absurd f
      go (err x, w₁) e f = subst Fails (sym (>>=-err m k w e)) tt
      go (panic, w₁) e f = absurd f

  save_contract_taken :
      (c : Contract F) (w : Db F) (x : Contract F)
      → find_by contract_key c.id w.contracts ≡ some x
      → Fails (save_contract c w)
  unfolding save_contract
  save_contract_taken c w x taken =
      >>=-Fails (stmt_add_contract c) (λ _. save_contract_items c.items) w
        (stmt_add_contract_taken c w x taken)

  save_contracts_again :
      (cs : List (Contract F)) (w : Db F) (k : ℕ) (x : Contract F)
      → find_by contract_key k w.contracts ≡ some x
      → elem k (map contract_key cs) ≡ true
      → FailsCleanly w (save_contracts cs w)
  unfolding Stays save_contracts
  save_contracts_again [] w k x found has = absurd (ground arith)
  save_contracts_again (c ∷ cs) w k x found has =
      go (save_contract c w) refl (save_contract-Stays c w)
        (λ e.
          save_contract_taken c w x
            (subst (λ (i : ℕ). find_by contract_key i w.contracts ≡ some x) e found))
        (λ w₁. save_contracts_again cs w₁ k x)
    where
      go :
          (p : Result (Unit {0}) × Db F)
          → save_contract c w ≡ p
          → IsCalm p × Grows w p.1
          → (k ≡ c.id → Fails (save_contract c w))
          → ((w₁ : Db F)
              → find_by contract_key k w₁.contracts ≡ some x
              → elem k (map contract_key cs) ≡ true
              → FailsCleanly w₁ (save_contracts cs w₁))
          → FailsCleanly w (save_contracts (c ∷ cs) w)
      go (ok u, w₁) eq s taken ih = elim (Bool-cases (k == c.id)) [
        | inl same ↦ absurd (subst Fails eq (taken (ground arith)))
        | inr other ↦
            let rest = ih w₁ (s.1.found k x found) (ground arith) in
            subst (FailsCleanly w) (sym (>>=-ok (save_contract c) (λ _. save_contracts cs) w eq)) (
              rest.0,
              record {
                characters = rest.1.characters ∙ s.1.kept.characters;
                names = rest.1.names ∙ s.1.kept.names;
                users = rest.1.users ∙ s.1.kept.users;
              },
            )
      ]
      go (err y, w₁) eq s taken ih =
          subst (FailsCleanly w) (sym (>>=-err (save_contract c) (λ _. save_contracts cs) w eq))
            (tt, s.1.kept)
      go (panic, w₁) eq s taken ih = absurd s.0

  -- A run over new contracts of which one has an id that is stored already ends with an error, and
  -- leaves the totals of the characters, the names and the users as they were: nothing is counted
  -- twice, and the run cannot succeed.
  pub save_contract_run_again :
      (cs updates : List (Contract F)) (affs : List Affiliation) (w : Db F) (k : ℕ) (x : Contract F)
      → find_by contract_key k w.contracts ≡ some x
      → elem k (map contract_key cs) ≡ true
      → FailsCleanly w (save_contract_run cs updates affs w)
  unfolding save_contract_run
  save_contract_run_again cs updates affs w k x found has =
      go (save_contracts cs w) refl (save_contracts_again cs w k x found has)
    where
      save_rest : Action F (Unit {0})
      save_rest =
          update_contracts updates affs
          >> (save_names affs >> save_character_contracts cs affs true)

      go :
          (p : Result (Unit {0}) × Db F)
          → save_contracts cs w ≡ p
          → FailsCleanly w p
          → FailsCleanly w (save_contract_run cs updates affs w)
      go (ok u, w₁) eq s = absurd s.0
      go (err y, w₁) eq s =
          subst (FailsCleanly w) (sym (>>=-err (save_contracts cs) (λ _. save_rest) w eq)) s
      go (panic, w₁) eq s = absurd s.0
