-- ===== src/Worker/Contracts/Laws.antt =====
-- What parseForZeroISK of isk/worker/contracts.go finds in a list of contracts.
use esi_isk.Base.{
  ℕ, suc, ◌≤◌, ◌≡◌, refl, Bool, false, not, ◌&&◌, List, [], ◌∷◌, keep, take_while, elem, ◌==◌,
  str_eq, if◌then◌else◌, Bool-cases, inl, inr, arith,
}
use esi_isk.Base.Float.{Float64}
use esi_isk.Db.Types.{User}
use esi_isk.Worker.Esi.{EsiContract}
use esi_isk.Worker.Contracts.{
  is_zero_isk, updated_by, parse_from, parse_for_zero_isk, set_last_contract_id,
}

-- how often a number is in a list
abbrev pub count : ℕ → List ℕ → ℕ
count i [] = 0
count i (j ∷ l) = if j == i then suc (count i l) else count i l

module _ {F : Type 0} where
  -- the contracts from the last known one on
  abbrev pub from_last : ℕ → List (EsiContract F) → List (EsiContract F)
  from_last prev_id [] = []
  from_last prev_id (c ∷ cs) = if c.contract_id == prev_id then c ∷ cs else from_last prev_id cs

  updated_by_none :
      (c : EsiContract F) (ids : List ℕ)
      → count c.contract_id ids ≡ 0
      → (updated_by c ids ≡ []) × (elem c.contract_id ids ≡ false)
  unfolding updated_by
  updated_by_none c [] h = (refl, refl)
  updated_by_none c (id ∷ ids) h = ground (arith, updated_by_none c ids)

  -- A contract that is outstanding once is updated once.
  updated_by-eq :
      (c : EsiContract F) (ids : List ℕ)
      → count c.contract_id ids ≤ 1
      → updated_by c ids
        ≡ (if elem c.contract_id ids && not (str_eq c.status "outstanding") then c ∷ [] else [])
  unfolding updated_by
  updated_by-eq c [] h = refl
  updated_by-eq c (id ∷ ids) h = elim (Bool-cases (id == c.contract_id)) [
    | inl e ↦ let none_left = updated_by_none c ids (ground arith) in ground arith
    | inr e ↦ let rest = updated_by-eq c ids (ground arith) in ground arith
  ]

module _ {F : Type 0} ⦃f : Float64 F⦄ where
  -- a free contract that was outstanding and is so no more
  abbrev pub has_changed : List ℕ → EsiContract F → Bool
  has_changed outstanding c =
      is_zero_isk c && (elem c.contract_id outstanding && not (str_eq c.status "outstanding"))

  parse_from_known :
      (prev_id : ℕ) (outstanding : List ℕ) (cs : List (EsiContract F))
      → ((i : ℕ) → count i outstanding ≤ 1)
      → parse_from prev_id outstanding false cs ≡ ([], keep (has_changed outstanding) cs)
  unfolding parse_from
  parse_from_known prev_id outstanding [] h = refl
  parse_from_known prev_id outstanding (c ∷ cs) h =
      let rest = parse_from_known prev_id outstanding cs h in
      let here = updated_by-eq c outstanding (h c.contract_id) in
      elim (Bool-cases (is_zero_isk c)) [
        | inl e ↦
            elim (Bool-cases
              (elem c.contract_id outstanding && not (str_eq c.status "outstanding"))) [
                | inl k ↦ ground arith
                | inr k ↦ ground arith
              ]
        | inr e ↦ ground arith
      ]

  -- parseForZeroISK splits a list of contracts at the last known one: the new contracts are the free
  -- exchanges of items before it, and the updates are those from it on that were outstanding and are
  -- so no more. No contract is outstanding twice.
  pub parse_for_zero_isk-eq :
      (cs : List (EsiContract F)) (prev_id : ℕ) (outstanding : List ℕ)
      → ((i : ℕ) → count i outstanding ≤ 1)
      → parse_for_zero_isk cs prev_id outstanding ≡ (
        keep (λ c. is_zero_isk c) (take_while (λ c. not (c.contract_id == prev_id)) cs),
        keep (has_changed outstanding) (from_last prev_id cs),
      )
  unfolding parse_for_zero_isk parse_from
  parse_for_zero_isk-eq [] prev_id outstanding h = refl
  parse_for_zero_isk-eq (c ∷ cs) prev_id outstanding h =
      elim (Bool-cases (c.contract_id == prev_id)) [
        | inl e ↦ let known = parse_from_known prev_id outstanding (c ∷ cs) h in ground arith
        | inr e ↦ let rest = parse_for_zero_isk-eq cs prev_id outstanding h in ground arith
      ]

  -- After setLastContractID saw a sorted list that is not empty, parseForZeroISK finds no new contract
  -- in any list that starts with the same one, whatever follows it. No contract is outstanding twice.
  pub parse_for_zero_isk-set_last_contract_id :
      (oldest : EsiContract F) (cs more : List (EsiContract F)) (user : User) (outstanding : List ℕ)
      → ((i : ℕ) → count i outstanding ≤ 1)
      → (parse_for_zero_isk
          (oldest ∷ more)
          (set_last_contract_id (oldest ∷ cs) user).last_contract_id.int64
          outstanding).0
        ≡ []
  unfolding set_last_contract_id
  parse_for_zero_isk-set_last_contract_id oldest cs more user outstanding h =
      let split = parse_for_zero_isk-eq (oldest ∷ more) oldest.contract_id outstanding h in
      ground arith
