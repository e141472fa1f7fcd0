-- ===== src/Worker/Names.antt =====
-- isk/worker/names.go: who a character is, and to which corporation and alliance it belongs.
use esi_isk.Base.{
  ℕ, Bool, true, false, ◌&&◌, List, [], ◌∷◌, ◌++◌, none, some, ◌==◌, ltb, str_eq, if◌then◌else◌,
}
use esi_isk.Db.Types.{Name, Affiliation, Donation, Contract}
use esi_isk.Db.Store.{Result, ok, err, panic}
use esi_isk.Worker.Esi.{EsiName, Directory}

-- an id with its name; the id 0 means that the lookup failed
abbrev pub no_name : Name
no_name = record { id = 0; name = "" }

-- the loop of ResolveCorporation
pick_alliance : ℕ → List EsiName → Name
pick_alliance id [] = no_name
pick_alliance id (res ∷ rest) =
    if str_eq res.category "alliance" && res.id == id
    then record { id = id; name = res.name }
    else pick_alliance id rest

-- the loop of ResolveCharacter
pick_corporation : List EsiName → Name
pick_corporation [] = no_name
pick_corporation (res ∷ rest) =
    if str_eq res.category "corporation"
    then record { id = res.id; name = res.name }
    else pick_corporation rest

abbrev no_affiliation : Affiliation
no_affiliation = record { character = none; corporation = none; alliance = none }

module _ (esi : Directory) where
  -- ResolveCorporation
  unfoldable pub resolve_corporation : ℕ → Name
  unfolding pick_alliance
  resolve_corporation corp_id = elim (esi.corporation_alliance corp_id) [
    | ok alliance_id ↦
        if ltb 0 alliance_id
        then (elim (esi.universe_names (alliance_id ∷ [])) [
          | ok names ↦ pick_alliance alliance_id names
          | _ ↦ no_name
        ])
        else no_name
    | _ ↦ no_name
  ]

  -- ResolveCharacter
  unfoldable pub resolve_character : ℕ → Name
  unfolding pick_corporation
  resolve_character char_id = elim (esi.character_corporation char_id) [
    | ok corp_id ↦ elim (esi.universe_names (corp_id ∷ [])) [
      | ok names ↦ pick_corporation names
      | _ ↦ no_name
    ]
    | _ ↦ no_name
  ]

  -- `if allianceID > 0 { aff.Alliance = … }`
  with_alliance : Name → Affiliation → Affiliation
  with_alliance n aff = if ltb 0 n.id then record aff { alliance = some n } else aff

  -- the body of the loop of resolveNames
  unfoldable pub affiliate_name : EsiName → Affiliation → Affiliation
  unfolding resolve_corporation resolve_character with_alliance
  affiliate_name res aff =
      if str_eq res.category "corporation"
      then with_alliance (resolve_corporation res.id)
          (record aff { corporation = some (record { id = res.id; name = res.name }) })
      else if str_eq res.category "character"
      then (let known = record aff { character = some (record { id = res.id; name = res.name }) } in
          let corp = resolve_character res.id in
          if ltb 0 corp.id
          then with_alliance (resolve_corporation corp.id)
              (record known { corporation = some corp })
          else known)
      else aff

  affiliate_names : List EsiName → Affiliation → Affiliation
  unfolding affiliate_name
  affiliate_names [] aff = aff
  affiliate_names (res ∷ rest) aff = affiliate_names rest (affiliate_name res aff)

  -- resolveNames
  unfoldable pub resolve_names : ℕ → Result Affiliation
  unfolding affiliate_names
  resolve_names char_id = elim (esi.universe_names (char_id ∷ [])) [
    | ok names ↦ ok (affiliate_names names no_affiliation)
    | err e ↦ err e
    | panic ↦ panic
  ]

  -- one step of the search in getNames, which reads the id of a pointer that may be nil
  is_known_by : ℕ → Affiliation → Bool → Result Bool
  is_known_by char_id known so_far = elim known.character [
    | none ↦ panic
    | some c ↦ if c.id == char_id then ok true else (elim known.corporation [
      | none ↦ panic
      | some corp ↦ ok (if corp.id == char_id then true else so_far)
    ])
  ]

  -- the search in getNames and getContractNames
  unfoldable pub is_known : ℕ → List Affiliation → Bool → Result Bool
  unfolding is_known_by
  is_known char_id [] so_far = ok so_far
  is_known char_id (known ∷ rest) so_far = elim (is_known_by char_id known so_far) [
    | ok b ↦ is_known char_id rest b
    | err e ↦ err e
    | panic ↦ panic
  ]

  -- the body of the inner loop: an id that cannot be resolved is passed over
  unfoldable pub learn : ℕ → List Affiliation → Result (List Affiliation)
  unfolding is_known resolve_names
  learn char_id affs = elim (is_known char_id affs false) [
    | ok known ↦ if known then ok affs else (elim (resolve_names char_id) [
      | ok aff ↦ ok (affs ++ aff ∷ [])
      | err e ↦ ok affs
      | panic ↦ panic
    ])
    | err e ↦ err e
    | panic ↦ panic
  ]

  -- the loop over the ids of all donators and recipients, in order
  unfoldable pub learn_all : List ℕ → List Affiliation → Result (List Affiliation)
  unfolding learn
  learn_all [] affs = ok affs
  learn_all (id ∷ ids) affs = elim (learn id affs) [
    | ok affs' ↦ learn_all ids affs'
    | err e ↦ err e
    | panic ↦ panic
  ]

-- the ids that getNames goes through
pub donation_parties : {F : Type 0} → List (Donation F) → List ℕ
donation_parties [] = []
donation_parties (d ∷ ds) = d.donator ∷ d.recipient ∷ donation_parties ds

-- the ids that getContractNames goes through
pub contract_parties : {F : Type 0} → List (Contract F) → List ℕ
contract_parties [] = []
contract_parties (k ∷ ks) = k.donator ∷ k.receiver ∷ contract_parties ks

-- getNames
unfoldable pub get_names : {F : Type 0} → Directory → List (Donation F) → Result (List Affiliation)
unfolding learn_all donation_parties
get_names esi donations = learn_all esi (donation_parties donations) []

-- getContractNames
unfoldable pub get_contract_names :
    {F : Type 0} → Directory → List (Contract F) → Result (List Affiliation)
unfolding learn_all contract_parties
get_contract_names esi contracts = learn_all esi (contract_parties contracts) []
