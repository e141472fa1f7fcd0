-- ===== src/Web/Laws.antt =====
-- What InitialSetup of isk/web.go establishes.
use esi_isk.Base.{
  ℕ, ◌≡◌, inl, inr, refl, sym, subst, ◌∙◌, String, true, List, [], ◌∷◌, ◌++◌, All, some, ltb, ◌==◌,
  str_eq, Bool-cases, arith,
}
use esi_isk.Base.Float.{Float64}
use esi_isk.Cx.{Options}
use esi_isk.Db.Types.{Name, CharacterRow, Character}
use esi_isk.Db.Store.{Db, Result, ok, err, panic, attempt, Error}
use esi_isk.Db.Store.Laws.{IsUp, SameTables, >>=-ok, >>=-eq-ok, attempt-eq-ok}
use esi_isk.Db.Statements.Tables.{find_by, find_by-append_none}
use esi_isk.Db.Statements.Characters.{char_key, name_key, stored_row}
use esi_isk.Db.Names.{save_names}
use esi_isk.Db.Names.Laws.{IsNamed}
use esi_isk.Db.Names.Saving.{all_names, renamed}
use esi_isk.Db.Names.Storing.{save_names-renamed}
use esi_isk.Db.Characters.{positive, get_character, new_character}
use esi_isk.Db.Characters.Reading.{Reads-get_character}
use esi_isk.Db.Characters.Rows.{empty_row}
use esi_isk.Db.Characters.Creating.{new_character-eq-ok}
use esi_isk.Db.Characters.Known.{IsNamedRow, get_character-Succeeds, get_character-IsNamedRow}
use esi_isk.Worker.Esi.{Directory, EsiName}
use esi_isk.Web.{owner_affiliation, owner_row, owner_name, create_owner, setup_with, initial_setup}
use esi_isk.Worker.Names.{resolve_character, resolve_corporation}

-- The positive ones of some ids have what each of them has if it is positive.
All-positive :
    (P : ℕ → Type 0) (ids : List ℕ) → All (λ i. ltb 0 i ≡ true → P i) ids → All P (positive ids)
All-positive P [] h = tt
All-positive P (i ∷ ids) h = elim (Bool-cases (ltb 0 i)) [
  | inl e ↦
      let is : i ∷ positive ids ≡ positive (i ∷ ids) = ground arith in
      subst (All P) is (h.0 e, All-positive P ids h.1)
  | inr e ↦
      let is : positive ids ≡ positive (i ∷ ids) = ground arith in
      subst (All P) is (All-positive P ids h.1)
]

-- The names of the owner's affiliation are stored.
owner_names-IsNamed :
    (esi : Directory) (id : ℕ) (name : String) (rows before : List Name)
    → ((i : ℕ)
        → find_by name_key i rows
          ≡ renamed (all_names (owner_affiliation esi id name ∷ [])) i (find_by name_key i before))
    → let corp = resolve_character esi id in
      All (IsNamed rows) (positive (id ∷ corp.id ∷ (resolve_corporation esi corp.id).id ∷ []))
unfolding owner_affiliation
owner_names-IsNamed esi id name rows before found =
    let corp = resolve_character esi id in
    let alliance = resolve_corporation esi corp.id in
    All-positive (IsNamed rows) (id ∷ corp.id ∷ alliance.id ∷ []) (
      (λ p. (record { id = id; name = name }, ground (arith, found id))),
      (
        (λ p. elim (Bool-cases (id == corp.id)) [
          | inl e ↦ (record { id = id; name = name }, ground (arith, found corp.id))
          | inr e ↦ (corp, ground (arith, found corp.id))
        ]),
        (
          (λ p. elim (Bool-cases (id == alliance.id)) [
            | inl e ↦ (record { id = id; name = name }, ground (arith, found alliance.id))
            | inr e ↦ elim (Bool-cases (corp.id == alliance.id)) [
              | inl k ↦ (corp, ground (arith, found alliance.id))
              | inr k ↦ (alliance, ground (arith, found alliance.id))
            ]
          ]),
          tt,
        ),
      ),
    )

module _ {F : Type 0} ⦃f : Float64 F⦄ (esi : Directory) where
  -- The owning character can be read from the tables.
  pub record IsSetUp (id : ℕ) (w : Db F) : Type 0 where
    pub row : CharacterRow F
    pub found : find_by char_key id w.characters ≡ some row
    pub names : IsNamedRow w.names row

  -- A database where the owning character can be read needs no setup.
  setup-IsSetUp :
      (opts : Options) (w : Db F)
      → IsUp w
      → IsSetUp opts.character_id w
      → (k : ℕ) × (initial_setup esi opts w ≡ (ok tt, record w { calls = k }))
  unfolding initial_setup setup_with
  setup-IsSetUp opts w up is =
      let (char, w₁, read) =
        get_character-Succeeds opts.character_id w is.row up is.found is.names in
      let same = (Reads-get_character opts.character_id).same w in (w₁.calls, ground arith)

  IsSetUp-created :
      (id : ℕ) (name : String) (w : Db F) {w' : Db F}
      → IsUp w
      → create_owner esi id name w ≡ (ok tt, w')
      → IsSetUp id w' × IsUp w'
  unfolding create_owner owner_row empty_row
  IsSetUp-created id name w {w'} up h = elim (Bool-cases (str_eq name "")) [
    | inl empty ↦ absurd (ground arith)
    | inr given ↦
        let aff = owner_affiliation esi id name in
        let row = owner_row esi id in
        let (rows, k, saved, found) = save_names-renamed (aff ∷ []) w up in
        let w₁ = record w { names = rows; calls = k } in
        let rest : new_character row w₁ ≡ (ok tt, w') =
          sym (>>=-ok (save_names (aff ∷ [])) (λ _. new_character row) w saved) ∙ ground arith in
        let (absent, is) = new_character-eq-ok row w₁ up rest in
        let there : find_by char_key id (w.characters ++ stored_row row ∷ [])
            ≡ some (stored_row row) =
          find_by-append_none char_key id w.characters (stored_row row ∷ []) absent
          ∙ ground arith in
        subst (λ x. IsSetUp id x × IsUp x) (sym is)
          (
            record {
              row = stored_row row;
              found = there;
              names = owner_names-IsNamed esi id name rows w.names found;
            },
            up,
          )
  ]

  initial_setup-IsSetUp :
      (opts : Options) (w : Db F) {w' : Db F}
      → IsUp w
      → initial_setup esi opts w ≡ (ok tt, w')
      → IsSetUp opts.character_id w' × IsUp w'
  unfolding initial_setup setup_with
  initial_setup-IsSetUp opts w {w'} up h =
      let id = opts.character_id in
      let (r, w₁, e, g) = >>=-eq-ok (attempt (get_character id)) (setup_with esi id) w h in
      let got = attempt-eq-ok (get_character id) w e in
      let same : SameTables w w₁ =
        subst (λ (p : Result (Character F) × Db F). SameTables w p.1) got
          ((Reads-get_character id).same w) in
      go r w₁ got same g
    where
      created :
          (x : Error) (w₁ : Db F) (q : Result (List EsiName))
          → SameTables w w₁
          → esi.universe_names (opts.character_id ∷ []) ≡ q
          → setup_with esi opts.character_id (err x) w₁ ≡ (ok tt, w')
          → IsSetUp opts.character_id w' × IsUp w'
      created x w₁ (ok names) same e g =
          let name = owner_name opts.character_id names in
          let made : create_owner esi opts.character_id name w₁ ≡ (ok tt, w') = ground arith in
          IsSetUp-created opts.character_id name w₁ (subst IsUp (sym same) up) made
      created x w₁ (err y) same e g = absurd (ground arith)
      created x w₁ panic same e g = absurd (ground arith)

      go :
          (r : Result (Character F)) (w₁ : Db F)
          → get_character opts.character_id w ≡ (r, w₁)
          → SameTables w w₁
          → setup_with esi opts.character_id r w₁ ≡ (ok tt, w')
          → IsSetUp opts.character_id w' × IsUp w'
      go (ok char) w₁ got same g =
          let (c, found, names) = get_character-IsNamedRow opts.character_id w up got in
          subst (λ x. IsSetUp opts.character_id x × IsUp x) (sym same ∙ ground arith)
            (record { row = c; found = found; names = names }, up)
      go (err x) w₁ got same g =
          created x w₁ (esi.universe_names (opts.character_id ∷ [])) same refl g
      go panic w₁ got same g = absurd (ground arith)

  -- A setup that succeeded is done: where the database answers, once InitialSetup has succeeded the row
  -- of the owning character is in the table with the names that it refers to, and InitialSetup at the
  -- next start succeeds and changes no table, whatever ESI answered.
  pub initial_setup-initial_setup :
      (opts : Options) (w : Db F) {w' : Db F}
      → IsUp w
      → initial_setup esi opts w ≡ (ok tt, w')
      → IsSetUp opts.character_id w'
        × (k : ℕ) × (initial_setup esi opts w' ≡ (ok tt, record w' { calls = k }))
  initial_setup-initial_setup opts w {w'} up h =
      let (is, up') = initial_setup-IsSetUp opts w up h in
      let (k, again) = setup-IsSetUp opts w' up' is in (is, k, again)
