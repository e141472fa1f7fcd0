-- ===== src/Db/Characters/Known.antt =====
-- Which characters GetCharacter of isk/db/character.go reads: those whose row and names are stored.
use esi_isk.Base.{
  ℕ, ◌≡◌, sym, subst, ◌∙◌, List, [], ◌∷◌, All, some, ◌==◌, Bool-cases, Option-cases, inl, inr,
  arith,
}
use esi_isk.Base.Float.{Float64}
use esi_isk.Db.Types.{Name, CharacterRow, Character}
use esi_isk.Db.Store.{Db, ok, pure}
use esi_isk.Db.Store.Calm.{Succeeds}
use esi_isk.Db.Store.Laws.{IsUp, ticked, query-up, >>=-ok, >>=-eq-ok}
use esi_isk.Db.Statements.Tables.{find_by}
use esi_isk.Db.Statements.Characters.{char_key, stmt_char_details}
use esi_isk.Db.Names.{get_names}
use esi_isk.Db.Names.Laws.{IsNamed, get_names-Succeeds, get_names-IsNamed}
use esi_isk.Db.Characters.{positive, named, get_character_names, get_character, fill_names}
use esi_isk.Db.Characters.Rows.{to_character}

module _ {F : Type 0} ⦃f : Float64 F⦄ where
  -- The names that a row refers to are in the table of names.
  abbrev pub IsNamedRow : List Name → CharacterRow F → Type 0
  IsNamedRow ns c = All (IsNamed ns) (positive (c.id ∷ c.corporation_id ∷ c.alliance_id ∷ []))

  pub All-find_by :
      (P : CharacterRow F → Type 0) (i : ℕ) (rows : List (CharacterRow F)) (c : CharacterRow F)
      → All P rows
      → find_by char_key i rows ≡ some c
      → P c
  All-find_by P i [] c a e = absurd (ground arith)
  All-find_by P i (r ∷ rows) c a e = elim (Bool-cases (r.id == i)) [
    | inl is ↦ let same : r ≡ c = ground arith in subst P same a.0
    | inr other ↦ All-find_by P i rows c a.1 (ground arith)
  ]

  -- A character whose row and names are in the tables is read.
  pub get_character-Succeeds :
      (id : ℕ) (w : Db F) (c : CharacterRow F)
      → IsUp w
      → find_by char_key id w.characters ≡ some c
      → IsNamedRow w.names c
      → Succeeds (get_character id w)
  unfolding get_character stmt_char_details named get_character_names
  get_character-Succeeds id w c up e known =
      let read = query-up (λ (x : Db F). find_by char_key id x.characters) w up in
      let (names, w₁, found) =
        get_names-Succeeds (positive (c.id ∷ c.corporation_id ∷ c.alliance_id ∷ [])) (ticked w) up
          known in
      (fill_names names (to_character c), w₁, ground arith)

  get_character_names-IsNamedRow :
      (c : CharacterRow F) (w : Db F) {char : Character F} {w' : Db F}
      → IsUp w
      → get_character_names c w ≡ (ok char, w')
      → IsNamedRow w.names c
  unfolding get_character_names
  get_character_names-IsNamedRow c w up h =
      let ids = positive (c.id ∷ c.corporation_id ∷ c.alliance_id ∷ []) in
      let (names, w₁, e, g) =
        >>=-eq-ok (get_names ids) (λ names. pure (fill_names names (to_character c))) w h in
      get_names-IsNamed ids w up e

  -- A character that was read has its row and names in the tables.
  pub get_character-IsNamedRow :
      (id : ℕ) (w : Db F) {char : Character F} {w' : Db F}
      → IsUp w
      → get_character id w ≡ (ok char, w')
      → (c : CharacterRow F) × (find_by char_key id w.characters ≡ some c) × IsNamedRow w.names c
  unfolding get_character stmt_char_details named
  get_character-IsNamedRow id w {char} {w'} up h =
      let read = query-up (λ (x : Db F). find_by char_key id x.characters) w up in
      let rest : named (find_by char_key id w.characters) (ticked w) ≡ (ok char, w') =
        sym (>>=-ok (stmt_char_details id) named w read) ∙ h in
      elim (Option-cases (find_by char_key id w.characters)) [
        | inl missing ↦ absurd (ground arith)
        | inr (c, e) ↦
            let names : get_character_names c (ticked w) ≡ (ok char, w') = ground arith in
            (c, e, get_character_names-IsNamedRow c (ticked w) up names)
      ]
