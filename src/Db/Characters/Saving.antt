-- ===== src/Db/Characters/Saving.antt =====
-- What saveCharacters of isk/db/character.go leaves in the table of characters.
use esi_isk.Base.{
  ℕ, ◌+◌, ◌≡◌, ◌≤◌, refl, sym, ap, subst, ◌∙◌, false, List, [], ◌∷◌, ◌++◌, map, All, All-imp, none,
  some, ◌==◌, Bool-cases, Option-cases, inl, inr, arith,
}
use esi_isk.Base.Float.{Float64}
use esi_isk.Db.Types.{CharacterRow}
use esi_isk.Db.Store.{Db, ok, attempt}
use esi_isk.Db.Store.Laws.{IsUp, ticked, execute-up_ok}
use esi_isk.Db.Statements.Tables.{
  find_by, update_by, key-find_by, find_by-append_none, find_by-append_some, find_by-update_by_self,
  find_by-update_by_ne,
}
use esi_isk.Db.Statements.Characters.{char_key, stored_row, stmt_update_character}
use esi_isk.Db.Characters.{Batch, update_character, save_each, save_characters}
use esi_isk.Db.Characters.Meeting.{occurs}
use esi_isk.Db.Characters.Creating.{
  written, IsAbsent, IsPresent, find_by-occurs, find_by-map_stored, save_each-new_character,
}

module _ {F : Type 0} ⦃f : Float64 F⦄ where
  -- Updating.
  abbrev update_row : CharacterRow F → List (CharacterRow F) → List (CharacterRow F)
  update_row c rows = update_by char_key c.id (λ old. record (stored_row c) { id = old.id }) rows

  abbrev update_all : List (CharacterRow F) → List (CharacterRow F) → List (CharacterRow F)
  update_all [] rows = rows
  update_all (c ∷ cs) rows = update_all cs (update_row c rows)

  find_by-update_row_self :
      (c : CharacterRow F) (rows : List (CharacterRow F))
      → IsPresent rows c
      → find_by char_key c.id (update_row c rows) ≡ some (stored_row c)
  find_by-update_row_self c rows (r, e) =
      let same = key-find_by char_key c.id rows r e in
      find_by-update_by_self char_key c.id (λ old. record (stored_row c) { id = old.id }) rows r
        (λ x. refl) e
      ∙ ap (λ (i : ℕ). some (record (stored_row c) { id = i })) same

  find_by-update_row_ne :
      (c : CharacterRow F) (j : ℕ) (rows : List (CharacterRow F))
      → (j == c.id) ≡ false
      → find_by char_key j (update_row c rows) ≡ find_by char_key j rows
  find_by-update_row_ne c j rows ne =
      find_by-update_by_ne char_key c.id (λ old. record (stored_row c) { id = old.id }) j rows
        (λ e. absurd (ground arith)) (λ x. refl)

  IsPresent-update_row :
      (c d : CharacterRow F) (rows : List (CharacterRow F))
      → IsPresent rows c
      → IsPresent rows d
      → IsPresent (update_row c rows) d
  IsPresent-update_row c d rows pc pd = elim (Bool-cases (d.id == c.id)) [
    | inl e ↦
        let same : d.id ≡ c.id = ground arith in
        (
          stored_row c,
          ap (λ (i : ℕ). find_by char_key i (update_row c rows)) same
              ∙ find_by-update_row_self c rows pc,
        )
    | inr e ↦ (pd.0, find_by-update_row_ne c d.id rows e ∙ pd.1)
  ]

  find_by-update_all :
      (i : ℕ) (cs rows : List (CharacterRow F))
      → ((j : ℕ) → occurs j cs ≤ 1)
      → All (IsPresent rows) cs
      → find_by char_key i (update_all cs rows) ≡ written cs i (find_by char_key i rows)
  find_by-update_all i [] rows once p = refl
  find_by-update_all i (c ∷ cs) rows once p =
      let present =
        All-imp (IsPresent rows) (IsPresent (update_row c rows)) cs
          (λ d h. IsPresent-update_row c d rows p.0 h) p.1 in
      let rest =
        find_by-update_all i cs (update_row c rows) (λ j. ground (arith, once j)) present in
      elim (Bool-cases (c.id == i)) [
        | inl e ↦
            let same : c.id ≡ i = ground arith in
            let self = find_by-update_row_self c rows p.0 in
            let here =
              subst (λ (j : ℕ). find_by char_key j (update_row c rows) ≡ some (stored_row c)) same
                self in
            let gone = find_by-occurs i cs (ground (arith, once i)) in ground arith
        | inr e ↦ let other = find_by-update_row_ne c i rows (ground arith) in ground arith
      ]

  update_character-eq :
      (c : CharacterRow F) (w : Db F)
      → IsUp w
      → attempt (update_character c) w
        ≡ (ok (ok tt), record (ticked w) { characters = update_row c w.characters })
  unfolding update_character stmt_update_character
  update_character-eq c w up =
      let stored =
        execute-up_ok (λ (x : Db F). ok (record x { characters = update_row c x.characters })) w up
          refl in
      ground arith

  save_each-update_character :
      (cs : List (CharacterRow F)) (failed : List ℕ) (w : Db F)
      → IsUp w
      → (n : ℕ) × (save_each update_character cs failed w
          ≡ (ok failed, record w { characters = update_all cs w.characters; calls = n }))
  unfolding save_each
  save_each-update_character [] failed w up = (w.calls, refl)
  save_each-update_character (c ∷ cs) failed w up =
      let here = update_character-eq c w up in
      let (n, rest) =
        save_each-update_character cs failed
          (record (ticked w) { characters = update_row c w.characters }) up in
      (n, ground arith)

  -- saveCharacters on a database that answers, where no character has two rows to write, the new ones
  -- are missing from the table and the updated ones in it: it succeeds, changes nothing but the rows of
  -- characters, and then each id is found with the row written for it, or as before if there is none.
  pub save_characters-written :
      (s : Batch F) (w : Db F)
      → IsUp w
      → ((i : ℕ) → occurs i s.fresh + occurs i s.updated ≤ 1)
      → All (IsAbsent w.characters) s.fresh
      → All (IsPresent w.characters) s.updated
      → (rows : List (CharacterRow F)) × (n : ℕ) × (save_characters s w
          ≡ (ok tt, record w { characters = rows; calls = n }))
        × ((i : ℕ)
            → find_by char_key i rows
              ≡ written s.updated i (written s.fresh i (find_by char_key i w.characters)))
  unfolding save_characters
  save_characters-written s w up once absent present =
      let (n₁, e₁) = save_each-new_character s.fresh [] w up (λ i. ground (arith, once i)) absent in
      let w₁ = record w { characters = w.characters ++ map stored_row s.fresh; calls = n₁ } in
      let (n₂, e₂) = save_each-update_character s.updated [] w₁ up in
      (
        update_all s.updated w₁.characters,
        n₂,
        ground arith,
        λ i.
            find_by-update_all i s.updated w₁.characters (λ j. ground (arith, once j))
              (found s.updated present)
            ∙ ap (written s.updated i) (appended i),
      )
    where
      found :
          (cs : List (CharacterRow F))
          → All (IsPresent w.characters) cs
          → All (IsPresent (w.characters ++ map stored_row s.fresh)) cs
      found cs p =
          All-imp (IsPresent w.characters) (IsPresent (w.characters ++ map stored_row s.fresh)) cs
            (λ d h. (
              h.0,
              find_by-append_some char_key d.id w.characters (map stored_row s.fresh) h.0 h.1,
            ))
            p

      fresh_none :
          (i : ℕ) (r : CharacterRow F) (cs : List (CharacterRow F))
          → find_by char_key i w.characters ≡ some r
          → All (IsAbsent w.characters) cs
          → find_by char_key i cs ≡ none
      fresh_none i r [] e a = refl
      fresh_none i r (c ∷ cs) e a = elim (Bool-cases (c.id == i)) [
        | inl same ↦
            let is : c.id ≡ i = ground arith in
            absurd
              (ground (arith, subst (λ (j : ℕ). find_by char_key j w.characters ≡ none) is a.0))
        | inr other ↦ ground (arith, fresh_none i r cs e a.1)
      ]

      appended :
          (i : ℕ)
          → find_by char_key i (w.characters ++ map stored_row s.fresh)
            ≡ written s.fresh i (find_by char_key i w.characters)
      appended i = elim (Option-cases (find_by char_key i w.characters)) [
        | inl e ↦
            find_by-append_none char_key i w.characters (map stored_row s.fresh) e
            ∙ find_by-map_stored i s.fresh
            ∙ ap (written s.fresh i) (sym e)
        | inr (r, e) ↦
            let old = find_by-append_some char_key i w.characters (map stored_row s.fresh) r e in
            let none_new = fresh_none i r s.fresh e absent in ground arith
      ]
