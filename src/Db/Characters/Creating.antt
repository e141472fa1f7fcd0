-- ===== src/Db/Characters/Creating.antt =====
-- Inserting rows of characters: the first loop of saveCharacters of isk/db/character.go, and what a
-- table shows once rows were written over it.
use esi_isk.Base.{
  ℕ, ◌≡◌, ◌≤◌, refl, sym, ap, ◌∙◌, List, [], ◌∷◌, ◌++◌, append-nil, append_assoc, map, All, Option,
  none, some, Option-cases, inl, inr, arith,
}
use esi_isk.Base.Float.{Float64}
use esi_isk.Db.Types.{CharacterRow}
use esi_isk.Db.Store.{Db, duplicate_key, ok, err, panic, attempt}
use esi_isk.Db.Store.Laws.{IsUp, ticked, execute-up_ok, execute-up_err}
use esi_isk.Db.Statements.Tables.{find_by, insert_by, find_by-append_none}
use esi_isk.Db.Statements.Characters.{char_key, stored_row, stmt_create_character}
use esi_isk.Db.Characters.{new_character, save_each}
use esi_isk.Db.Characters.Meeting.{occurs}

module _ {F : Type 0} ⦃f : Float64 F⦄ where
  -- what a table shows for an id once rows were written over it
  abbrev pub written : List (CharacterRow F) → ℕ → Option (CharacterRow F) → Option (CharacterRow F)
  written cs i before = elim (find_by char_key i cs) [
    | none ↦ before
    | some c ↦ some (stored_row c)
  ]

  abbrev pub IsAbsent : List (CharacterRow F) → CharacterRow F → Type 0
  IsAbsent rows c = find_by char_key c.id rows ≡ none

  abbrev pub IsPresent : List (CharacterRow F) → CharacterRow F → Type 0
  IsPresent rows c = (r : CharacterRow F) × (find_by char_key c.id rows ≡ some r)

  pub find_by-occurs :
      (i : ℕ) (cs : List (CharacterRow F)) → occurs i cs ≡ 0 → find_by char_key i cs ≡ none
  find_by-occurs i [] h = refl
  find_by-occurs i (c ∷ cs) h = ground (arith, find_by-occurs i cs)

  pub find_by-map_stored :
      (i : ℕ) (cs : List (CharacterRow F))
      → find_by char_key i (map stored_row cs) ≡ written cs i none
  find_by-map_stored i [] = refl
  find_by-map_stored i (c ∷ cs) = ground (arith, find_by-map_stored i cs)

  -- Inserting.
  IsAbsent-snoc :
      (c : CharacterRow F) (cs rows : List (CharacterRow F))
      → occurs c.id cs ≡ 0
      → All (IsAbsent rows) cs
      → All (IsAbsent (rows ++ stored_row c ∷ [])) cs
  IsAbsent-snoc c [] rows h a = tt
  IsAbsent-snoc c (d ∷ cs) rows h a = (
    find_by-append_none char_key d.id rows (stored_row c ∷ []) a.0 ∙ ground arith,
    IsAbsent-snoc c cs rows (ground arith) a.1,
  )

  new_character_refused :
      (c : CharacterRow F) (w : Db F) (r : CharacterRow F)
      → IsUp w
      → find_by char_key c.id w.characters ≡ some r
      → new_character c w ≡ (err duplicate_key, ticked w)
  unfolding new_character stmt_create_character insert_by
  new_character_refused c w r up found = execute-up_err _ w up (ground arith)

  new_character-eq :
      (c : CharacterRow F) (w : Db F)
      → IsUp w
      → IsAbsent w.characters c
      → attempt (new_character c) w
        ≡ (ok (ok tt), record (ticked w) { characters = w.characters ++ stored_row c ∷ [] })
  unfolding new_character stmt_create_character insert_by
  new_character-eq c w up absent =
      let stored =
        execute-up_ok
          (λ (x : Db F). elim (insert_by char_key (stored_row c) x.characters) [
            | ok rows ↦ ok (record x { characters = rows })
            | err e ↦ err e
            | panic ↦ panic
          ])
          w {w' = record (ticked w) { characters = w.characters ++ stored_row c ∷ [] }} up
          (ground arith) in
      ground arith

  -- A character that was created was missing, and its row is at the end of the table.
  pub new_character-eq-ok :
      (c : CharacterRow F) (w : Db F) {w' : Db F}
      → IsUp w
      → new_character c w ≡ (ok tt, w')
      → IsAbsent w.characters c
        × (w' ≡ record (ticked w) { characters = w.characters ++ stored_row c ∷ [] })
  new_character-eq-ok c w {w'} up h = elim (Option-cases (find_by char_key c.id w.characters)) [
    | inl absent ↦ let made = new_character-eq c w up absent in (absent, ground arith)
    | inr (r, found) ↦ let refused = new_character_refused c w r up found in absurd (ground arith)
  ]

  pub save_each-new_character :
      (cs : List (CharacterRow F)) (failed : List ℕ) (w : Db F)
      → IsUp w
      → ((i : ℕ) → occurs i cs ≤ 1)
      → All (IsAbsent w.characters) cs
      → (n : ℕ) × (save_each new_character cs failed w
          ≡ (ok failed, record w { characters = w.characters ++ map stored_row cs; calls = n }))
  unfolding save_each
  save_each-new_character [] failed w up once a =
      (w.calls, ap (λ l. (ok failed, record w { characters = l })) (sym (append-nil w.characters)))
  save_each-new_character (c ∷ cs) failed w up once a =
      let here = new_character-eq c w up a.0 in
      let w₁ = record (ticked w) { characters = w.characters ++ stored_row c ∷ [] } in
      let alone : occurs c.id cs ≡ 0 = ground (arith, once c.id) in
      let (n, rest) =
        save_each-new_character cs failed w₁ up (λ i. ground (arith, once i))
          (IsAbsent-snoc c cs w.characters alone a.1) in
      let same = append_assoc w.characters (stored_row c ∷ []) (map stored_row cs) in
      (n, ground arith)
