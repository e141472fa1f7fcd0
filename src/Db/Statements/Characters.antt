-- ===== src/Db/Statements/Characters.antt =====
-- The statements on the tables `characters` and `names`.
use esi_isk.Base.{ℕ, String, Option}
use esi_isk.Db.Types.{Name, CharacterRow}
use esi_isk.Db.Store.{ok, err, panic, Action, query, get, execute}
use esi_isk.Db.Statements.Tables.{find_by, insert_by, update_by, stored_time}

abbrev pub name_key : Name → ℕ
name_key n = n.id

module _ {F : Type 0} where
  abbrev pub char_key : CharacterRow F → ℕ
  char_key c = c.id

  -- StmtCharDetails: at most one row
  unfoldable pub stmt_char_details : ℕ → Action F (Option (CharacterRow F))
  stmt_char_details id = query (λ w. find_by char_key id w.characters)

  -- the row as the columns keep it
  abbrev pub stored_row : CharacterRow F → CharacterRow F
  stored_row c = record c {
    last_donated = stored_time c.last_donated;
    last_received = stored_time c.last_received;
  }

  -- StmtCreateCharacter
  unfoldable pub stmt_create_character : CharacterRow F → Action F (Unit {0})
  unfolding insert_by stored_time
  stmt_create_character c = execute λ w. elim (insert_by char_key (stored_row c) w.characters) [
    | ok rows ↦ ok (record w { characters = rows })
    | err e ↦ err e
    | panic ↦ panic
  ]

  -- StmtUpdateCharacter sets every column but the key.
  unfoldable pub stmt_update_character : CharacterRow F → Action F (Unit {0})
  unfolding update_by stored_time
  stmt_update_character c = execute λ w. ok (record w {
    characters =
        update_by char_key c.id (λ old. record (stored_row c) { id = old.id }) w.characters;
  })

  -- StmtGetName
  unfoldable pub stmt_get_name : ℕ → Action F Name
  stmt_get_name id = get (λ w. find_by name_key id w.names)

  -- StmtNewName
  unfoldable pub stmt_new_name : ℕ → String → Action F (Unit {0})
  unfolding insert_by
  stmt_new_name id name = execute λ w.
      elim (insert_by name_key (record { id = id; name = name }) w.names) [
        | ok rows ↦ ok (record w { names = rows })
        | err e ↦ err e
        | panic ↦ panic
      ]

  -- StmtUpdateName
  unfoldable pub stmt_update_name : ℕ → String → Action F (Unit {0})
  unfolding update_by
  stmt_update_name id name =
      execute
        λ w. ok (record w { names = update_by name_key id (λ n. record n { name = name }) w.names })
