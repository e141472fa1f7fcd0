-- ===== src/Db/Statements/Users.antt =====
-- The statements on the table `users`, whose primary key is the refresh token.
use esi_isk.Base.{
  ℕ, ◌+◌, ◌*◌, Bool, true, false, List, [], ◌∷◌, ◌++◌, none, some, take, keep, find, ltb, ◌==◌,
  str_eq,
}
use esi_isk.Db.Types.{User}
use esi_isk.Db.Store.{Result, ok, err, duplicate_key, panic, Action, query, execute}
use esi_isk.Db.Statements.Tables.{update_by, delete_by, stored_int}

-- INTERVAL '1 hour', in nanoseconds
abbrev pub one_hour : ℕ
one_hour = 3600 * 1000000000

abbrev pub is_null : User → Bool
is_null u = elim u.last_processed [ none ↦ true | some _ ↦ false ]

abbrev pub is_due : ℕ → User → Bool
is_due now u = elim u.last_processed [ none ↦ false | some t ↦ ltb (t + one_hour) now ]

abbrev pub user_key : User → ℕ
user_key u = u.character_id

-- the row that StmtCreateUser inserts: the other columns are NULL
unfoldable pub fresh_user : User → User
fresh_user u = record u {
  last_journal_id = record { int64 = 0; valid = false };
  last_contract_id = record { int64 = 0; valid = false };
  last_processed = none;
}

-- the row that StmtUpdateUser leaves
unfoldable pub updated_user : ℕ → User → User
unfolding stored_int
updated_user now u = record u {
  last_journal_id = stored_int u.last_journal_id;
  last_contract_id = stored_int u.last_contract_id;
  last_processed = some now;
}

-- INSERT INTO users: the refresh token is the primary key
unfoldable pub insert_user : User → List User → Result (List User)
insert_user u users = elim (find (λ v. str_eq v.refresh_token u.refresh_token) users) [
  | none ↦ ok (users ++ u ∷ [])
  | some _ ↦ err duplicate_key
]

-- UPDATE users, of the rows of one character. It sets the primary key too: the token is refused if a
-- row of another character has it, and if two rows would get it.
unfoldable pub rewrite_user : ℕ → User → List User → List User → Result (List User)
unfolding update_by delete_by updated_user
rewrite_user now u [] users = ok users
rewrite_user now u (_ ∷ []) users =
    elim (find (λ v. str_eq v.refresh_token u.refresh_token)
      (delete_by user_key u.character_id users)) [
        | none ↦ ok (update_by user_key u.character_id (λ _. updated_user now u) users)
        | some _ ↦ err duplicate_key
      ]
rewrite_user now u (_ ∷ _ ∷ _) users = err duplicate_key

module _ {F : Type 0} where
  -- StmtCreateUser
  unfoldable pub stmt_create_user : User → Action F (Unit {0})
  unfolding fresh_user insert_user
  stmt_create_user u = execute λ w. elim (insert_user (fresh_user u) w.users) [
    | ok rows ↦ ok (record w { users = rows })
    | err e ↦ err e
    | panic ↦ panic
  ]

  -- StmtGetUser, with its LIMIT 1
  unfoldable pub stmt_get_user : ℕ → Action F (List User)
  stmt_get_user id = query (λ w. take 1 (keep (λ u. u.character_id == id) w.users))

  -- StmtGetUsers: those that were processed more than an hour ago
  unfoldable pub stmt_get_users : Action F (List User)
  stmt_get_users = query (λ w. take 100 (keep (is_due w.now) w.users))

  -- StmtGetNullUsers: those that were never processed
  unfoldable pub stmt_get_null_users : Action F (List User)
  stmt_get_null_users = query (λ w. take 100 (keep is_null w.users))

  -- StmtUpdateUser
  unfoldable pub stmt_update_user : User → Action F (Unit {0})
  unfolding rewrite_user
  stmt_update_user u = execute λ w.
      elim (rewrite_user w.now u (keep (λ v. v.character_id == u.character_id) w.users) w.users) [
        | ok rows ↦ ok (record w { users = rows })
        | err e ↦ err e
        | panic ↦ panic
      ]

  -- StmtDeleteUser
  unfoldable pub stmt_delete_user : ℕ → Action F (Unit {0})
  unfolding delete_by
  stmt_delete_user id = execute λ w. ok (record w { users = delete_by user_key id w.users })
