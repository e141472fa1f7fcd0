-- ===== src/Db/Users.antt =====
-- isk/db/users.go.
pub mod Laws
use esi_isk.Base.{ℕ, String, Bool, List, [], ◌∷◌, ◌++◌, Option, str_eq, if◌then◌else◌}
use esi_isk.Base.Float.{Float64}
use esi_isk.Db.Types.{User}
use esi_isk.Db.Store.{
  Db, Error, user_not_found, Result, ok, err, panic, Action, pure, fail, crash, ◌>>=◌, ◌>>◌,
  attempt,
}
use esi_isk.Db.Statements.Users.{
  stmt_create_user, stmt_get_user, stmt_get_users, stmt_get_null_users, stmt_update_user,
  stmt_delete_user,
}
use esi_isk.Db.Statements.Preferences.{stmt_create_preferences}

module _ {F : Type 0} where
  -- GetUsersToProcess, with queryUsers and scanUsers
  unfoldable pub get_users_to_process : Action F (List User)
  unfolding stmt_get_null_users stmt_get_users
  get_users_to_process = do
    null_users ← stmt_get_null_users
    update_users ← stmt_get_users
    pure (null_users ++ update_users)

  -- the test of the number of rows in getUser
  only_user : List User → Action F User
  only_user (u ∷ []) = pure u
  only_user _ = fail user_not_found

  -- getUser
  unfoldable pub get_user : ℕ → Action F User
  unfolding stmt_get_user only_user
  get_user character_id = do users ← stmt_get_user character_id; only_user users

  -- updateUser
  unfoldable pub update_user : User → Action F (Unit {0})
  unfolding stmt_update_user
  update_user user = stmt_update_user user

  -- DeleteUser
  unfoldable pub delete_user : ℕ → Action F (Unit {0})
  unfolding stmt_delete_user
  delete_user char_id = stmt_delete_user char_id

module _ {F : Type 0} ⦃f : Float64 F⦄ where
  -- saveNewUser
  unfoldable pub save_new_user : User → Action F (Unit {0})
  unfolding stmt_create_user stmt_create_preferences
  save_new_user user = do stmt_create_user user; stmt_create_preferences user.character_id

  -- what SaveUser does once it has looked for the user
  unfoldable pub save_over : User → Result User → Action F (Unit {0})
  unfolding save_new_user update_user delete_user
  save_over user (ok prev) =
      if str_eq user.owner_hash prev.owner_hash
      then update_user user
      else (do delete_user user.character_id; save_new_user user)
  save_over user (err _) = save_new_user user
  save_over user panic = crash

  -- SaveUser
  unfoldable pub save_user : User → Action F (Unit {0})
  unfolding get_user save_over
  save_user user = do prev ← attempt (get_user user.character_id); save_over user prev
