-- ===== src/Db/Users/Laws.antt =====
-- What SaveUser leaves in the tables.
use esi_isk.Base.{
  ℕ, ◌≡◌, refl, ◌∙◌, ◌≢◌, String, false, List, [], ◌∷◌, ◌++◌, none, some, take, keep, find, ◌==◌,
  str_eq, arith, eq_iff, Bool-cases, inl, inr,
}
use esi_isk.Base.Float.{Float64}
use esi_isk.Db.Types.{User}
use esi_isk.Db.PrefTypes.{DbPreferences}
use esi_isk.Db.Store.{Db, duplicate_key, ok, err, ◌>>◌}
use esi_isk.Db.Store.Laws.{IsUp, ticked, query-up, execute-up_ok, execute-up_err}
use esi_isk.Db.Statements.Tables.{find_by, insert_by, delete_by}
use esi_isk.Db.Statements.Users.{
  user_key, fresh_user, insert_user, stmt_create_user, stmt_get_user, stmt_delete_user,
}
use esi_isk.Db.Statements.Preferences.{prefs_key, default_preferences, stmt_create_preferences}
use esi_isk.Db.Users.{get_user, only_user, delete_user, save_new_user, save_over, save_user}

-- The rows of one character.
abbrev pub users_of : ℕ → List User → List User
users_of id users = keep (λ u. u.character_id == id) users

-- the rows of users once the old owner's are deleted and the new one is added
abbrev pub replaced : User → List User → List User
replaced user users = delete_by user_key user.character_id users ++ fresh_user user ∷ []

pub str_ne : (s t : String) → s ≢ t → str_eq s t ≡ false
str_ne s t ne = elim (Bool-cases (str_eq s t)) [
  | inl same ↦ absurd (ne ((eq_iff s t).0 same))
  | inr e ↦ e
]

module _ {F : Type 0} where
  get_user-eq :
      (id : ℕ) (w : Db F) (u : User)
      → IsUp w
      → users_of id w.users ≡ u ∷ []
      → get_user id w ≡ (ok u, ticked w)
  unfolding get_user stmt_get_user only_user
  get_user-eq id w u up e =
      let read = query-up (λ (x : Db F). take 1 (users_of id x.users)) w up in ground (arith, read)

module _ {F : Type 0} ⦃f : Float64 F⦄ where
  save_user-save_over :
      (user : User) (w : Db F) (u : User)
      → IsUp w
      → users_of user.character_id w.users ≡ u ∷ []
      → save_user user w ≡ save_over user (ok u) (ticked w)
  unfolding save_user
  save_user-save_over user w u up e = ground (arith, get_user-eq user.character_id w u up e)

  delete_user-eq :
      (id : ℕ) (w : Db F)
      → IsUp w
      → delete_user {F = F} id w
        ≡ (ok tt, record (ticked w) { users = delete_by user_key id w.users })
  unfolding delete_user stmt_delete_user
  delete_user-eq id w up = execute-up_ok _ w up refl

  stmt_create_user-eq :
      (user : User) (w : Db F)
      → IsUp w
      → find (λ v. str_eq v.refresh_token user.refresh_token) w.users ≡ none
      → stmt_create_user {F = F} user w
        ≡ (ok tt, record (ticked w) { users = w.users ++ fresh_user user ∷ [] })
  unfolding stmt_create_user insert_user fresh_user
  stmt_create_user-eq user w up e = execute-up_ok _ w up (ground arith)

  stmt_create_preferences_taken :
      (id : ℕ) (w : Db F) (r : DbPreferences F)
      → IsUp w
      → find_by prefs_key id w.preferences ≡ some r
      → stmt_create_preferences id w ≡ (err duplicate_key, ticked w)
  unfolding stmt_create_preferences insert_by default_preferences
  stmt_create_preferences_taken id w r up e = execute-up_err _ w up (ground arith)

  save_over_new :
      (user u : User) (w : Db F)
      → str_eq user.owner_hash u.owner_hash ≡ false
      → save_over user (ok u) w ≡ (delete_user user.character_id >> save_new_user user) w
  unfolding save_over
  save_over_new user u w e = rw e

  -- Saving a user whose owner hash differs from the stored one reports an error although it replaces
  -- the user: the old rows of the character are deleted and the new one is added with no journal or
  -- contract seen, and then the row of preferences, which deleting a user leaves behind, is refused
  -- as a duplicate. This is for a character with one row and preferences, and a new refresh token,
  -- when the database answers.
  pub save_user_new_owner :
      (user u : User) (r : DbPreferences F) (w : Db F)
      → IsUp w
      → users_of user.character_id w.users ≡ u ∷ []
      → user.owner_hash ≢ u.owner_hash
      → find
          (λ v. str_eq v.refresh_token user.refresh_token)
          (delete_by user_key user.character_id w.users)
        ≡ none
      → find_by prefs_key user.character_id w.preferences ≡ some r
      → let w₁ = ticked (ticked (ticked (ticked w))) in
        save_user user w ≡ (err duplicate_key, record w₁ { users = replaced user w.users })
  unfolding save_over save_new_user
  save_user_new_owner user u r w up e other token has =
      let differ = str_ne user.owner_hash u.owner_hash other in
      let id = user.character_id in
      let w₁ = ticked w in
      let w₂ = record (ticked w₁) { users = delete_by user_key id w.users } in
      let w₃ = record (ticked w₂) { users = replaced user w.users } in
      let deleted = delete_user-eq id w₁ up in
      let created = stmt_create_user-eq user w₂ up token in
      let refused = stmt_create_preferences_taken id w₃ r up has in
      save_user-save_over user w u up e
      ∙ save_over_new user u w₁ differ
      ∙ ground (arith, deleted, created, refused)
