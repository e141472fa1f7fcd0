-- ===== src/Examples/Db.antt =====
-- The theorems on users and preferences at the tables of the examples.
use esi_isk.Base.{◌≡◌, refl, ◌≢◌, true, some, none, arith, str_eq, eq_iff}
use esi_isk.Base.Int.{pos, ◌≤ℤ◌}
use esi_isk.Db.Types.{User}
use esi_isk.Db.Store.{duplicate_key, ok, err}
use esi_isk.Db.Store.Laws.{ticked}
use esi_isk.Db.Statements.Tables.{delete_by}
use esi_isk.Db.Users.{save_user}
use esi_isk.Db.Users.Laws.{replaced, save_user_new_owner}
use esi_isk.Db.Preferences.{sanity, has_content, set_preferences, get_preferences}
use esi_isk.Db.Preferences.Laws.{IsStorable, sanity-bounds, get_preferences-set_preferences}
use esi_isk.Examples.Cents.{cents}
use esi_isk.Examples.Data.{user_of_8, preferences_of_8, tables, options, prefs}

-- the character with another owner, who brings another token
abbrev new_owner : User
new_owner = record user_of_8 { refresh_token = "s"; owner_hash = "p" }

other_owner : new_owner.owner_hash ≢ user_of_8.owner_hash
other_owner e = let same : str_eq "p" "o" ≡ true = (eq_iff "p" "o").1 e in absurd (ground arith)

save_user_new_owner_example : save_user new_owner tables ≡ (
  err duplicate_key,
  record (ticked (ticked (ticked (ticked tables)))) { users = replaced new_owner tables.users },
)
unfolding delete_by
save_user_new_owner_example =
    save_user_new_owner new_owner user_of_8 preferences_of_8 tables (λ n. refl) refl other_owner
      refl refl

sanity-bounds_example :
    (pos 1 ≤ℤ prefs.rows)
    × (prefs.rows ≤ℤ options.max_pref_rows)
    × (prefs ≡ record prefs { rows = pos 3 })
unfolding sanity
sanity-bounds_example = sanity-bounds options prefs prefs (ground arith) refl

pub prefs-IsStorable : IsStorable options prefs
unfolding has_content
prefs-IsStorable = ground arith

get_preferences-set_preferences_example :
    let (stored, w') =
      set_preferences 8 (record { donations = some prefs; contracts = none }) tables in
    (stored ≡ ok tt)
    × ((get_preferences options "d" 8 w').0
        ≡ ok (record { donations = some prefs; contracts = none }))
    × ((get_preferences options "c" 8 w').0 ≡ (get_preferences options "c" 8 tables).0)
    × ((get_preferences options "a" 8 w').0 ≡ (get_preferences options "a" 8 tables).0)
get_preferences-set_preferences_example =
    get_preferences-set_preferences options 8 prefs tables preferences_of_8 (λ n. refl) refl
      prefs-IsStorable
