-- ===== src/Db/Preferences/Contracts.antt =====
-- What is stored is what is read back: the preferences for contracts.
use esi_isk.Base.{ℕ, ◌≡◌, refl, sym, ap, ◌∙◌, none, some, arith}
use esi_isk.Cx.{Options}
use esi_isk.Db.PrefTypes.{Prefs, DbPreferences}
use esi_isk.Db.Store.{Db, ok}
use esi_isk.Db.Store.Laws.{IsUp, ticked}
use esi_isk.Db.Statements.Tables.{find_by, update_by, find_by-update_by_self}
use esi_isk.Db.Statements.Preferences.{prefs_key, text_of, stmt_set_contract_preferences}
use esi_isk.Db.Preferences.{
  get_pattern, get_rows, donation_prefs, contract_prefs, combined_prefs, to_preferences,
  get_preferences, set_preferences,
}
use esi_isk.Db.Preferences.Laws.{IsStorable, update_prefs-eq, get_preferences-eq}

module _ {F : Type 0} where
  -- The row after the contract preferences were set.
  abbrev with_contracts : Prefs F → DbPreferences F → DbPreferences F
  with_contracts p r = record r {
    contract_rows = p.rows;
    contract_minimum = p.minimum;
    contract_header = text_of p.header;
    contract_footer = text_of p.footer;
    contract_pattern = text_of p.pattern;
    contract_max_age = p.max_age;
    contract_passphrase = text_of p.passphrase;
  }

  contract_prefs-with_contracts :
      (opts : Options) (p : Prefs F) (r : DbPreferences F)
      → IsStorable opts p
      → contract_prefs opts (with_contracts p r) ≡ p
  unfolding contract_prefs get_pattern get_rows
  contract_prefs-with_contracts opts p r s = ground arith

  to_preferences-with_contracts :
      (opts : Options) (p : Prefs F) (r : DbPreferences F)
      → IsStorable opts p
      → (to_preferences opts "c" (with_contracts p r)
          ≡ ok (record { donations = none; contracts = some p }))
        × (to_preferences opts "d" (with_contracts p r) ≡ to_preferences opts "d" r)
        × (to_preferences opts "a" (with_contracts p r) ≡ to_preferences opts "a" r)
  unfolding to_preferences donation_prefs combined_prefs
  to_preferences-with_contracts opts p r s = (
    ap (λ q. ok (record { donations = none; contracts = some q }))
        (contract_prefs-with_contracts opts p r s),
    refl,
    refl,
  )

  -- Contract preferences that are stored are read back as they are, and neither the donation nor the
  -- combined preferences of the character change.
  pub get_preferences-set_preferences_contracts :
      (opts : Options) (id : ℕ) (p : Prefs F) (w : Db F) (r : DbPreferences F)
      → IsUp w
      → find_by prefs_key id w.preferences ≡ some r
      → IsStorable opts p
      → let (stored, w') = set_preferences id (record { donations = none; contracts = some p }) w in
        (stored ≡ ok tt)
        × ((get_preferences opts "c" id w').0
            ≡ ok (record { donations = none; contracts = some p }))
        × ((get_preferences opts "d" id w').0 ≡ (get_preferences opts "d" id w).0)
        × ((get_preferences opts "a" id w').0 ≡ (get_preferences opts "a" id w).0)
  unfolding set_preferences stmt_set_contract_preferences
  get_preferences-set_preferences_contracts opts id p w r up e s =
      let w₁ = record (ticked w) {
        preferences = update_by prefs_key id (with_contracts p) w.preferences;
      } in
      let set_eq =
        update_prefs-eq id p.rows p.max_age (with_contracts p) w up (ground arith) (ground arith) in
      let found =
        find_by-update_by_self prefs_key id (with_contracts p) w.preferences r (λ x. refl) e in
      let (c, d, a) = to_preferences-with_contracts opts p r s in
      rw set_eq (
        refl,
        get_preferences-eq opts "c" id w₁ (with_contracts p r) up found ∙ c,
        get_preferences-eq opts "d" id w₁ (with_contracts p r) up found
            ∙ d
            ∙ sym (get_preferences-eq opts "d" id w r up e),
        get_preferences-eq opts "a" id w₁ (with_contracts p r) up found
            ∙ a
            ∙ sym (get_preferences-eq opts "a" id w r up e),
      )
