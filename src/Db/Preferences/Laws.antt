-- ===== src/Db/Preferences/Laws.antt =====
-- What is stored is what is read back.
use esi_isk.Base.{ℕ, ◌-◌, ◌^◌, ◌≡◌, refl, sym, ◌∙◌, String, true, none, some, arith}
use esi_isk.Base.Int.{ℤ, pos, negsuc, ◌≤ℤ◌}
use esi_isk.Base.Word.{int32}
use esi_isk.Cx.{Options}
use esi_isk.Db.PrefTypes.{Prefs, DbPreferences}
use esi_isk.Db.Store.{Db, ok}
use esi_isk.Db.Store.Laws.{IsUp, ticked, query-up, execute-up_ok}
use esi_isk.Db.Statements.Tables.{find_by, update_by, find_by-update_by_self}
use esi_isk.Db.Statements.Preferences.{
  prefs_key, text_of, in_int32, update_prefs, stmt_get_preferences, stmt_set_donation_preferences,
}
use esi_isk.Db.Preferences.{
  get_pattern, has_content, get_rows, donation_prefs, contract_prefs, combined_prefs,
  to_preferences, db_prefs, get_preferences, set_preferences, sanity,
}

-- getRows brings any number into the range from 1 to a positive limit, and leaves what is in it.
pub get_rows_bounds :
    (max_rows rows : ℤ)
    → pos 1 ≤ℤ max_rows
    → (pos 1 ≤ℤ get_rows max_rows rows)
      × (get_rows max_rows rows ≤ℤ max_rows)
      × (pos 1 ≤ℤ rows → rows ≤ℤ max_rows → get_rows max_rows rows ≡ rows)
unfolding get_rows
get_rows_bounds max_rows rows h = ground arith

module _ {F : Type 0} where
  -- Preferences that Sanity has passed, and that the columns can keep.
  pub record IsStorable (opts : Options) (p : Prefs F) : Type 0 where
    pub rows_pos : pos 1 ≤ℤ p.rows
    pub rows_le : p.rows ≤ℤ opts.max_pref_rows
    pub limit_le : opts.max_pref_rows ≤ℤ pos (2 ^ 31 - 1)
    pub age_ge : negsuc (2 ^ 31 - 1) ≤ℤ p.max_age
    pub age_le : p.max_age ≤ℤ pos (2 ^ 31 - 1)
    pub content : has_content p.pattern ≡ true

  -- What Sanity passes is within the limits: its rows lie between 1 and a positive limit.
  pub sanity-bounds :
      (opts : Options) (p q : Prefs F)
      → pos 1 ≤ℤ opts.max_pref_rows
      → sanity opts p ≡ ok q
      → (pos 1 ≤ℤ q.rows) × (q.rows ≤ℤ opts.max_pref_rows) × (q ≡ record p { rows = q.rows })
  unfolding sanity
  sanity-bounds opts p q h e = ground (arith, get_rows_bounds opts.max_pref_rows (int32 p.rows) h)

  -- One UPDATE of a character's row, when both numbers fit their columns.
  pub update_prefs-eq :
      (id : ℕ) (rows max_age : ℤ) (change : DbPreferences F → DbPreferences F) (w : Db F)
      → IsUp w
      → in_int32 rows ≡ true
      → in_int32 max_age ≡ true
      → update_prefs id rows max_age change w
        ≡ (ok tt, record (ticked w) { preferences = update_by prefs_key id change w.preferences })
  unfolding update_prefs
  update_prefs-eq id rows max_age change w up r a = execute-up_ok _ w up (ground arith)

  -- GetPreferences reads the row of the character.
  pub get_preferences-eq :
      (opts : Options) (t : String) (id : ℕ) (w : Db F) (r : DbPreferences F)
      → IsUp w
      → find_by prefs_key id w.preferences ≡ some r
      → (get_preferences opts t id w).0 ≡ to_preferences opts t r
  unfolding get_preferences db_prefs stmt_get_preferences
  get_preferences-eq opts t id w r up e =
      let read = query-up (λ (x : Db F). find_by prefs_key id x.preferences) w up in
      ground (arith, read)

  -- The row after the donation preferences were set.
  abbrev with_donations : Prefs F → DbPreferences F → DbPreferences F
  with_donations p r = record r {
    donation_rows = p.rows;
    donation_minimum = p.minimum;
    donation_header = text_of p.header;
    donation_footer = text_of p.footer;
    donation_pattern = text_of p.pattern;
    donation_max_age = p.max_age;
    donation_passphrase = text_of p.passphrase;
  }

  donation_prefs-with_donations :
      (opts : Options) (p : Prefs F) (r : DbPreferences F)
      → IsStorable opts p
      → donation_prefs opts (with_donations p r) ≡ p
  unfolding donation_prefs get_pattern get_rows
  donation_prefs-with_donations opts p r s = ground arith

  to_preferences_d :
      (opts : Options) (p : Prefs F) (r : DbPreferences F)
      → IsStorable opts p
      → to_preferences opts "d" (with_donations p r)
        ≡ ok (record { donations = some p; contracts = none })
  unfolding to_preferences
  to_preferences_d opts p r s = ground (arith, donation_prefs-with_donations opts p r s)

  to_preferences_c :
      (opts : Options) (p : Prefs F) (r : DbPreferences F)
      → to_preferences opts "c" (with_donations p r) ≡ to_preferences opts "c" r
  unfolding to_preferences contract_prefs
  to_preferences_c opts p r = refl

  to_preferences_a :
      (opts : Options) (p : Prefs F) (r : DbPreferences F)
      → to_preferences opts "a" (with_donations p r) ≡ to_preferences opts "a" r
  unfolding to_preferences combined_prefs
  to_preferences_a opts p r = refl

  -- Donation preferences that are stored are read back as they are, and neither the contract nor the
  -- combined preferences of the character change: for preferences that Sanity passes and the columns
  -- can keep, when the character has a row and the database answers.
  pub get_preferences-set_preferences :
      (opts : Options) (id : ℕ) (p : Prefs F) (w : Db F) (r : DbPreferences F)
      → IsUp w
      → find_by prefs_key id w.preferences ≡ some r
      → IsStorable opts p
      → let (stored, w') = set_preferences id (record { donations = some p; contracts = none }) w in
        (stored ≡ ok tt)
        × ((get_preferences opts "d" id w').0
            ≡ ok (record { donations = some p; contracts = none }))
        × ((get_preferences opts "c" id w').0 ≡ (get_preferences opts "c" id w).0)
        × ((get_preferences opts "a" id w').0 ≡ (get_preferences opts "a" id w).0)
  unfolding set_preferences stmt_set_donation_preferences
  get_preferences-set_preferences opts id p w r up e s =
      let w₁ = record (ticked w) {
        preferences = update_by prefs_key id (with_donations p) w.preferences;
      } in
      let set_eq =
        update_prefs-eq id p.rows p.max_age (with_donations p) w up (ground arith) (ground arith) in
      let found =
        find_by-update_by_self prefs_key id (with_donations p) w.preferences r (λ x. refl) e in
      rw set_eq (
        refl,
        get_preferences-eq opts "d" id w₁ (with_donations p r) up found
            ∙ to_preferences_d opts p r s,
        get_preferences-eq opts "c" id w₁ (with_donations p r) up found
            ∙ to_preferences_c opts p r
            ∙ sym (get_preferences-eq opts "c" id w r up e),
        get_preferences-eq opts "a" id w₁ (with_donations p r) up found
            ∙ to_preferences_a opts p r
            ∙ sym (get_preferences-eq opts "a" id w r up e),
      )
