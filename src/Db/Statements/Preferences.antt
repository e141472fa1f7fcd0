-- ===== src/Db/Statements/Preferences.antt =====
-- The statements on the table `preferences`, with the column defaults of sql/0_preferences.sql. A
-- column INTEGER refuses a number outside int32.
use esi_isk.Base.{ℕ, ◌-◌, ◌^◌, Bool, true, false, not, ◌||◌, String, Option, if◌then◌else◌}
use esi_isk.Base.Int.{ℤ, pos, negsuc, ltb_ℤ}
use esi_isk.Base.Float.{Float64}
use esi_isk.Db.Types.{NullString}
use esi_isk.Db.PrefTypes.{Prefs, DbPreferences}
use esi_isk.Db.Store.{ok, err, panic, out_of_range, Action, query, execute}
use esi_isk.Db.Statements.Tables.{find_by, insert_by, update_by}

abbrev pub null_string : NullString
null_string = record { string = ""; valid = false }

abbrev pub text_of : String → NullString
text_of s = record { string = s; valid = true }

-- whether a number fits a column INTEGER
abbrev pub in_int32 : ℤ → Bool
in_int32 x = not (ltb_ℤ x (negsuc (2 ^ 31 - 1)) || ltb_ℤ (pos (2 ^ 31 - 1)) x)

module _ {F : Type 0} where
  abbrev pub prefs_key : DbPreferences F → ℕ
  prefs_key p = p.character_id

  -- StmtGetPreferences
  unfoldable pub stmt_get_preferences : ℕ → Action F (Option (DbPreferences F))
  stmt_get_preferences id = query (λ w. find_by prefs_key id w.preferences)

  -- an UPDATE of the preferences of one character that writes two INTEGER columns
  unfoldable pub update_prefs :
      ℕ → ℤ → ℤ → (DbPreferences F → DbPreferences F) → Action F (Unit {0})
  unfolding update_by
  update_prefs id rows max_age change = execute λ w.
      if in_int32 rows
      then (if in_int32 max_age
          then ok (record w { preferences = update_by prefs_key id change w.preferences })
          else err out_of_range)
      else err out_of_range

  -- StmtSetDonationPreferences
  unfoldable pub stmt_set_donation_preferences : ℕ → Prefs F → Action F (Unit {0})
  unfolding update_prefs
  stmt_set_donation_preferences id p = update_prefs id p.rows p.max_age λ r. record r {
    donation_rows = p.rows;
    donation_minimum = p.minimum;
    donation_header = text_of p.header;
    donation_footer = text_of p.footer;
    donation_pattern = text_of p.pattern;
    donation_max_age = p.max_age;
    donation_passphrase = text_of p.passphrase;
  }

  -- StmtSetContractPreferences
  unfoldable pub stmt_set_contract_preferences : ℕ → Prefs F → Action F (Unit {0})
  unfolding update_prefs
  stmt_set_contract_preferences id p = update_prefs id p.rows p.max_age λ r. record r {
    contract_rows = p.rows;
    contract_minimum = p.minimum;
    contract_header = text_of p.header;
    contract_footer = text_of p.footer;
    contract_pattern = text_of p.pattern;
    contract_max_age = p.max_age;
    contract_passphrase = text_of p.passphrase;
  }

  -- StmtSetCombinedPreferences, on the values that setPreferences hands it
  unfoldable pub stmt_set_combined_preferences : ℕ → Prefs F → Prefs F → Action F (Unit {0})
  unfolding update_prefs
  stmt_set_combined_preferences id d c = update_prefs id d.rows d.max_age λ r. record r {
    combined_rows = d.rows;
    combined_minimum_donation = d.minimum;
    combined_minimum_contract = c.minimum;
    combined_header = text_of d.header;
    combined_footer = text_of d.footer;
    combined_donation_pattern = text_of d.pattern;
    combined_contract_pattern = text_of c.pattern;
    combined_max_age = d.max_age;
    combined_passphrase = text_of d.passphrase;
  }

module _ {F : Type 0} ⦃f : Float64 F⦄ where
  open f use {one_tenth}

  -- the row of defaults that StmtCreatePreferences inserts
  unfoldable pub default_preferences : ℕ → DbPreferences F
  default_preferences id = record {
    character_id = id;
    donation_rows = pos 5;
    contract_rows = pos 5;
    combined_rows = pos 5;
    donation_max_age = pos 0;
    contract_max_age = pos 0;
    combined_max_age = pos 0;
    donation_minimum = one_tenth;
    contract_minimum = one_tenth;
    combined_minimum_donation = one_tenth;
    combined_minimum_contract = one_tenth;
    donation_header = null_string;
    donation_footer = null_string;
    donation_pattern = null_string;
    contract_header = null_string;
    contract_footer = null_string;
    contract_pattern = null_string;
    combined_header = null_string;
    combined_footer = null_string;
    combined_donation_pattern = null_string;
    combined_contract_pattern = null_string;
    donation_passphrase = null_string;
    contract_passphrase = null_string;
    combined_passphrase = null_string;
  }

  -- StmtCreatePreferences
  unfoldable pub stmt_create_preferences : ℕ → Action F (Unit {0})
  unfolding insert_by default_preferences
  stmt_create_preferences id = execute λ w.
      elim (insert_by prefs_key (default_preferences id) w.preferences) [
        | ok rows ↦ ok (record w { preferences = rows })
        | err e ↦ err e
        | panic ↦ panic
      ]
