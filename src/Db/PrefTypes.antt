-- ===== src/Db/PrefTypes.antt =====
-- The structs of isk/db/preferences.go. The columns of integers and the fields of type `int` are
-- integers; a text column that may be NULL is a `NullString`.
use esi_isk.Base.{ℕ, String, Option}
use esi_isk.Base.Int.{ℤ}
use esi_isk.Db.Types.{NullString}

pub record Prefs (F : Type 0) : Type 0 where
  pub header : String
  pub footer : String
  pub pattern : String
  pub passphrase : String
  pub rows : ℤ
  pub max_age : ℤ
  pub minimum : F

-- A pointer is `nil` where the field is `none`.
pub record Preferences (F : Type 0) : Type 0 where
  pub donations : Option (Prefs F)
  pub contracts : Option (Prefs F)

-- a row of the table `preferences`
pub record DbPreferences (F : Type 0) : Type 0 where
  pub character_id : ℕ
  pub donation_rows : ℤ
  pub contract_rows : ℤ
  pub combined_rows : ℤ
  pub donation_max_age : ℤ
  pub contract_max_age : ℤ
  pub combined_max_age : ℤ
  pub donation_minimum : F
  pub contract_minimum : F
  pub combined_minimum_donation : F
  pub combined_minimum_contract : F
  pub donation_header : NullString
  pub donation_footer : NullString
  pub donation_pattern : NullString
  pub contract_header : NullString
  pub contract_footer : NullString
  pub contract_pattern : NullString
  pub combined_header : NullString
  pub combined_footer : NullString
  pub combined_donation_pattern : NullString
  pub combined_contract_pattern : NullString
  pub donation_passphrase : NullString
  pub contract_passphrase : NullString
  pub combined_passphrase : NullString
