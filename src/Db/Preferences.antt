-- ===== src/Db/Preferences.antt =====
-- isk/db/preferences.go: reading, checking and storing the preferences of a character. Which
-- preferences are meant is a string: "d" or the empty one for donations, "c" for contracts, "a" for
-- both.
pub mod Laws
pub mod Contracts
use Prim.Native.Char.{Char, code}
use Prim.Native.String.{len}
use esi_isk.Base.{
  ℕ, ◌-◌, ◌^◌, String, Bool, true, false, not, ◌&&◌, ◌||◌, List, [], ◌∷◌, Option, none, some, ◌==◌,
  ltb, str_eq, if◌then◌else◌,
}
use esi_isk.Base.Int.{ℤ, pos, negsuc, ltb_ℤ}
use esi_isk.Base.Word.{int32}
use esi_isk.Base.Float.{Float64}
use esi_isk.Cx.{Options}
use esi_isk.Db.Types.{NullString}
use esi_isk.Db.PrefTypes.{Prefs, Preferences, DbPreferences}
use esi_isk.Db.Store.{
  Db, Error, user_error, Result, ok, err, panic, Action, pure, fail, crash, ◌>>=◌, ◌>>◌,
}
use esi_isk.Db.Statements.Preferences.{
  stmt_get_preferences, stmt_set_donation_preferences, stmt_set_contract_preferences,
  stmt_set_combined_preferences,
}

abbrev pub default_donation_row : String
default_donation_row = "%CHARACTER% just donated %AMOUNT% ISK!"

abbrev pub default_contract_row : String
default_contract_row = "%CHARACTER% just contracted %ITEMS% items worth %AMOUNT% ISK!"

-- a character that `[^( \t)]` does not match: a parenthesis, a space or a tab
abbrev pub is_blank : Char → Bool
is_blank c = code c == b'(' || code c == b' ' || code c == 9 || code c == b')'

-- `RePreferences.MatchString(s)`: some character is none of these
unfoldable pub has_content : String → Bool
has_content String.[] = false
has_content (String.◌∷◌ c s) = not (is_blank c) || has_content s

-- getPattern
unfoldable pub get_pattern : NullString → String → String
unfolding has_content
get_pattern pattern fallback =
    if pattern.valid && has_content pattern.string then pattern.string else fallback

-- getRows, on the option MaxPrefRows
unfoldable pub get_rows : ℤ → ℤ → ℤ
get_rows max_rows rows =
    if ltb_ℤ max_rows rows then max_rows else if ltb_ℤ rows (pos 1) then pos 1 else rows

-- stringLen: the length in bytes, at most the largest int32
unfoldable pub string_len : String → ℕ
string_len s = if ltb (2 ^ 31 - 1) (len s) then 2 ^ 31 - 1 else len s

module _ {F : Type 0} where
  -- the cases of toPreferences
  unfoldable pub donation_prefs : Options → DbPreferences F → Prefs F
  unfolding get_pattern get_rows
  donation_prefs opts p = record {
    header = p.donation_header.string;
    footer = p.donation_footer.string;
    pattern = get_pattern p.donation_pattern default_donation_row;
    passphrase = p.donation_passphrase.string;
    rows = get_rows opts.max_pref_rows p.donation_rows;
    max_age = p.donation_max_age;
    minimum = p.donation_minimum;
  }

  unfoldable pub contract_prefs : Options → DbPreferences F → Prefs F
  unfolding get_pattern get_rows
  contract_prefs opts p = record {
    header = p.contract_header.string;
    footer = p.contract_footer.string;
    pattern = get_pattern p.contract_pattern default_contract_row;
    passphrase = p.contract_passphrase.string;
    rows = get_rows opts.max_pref_rows p.contract_rows;
    max_age = p.contract_max_age;
    minimum = p.contract_minimum;
  }

  unfoldable pub combined_prefs : Options → DbPreferences F → NullString → String → F → Prefs F
  unfolding get_pattern get_rows
  combined_prefs opts p pattern fallback minimum = record {
    header = p.combined_header.string;
    footer = p.combined_footer.string;
    pattern = get_pattern pattern fallback;
    passphrase = p.combined_passphrase.string;
    rows = get_rows opts.max_pref_rows p.combined_rows;
    max_age = p.combined_max_age;
    minimum = minimum;
  }

  -- toPreferences
  unfoldable pub to_preferences : Options → String → DbPreferences F → Result (Preferences F)
  unfolding donation_prefs contract_prefs combined_prefs
  to_preferences opts t p =
      if str_eq t "d" || str_eq t ""
      then ok (record { donations = some (donation_prefs opts p); contracts = none })
      else if str_eq t "c"
      then ok (record { donations = none; contracts = some (contract_prefs opts p) })
      else if str_eq t "a"
      then ok (record {
        donations = some (
            combined_prefs opts p p.combined_donation_pattern default_donation_row
              p.combined_minimum_donation);
        contracts = some (
            combined_prefs opts p p.combined_contract_pattern default_contract_row
              p.combined_minimum_contract);
      })
      else err (user_error 400)

  -- dbPrefs
  abbrev pub known_prefs : Option (DbPreferences F) → Action F (DbPreferences F)
  known_prefs none = fail (user_error 500)
  known_prefs (some p) = pure p

  unfoldable pub db_prefs : ℕ → Action F (DbPreferences F)
  unfolding stmt_get_preferences
  db_prefs char_id = do found ← stmt_get_preferences char_id; known_prefs found

  abbrev pub return : {A : Type 0} → Result A → Action F A
  return r w = (r, w)

  -- GetPreferences
  unfoldable pub get_preferences : Options → String → ℕ → Action F (Preferences F)
  unfolding db_prefs to_preferences
  get_preferences opts t char_id = do p ← db_prefs char_id; return (to_preferences opts t p)

  -- setPreferences and setPrefs, by way of SetPreferences
  unfoldable pub set_preferences : ℕ → Preferences F → Action F (Unit {0})
  unfolding stmt_set_combined_preferences stmt_set_contract_preferences
      stmt_set_donation_preferences
  set_preferences char_id p = elim p.contracts [
    | some c ↦ elim p.donations [
      | some d ↦ stmt_set_combined_preferences char_id d c
      | none ↦ stmt_set_contract_preferences char_id c
    ]
    | none ↦ elim p.donations [ some d ↦ stmt_set_donation_preferences char_id d | none ↦ crash ]
  ]

  -- Sanity: it bounds the rows in place, and refuses long texts
  unfoldable pub sanity : Options → Prefs F → Result (Prefs F)
  unfolding get_rows int32 string_len
  sanity opts p =
      if ltb_ℤ opts.max_pref_len (pos (string_len p.header))
        || ltb_ℤ opts.max_pref_len (pos (string_len p.footer))
        || ltb_ℤ opts.max_pattern_len (pos (string_len p.pattern))
      then err (user_error 400)
      else ok (record p { rows = get_rows opts.max_pref_rows (int32 p.rows) })
