-- ===== src/Api/View.antt =====
-- The custom view: Custom, checkPassphrase, writeTemplates and what they call in isk/api/custom.go, and
-- getPrefType and getPreferences of isk/api/preferences.go. What is written to the client is a list of
-- parts; a client that closes the connection is left out.
pub mod Laws
pub mod Passphrase
use esi_isk.Base.{
  ℕ, zero, suc, String, Bool, true, false, not, ◌&&◌, ◌||◌, List, [], ◌∷◌, ◌++◌, Option, none, some,
  map, take, ltb, ◌==◌, str_eq, if◌then◌else◌,
}
use esi_isk.Base.Int.{ℤ, pos_part}
use esi_isk.Base.Float.{Float64}
use esi_isk.Cx.{Options}
use esi_isk.Db.Types.{CharDetails, Donation, Contract}
use esi_isk.Db.PrefTypes.{Prefs, Preferences}
use esi_isk.Db.Store.{not_valid, Result, ok, err, panic, Action, pure, crash, ◌>>=◌, attempt}
use esi_isk.Db.Details.{get_char_details}
use esi_isk.Db.Preferences.{get_preferences}
use esi_isk.Api.Format.{Formats}
use esi_isk.Api.Rows.{RowPattern, get_row_patterns}

pub data Part : Type 0 where
  header : String → Part
  row : String → Part
  footer : String → Part

pub data Response : Type 0 where
  failed : ℕ → Response
  page : List Part → Response

abbrev pub row_parts : List RowPattern → List Part
row_parts rows = map (λ (r : RowPattern). row r.str) rows

-- getPrefType
unfoldable pub get_pref_type : String → Option String
get_pref_type t =
    if str_eq t ""
    then some "d"
    else if not (str_eq t "d") && not (str_eq t "c") && not (str_eq t "a")
    then none
    else some t

module _ {F : Type 0} where
  -- the passphrase that checkPassphrase asks for; without any preferences it dereferences nil
  unfoldable pub passphrase_of : Preferences F → Result String
  passphrase_of p = elim p.donations [
    | some d ↦ ok d.passphrase
    | none ↦ elim p.contracts [ some c ↦ ok c.passphrase | none ↦ panic ]
  ]

  -- checkPassphrase: whether the request may go on
  unfoldable pub check_passphrase : String → CharDetails F → Preferences F → Result Bool
  unfolding passphrase_of
  check_passphrase given c p =
      if not c.character.good_standing then ok true else (elim (passphrase_of p) [
        | ok passphrase ↦ ok (str_eq passphrase "" || str_eq given passphrase)
        | err e ↦ err e
        | panic ↦ panic
      ])

  -- getPreferences, with the error that it answers; no error is of the type *UserError
  unfoldable pub read_preferences : Options → String → ℕ → Action F (Result (Preferences F) × ℕ)
  unfolding get_pref_type get_preferences
  read_preferences opts t char_id = elim (get_pref_type t) [
    | none ↦ pure (err not_valid, 400)
    | some kind ↦ do prefs ← attempt (get_preferences opts kind char_id); pure (prefs, 500)
  ]

-- `sort_rows` is Go's sort.Sort over rowPatterns, the latest first.
module _ {F : Type 0} ⦃f : Float64 F⦄ (fmt : Formats F)
    (sort_rows : List RowPattern → List RowPattern) (clock : ℕ → ℕ) where
  -- writeTemplates with writeRowsSingular and writeRowsMultiple
  unfoldable pub write_templates : CharDetails F → Preferences F → Action F (List Part)
  unfolding get_row_patterns
  write_templates c p = elim p.donations [
    | some d ↦ elim p.contracts [
      | some k ↦ do
        donations ← get_row_patterns fmt clock c d "d"
        contracts ← get_row_patterns fmt clock c k "c"
        pure (
            header d.header
              ∷ row_parts (take (pos_part d.rows) (sort_rows (donations ++ contracts)))
            ++ footer d.footer ∷ [])
      | none ↦ do
        rows ← get_row_patterns fmt clock c d "d"
        pure (header d.header ∷ row_parts rows ++ footer d.footer ∷ [])
    ]
    | none ↦ elim p.contracts [
      | some k ↦ do
        rows ← get_row_patterns fmt clock c k "c"
        pure (header k.header ∷ row_parts rows ++ footer k.footer ∷ [])
      | none ↦ crash
    ]
  ]

  -- the end of Custom; `parses` says whether buildTemplates can parse a template with that name in it
  unfoldable pub show_page :
      (String → Bool) → String → CharDetails F → Preferences F → Action F Response
  unfolding check_passphrase write_templates
  show_page parses given c p = elim (check_passphrase given c p) [
    | ok true ↦
        if parses c.character.name
        then (do parts ← write_templates c p; pure (page parts))
        else pure (failed 500)
    | ok false ↦ pure (failed 403)
    | err _ ↦ pure (failed 403)
    | panic ↦ crash
  ]

  pub custom_with :
      (String → Bool) → String → CharDetails F → Result (Preferences F) × ℕ → Action F Response
  unfolding show_page
  custom_with parses given c (ok p, _) = show_page parses given c p
  custom_with parses given c (err _, status) = pure (failed status)
  custom_with parses given c (panic, _) = crash

  pub custom_found :
      (String → Bool) → Options → String → String → ℕ → Result (CharDetails F) → Action F Response
  unfolding read_preferences custom_with
  custom_found parses opts t given char_id (ok c) = do
    prefs ← read_preferences opts t char_id
    custom_with parses given c prefs
  custom_found parses opts t given char_id (err _) = pure (failed 500)
  custom_found parses opts t given char_id panic = crash

  -- Custom: `char_id` is what getCharID made of the request, `t` and `given` its parameters t and p
  unfoldable pub custom :
      (List (Donation F) → List (Donation F))
      → (List (Contract F) → List (Contract F))
      → (String → Bool)
      → Options
      → Option ℕ
      → String
      → String
      → Action F Response
  unfolding get_char_details custom_found
  custom sort_donations sort_contracts parses opts none t given = pure (failed 400)
  custom sort_donations sort_contracts parses opts (some char_id) t given =
      if char_id == 0 then pure (failed 400) else (do
        details ← attempt (get_char_details sort_donations sort_contracts char_id)
        custom_found parses opts t given char_id details)
