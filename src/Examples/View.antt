-- ===== src/Examples/View.antt =====
-- The theorem on the passphrase of the custom view, where character 8 has set one.
use esi_isk.Base.{ℕ, ◌≡◌, refl, true, some, [], ◌∷◌}
use esi_isk.Base.Int.{ℤ}
use esi_isk.Db.Types.{CharDetails}
use esi_isk.Db.PrefTypes.{Preferences}
use esi_isk.Db.Store.{Db, ok, query, get}
use esi_isk.Db.Store.Laws.{SameTables}
use esi_isk.Db.Details.{get_char_details}
use esi_isk.Api.View.{header, row, footer, page, read_preferences, custom}
use esi_isk.Api.View.Passphrase.{MayShow, custom-MayShow}
use esi_isk.Examples.Cents.{cents}
use esi_isk.Examples.Data.{row_of_8, preferences_of_8, tables, options, plain}

-- character 8 is of good standing and has a passphrase
abbrev guarded : Db ℤ
guarded = record tables {
  characters = record row_of_8 { good_standing = true } ∷ [];
  preferences =
      record preferences_of_8 { donation_passphrase = record { string = "x"; valid = true } } ∷ [];
}

shown :
    custom plain (λ l. l) (λ n. n) (λ l. l) (λ l. l) (λ s. true) options (some 8) "d" "x" guarded
    ≡ (
      ok (page (header "" ∷ row "%CHARACTER% just donated %AMOUNT% ISK!" ∷ footer "" ∷ [])),
      record guarded { calls = 9 },
    )
unfolding custom query get cents
shown = refl

custom-MayShow_example :
    (c : CharDetails ℤ) × (p : Preferences ℤ) × (w₁ : Db ℤ) × ((get_char_details
        (λ l. l)
        (λ l. l)
        8
        guarded).0
      ≡ ok c)
    × SameTables guarded w₁
    × ((status : ℕ) × ((read_preferences options "d" 8 w₁).0 ≡ ok (ok p, status)))
    × MayShow "x" c p
custom-MayShow_example =
    custom-MayShow plain (λ l. l) (λ n. n) (λ l. l) (λ l. l) (λ s. true) options 8 "d" "x" guarded
      shown
