-- ===== src/Api/Pages.antt =====
-- The pages that show JSON: character.go, top.go and ping.go of isk/api.
use esi_isk.Base.{ℕ, String, Bool, true, false, List, Option, none, some, if◌then◌else◌}
use esi_isk.Base.Int.{ℤ, pos, pos_part, ltb_ℤ}
use esi_isk.Base.Word.{int32}
use esi_isk.Base.Float.{Float64}
use esi_isk.Cx.{Options}
use esi_isk.Db.Types.{CharacterRow, Character, CharDetails, Donation, Contract}
use esi_isk.Db.PrefTypes.{Preferences}
use esi_isk.Db.Store.{Result, ok, err, panic, Action, pure, crash, ◌>>=◌, attempt}
use esi_isk.Db.Details.{get_char_details}
use esi_isk.Db.Preferences.{get_preferences}
use esi_isk.Db.Top.{get_top_recipients, get_top_donators}
use esi_isk.Api.View.{check_passphrase}
use esi_isk.Api.Answer.{
  Answer, write, write400, write403, write500, character_details, top_lists, Printer, write_json,
}

-- Ping
unfoldable pub ping : Answer
unfolding write
ping = write 200 "ok"

-- getCharID on the parameter c; `parse_int` is strconv.ParseInt with base 10 and 32 bits
unfoldable pub get_char_id : (String → Option ℤ) → String → Option ℤ
unfolding int32
get_char_id parse_int c = elim (parse_int c) [ none ↦ none | some n ↦ some (int32 n) ]

module _ {F : Type 0} ⦃f : Float64 F⦄ (opts : Options) (printer : Printer F) (now : ℕ) where
  -- the end of TopRecipients
  show_top : Result (List (Character F)) → Result (List (Character F)) → Action F Answer
  unfolding write500 write_json
  show_top (ok recipients) (ok donators) =
      pure (write_json printer opts now (top_lists recipients donators))
  show_top panic _ = crash
  show_top _ panic = crash
  show_top _ _ = pure write500

  -- TopRecipients
  unfoldable pub top_recipients :
      ((CharacterRow F → F) → List (CharacterRow F) → List (CharacterRow F)) → Action F Answer
  unfolding get_top_recipients get_top_donators write500 show_top
  top_recipients order_desc = do
    recipients ← attempt (get_top_recipients order_desc)
    elim recipients [
      | ok rs ↦ do donators ← attempt (get_top_donators order_desc); show_top (ok rs) donators
      | err _ ↦ pure write500
      | panic ↦ crash
    ]

  -- the test of the passphrase in CharacterDetails, which is passed over where the preferences
  -- cannot be read
  pub guard : String → CharDetails F → Result (Preferences F) → Result Bool
  unfolding check_passphrase
  guard given c (ok p) = check_passphrase given c p
  guard given c (err _) = ok true
  guard given c panic = panic

  pub show_details : CharDetails F → Result Bool → Action F Answer
  unfolding write403 write_json
  show_details c (ok true) = pure (write_json printer opts now (character_details c))
  show_details c (ok false) = pure write403
  show_details c (err _) = pure write403
  show_details c panic = crash

  pub details_found : String → ℕ → Result (CharDetails F) → Action F Answer
  unfolding get_preferences guard show_details write500
  details_found given char_id (ok c) = do
    p ← attempt (get_preferences opts "d" char_id)
    show_details c (guard given c p)
  details_found given char_id (err _) = pure write500
  details_found given char_id panic = crash

  -- CharacterDetails: `given` is the parameter p
  unfoldable pub character_page :
      (List (Donation F) → List (Donation F))
      → (List (Contract F) → List (Contract F))
      → (String → Option ℤ)
      → String
      → String
      → Action F Answer
  unfolding get_char_id get_char_details details_found write400
  character_page sort_donations sort_contracts parse_int c given = elim (get_char_id parse_int c) [
    | none ↦ pure write400
    | some id ↦ if ltb_ℤ id (pos 1) then pure write400 else (do
      details ← attempt (get_char_details sort_donations sort_contracts (pos_part id))
      details_found given (pos_part id) details)
  ]
