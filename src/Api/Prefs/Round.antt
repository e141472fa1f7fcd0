-- ===== src/Api/Prefs/Round.antt =====
-- The page of preferences reads what it stored.
use esi_isk.Base.{ℕ, zero, suc, ◌≡◌, ◌≤◌, refl, ap, ◌∙◌, String, none, some, arith}
use esi_isk.Base.Int.{ℤ, pos}
use esi_isk.Cx.{Options}
use esi_isk.Db.PrefTypes.{Prefs, Preferences, DbPreferences}
use esi_isk.Db.Store.{Db, ok, pure, ◌>>=◌, attempt, Result}
use esi_isk.Db.Store.Laws.{IsUp, >>=-value, attempt-value}
use esi_isk.Db.Statements.Tables.{find_by}
use esi_isk.Db.Statements.Preferences.{prefs_key}
use esi_isk.Db.Preferences.{sanity, set_preferences, get_preferences as stored_preferences}
use esi_isk.Db.Preferences.Laws.{IsStorable, get_preferences-set_preferences}
use esi_isk.Api.View.{get_pref_type, read_preferences as get_preferences}
use esi_isk.Api.Answer.{Answer, Printer, write_json, one_kind}
use esi_isk.Api.Prefs.{
  method_get, method_post, int32, Request, Decoder, CacheLib, sane, read_singular_prefs, read_body,
  no_content, document, show_preferences, write_preferences, stored, update_with,
  update_preferences, with_character, with_session, preferences,
}
use esi_isk.Api.Prefs.Reading.{passphrase_of-read, drop_custom_api_cache-ok}
use esi_isk.Db.Preferences.Contracts.{get_preferences-set_preferences_contracts}

-- The two kinds of preferences that are posted by themselves, with their parameter t.
pub data OneKind : Type 0 where
  of_donations of_contracts : OneKind

abbrev pub letter : OneKind → String
letter of_donations = "d"
letter of_contracts = "c"

-- The requests of a logged-in character for its preferences of one kind.
abbrev pub posting : OneKind → ℕ → String → Request
posting kind id body = record {
  method = method_post;
  session = int32 (pos id);
  t = letter kind;
  body = body;
}

abbrev pub getting : OneKind → ℕ → String → Request
getting kind id body = record {
  method = method_get;
  session = int32 (pos id);
  t = letter kind;
  body = body;
}

get_pref_type-letter : (kind : OneKind) → get_pref_type (letter kind) ≡ some (letter kind)
unfolding get_pref_type
get_pref_type-letter of_donations = refl
get_pref_type-letter of_contracts = refl

-- preferences of one kind by themselves
abbrev pub alone : {F : Type 0} → OneKind → Prefs F → Preferences F
alone of_donations p = record { donations = some p; contracts = none }
alone of_contracts p = record { donations = none; contracts = some p }

document-alone :
    {F : Type 0} (kind : OneKind) (q : Prefs F) → document (alone kind q) ≡ one_kind (some q)
unfolding document
document-alone of_donations q = refl
document-alone of_contracts q = refl

module _ {F : Type 0} (opts : Options) where
  read_body-alone :
      (decoder : Decoder F) (kind : OneKind) (body : String) (p q : Prefs F)
      → decoder.decode_prefs body ≡ some p
      → sanity opts p ≡ ok q
      → read_body opts decoder body (letter kind) ≡ ok (alone kind q)
  unfolding read_body read_singular_prefs sane
  read_body-alone decoder of_donations body p q e s = ground arith
  read_body-alone decoder of_contracts body p q e s = ground arith

  -- Preferences of one kind are stored and read back.
  stored_preferences-alone :
      (kind : OneKind) (id : ℕ) (p : Prefs F) (w : Db F) (r : DbPreferences F)
      → IsUp w
      → find_by prefs_key id w.preferences ≡ some r
      → IsStorable opts p
      → let (stored, w') = set_preferences id (alone kind p) w in
        (stored ≡ ok tt) × ((stored_preferences opts (letter kind) id w').0 ≡ ok (alone kind p))
  stored_preferences-alone of_donations id p w r up e s =
      let (saved, back, _, _) = get_preferences-set_preferences opts id p w r up e s in
      (saved, back)
  stored_preferences-alone of_contracts id p w r up e s =
      let (saved, back, _, _) = get_preferences-set_preferences_contracts opts id p w r up e s in
      (saved, back)

  read_preferences-value :
      (kind : OneKind) (id : ℕ) (q : Prefs F) (w : Db F)
      → (stored_preferences opts (letter kind) id w).0 ≡ ok (alone kind q)
      → (get_preferences opts (letter kind) id w).0 ≡ ok (ok (alone kind q), 500)
  unfolding get_preferences get_pref_type
  read_preferences-value of_donations id q w known =
      >>=-value (attempt (stored_preferences opts "d" id))
        (λ r. pure {A = Result (Preferences F) × ℕ} (r, 500)) w
        (attempt-value (stored_preferences opts "d" id) w known) (λ w₁. refl)
  read_preferences-value of_contracts id q w known =
      >>=-value (attempt (stored_preferences opts "c" id))
        (λ r. pure {A = Result (Preferences F) × ℕ} (r, 500)) w
        (attempt-value (stored_preferences opts "c" id) w known) (λ w₁. refl)

module _ {F C : Type 0} (opts : Options) (decoder : Decoder F) (printer : Printer F)
    (lib : CacheLib C) (dec : ℤ → String) (now : ℕ) where
  preferences_post :
      (kind : OneKind) (id : ℕ) (body : String) (q : Prefs F) (cache : C) (w w' : Db F)
      → 1 ≤ id
      → read_body opts decoder body (letter kind) ≡ ok (alone kind q)
      → set_preferences id (alone kind q) w ≡ (ok tt, w')
      → (cache' : C) × (preferences opts decoder printer lib dec now (posting kind id body) cache w
          ≡ (ok (no_content, cache'), w'))
  unfolding preferences with_session with_character update_preferences update_with stored
  preferences_post kind zero body q cache w w' le read saved = absurd (ground arith)
  preferences_post kind (suc n) body q cache w w' le read saved =
      let known = get_pref_type-letter kind in
      let (s, has) =
        passphrase_of-read opts decoder lib (letter kind) body (letter kind) (alone kind q) known
          read in
      let (cache', dropped) =
        drop_custom_api_cache-ok lib dec (pos (suc n)) (alone kind q) (letter kind) cache s has in
      (cache', ground arith)

  -- A logged-in character is shown its preferences.
  preferences-write_preferences :
      (kind : OneKind) (id : ℕ) (body : String) (cache : C) (w : Db F)
      → 1 ≤ id
      → preferences opts decoder printer lib dec now (getting kind id body) cache w
        ≡ (write_preferences opts decoder printer lib dec now (letter kind) (pos id) >>= λ a.
              pure (a, cache))
            w
  unfolding preferences with_session with_character
  preferences-write_preferences kind id body cache w le = ground arith

  preferences_get :
      (kind : OneKind) (id : ℕ) (body : String) (q : Prefs F) (cache : C) (w : Db F)
      → 1 ≤ id
      → (stored_preferences opts (letter kind) id w).0 ≡ ok (alone kind q)
      → (preferences opts decoder printer lib dec now (getting kind id body) cache w).0
        ≡ ok (write_json printer opts now (one_kind (some q)), cache)
  unfolding write_preferences show_preferences
  preferences_get kind id body q cache w le known =
      ap (λ r. r.0) (preferences-write_preferences kind id body cache w le)
      ∙ >>=-value (write_preferences opts decoder printer lib dec now (letter kind) (pos id))
          (λ x. pure {A = Answer × C} (x, cache)) w
          (>>=-value (get_preferences opts (letter kind) id)
            (show_preferences opts decoder printer lib dec now) w
            (read_preferences-value opts kind id q w known)
            (λ w₁. ap (λ d. ok (write_json printer opts now d)) (document-alone kind q)))
          (λ w₁. refl)

  -- Preferences for donations, or for contracts, that a logged-in character posts are what it gets back
  -- as JSON: when the database answers and the character has a row of preferences, for a body that
  -- decodes to preferences that Sanity passes and the columns can keep, the POST is answered with 204,
  -- and a GET on the tables that it leaves shows the preferences as Sanity left them.
  pub preferences_get-preferences_post :
      (kind : OneKind) (id : ℕ) (body : String) (p q : Prefs F) (cache : C) (w : Db F)
      (row : DbPreferences F)
      → IsUp w
      → 1 ≤ id
      → find_by prefs_key id w.preferences ≡ some row
      → decoder.decode_prefs body ≡ some p
      → sanity opts p ≡ ok q
      → IsStorable opts q
      → (cache' : C) × (w' : Db F) × (preferences opts decoder printer lib dec now
            (posting kind id body)
            cache
            w
          ≡ (ok (no_content, cache'), w'))
        × ((text : String)
            → (preferences opts decoder printer lib dec now (getting kind id text) cache' w').0
              ≡ ok (write_json printer opts now (one_kind (some q)), cache'))
  preferences_get-preferences_post kind id body p q cache w row up id_pos found decoded sane_p
        storable =
      let (saved, back) = stored_preferences-alone opts kind id q w row up found storable in
      let w' = (set_preferences id (alone kind q) w).1 in
      let (cache', posted) =
        preferences_post kind id body q cache w w' id_pos
          (read_body-alone opts decoder kind body p q decoded sane_p) (ap (λ r. (r, w')) saved) in
      (cache', w', posted, λ text. preferences_get kind id text q cache' w' id_pos back)
