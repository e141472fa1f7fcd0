-- ===== src/Api/Prefs.antt =====
-- isk/api/preferences.go: the page on which a character reads and sets its preferences. The session,
-- the JSON of the body and the cache of responses are those of libraries, and parameters here.
pub mod Reading
pub mod Laws
pub mod Round
use Prim.Native.String.{◌++◌}
use esi_isk.Base.{
  ℕ, String, Bool, true, false, List, [], ◌∷◌, Option, none, some, ltb, str_eq, if◌then◌else◌,
}
use esi_isk.Base.Int.{ℤ, pos, pos_part, ltb_ℤ}
use esi_isk.Cx.{Options}
use esi_isk.Db.PrefTypes.{Prefs, Preferences}
use esi_isk.Db.Store.{not_valid, Result, ok, err, panic, Action, pure, crash, ◌>>=◌, attempt}
use esi_isk.Db.Preferences.{sanity, set_preferences}
use esi_isk.Api.View.{get_pref_type, read_preferences as get_preferences}
use esi_isk.Api.Answer.{
  Answer, write400, write403, write405, write500, Document, one_kind, both_kinds, Printer,
  write_json,
}

pub data Method : Type 0 where
  method_get method_post other_method : Method

-- the value "c" of the session: none, an int32, or of another type
pub data SessionValue : Type 0 where
  missing : SessionValue
  int32 : ℤ → SessionValue
  unexpected : SessionValue

-- what the handler reads of a request
pub record Request : Type 0 where
  pub method : Method
  pub session : SessionValue
  -- the parameter t of the URL
  pub t : String
  pub body : String

-- The JSON decoder, for one kind of preferences and for both.
pub record Decoder (F : Type 0) : Type 0 where
  pub decode_prefs : String → Option (Prefs F)
  pub decode_preferences : String → Option (Preferences F)

-- net/url, hash/fnv and the cache. `query` gives the parameters of a URL with all their values, and
-- `with_query` prints it with such parameters instead.
pub record CacheLib (C : Type 0) : Type 1 where
  pub Url : Type 0
  pub parse : String → Option Url
  pub query : Url → List (String × List String)
  pub sort_strings : List String → List String
  pub with_query : List (String × List String) → Url → String
  pub new64a : String → ℕ
  pub release : ℕ → C → C

module _ {F : Type 0} (opts : Options) (decoder : Decoder F) where
  -- Sanity on a pointer: it dereferences nil
  pub sane : Option (Prefs F) → Result (Prefs F)
  unfolding sanity
  sane none = panic
  sane (some p) = sanity opts p

  -- readSingularPrefs
  unfoldable pub read_singular_prefs : String → Result (Prefs F)
  unfolding sane
  read_singular_prefs body = elim (decoder.decode_prefs body) [
    | none ↦ err not_valid
    | some p ↦ sane (some p)
  ]

  -- the two calls of Sanity in readMultiplePrefs
  pub sane_both : Preferences F → Result (Preferences F)
  unfolding sane
  sane_both p = elim (sane p.donations) [
    | ok d ↦ elim (sane p.contracts) [
      | ok c ↦ ok (record { donations = some d; contracts = some c })
      | err e ↦ err e
      | panic ↦ panic
    ]
    | err e ↦ err e
    | panic ↦ panic
  ]

  -- readMultiplePrefs
  unfoldable pub read_multiple_prefs : String → Result (Preferences F)
  unfolding sane_both
  read_multiple_prefs body = elim (decoder.decode_preferences body) [
    | none ↦ err not_valid
    | some p ↦ sane_both p
  ]

  -- the end of readPreferences
  abbrev pub only : String → Prefs F → Preferences F
  only t p =
      if str_eq t "d"
      then record { donations = some p; contracts = none }
      else record { donations = none; contracts = some p }

  -- readPreferences
  unfoldable pub read_body : String → String → Result (Preferences F)
  unfolding read_singular_prefs read_multiple_prefs
  read_body body t =
      if str_eq t "a" then read_multiple_prefs body else (elim (read_singular_prefs body) [
        | ok p ↦ ok (only t p)
        | err e ↦ err e
        | panic ↦ panic
      ])

module _ {C : Type 0} (lib : CacheLib C) where
  -- sortURLParams: the values of each parameter in order
  pub sort_url_params : List (String × List String) → List (String × List String)
  sort_url_params [] = []
  sort_url_params ((name, values) ∷ params) =
      (name, lib.sort_strings values) ∷ sort_url_params params

  -- generateKey
  pub generate_key : String → ℕ
  generate_key url = lib.new64a url

  -- dropCache
  unfoldable pub drop_cache : String → C → C
  unfolding sort_url_params generate_key
  drop_cache path cache = elim (lib.parse path) [
    | none ↦ cache
    | some u ↦ lib.release (generate_key (lib.with_query (sort_url_params (lib.query u)) u)) cache
  ]

  -- the passphrase that dropCustomAPICache reads, through a pointer
  pub passphrase_of : {F : Type 0} → String → Preferences F → Result String
  passphrase_of t p = elim (if str_eq t "c" then p.contracts else p.donations) [
    | none ↦ panic
    | some prefs ↦ ok prefs.passphrase
  ]

  -- dropCustomAPICache; `dec` prints a number
  unfoldable pub drop_custom_api_cache :
      {F : Type 0} → (ℤ → String) → ℤ → Preferences F → String → C → Result C
  unfolding drop_cache passphrase_of
  drop_custom_api_cache dec char_id p t cache =
      let u = ("/api/custom?c=" ++ dec char_id) ++ ("&t=" ++ t) in
      let cache' = drop_cache u cache in
      elim (passphrase_of t p) [
        | ok passphrase ↦ ok (
            if str_eq passphrase "" then cache' else drop_cache (u ++ ("&p=" ++ passphrase)) cache')
        | err e ↦ err e
        | panic ↦ panic
      ]

abbrev pub no_content : Answer
no_content = record { status = 204; headers = []; body = "" }

-- the choice of writePreferences
unfoldable pub document : {F : Type 0} → Preferences F → Document F
document p = elim p.contracts [
  | none ↦ one_kind p.donations
  | some c ↦ elim p.donations [ none ↦ one_kind (some c) | some d ↦ both_kinds p ]
]

module _ {F C : Type 0} (opts : Options) (decoder : Decoder F) (printer : Printer F)
    (lib : CacheLib C) (dec : ℤ → String) (now : ℕ) where
  -- what getPreferences and writePreferences write
  pub show_preferences : Result (Preferences F) × ℕ → Action F Answer
  unfolding write400 write500 write_json document
  show_preferences (ok p, _) = pure (write_json printer opts now (document p))
  show_preferences (err _, status) = pure (if ltb status 500 then write400 else write500)
  show_preferences (panic, _) = crash

  -- writePreferences
  unfoldable pub write_preferences : String → ℤ → Action F Answer
  unfolding get_preferences show_preferences
  write_preferences t char_id = do
    found ← get_preferences opts t (pos_part char_id)
    show_preferences found

  -- the end of updatePreferences
  pub stored : ℤ → Preferences F → String → C → Result (Unit {0}) → Action F (Answer × C)
  unfolding drop_custom_api_cache write400
  stored char_id p t cache (ok _) = elim (drop_custom_api_cache lib dec char_id p t cache) [
    | ok cache' ↦ pure (no_content, cache')
    | _ ↦ crash
  ]
  stored char_id p t cache (err _) = pure (write400, cache)
  stored char_id p t cache panic = crash

  pub update_with : ℤ → String → C → Result (Preferences F) → Action F (Answer × C)
  unfolding set_preferences stored write400
  update_with char_id t cache (ok p) = do
    r ← attempt (set_preferences (pos_part char_id) p)
    stored char_id p t cache r
  update_with char_id t cache (err _) = pure (write400, cache)
  update_with char_id t cache panic = crash

  -- updatePreferences
  unfoldable pub update_preferences : String → String → ℤ → C → Action F (Answer × C)
  unfolding get_pref_type read_body update_with write400
  update_preferences kind body char_id cache = elim (get_pref_type kind) [
    | none ↦ pure (write400, cache)
    | some t ↦ update_with char_id t cache (read_body opts decoder body t)
  ]

  -- the end of Preferences, for a session with an int32
  pub with_character : Request → ℤ → C → Action F (Answer × C)
  unfolding write403 write_preferences update_preferences
  with_character r char_id cache =
      if ltb_ℤ char_id (pos 1) then pure (write403, cache) else (elim r.method [
        | method_post ↦ update_preferences r.t r.body char_id cache
        | _ ↦ do a ← write_preferences r.t char_id; pure (a, cache)
      ])

  -- the answer to a request without a session
  pub refuse : Method → Answer
  unfolding write403
  refuse method_get = printer.redirect "/login"
  refuse _ = write403

  -- the switch on the session
  pub with_session : Request → SessionValue → C → Action F (Answer × C)
  unfolding write403 with_character refuse
  with_session r missing cache = pure (refuse r.method, cache)
  with_session r unexpected cache = pure (write403, cache)
  with_session r (int32 char_id) cache = with_character r char_id cache

  -- Preferences
  unfoldable pub preferences : Request → C → Action F (Answer × C)
  unfolding write405 with_session
  preferences r cache = elim r.method [
    | other_method ↦ pure (write405, cache)
    | _ ↦ with_session r r.session cache
  ]
