-- ===== src/Api/Login.antt =====
-- NewLogin and Callback of isk/api/auth.go, with what they call. The login server, its client and the
-- session are those of libraries. A handler's state is the store of login states, the character of the
-- session, and the tables.
pub mod Laws
use Prim.Native.String.{◌++◌}
use esi_isk.Base.{ℕ, String, Bool, true, false, Option, none, some, if◌then◌else◌}
use esi_isk.Base.Float.{Float64}
use esi_isk.Cx.{Options}
use esi_isk.Db.Types.{User}
use esi_isk.Db.Store.{Db, Error, not_valid, Result, ok, err, panic}
use esi_isk.Db.Users.{save_user}
use esi_isk.Api.Answer.{Answer, write}
use esi_isk.Api.Auth.{StateStore, known_state, new_state}

-- the fields of oauth2.Token that are read
pub record Token : Type 0 where
  pub access_token : String
  pub refresh_token : String
  pub expiry : ℕ

-- VerifyModel
pub record VerifyModel : Type 0 where
  pub character_id : ℕ
  pub owner_hash : String

-- The oauth2 config, a GET of the SSO client, the decoder of its JSON, http.Redirect with the status
-- 302, and "%d".
pub record LoginLib : Type 0 where
  pub auth_code_url : String → String
  pub exchange : String → Result Token
  pub get : String → Result String
  pub decode : String → Option VerifyModel
  pub redirect : String → Answer
  pub dec : ℕ → String

pub record Login (F : Type 0) : Type 0 where
  pub store : StateStore
  -- the value "c" of the session
  pub char : Option ℕ
  pub tables : Db F

module _ (lib : LoginLib) where
  -- VerifyTokenHack, which getOwnerFromJWT returns
  unfoldable pub verify_token_hack : String → Result VerifyModel
  verify_token_hack token = elim (lib.get ("https://esi.evetech.net/verify/?token=" ++ token)) [
    | ok body ↦ elim (lib.decode body) [ none ↦ err not_valid | some model ↦ ok model ]
    | err e ↦ err e
    | panic ↦ panic
  ]

  abbrev user_of : Token → VerifyModel → User
  user_of t model = record {
    refresh_token = t.refresh_token;
    access_token = t.access_token;
    owner_hash = model.owner_hash;
    character_id = model.character_id;
    last_journal_id = record { int64 = 0; valid = false };
    last_contract_id = record { int64 = 0; valid = false };
    access_expires = t.expiry;
    last_processed = none;
  }

  -- userFromToken
  unfoldable pub user_from_token : Token → Result User
  unfolding verify_token_hack
  user_from_token t = elim (verify_token_hack t.access_token) [
    | ok model ↦ ok (user_of t model)
    | err e ↦ err e
    | panic ↦ panic
  ]

  -- the page that a user is sent to
  abbrev pub start_page : ℕ → String
  start_page id = ("/#prefs&c=" ++ lib.dec id) ++ "&t=d"

module _ {F : Type 0} ⦃f : Float64 F⦄ (opts : Options) (lib : LoginLib) where
  -- NewLogin: `fresh` is the uuid that was made
  unfoldable pub new_login : ℕ → String → Login F → Answer × Login F
  unfolding new_state write
  new_login now fresh l =
      if opts.has_auth
      then (
        lib.redirect (lib.auth_code_url fresh),
        record l { store = new_state now fresh l.store },
      )
      else (write 500 "auth is not configured", l)

  -- the end of Callback, with what SaveUser returned
  pub signed_in : User → Login F → Result (Unit {0}) × Db F → Result Answer × Login F
  unfolding write
  signed_in user l (ok _, w) = (
    ok (lib.redirect (start_page lib user.character_id)),
    record l { char = some user.character_id; tables = w },
  )
  signed_in user l (err _, w) = (ok (write 500 "failed to save new user"), record l { tables = w })
  signed_in user l (panic, w) = (panic, record l { tables = w })

  pub with_user : Result User → Login F → Result Answer × Login F
  unfolding save_user signed_in write
  with_user (ok user) l = signed_in user l (save_user user l.tables)
  with_user (err _) l = (ok (write 500 "failed to create new user"), l)
  with_user panic l = (panic, l)

  pub with_token : Result Token → Login F → Result Answer × Login F
  unfolding user_from_token with_user write
  with_token (ok tok) l = with_user (user_from_token lib tok) l
  with_token (err _) l = (ok (write 500 "failed to complete token exchange"), l)
  with_token panic l = (panic, l)

  -- the part of Callback that looks at the state
  pub with_state : Bool × StateStore → String → Login F → Result Answer × Login F
  unfolding with_token write
  with_state (true, store) code l = with_token (lib.exchange code) (record l { store = store })
  with_state (false, store) code l = (ok (write 400 "invalid state"), record l { store = store })

  -- Callback
  unfoldable pub callback : ℕ → String → String → Login F → Result Answer × Login F
  unfolding known_state with_state write
  callback now state code l =
      if opts.has_auth
      then with_state (known_state now state l.store) code l
      else (ok (write 500 "auth is not configured"), l)
