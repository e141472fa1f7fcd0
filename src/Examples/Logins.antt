-- ===== src/Examples/Logins.antt =====
-- The theorems on callbacks at a login of character 8.
use esi_isk.Base.{◌≡◌, ◌⊎◌, ◌∷◌, refl, true, false, none, some, arith}
use esi_isk.Base.Int.{ℤ}
use esi_isk.Db.Store.{ok}
use esi_isk.Api.Answer.{write}
use esi_isk.Api.Auth.Laws.{Event, after, pending, accepted}
use esi_isk.Api.Login.{LoginLib, Login, callback}
use esi_isk.Api.Login.Laws.{Unsigned, Signs, callback-after, callback-callback}
use esi_isk.Examples.Cents.{cents}
use esi_isk.Examples.Data.{tables, options}
use esi_isk.Examples.Api.{history}

abbrev login_lib : LoginLib
login_lib = record {
  auth_code_url = λ state. state;
  exchange = λ code. ok (record { access_token = code; refresh_token = "r"; expiry = 2000 });
  get = λ _. ok "{}";
  decode = λ _. some (record { character_id = 8; owner_hash = "o" });
  redirect = λ url. write 302 url;
  dec = λ _. "8";
}

abbrev visitor : Login ℤ
visitor = record { store = after history; char = none; tables = tables }

callback-after_example :
    ((callback options login_lib 1000 "b" "x" visitor).1.store
      ≡ after (Event.callback 1000 "b" ∷ history))
    × (Unsigned options login_lib visitor (callback options login_lib 1000 "b" "x" visitor).1
        ⊎ ((accepted 1000 (pending "b" history) ≡ true)
            × Signs options login_lib "x" visitor
                (callback options login_lib 1000 "b" "x" visitor).1
                (callback options login_lib 1000 "b" "x" visitor).0))
    × (accepted 1000 (pending "b" history) ≡ false
        → (callback options login_lib 1000 "b" "x" visitor).0 ≡ ok (write 400 "invalid state"))
callback-after_example =
    callback-after options login_lib 1000 "b" "x" history visitor refl (ground arith) refl refl

callback-callback_example :
    callback options login_lib 1001 "b" "y" (callback options login_lib 1000 "b" "x" visitor).1
    ≡ (ok (write 400 "invalid state"), (callback options login_lib 1000 "b" "x" visitor).1)
callback-callback_example =
    callback-callback options login_lib 1000 1001 "b" "x" "y" visitor refl refl
