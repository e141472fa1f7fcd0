-- ===== src/Examples/Handlers.antt =====
-- The theorems on the page of preferences at the requests of character 8.
use esi_isk.Base.{ℕ, ◌≡◌, ◌⊎◌, refl, String, List, [], ◌∷◌, none, some, arith}
use esi_isk.Base.Int.{ℤ}
use esi_isk.Db.Store.{Db, ok}
use esi_isk.Db.Store.Laws.{SameTables}
use esi_isk.Db.Preferences.{sanity}
use esi_isk.Api.Answer.{Printer, write_json, one_kind}
use esi_isk.Api.Prefs.{CacheLib, Decoder, no_content, preferences}
use esi_isk.Api.Prefs.Laws.{Stores, preferences-Stores}
use esi_isk.Api.Prefs.Round.{posting, getting, preferences_get-preferences_post, of_donations}
use esi_isk.Examples.Cents.{cents}
use esi_isk.Examples.Data.{preferences_of_8, tables, options, prefs}
use esi_isk.Examples.Db.{prefs-IsStorable}

-- a body of any text is the preferences of the examples
abbrev decoder : Decoder ℤ
decoder = record { decode_prefs = λ _. some prefs; decode_preferences = λ _. none }

abbrev printer : Printer ℤ
printer = record {
  marshal = λ _. some "{}";
  rfc1123 = λ _. "then";
  redirect = λ url. record { status = 302; headers = ("Location", url) ∷ []; body = "" };
}

-- a cache that notes the keys that were released
abbrev lib : CacheLib (List ℕ)
lib = record {
  Url = String;
  parse = λ s. some s;
  query = λ _. [];
  sort_strings = λ l. l;
  with_query = λ _ u. u;
  new64a = λ _. 1;
  release = λ key keys. key ∷ keys;
}

abbrev dec : ℤ → String
dec _ = "8"

prefs_sane : sanity options prefs ≡ ok prefs
unfolding sanity
prefs_sane = refl

preferences_get-preferences_post_example :
    (cache' : List ℕ) × (w' : Db ℤ) × (preferences options decoder printer lib dec 50
        (posting of_donations 8 "{}")
        []
        tables
      ≡ (ok (no_content, cache'), w'))
    × ((text : String)
        → (preferences options decoder printer lib dec 50 (getting of_donations 8 text) cache' w').0
          ≡ ok (write_json printer options 50 (one_kind (some prefs)), cache'))
preferences_get-preferences_post_example =
    preferences_get-preferences_post options decoder printer lib dec 50 of_donations 8 "{}" prefs
      prefs [] tables preferences_of_8 (λ n. refl) (ground arith) refl refl prefs_sane
      prefs-IsStorable

preferences-Stores_example :
    SameTables tables
      (preferences options decoder printer lib dec 50 (posting of_donations 8 "{}") [] tables).1
    ⊎ Stores options decoder printer lib dec 50
        (posting of_donations 8 "{}")
        tables
        (preferences options decoder printer lib dec 50 (posting of_donations 8 "{}") [] tables).1
        (preferences options decoder printer lib dec 50 (posting of_donations 8 "{}") [] tables).0
preferences-Stores_example =
    preferences-Stores options decoder printer lib dec 50 (posting of_donations 8 "{}") [] tables
      refl
