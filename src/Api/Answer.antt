-- ===== src/Api/Answer.antt =====
-- isk/api/utils.go: what a handler writes, and the cache headers of its JSON. How values are printed
-- as JSON is a parameter, and so is Go's layout of times in RFC 1123.
use esi_isk.Base.{String, List, [], ◌∷◌, ℕ, Option, none, some}
use esi_isk.Base.Int.{ℤ, pos, ◌+ℤ◌}
use esi_isk.Cx.{Options}
use esi_isk.Db.Types.{CharDetails, Character}
use esi_isk.Db.PrefTypes.{Prefs, Preferences}

-- the status that a handler wrote, the headers that it set, and the body
pub record Answer : Type 0 where
  pub status : ℕ
  pub headers : List (String × String)
  pub body : String

-- write
unfoldable pub write : ℕ → String → Answer
write status body = record { status = status; headers = []; body = body }

-- write500, write400, write403 and write405
unfoldable pub write500 : Answer
unfolding write
write500 = write 500 "internal error"

unfoldable pub write400 : Answer
unfolding write
write400 = write 400 "request error"

unfoldable pub write403 : Answer
unfolding write
write403 = write 403 "request denied"

unfoldable pub write405 : Answer
unfolding write
write405 = write 405 "method not allowed"

-- The values that the handlers print: details of a character, preferences of one kind (nil for none)
-- or of both, and the two top lists under their keys.
pub data Document (F : Type 0) : Type 0 where
  character_details : CharDetails F → Document F
  one_kind : Option (Prefs F) → Document F
  both_kinds : Preferences F → Document F
  top_lists : (recipients donators : List (Character F)) → Document F

-- Go's `json.Marshal`, which may fail, its layout of times, and http.Redirect with the status 302.
pub record Printer (F : Type 0) : Type 0 where
  pub marshal : Document F → Option String
  pub rfc1123 : ℤ → String
  pub redirect : String → Answer

module _ {F : Type 0} (printer : Printer F) (opts : Options) where
  -- writeCacheHeaders; `now` is in seconds
  unfoldable pub cache_headers : ℕ → List (String × String)
  cache_headers now =
      ("Last-Modified", printer.rfc1123 (pos now))
      ∷ ("Expires", printer.rfc1123 (pos now +ℤ opts.cache_time))
      ∷ []

  -- writeJSON
  unfoldable pub write_json : ℕ → Document F → Answer
  unfolding write write500 cache_headers
  write_json now res = elim (printer.marshal res) [
    | none ↦ write500
    | some text ↦ record (write 200 text) {
      headers = ("Content-Type", "application/json") ∷ cache_headers now;
    }
  ]
