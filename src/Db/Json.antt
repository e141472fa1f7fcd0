-- ===== src/Db/Json.antt =====
-- MarshalJSON of Character in isk/db/character.go: the fields of its JSON in order, by the tags of the
-- struct. A field with `omitempty` is left out where its value is the zero one; a field of the outer
-- struct takes the place of the field of the alias with its name. Printing is left to encoding/json, and
-- `rfc3339` prints a time.
use esi_isk.Base.{ℕ, String, Bool, not, List, [], ◌∷◌, ◌++◌, ◌==◌, str_eq, if◌then◌else◌}
use esi_isk.Base.Float.{Float64}
use esi_isk.Db.Types.{Character}
use esi_isk.Db.Characters.Rows.{is_zero_time}

pub data Value (F : Type 0) : Type 0 where
  number : ℕ → Value F
  float : F → Value F
  text : String → Value F
  boolean : Bool → Value F

abbrev pub Fields : Type 0 → Type 0
Fields F = List (String × Value F)

-- the text of a time, which is empty for the zero time
abbrev pub time_text : (ℕ → String) → ℕ → String
time_text rfc3339 t = if not (is_zero_time t) then rfc3339 t else ""

module _ {F : Type 0} ⦃f : Float64 F⦄ where
  -- fields with `omitempty`
  abbrev pub number_field : String → ℕ → Fields F
  number_field name n = if n == 0 then [] else (name, number n) ∷ []

  abbrev pub float_field : String → F → Fields F
  float_field name x = if f.eq x f.zero_f then [] else (name, float x) ∷ []

  abbrev pub text_field : String → String → Fields F
  text_field name s = if str_eq s "" then [] else (name, text s) ∷ []

  -- MarshalJSON
  unfoldable pub marshal_json : (ℕ → String) → Character F → Fields F
  marshal_json rfc3339 c =
      ("id", number c.id) ∷ text_field "name" c.name
      ++ number_field "corporation" c.corporation_id
      ++ text_field "corporation_name" c.corporation_name
      ++ number_field "alliance" c.alliance_id
      ++ text_field "alliance_name" c.alliance_name
      ++ number_field "received" c.received
      ++ float_field "received_isk" c.received_isk
      ++ number_field "received_30" c.received_30
      ++ float_field "received_isk_30" c.received_isk_30
      ++ number_field "donated" c.donated
      ++ float_field "donated_isk" c.donated_isk
      ++ number_field "donated_30" c.donated_30
      ++ float_field "donated_isk_30" c.donated_isk_30
      ++ ("good_standing", boolean c.good_standing)
        ∷ text_field "last_received" (time_text rfc3339 c.last_received)
      ++ text_field "last_donated" (time_text rfc3339 c.last_donated)
