-- ===== src/Db/Characters/Rows.antt =====
-- The conversions between the row of a character and its output form: toCharacter and toRow of
-- isk/db/character.go, and round2 of isk/db/utils.go.
use esi_isk.Base.{ℕ, ◌≡◌, Bool, false, not, ◌==◌, if◌then◌else◌, arith}
use esi_isk.Base.Float.{Float64}
use esi_isk.Db.Types.{NullTime, CharacterRow, Character}

-- `t.IsZero()`
abbrev pub is_zero_time : ℕ → Bool
is_zero_time t = t == 0

-- the time of a NullTime, where the zero time stands for NULL
unfoldable pub time_or_zero : NullTime → ℕ
time_or_zero t = if t.valid then t.time else 0

-- a NullTime from a time, NULL where it is the zero time
unfoldable pub null_time : ℕ → NullTime
null_time t = record { time = t; valid = not (is_zero_time t) }

-- A time stamp as the table keeps it: NULL with the zero time, or a time that is not zero.
abbrev pub IsStoredTime : NullTime → Type 0
IsStoredTime t = t.valid ≡ not (is_zero_time t.time)

null_time-time_or_zero : (t : NullTime) → IsStoredTime t → null_time (time_or_zero t) ≡ t
unfolding null_time time_or_zero
null_time-time_or_zero t h = ground arith

module _ {F : Type 0} ⦃f : Float64 F⦄ where
  open f use {zero_f, hundred, mul, div, round}

  -- round2
  unfoldable pub round2 : F → F
  round2 n = div (round (mul n hundred)) hundred

  -- `&CharacterRow{ID: charID}`
  unfoldable pub empty_row : ℕ → CharacterRow F
  empty_row char_id = record {
    id = char_id;
    corporation_id = 0;
    alliance_id = 0;
    received = 0;
    received_isk = zero_f;
    received_30 = 0;
    received_isk_30 = zero_f;
    donated = 0;
    donated_isk = zero_f;
    donated_30 = 0;
    donated_isk_30 = zero_f;
    last_donated = record { time = 0; valid = false };
    last_received = record { time = 0; valid = false };
    good_standing = false;
  }

  -- toCharacter
  unfoldable pub to_character : CharacterRow F → Character F
  unfolding round2 time_or_zero
  to_character c = record {
    id = c.id;
    name = "";
    corporation_id = c.corporation_id;
    corporation_name = "";
    alliance_id = c.alliance_id;
    alliance_name = "";
    received = c.received;
    received_isk = round2 c.received_isk;
    received_30 = c.received_30;
    received_isk_30 = round2 c.received_isk_30;
    donated = c.donated;
    donated_isk = round2 c.donated_isk;
    donated_30 = c.donated_30;
    donated_isk_30 = round2 c.donated_isk_30;
    last_donated = time_or_zero c.last_donated;
    last_received = time_or_zero c.last_received;
    good_standing = c.good_standing;
  }

  -- toRow
  unfoldable pub to_row : Character F → CharacterRow F
  unfolding null_time
  to_row c = record {
    id = c.id;
    corporation_id = c.corporation_id;
    alliance_id = c.alliance_id;
    received = c.received;
    received_isk = c.received_isk;
    received_30 = c.received_30;
    received_isk_30 = c.received_isk_30;
    donated = c.donated;
    donated_isk = c.donated_isk;
    donated_30 = c.donated_30;
    donated_isk_30 = c.donated_isk_30;
    last_donated = null_time c.last_donated;
    last_received = null_time c.last_received;
    good_standing = c.good_standing;
  }

  -- Turning a row into a character and back gives the row with its four totals rounded to cents,
  -- where both time stamps are as the table keeps them.
  pub to_row-to_character :
      (c : CharacterRow F)
      → IsStoredTime c.last_donated
      → IsStoredTime c.last_received
      → to_row (to_character c) ≡ record c {
        received_isk = round2 c.received_isk;
        received_isk_30 = round2 c.received_isk_30;
        donated_isk = round2 c.donated_isk;
        donated_isk_30 = round2 c.donated_isk_30;
      }
  unfolding to_row to_character
  to_row-to_character c h k =
      ground
        (arith, null_time-time_or_zero c.last_donated h, null_time-time_or_zero c.last_received k)
