-- ===== src/Api/Format.antt =====
-- The text of a row: stdReplacements, getDonationRow, getContractRow and their helpers in
-- isk/api/custom.go. Printing and calendar are Go's, and parameters here.
use Prim.Native.String.{slice}
use esi_isk.Base.{ℕ, ◌-◌, ◌%◌, String, not, ◌&&◌, List, [], ◌∷◌, ◌++◌, ltb, ◌==◌, if◌then◌else◌}

-- What the rows take from fmt, message and time.
pub record Formats (F : Type 0) : Type 0 where
  -- "%.2f" and "%.0f" of message's printer for English, and of fmt
  pub amount : F → String
  pub amount_isk : F → String
  pub amount_raw : F → String
  pub amount_raw_isk : F → String
  -- "%d" and "%02d"
  pub dec : ℕ → String
  pub pad2 : ℕ → String
  pub join : List String → String
  -- the parts of a time
  pub day : ℕ → ℕ
  pub month : ℕ → String
  pub year : ℕ → ℕ
  pub hour : ℕ → ℕ
  pub minute : ℕ → ℕ
  pub second : ℕ → ℕ
  pub iso : ℕ → String
  -- `strings.Replace(s, old, new, -1)`
  pub replace_all : String → String → String → String
  -- the order in which `range` visits the map of replacements
  pub visit : List (String × String) → List (String × String)

-- asAMPM
unfoldable pub as_ampm : ℕ → ℕ × String
as_ampm hour = if ltb 12 hour then (hour - 12, "PM") else (hour, "AM")

-- getNumberSuffix
unfoldable pub get_number_suffix : ℕ → String
get_number_suffix n =
    if not (n == 11) && n % 10 == 1
    then "st"
    else if not (n == 12) && n % 10 == 2
    then "nd"
    else if not (n == 13) && n % 10 == 3
    then "rd"
    else "th"

module _ {F : Type 0} (fmt : Formats F) where
  open fmt use {dec, pad2, join, hour, minute, second}

  -- stdReplacements
  unfoldable pub std_replacements : F → ℕ → List (String × String)
  unfolding as_ampm get_number_suffix
  std_replacements isk t =
      let (ampm_hour, ampm) = as_ampm (hour t) in
      ("%AMOUNT%", fmt.amount isk)
      ∷ ("%AMOUNTISK%", fmt.amount_isk isk)
      ∷ ("%AMOUNTRAW%", fmt.amount_raw isk)
      ∷ ("%AMOUNTRAWISK%", fmt.amount_raw_isk isk)
      ∷ ("%DAY%", dec (fmt.day t))
      ∷ ("%DAYSUFFIX%", get_number_suffix (fmt.day t))
      ∷ ("%MONTH%", slice (fmt.month t) 0 3)
      ∷ ("%MONTHLONG%", fmt.month t)
      ∷ ("%YEAR%", dec (fmt.year t))
      ∷ ("%TIME%", join (pad2 (hour t) ∷ ":" ∷ pad2 (minute t) ∷ []))
      ∷ ("%TIMEFULL%", join (pad2 (hour t) ∷ ":" ∷ pad2 (minute t) ∷ ":" ∷ pad2 (second t) ∷ []))
      ∷ ("%TIMEAMPM%", join (pad2 ampm_hour ∷ ":" ∷ pad2 (minute t) ∷ " " ∷ ampm ∷ []))
      ∷ (
        "%TIMEFULLAMPM%",
        join (pad2 ampm_hour ∷ ":" ∷ pad2 (minute t) ∷ ":" ∷ pad2 (second t) ∷ " " ∷ ampm ∷ []),
      )
      ∷ ("%ISODATE%", fmt.iso t)
      ∷ []

  -- `for search, replace := range replacements { … }`
  replace_each : List (String × String) → String → String
  replace_each [] pattern = pattern
  replace_each ((search_for, replace) ∷ rest) pattern =
      replace_each rest (fmt.replace_all pattern search_for replace)

  -- the replacements of a donation, applied to a pattern
  unfoldable pub donation_text : String → String → String → F → ℕ → String → String
  unfolding std_replacements replace_each
  donation_text name donator note amount t pattern =
      replace_each
        (fmt.visit (
          std_replacements amount t
          ++ (("%NAME%", name) ∷ ("%CHARACTER%", donator) ∷ ("%NOTE%", note) ∷ [])))
        pattern

  -- the replacements of a contract, applied to a pattern
  unfoldable pub contract_text : String → String → String → ℕ → F → ℕ → String → String
  unfolding std_replacements replace_each
  contract_text name contractor note items value t pattern =
      replace_each
        (fmt.visit (
          std_replacements value t
          ++ (("%NAME%", name)
              ∷ ("%CHARACTER%", contractor)
              ∷ ("%NOTE%", note)
              ∷ ("%ITEMS%", dec items)
              ∷ [])))
        pattern
