-- ===== src/Db/Top.antt =====
-- isk/db/top.go: the lists of the characters that received and donated most.
pub mod Laws
use esi_isk.Base.{
  ℕ, String, Bool, List, [], ◌∷◌, Option, none, some, keep, take, false, if◌then◌else◌,
}
use esi_isk.Base.Float.{Float64}
use esi_isk.Db.Types.{CharacterRow, Character}
use esi_isk.Db.Store.{Result, ok, err, panic, Action, pure, ◌>>=◌, attempt, query}
use esi_isk.Db.Names.{get_name}

module _ {F : Type 0} where
  -- addValidTime
  unfoldable pub add_valid_time : CharacterRow F → Character F → Character F
  add_valid_time c char =
      let donated =
        if c.last_donated.valid then record char { last_donated = c.last_donated.time } else char in
      if c.last_received.valid
      then record donated { last_received = c.last_received.time }
      else donated

  -- the name of a character, which stays empty where the lookup fails
  abbrev pub with_name : Character F → Result String → Character F
  with_name char (ok name) = record char { name = name }
  with_name char _ = char

  -- the loop of getTop
  unfoldable pub name_rows :
      (CharacterRow F → Option (Character F))
      → List (CharacterRow F)
      → Action F (List (Character F))
  unfolding get_name
  name_rows transform [] = pure []
  name_rows transform (row ∷ rows) = elim (transform row) [
    | none ↦ name_rows transform rows
    | some char ↦ do
      r ← attempt (get_name char.id)
      rest ← name_rows transform rows
      pure (with_name char r ∷ rest)
  ]

  -- getTop, on the statement that queryCharISK runs
  unfoldable pub get_top :
      Action F (List (CharacterRow F))
      → (CharacterRow F → Option (Character F))
      → Action F (List (Character F))
  unfolding name_rows
  get_top stmt transform = do chars ← stmt; name_rows transform chars

-- `order_desc` is the database's ORDER BY … DESC on a column.
module _ {F : Type 0} ⦃f : Float64 F⦄
    (order_desc : (CharacterRow F → F) → List (CharacterRow F) → List (CharacterRow F)) where
  open f use {zero_f, le}

  -- StmtTopReceived
  unfoldable pub stmt_top_received : Action F (List (CharacterRow F))
  stmt_top_received = query λ w. take 6 (
      order_desc (λ c. c.received_isk_30)
        (keep (λ (c : CharacterRow F). c.good_standing) w.characters))

  -- StmtTopDonated
  unfoldable pub stmt_top_donated : Action F (List (CharacterRow F))
  stmt_top_donated = query λ w. take 6 (
      order_desc (λ c. c.donated_isk_30)
        (keep (λ (c : CharacterRow F). c.good_standing) w.characters))

  -- `&Character{ID: id}`
  abbrev pub blank : ℕ → Character F
  blank id = record {
    id = id;
    name = "";
    corporation_id = 0;
    corporation_name = "";
    alliance_id = 0;
    alliance_name = "";
    received = 0;
    received_isk = zero_f;
    received_30 = 0;
    received_isk_30 = zero_f;
    donated = 0;
    donated_isk = zero_f;
    donated_30 = 0;
    donated_isk_30 = zero_f;
    last_donated = 0;
    last_received = 0;
    good_standing = false;
  }

  -- the function that GetTopRecipients hands to getTop
  unfoldable pub recipient_of : CharacterRow F → Option (Character F)
  unfolding add_valid_time
  recipient_of c =
      if le c.received_isk zero_f
      then none
      else some (add_valid_time c (record (blank c.id) { received_isk = c.received_isk }))

  -- the function that GetTopDonators hands to getTop
  unfoldable pub donator_of : CharacterRow F → Option (Character F)
  unfolding add_valid_time
  donator_of c =
      if le c.donated_isk zero_f
      then none
      else some (add_valid_time c (record (blank c.id) { donated_isk = c.donated_isk }))

  -- GetTopRecipients
  unfoldable pub get_top_recipients : Action F (List (Character F))
  unfolding get_top stmt_top_received recipient_of
  get_top_recipients = get_top stmt_top_received recipient_of

  -- GetTopDonators
  unfoldable pub get_top_donators : Action F (List (Character F))
  unfolding get_top stmt_top_donated donator_of
  get_top_donators = get_top stmt_top_donated donator_of
