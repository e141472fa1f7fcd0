-- ===== src/Db/Totals/Laws.antt =====
-- What a batch of donations or contracts does to one row, against a description by sums.
use esi_isk.Base.{
  ℕ, ◌+◌, ◌%◌, ◌^◌, ◌<◌, ◌≡◌, refl, ◌==◌, not, ◌&&◌, List, [], ◌∷◌, map, arith, length, keep, ltb,
  if◌then◌else◌, true,
}
use esi_isk.Base.Word.{inc64}
use esi_isk.Base.Float.{Float64}
use esi_isk.Db.Types.{NullTime, Donation, Contract, CharacterRow}
use esi_isk.Db.Totals.{latest, add_contract_to_row, add_to_row}

-- What donations and contracts have in common: who gave how much to whom, and when.
pub record Gift (F : Type 0) : Type 0 where
  pub from : ℕ
  pub to : ℕ
  pub worth : F
  pub at : ℕ

abbrev pub gift_of_donation : {F : Type 0} → Donation F → Gift F
gift_of_donation d = record {
  from = d.donator;
  to = d.recipient;
  worth = d.amount;
  at = d.timestamp;
}

abbrev pub gift_of_contract : {F : Type 0} → Contract F → Gift F
gift_of_contract k = record { from = k.donator; to = k.receiver; worth = k.value; at = k.issued }

-- The gifts that count as given by a character, and as received by it. A gift to oneself counts as
-- given only.
abbrev pub given : {F : Type 0} → ℕ → List (Gift F) → List (Gift F)
given i gs = keep (λ g. i == g.from) gs

abbrev pub gotten : {F : Type 0} → ℕ → List (Gift F) → List (Gift F)
gotten i gs = keep (λ g. not (i == g.from) && i == g.to) gs

module _ {F : Type 0} ⦃f : Float64 F⦄ where
  open f use {add, sub}

  -- Amounts are added one by one, in the order of the gifts.
  abbrev pub total_from : F → List (Gift F) → F
  total_from x [] = x
  total_from x (g ∷ gs) = total_from (add x g.worth) gs

  -- the greatest of a time and the times of the gifts
  abbrev pub newest : ℕ → List (Gift F) → ℕ
  newest n [] = n
  newest n (g ∷ gs) = newest (if ltb n g.at then g.at else n) gs

  -- The time stamp after the gifts: without gifts it stays as it is, and with gifts it is set, to the
  -- greatest of their times and of the earlier time if that was set.
  abbrev pub latest_from : NullTime → List (Gift F) → NullTime
  latest_from t [] = t
  latest_from t (g ∷ gs) = record {
    time = if t.valid then newest t.time (g ∷ gs) else newest g.at gs;
    valid = true;
  }

  latest_from-latest :
      (t : NullTime) (g : Gift F) (gs : List (Gift F))
      → latest_from (latest t g.at) gs ≡ latest_from t (g ∷ gs)
  unfolding latest
  latest_from-latest t g [] = ground arith
  latest_from-latest t g (h ∷ hs) = ground arith

  -- `after` is `before` with the gifts entered.
  pub record IsEntered (gs : List (Gift F)) (before after : CharacterRow F) : Type 0 where
    pub same_id : after.id ≡ before.id
    pub donated_count : after.donated ≡ (before.donated + length (given before.id gs)) % 2 ^ 64
    pub donated_count_30 :
        after.donated_30 ≡ (before.donated_30 + length (given before.id gs)) % 2 ^ 64
    pub received_count : after.received ≡ (before.received + length (gotten before.id gs)) % 2 ^ 64
    pub received_count_30 :
        after.received_30 ≡ (before.received_30 + length (gotten before.id gs)) % 2 ^ 64
    pub donated_total : after.donated_isk ≡ total_from before.donated_isk (given before.id gs)
    pub donated_total_30 :
        after.donated_isk_30 ≡ total_from before.donated_isk_30 (given before.id gs)
    pub received_total : after.received_isk ≡ total_from before.received_isk (gotten before.id gs)
    pub received_total_30 :
        after.received_isk_30 ≡ total_from before.received_isk_30 (gotten before.id gs)
    pub donated_last : after.last_donated ≡ latest_from before.last_donated (given before.id gs)
    pub received_last : after.last_received ≡ latest_from before.last_received (gotten before.id gs)
    pub same_corporation : after.corporation_id ≡ before.corporation_id
    pub same_alliance : after.alliance_id ≡ before.alliance_id
    pub same_standing : after.good_standing ≡ before.good_standing

  -- The counters of a row are int64 bit patterns.
  pub record HasCounters (c : CharacterRow F) : Type 0 where
    pub donated_lt : c.donated < 2 ^ 64
    pub donated_30_lt : c.donated_30 < 2 ^ 64
    pub received_lt : c.received < 2 ^ 64
    pub received_30_lt : c.received_30 < 2 ^ 64

  -- A batch of donations, entered into one row in order.
  unfoldable pub add_all : List (Donation F) → CharacterRow F → CharacterRow F
  add_all [] c = c
  add_all (d ∷ ds) c = add_all ds (add_to_row d c)

  add_to_row-HasCounters :
      (d : Donation F) (c : CharacterRow F) → HasCounters c → HasCounters (add_to_row d c)
  unfolding add_to_row inc64
  add_to_row-HasCounters d c h = ground arith

  -- Entering one donation and then the rest is entering them all.
  IsEntered-cons :
      (d : Donation F) (gs : List (Gift F)) (c after : CharacterRow F)
      → HasCounters c
      → IsEntered gs (add_to_row d c) after
      → IsEntered (gift_of_donation d ∷ gs) c after
  unfolding add_to_row inc64
  IsEntered-cons d gs c after h e =
      let g = gift_of_donation d in
      let donated = latest_from-latest c.last_donated g (given c.id gs) in
      let received = latest_from-latest c.last_received g (gotten c.id gs) in ground arith

  -- Entering a batch of donations into a row adds to each counter the number of them that the
  -- character gave or got, modulo 2 ^ 64; adds their amounts to each total in order; sets the time
  -- stamp of a side that has donations to the greatest of their times, and of the earlier time if that
  -- was set; and changes nothing else. A donation to oneself counts as given. The counters are int64
  -- bit patterns.
  pub add_all-IsEntered :
      (ds : List (Donation F)) (c : CharacterRow F)
      → HasCounters c
      → IsEntered (map gift_of_donation ds) c (add_all ds c)
  unfolding add_all
  add_all-IsEntered [] c h = ground arith
  add_all-IsEntered (d ∷ ds) c h =
      IsEntered-cons d _ c _ h
        (add_all-IsEntered ds (add_to_row d c) (add_to_row-HasCounters d c h))

  -- A batch of contracts, entered into one row in order.
  unfoldable pub add_all_contracts : List (Contract F) → CharacterRow F → CharacterRow F
  add_all_contracts [] c = c
  add_all_contracts (k ∷ ks) c = add_all_contracts ks (add_contract_to_row k c)

  -- A contract is entered like a donation of its value at the time of its issue.
  abbrev pub as_donation : Contract F → Donation F
  as_donation k = record {
    id = k.id;
    donator = k.donator;
    recipient = k.receiver;
    timestamp = k.issued;
    note = k.note;
    amount = k.value;
  }

  pub add_contract_to_row_lem :
      (k : Contract F) (c : CharacterRow F) → add_contract_to_row k c ≡ add_to_row (as_donation k) c
  unfolding add_contract_to_row add_to_row
  add_contract_to_row_lem k c = refl

  -- Entering a batch of contracts into a row adds to each counter the number of them that the
  -- character gave or got, modulo 2 ^ 64; adds their values to each total in order; sets the time
  -- stamp of a side that has contracts to the greatest of their times of issue, and of the earlier time
  -- if that was set; and changes nothing else. A contract to oneself counts as given. The counters are
  -- int64 bit patterns.
  pub add_all_contracts-IsEntered :
      (ks : List (Contract F)) (c : CharacterRow F)
      → HasCounters c
      → IsEntered (map gift_of_contract ks) c (add_all_contracts ks c)
  unfolding add_all_contracts
  add_all_contracts-IsEntered [] c h = ground arith
  add_all_contracts-IsEntered (k ∷ ks) c h = IsEntered-cons (as_donation k) _ c _ h (
      rw (add_contract_to_row_lem k c) (
        add_all_contracts-IsEntered ks (add_to_row (as_donation k) c)
          (add_to_row-HasCounters (as_donation k) c h)))
