-- ===== src/Db/Details/Content.antt =====
-- What GetCharDetails of isk/db/character.go finds.
use esi_isk.Base.{ℕ, List, map, keep, take, ◌==◌}
use esi_isk.Base.Float.{Float64}
use esi_isk.Db.Types.{Donation, Contract, Item, Character, CharDetails}
use esi_isk.Db.Store.{Db, Result, ok, err, panic}

module _ {F : Type 0} where
  -- a contract with its item, of which one is read
  abbrev pub itemed : List Item → Contract F → Contract F
  itemed items c = record c { items = take 1 (keep (λ i. i.contract_id == c.id) items) }

module _ {F : Type 0} ⦃f : Float64 F⦄ (sort_donations : List (Donation F) → List (Donation F))
    (sort_contracts : List (Contract F) → List (Contract F)) where
  open f use {mul, div, round, hundred}

  -- an amount to two decimals
  abbrev pub cents_of : F → F
  cents_of x = div (round (mul x hundred)) hundred

  abbrev pub shown_donations : List (Donation F) → List (Donation F)
  shown_donations ds =
      sort_donations (map (λ (d : Donation F). record d { amount = cents_of d.amount }) ds)

  abbrev pub shown_contracts : List Item → List (Contract F) → List (Contract F)
  shown_contracts items cs =
      map (itemed items)
        (sort_contracts (map (λ (c : Contract F). record c { value = cents_of c.value }) cs))

  -- the details of a character that was read, from the tables
  abbrev pub details_of : ℕ → Db F → Character F → CharDetails F
  details_of id w char = record {
    character = char;
    donations = shown_donations (keep (λ (d : Donation F). d.recipient == id) w.donations);
    contracts =
        shown_contracts w.contract_items (keep (λ (c : Contract F). c.receiver == id) w.contracts);
    donated = shown_donations (keep (λ (d : Donation F). d.donator == id) w.donations);
    contracted =
        shown_contracts w.contract_items (keep (λ (c : Contract F). c.donator == id) w.contracts);
  }

  abbrev pub detailed : ℕ → Db F → Result (Character F) → Result (CharDetails F)
  detailed id w (ok char) = ok (details_of id w char)
  detailed id w (err e) = err e
  detailed id w panic = panic
