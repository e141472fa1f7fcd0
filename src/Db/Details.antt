-- ===== src/Db/Details.antt =====
-- GetCharDetails of isk/db/character.go, and that reading the details of a character is safe.
pub mod Content
use esi_isk.Base.{ℕ, List, [], ◌∷◌}
use esi_isk.Base.Float.{Float64}
use esi_isk.Db.Types.{Donation, Contract, CharDetails}
use esi_isk.Db.Store.{Db, Action, pure, ◌>>=◌, query}
use esi_isk.Db.Store.Laws.{Reads, SameTables, Reads-pure, Reads-query, Reads-bind}
use esi_isk.Db.Store.Calm.{Calm, IsCalm, Calm-pure, Calm-query, Calm-bind}
use esi_isk.Db.Statements.Gifts.{
  stmt_char_donations, stmt_char_donated, stmt_char_contracts, stmt_char_contracted,
  stmt_contract_items,
}
use esi_isk.Db.Characters.{get_character}
use esi_isk.Db.Characters.Reading.{Reads-get_character}
use esi_isk.Db.Characters.Success.{Calm-get_character}
use esi_isk.Db.Contracts.{
  fill_contract_items, get_contracts, get_char_contracts, get_char_contracted,
}
use esi_isk.Db.Donations.{get_donations, get_char_donations, get_char_donated}

-- A read that cannot panic.
record Safe {F A : Type 0} (m : Action F A) : Type 0 where
  pub reads : Reads m
  pub calm : Calm m

module _ {F : Type 0} where
  Safe-pure : {A : Type 0} (a : A) → Safe {F = F} (pure a)
  Safe-pure a = record { reads = Reads-pure a; calm = Calm-pure a }

  Safe-query : {A : Type 0} (q : Db F → A) → Safe (query q)
  Safe-query q = record { reads = Reads-query q; calm = Calm-query q }

  Safe-bind :
      {A B : Type 0} {m : Action F A} {k : A → Action F B}
      → Safe m
      → ((a : A) → Safe (k a))
      → Safe (m >>= k)
  Safe-bind {A} {B} {m} {k} hm hk = record {
    reads = Reads-bind {m = m} {k = k} hm.reads (λ a. (hk a).reads);
    calm = Calm-bind {m = m} {k = k} hm.calm (λ a. (hk a).calm);
  }

  Safe-fill_contract_items : (cs : List (Contract F)) → Safe (fill_contract_items cs)
  unfolding fill_contract_items stmt_contract_items
  Safe-fill_contract_items [] = Safe-pure []
  Safe-fill_contract_items (c ∷ cs) =
      Safe-bind {m = stmt_contract_items c.id} (Safe-query _) (λ items.
        Safe-bind {m = fill_contract_items cs} (Safe-fill_contract_items cs) (λ rest. Safe-pure _))

-- The two sorts are Go's sort.Sort over Donations and over Contracts.
module _ {F : Type 0} ⦃f : Float64 F⦄ (sort_donations : List (Donation F) → List (Donation F))
    (sort_contracts : List (Contract F) → List (Contract F)) where
  -- GetCharDetails
  unfoldable pub get_char_details : ℕ → Action F (CharDetails F)
  unfolding get_character get_char_contracts get_char_contracted get_char_donations get_char_donated
  get_char_details char_id = do
    char ← get_character char_id
    contracts ← get_char_contracts sort_contracts char_id
    contracted ← get_char_contracted sort_contracts char_id
    donations ← get_char_donations sort_donations char_id
    donated ← get_char_donated sort_donations char_id
    pure (record {
      character = char;
      donations = donations;
      contracts = contracts;
      donated = donated;
      contracted = contracted;
    })

  Safe-get_contracts :
      (stmt : Action F (List (Contract F))) → Safe stmt → Safe (get_contracts sort_contracts stmt)
  unfolding get_contracts
  Safe-get_contracts stmt h = Safe-bind {m = stmt} h (λ rows. Safe-fill_contract_items _)

  Safe-get_donations :
      (stmt : Action F (List (Donation F))) → Safe stmt → Safe (get_donations sort_donations stmt)
  unfolding get_donations
  Safe-get_donations stmt h = Safe-bind {m = stmt} h (λ rows. Safe-pure _)

  Safe-get_char_details : (id : ℕ) → Safe (get_char_details id)
  unfolding get_char_details get_char_contracts get_char_contracted get_char_donations
      get_char_donated stmt_char_donations stmt_char_donated stmt_char_contracts
      stmt_char_contracted
  Safe-get_char_details id =
      Safe-bind {m = get_character id}
        (record { reads = Reads-get_character id; calm = Calm-get_character id })
        (λ char.
          Safe-bind {m = get_char_contracts sort_contracts id}
            (Safe-get_contracts (stmt_char_contracts id) (Safe-query _))
            (λ contracts.
              Safe-bind {m = get_char_contracted sort_contracts id}
                (Safe-get_contracts (stmt_char_contracted id) (Safe-query _))
                (λ contracted.
                  Safe-bind {m = get_char_donations sort_donations id}
                    (Safe-get_donations (stmt_char_donations id) (Safe-query _))
                    (λ donations.
                      Safe-bind {m = get_char_donated sort_donations id}
                        (Safe-get_donations (stmt_char_donated id) (Safe-query _))
                        (λ donated. Safe-pure _)))))

  -- GetCharDetails cannot panic and changes no table, whatever calls of the database fail.
  pub get_char_details-IsCalm :
      (id : ℕ) (w : Db F) → IsCalm (get_char_details id w) × SameTables w (get_char_details id w).1
  get_char_details-IsCalm id w = let s = Safe-get_char_details id in (s.calm.calm w, s.reads.same w)
