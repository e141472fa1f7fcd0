-- ===== src/Worker/Prices.antt =====
-- The market prices of isk/worker/contracts.go: how they are fetched, and the rounds of updater, which
-- run beside everything else. The lock makes each assignment one step. Times are in nanoseconds; the
-- answers of ESI and Go's reading of a time are parameters.
use esi_isk.Base.{
  ℕ, ◌+◌, ◌-◌, ◌*◌, ◌≡◌, ◌≤◌, refl, ◌∙◌, String, List, [], ◌∷◌, Option, none, some, ltb, ◌==◌,
  if◌then◌else◌, sym, ap, Option-cases, inl, inr, arith,
}
use esi_isk.Base.Float.{Float64}
use esi_isk.Db.Store.{Result, ok, err, panic, not_valid}

-- an entry of the market prices
pub record EsiPrice (F : Type 0) : Type 0 where
  pub type_id : ℕ
  pub adjusted_price : F

-- what ESI answers: the prices, and the header Expires
pub record PriceList (F : Type 0) : Type 0 where
  pub entries : List (EsiPrice F)
  pub expires : String

-- marketPrices, with the map as an association list
pub record MarketPrices (F : Type 0) : Type 0 where
  pub prices : List (EsiPrice F)
  pub expires : ℕ

abbrev second : ℕ
second = 1000000000

-- `minDt`
abbrev pub min_dt : ℕ
min_dt = 60 * second

module _ {F : Type 0} where
  -- `prices[i.TypeId] = i.AdjustedPrice`
  unfoldable pub set_price : EsiPrice F → List (EsiPrice F) → List (EsiPrice F)
  set_price i [] = i ∷ []
  set_price i (p ∷ ps) = if p.type_id == i.type_id then i ∷ ps else p ∷ set_price i ps

  -- the loop of getPrices
  unfoldable pub set_prices : List (EsiPrice F) → List (EsiPrice F) → List (EsiPrice F)
  unfolding set_price
  set_prices [] ps = ps
  set_prices (i ∷ is) ps = set_prices is (set_price i ps)

-- getExpires; `parse_time` is time.Parse for RFC 1123
unfoldable pub get_expires : (String → Option ℕ) → String → Result ℕ
get_expires parse_time header = elim (parse_time header) [
  | none ↦ err not_valid
  | some t ↦ ok (t + second)
]

module _ {F : Type 0} (parse_time : String → Option ℕ) where
  -- getPrices
  unfoldable pub get_prices : Result (PriceList F) → Result (MarketPrices F)
  unfolding get_expires set_prices
  get_prices (ok l) = elim (get_expires parse_time l.expires) [
    | ok expires ↦ ok (record { prices = set_prices l.entries []; expires = expires })
    | err e ↦ err e
    | panic ↦ panic
  ]
  get_prices (err e) = err e
  get_prices panic = panic

  -- newPrices, beside which the rounds of updater then run
  unfoldable pub new_prices : Result (PriceList F) → Result (MarketPrices F)
  unfolding get_prices
  new_prices answer = get_prices answer

  -- the end of a round of updater: an error leaves the prices as they are
  unfoldable pub update : Result (PriceList F) → MarketPrices F → MarketPrices F
  unfolding get_prices
  update answer m = elim (get_prices answer) [ ok fetched ↦ fetched | _ ↦ m ]

  -- some rounds of updater, with their answers in order
  unfoldable pub updater : List (Result (PriceList F)) → MarketPrices F → MarketPrices F
  unfolding update
  updater [] m = m
  updater (answer ∷ answers) m = updater answers (update answer m)

-- how long updater sleeps
unfoldable pub wait : {F : Type 0} → ℕ → MarketPrices F → ℕ
wait now m = if ltb (m.expires - now) min_dt then min_dt else m.expires - now

module _ {F : Type 0} ⦃f : Float64 F⦄ where
  -- the price of a type in a map, where a missing one is 0
  unfoldable pub price_in : List (EsiPrice F) → ℕ → F
  price_in [] id = f.zero_f
  price_in (p ∷ ps) id = if p.type_id == id then p.adjusted_price else price_in ps id

  -- `m.prices[typeID]`
  unfoldable pub price_of : MarketPrices F → ℕ → F
  unfolding price_in
  price_of m id = price_in m.prices id

  -- What a list quotes for a type: its last entry for it.
  abbrev pub listed : ℕ → List (EsiPrice F) → F → F
  listed id [] before = before
  listed id (i ∷ is) before = listed id is (if i.type_id == id then i.adjusted_price else before)

  -- What some answers quote: the last of them that came with a time of expiry that can be read.
  abbrev pub quoted : (String → Option ℕ) → ℕ → List (Result (PriceList F)) → F → F
  quoted parse_time id [] before = before
  quoted parse_time id (ok l ∷ answers) before =
      quoted parse_time id answers
        (elim (parse_time l.expires) [ none ↦ before | some _ ↦ listed id l.entries f.zero_f ])
  quoted parse_time id (_ ∷ answers) before = quoted parse_time id answers before

  price_in-set_price :
      (i : EsiPrice F) (ps : List (EsiPrice F)) (id : ℕ)
      → price_in (set_price i ps) id
        ≡ (if i.type_id == id then i.adjusted_price else price_in ps id)
  unfolding price_in set_price
  price_in-set_price i [] id = ground arith
  price_in-set_price i (p ∷ ps) id = ground (arith, price_in-set_price i ps id)

  price_in-set_prices :
      (is ps : List (EsiPrice F)) (id : ℕ)
      → price_in (set_prices is ps) id ≡ listed id is (price_in ps id)
  unfolding set_prices
  price_in-set_prices [] ps id = refl
  price_in-set_prices (i ∷ is) ps id =
      price_in-set_prices is (set_price i ps) id ∙ ap (listed id is) (price_in-set_price i ps id)

  price_of-update :
      (parse_time : String → Option ℕ) (answer : Result (PriceList F)) (m : MarketPrices F) (id : ℕ)
      → price_of (update parse_time answer m) id
        ≡ quoted parse_time id (answer ∷ []) (price_of m id)
  unfolding update get_prices get_expires price_of price_in
  price_of-update parse_time (ok l) m id = elim (Option-cases (parse_time l.expires)) [
    | inl e ↦ ground arith
    | inr (t, e) ↦ ground (arith, price_in-set_prices l.entries [] id)
  ]
  price_of-update parse_time (err e) m id = refl
  price_of-update parse_time panic m id = refl

  quoted-cons :
      (parse_time : String → Option ℕ) (answer : Result (PriceList F))
      (answers : List (Result (PriceList F))) (id : ℕ) (before : F)
      → quoted parse_time id (answer ∷ answers) before
        ≡ quoted parse_time id answers (quoted parse_time id (answer ∷ []) before)
  quoted-cons parse_time (ok l) answers id before = refl
  quoted-cons parse_time (err e) answers id before = refl
  quoted-cons parse_time panic answers id before = refl

  price_of-updater_from :
      (parse_time : String → Option ℕ) (answers : List (Result (PriceList F))) (m : MarketPrices F)
      (id : ℕ)
      → price_of (updater parse_time answers m) id ≡ quoted parse_time id answers (price_of m id)
  unfolding updater
  price_of-updater_from parse_time [] m id = refl
  price_of-updater_from parse_time (answer ∷ answers) m id =
      price_of-updater_from parse_time answers (update parse_time answer m) id
      ∙ ap (quoted parse_time id answers) (price_of-update parse_time answer m id)
      ∙ sym (quoted-cons parse_time answer answers id (price_of m id))

  -- After any rounds of updater the price of each type is the one that the last readable answer quotes
  -- for it, 0 if that answer has none, and the price of the start if no answer could be read; and each
  -- round waits for a minute at least and until the prices have expired.
  pub price_of-updater :
      (parse_time : String → Option ℕ) (answers : List (Result (PriceList F))) (m : MarketPrices F)
      (now id : ℕ)
      → (price_of (updater parse_time answers m) id ≡ quoted parse_time id answers (price_of m id))
        × (min_dt ≤ wait now m)
        × (m.expires ≤ now + wait now m)
  unfolding wait
  price_of-updater parse_time answers m now id =
      (price_of-updater_from parse_time answers m id, ground arith, ground arith)
