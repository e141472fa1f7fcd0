-- ===== src/Examples/Prices.antt =====
-- The theorem on the market prices, after an answer, a failure and an answer that cannot be read.
use esi_isk.Base.{
  ℕ, ◌+◌, ◌≡◌, ◌≤◌, List, [], ◌∷◌, Option, none, some, String, str_eq, if◌then◌else◌,
}
use esi_isk.Base.Int.{ℤ, pos}
use esi_isk.Db.Store.{Result, ok, err, service}
use esi_isk.Worker.Prices.{
  PriceList, MarketPrices, min_dt, updater, wait, price_of, quoted, price_of-updater,
}
use esi_isk.Examples.Cents.{cents}

abbrev market : MarketPrices ℤ
market = record { prices = record { type_id = 34; adjusted_price = pos 5 } ∷ []; expires = 1000 }

abbrev answers : List (Result (PriceList ℤ))
answers =
    ok (record { entries = record { type_id = 34; adjusted_price = pos 6 } ∷ []; expires = "soon" })
    ∷ err service
    ∷ ok (record { entries = []; expires = "" })
    ∷ []

abbrev parse_time : String → Option ℕ
parse_time s = if str_eq s "soon" then some 2000 else none

price_of-updater_example :
    (price_of (updater parse_time answers market) 34
      ≡ quoted parse_time 34 answers (price_of market 34))
    × (min_dt ≤ wait 900 market)
    × (market.expires ≤ 900 + wait 900 market)
price_of-updater_example = price_of-updater parse_time answers market 900 34
