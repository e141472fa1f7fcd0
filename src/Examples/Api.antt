-- ===== src/Examples/Api.antt =====
-- The theorems on logins and on the rows of the custom view, on concrete inputs.
use esi_isk.Base.{◌≡◌, refl, List, [], ◌∷◌, map, none, if◌then◌else◌, arith}
use esi_isk.Base.Int.{pos_part}
use esi_isk.Db.Store.{ok}
use esi_isk.Api.Auth.{known_state, prune, lookup}
use esi_isk.Api.Auth.Laws.{
  Event, login, callback, tick, after, pending, accepted, known_state-after, lookup-prune,
}
use esi_isk.Api.Auth.Store.{old}
use esi_isk.Api.Rows.{get_row_patterns}
use esi_isk.Api.Rows.Laws.{view, shown_donation, shown_contract, get_row_patterns-eq}
use esi_isk.Examples.Cents.{cents}
use esi_isk.Examples.Data.{tables, prefs, name_of, plain, details}

-- two logins, a round of maintenance, and a callback with the first state
abbrev pub history : List Event
history = callback 900 "a" ∷ tick 800 ∷ login 700 "b" ∷ login 600 "a" ∷ []

known_state-after_example :
    (known_state 1000 "b" (after history)).0 ≡ accepted 1000 (pending "b" history)
known_state-after_example = known_state-after 1000 "b" history (ground arith)

lookup-prune_example :
    lookup "b" (prune 1000 (after history))
    ≡ (if old 1000 (lookup "b" (after history)) then none else lookup "b" (after history))
lookup-prune_example = lookup-prune 1000 "b" history

get_row_patterns-eq_example :
    ((get_row_patterns plain (λ _. 1000) details prefs "d" tables).0
      ≡ ok (
          map (shown_donation plain details prefs tables.names) (
            view
              (λ d. cents.le prefs.minimum d.amount)
              (λ d. d.timestamp)
              1000
              prefs.max_age
              (pos_part prefs.rows)
              details.donations)))
    × ((get_row_patterns plain (λ _. 1000) details prefs "c" tables).0
        ≡ ok (
            map (shown_contract plain details prefs tables.names) (
              view
                (λ k. cents.le prefs.minimum k.value)
                (λ k. k.issued)
                1000
                prefs.max_age
                (pos_part prefs.rows)
                details.contracts)))
get_row_patterns-eq_example =
    get_row_patterns-eq plain details prefs tables.names 1000 tables (λ n. refl) refl
      ((name_of 7 "Seven", refl), ((name_of 8 "Eight", refl), tt)) ((name_of 7 "Seven", refl), tt)
