-- ===== src/Examples/Round.antt =====
-- The theorems on contracts, on a round of the worker and on the custom view, on concrete inputs.
use esi_isk.Cx.{Options}
use esi_isk.Db.Types.{Character}
use esi_isk.Db.Store.{query, get, call}
use esi_isk.Db.Statements.Tables.{update_by}
use esi_isk.Db.Statements.Characters.{char_key, stored_row}
use esi_isk.Db.Characters.{get_character}
use esi_isk.Db.Characters.Rows.{to_character, to_row, round2}
use esi_isk.Examples.Data.{row_of_8}
use esi_isk.Worker.Process.{update_standing}
use esi_isk.Worker.Process.Rating.{rated, update_standing-eq}
use esi_isk.Base.{
  ℕ, ◌≤◌, ◌≡◌, refl, String, true, not, ◌||◌, List, [], ◌∷◌, keep, take_while, elem, none, some,
  ◌==◌, arith, inl,
}
use esi_isk.Base.Int.{ℤ, pos}
use esi_isk.Db.Types.{Donation}
use esi_isk.Db.PrefTypes.{Preferences}
use esi_isk.Db.Store.{Db, ok, err, panic, service}
use esi_isk.Db.Store.Calm.{IsCalm}
use esi_isk.Db.Donations.{get_stale_donations}
use esi_isk.Worker.Esi.{EsiContract, Directory}
use esi_isk.Worker.Contracts.{
  is_zero_isk, parse_for_zero_isk, set_last_contract_id, save_contract_run,
}
use esi_isk.Worker.Contracts.Laws.{
  count, from_last, has_changed, parse_for_zero_isk-eq, parse_for_zero_isk-set_last_contract_id,
}
use esi_isk.Worker.Contracts.Run.{save_contract_run_again}
use esi_isk.Worker.Wallet.Run.{FailsCleanly}
use esi_isk.Worker.Maint.{prune_each_donation}
use esi_isk.Worker.Maint.Laws.{is_old, prune_each_donation-get_stale_donations}
use esi_isk.Worker.Process.{Services, add_processed, process_each, process_users, update_standings}
use esi_isk.Worker.Process.Laws.{add_processed-elem, process_users_lost_context}
use esi_isk.Worker.Process.Standings.{OnlyCharacters, update_standings-OnlyCharacters}
use esi_isk.Api.View.{write_templates}
use esi_isk.Api.View.Laws.{PageLe, write_templates-PageLe}
use esi_isk.Examples.Cents.{cents}
use esi_isk.Examples.Data.{
  contract_of_7_to_8, user_of_8, tables, options, prefs, affiliations, plain, details,
}
use esi_isk.Db.Users.{get_users_to_process}

abbrev offer : ℕ → String → EsiContract ℤ
offer id status = record {
  contract_id = id;
  issuer_id = 7;
  assignee_id = 8;
  start_location_id = 60003760;
  date_issued = id;
  date_expired = 900;
  status = status;
  title = "";
  kind = "item_exchange";
  price = pos 0;
}

abbrev offers : List (EsiContract ℤ)
offers = offer 1 "outstanding" ∷ offer 2 "finished" ∷ offer 3 "finished" ∷ []

outstanding_once : (i : ℕ) → count i (3 ∷ []) ≤ 1
outstanding_once i = ground arith

parse_for_zero_isk-eq_example : parse_for_zero_isk offers 2 (3 ∷ []) ≡ (
  keep (λ c. is_zero_isk c) (take_while (λ c. not (c.contract_id == 2)) offers),
  keep (has_changed (3 ∷ [])) (from_last 2 offers),
)
parse_for_zero_isk-eq_example = parse_for_zero_isk-eq offers 2 (3 ∷ []) outstanding_once

parse_for_zero_isk-set_last_contract_id_example :
    (parse_for_zero_isk
      (offer 1 "finished" ∷ offer 9 "outstanding" ∷ [])
      (set_last_contract_id (offer 1 "outstanding" ∷ []) user_of_8).last_contract_id.int64
      (3 ∷ [])).0
    ≡ []
unfolding set_last_contract_id
parse_for_zero_isk-set_last_contract_id_example =
    parse_for_zero_isk-set_last_contract_id (offer 1 "finished") [] (offer 9 "outstanding" ∷ [])
      user_of_8 (3 ∷ []) outstanding_once

abbrev with_contract : Db ℤ
with_contract = record tables { contracts = contract_of_7_to_8 ∷ [] }

save_contract_run_again_example :
    FailsCleanly with_contract
      (save_contract_run (contract_of_7_to_8 ∷ []) [] affiliations with_contract)
save_contract_run_again_example =
    save_contract_run_again (contract_of_7_to_8 ∷ []) [] affiliations with_contract 3
      contract_of_7_to_8 refl refl

-- long after the gift
abbrev later : Db ℤ
later = record tables { now = 5000000000000000 }

prune_each_donation-get_stale_donations_example :
    (stale : List (Donation ℤ)) × (n : ℕ) × (w' : Db ℤ) × (get_stale_donations later
      ≡ (ok stale, record later { calls = n }))
    × (prune_each_donation stale (record later { calls = n }) ≡ (ok tt, w'))
    × (keep (is_old 5000000000000000) w'.donations ≡ [])
prune_each_donation-get_stale_donations_example =
    prune_each_donation-get_stale_donations later (λ n. refl) (ground arith)

seven_once : (i : ℕ) → count i (7 ∷ []) ≤ 1
seven_once i = ground arith

add_processed-elem_example :
    (count 8 (add_processed (7 ∷ []) (8 ∷ 7 ∷ 8 ∷ [])) ≤ 1)
    × (elem 8 (add_processed (7 ∷ []) (8 ∷ 7 ∷ 8 ∷ []))
        ≡ elem 8 (7 ∷ []) || elem 8 (8 ∷ 7 ∷ 8 ∷ []))
add_processed-elem_example = add_processed-elem (7 ∷ []) (8 ∷ 7 ∷ 8 ∷ []) seven_once 8

abbrev silent : Directory
silent = record {
  universe_names = λ _. err service;
  corporation_alliance = λ _. err service;
  character_corporation = λ _. err service;
}

-- Services that are down.
abbrev down : Services ℤ
down = record {
  sort_journal = λ l. l;
  sort_esi_contracts = λ l. l;
  sort_contracts = λ l. l;
  sort_donations = λ l. l;
  parse_int32 = λ _. none;
  visit = λ l. l;
  prices = λ _. pos 0;
  items_of = λ _. err service;
  directory = silent;
  journal_of =
      λ _. record { first = err service; x_pages = ""; page = λ _. err service; arrive = λ l. l };
  contracts_of =
      λ _. record { first = err service; x_pages = ""; page = λ _. err service; arrive = λ l. l };
  verify = λ _. err service;
}

-- two users who were never processed
abbrev two_users : Db ℤ
two_users = record tables {
  users = user_of_8 ∷ record user_of_8 { refresh_token = "s"; character_id = 7 } ∷ [];
}

process_users_lost_context_example :
    process_users down two_users
    ≡ (panic, (process_each down true [] [] (record two_users { calls = 2 })).1)
unfolding get_users_to_process query call
process_users_lost_context_example =
    process_users_lost_context down [] user_of_8
      (record user_of_8 { refresh_token = "s"; character_id = 7 }) [] two_users
      (record two_users { calls = 2 }) refl (inl (service, refl))

update_standings-OnlyCharacters_example :
    IsCalm (update_standings down options (7 ∷ 8 ∷ []) tables)
    × OnlyCharacters tables (update_standings down options (7 ∷ 8 ∷ []) tables).1
update_standings-OnlyCharacters_example =
    update_standings-OnlyCharacters down options (7 ∷ 8 ∷ []) tables

abbrev both_kinds : Preferences ℤ
both_kinds = record { donations = some prefs; contracts = some prefs }

write_templates-PageLe_example :
    PageLe plain
      (λ l. l)
      (λ n. n)
      3
      (write_templates plain (λ l. l) (λ n. n) details both_kinds tables)
write_templates-PageLe_example =
    write_templates-PageLe plain (λ l. l) (λ n. n) details both_kinds tables refl

-- the owner of the service is character 7
abbrev owned : Options
owned = record options { character_id = 7 }

abbrev eight_found : Character ℤ
eight_found = record (to_character row_of_8) { name = "Eight"; corporation_name = "Corp" }

get_character-eight : get_character 8 tables ≡ (ok eight_found, record tables { calls = 3 })
unfolding get_character to_character round2 query get call cents
get_character-eight = refl

update_standing-eq_example :
    (w' : Db ℤ) × (update_standing down owned 8 tables ≡ (ok tt, w'))
    × (w'.characters
        ≡ update_by char_key
            (to_row (rated down owned 8 tables.donations eight_found)).id
            (λ old. record (stored_row (to_row (rated down owned 8 tables.donations eight_found))) {
              id = old.id;
            })
            tables.characters)
update_standing-eq_example =
    update_standing-eq down owned 8 eight_found tables (record tables { calls = 3 }) (λ n. refl)
      refl get_character-eight
