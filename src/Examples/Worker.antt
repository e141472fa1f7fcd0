-- ===== src/Examples/Worker.antt =====
-- The theorems on fetching pages and on the runs of the worker, on concrete inputs.
use mathlib.Core.List.{Perm}
use mathlib.Core.List.Perm
use esi_isk.Base.{
  ℕ, ◌≡◌, refl, not, List, [], ◌∷◌, ◌++◌, map, All, keep, take_while, ◌&&◌, ◌==◌, str_eq,
}
use esi_isk.Base.Int.{ℤ, pos}
use esi_isk.Db.Store.{ok}
use esi_isk.Worker.Esi.{JournalEntry, Pages}
use esi_isk.Worker.Paging.{expand_to}
use esi_isk.Worker.Paging.Laws.{IsOk, all_entries, expand_to-perm}
use esi_isk.Worker.Wallet.{
  parse_for_donations, set_last_journal_id, save_donations, save_wallet_run,
}
use esi_isk.Worker.Wallet.Laws.{parse_for_donations-eq, parse_for_donations-set_last_journal_id}
use esi_isk.Worker.Wallet.Fresh.{save_donations-IsFresh}
use esi_isk.Worker.Wallet.Run.{FailsCleanly, save_wallet_run_again}
use esi_isk.Examples.Cents.{cents}
use esi_isk.Examples.Data.{gift_of_7_to_8, gift_of_8_to_7, gifts, affiliations, user_of_8, tables}

-- three pages, of which the third arrives before the second
abbrev pages : Pages ℕ
pages = record {
  first = ok (1 ∷ []);
  x_pages = "3";
  page = λ n. ok (n ∷ []);
  arrive = λ _. 3 ∷ 2 ∷ [];
}

expand_to-perm_example :
    let arrived = map pages.page (3 ∷ 2 ∷ []) in
    (All IsOk arrived
      → (xs : List ℕ) × (expand_to pages (pos 3) ≡ ok xs)
        × Perm xs (all_entries (map pages.page (2 ∷ 3 ∷ []))))
    × ((xs : List ℕ) → expand_to pages (pos 3) ≡ ok xs → All IsOk arrived)
expand_to-perm_example = expand_to-perm pages (pos 3) (Perm.swap 2 3 [])

abbrev entry : ℕ → ℕ → JournalEntry ℤ
entry id date = record {
  id = id;
  ref_type = "player_donation";
  first_party_id = 7;
  second_party_id = 8;
  date = date;
  reason = "";
  amount = pos 100;
}

parse_for_donations-eq_example :
    parse_for_donations (entry 1 10 ∷ entry 2 20 ∷ []) user_of_8
    ≡ map
        (λ (e : JournalEntry ℤ). record {
          id = e.id;
          donator = e.first_party_id;
          recipient = 8;
          timestamp = e.date;
          note = e.reason;
          amount = e.amount;
        })
        (keep
          (λ e. str_eq e.ref_type "player_donation" && e.second_party_id == 8)
          (take_while
            (λ e. not (user_of_8.last_journal_id.valid && e.id == user_of_8.last_journal_id.int64))
            (entry 1 10 ∷ entry 2 20 ∷ [])))
parse_for_donations-eq_example = parse_for_donations-eq (entry 1 10 ∷ entry 2 20 ∷ []) user_of_8

parse_for_donations-set_last_journal_id_example :
    parse_for_donations
      (entry 1 10 ∷ entry 2 20 ∷ entry 3 30 ∷ [])
      (set_last_journal_id (entry 1 10 ∷ entry 2 20 ∷ []) user_of_8)
    ≡ []
parse_for_donations-set_last_journal_id_example =
    parse_for_donations-set_last_journal_id (entry 1 10) (entry 2 20 ∷ [])
      (entry 2 20 ∷ entry 3 30 ∷ []) user_of_8

save_wallet_run_again_example : FailsCleanly tables (save_wallet_run gifts affiliations tables)
save_wallet_run_again_example =
    save_wallet_run_again gifts affiliations tables 1 gift_of_7_to_8 refl refl

save_donations-IsFresh_example :
    (n : ℕ) × (save_donations (gift_of_8_to_7 ∷ []) tables
      ≡ (ok tt, record tables { donations = tables.donations ++ gift_of_8_to_7 ∷ []; calls = n }))
save_donations-IsFresh_example =
    save_donations-IsFresh (gift_of_8_to_7 ∷ []) tables (λ n. refl) (refl, tt)
