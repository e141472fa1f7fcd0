-- ===== src/Worker/Maint/Laws.antt =====
-- What the loop of pruneDonations of isk/worker/maint.go leaves in the table.
use esi_isk.Base.{
  ℕ, ◌≡◌, refl, sym, ap, ◌∙◌, Bool, true, not, List, [], ◌∷◌, map, keep, take, take-length, length,
  ◌≤◌, elem, ltb, ◌+◌, ◌==◌, Bool-cases, inl, inr, arith,
}
use esi_isk.Db.Types.{Donation}
use esi_isk.Db.Store.{Db, ok, attempt}
use esi_isk.Db.Store.Laws.{IsUp, ticked, query-up, execute-up_ok}
use esi_isk.Db.Statements.Tables.{delete_by}
use esi_isk.Db.Statements.Gifts.{
  stmt_remove_donation, stmt_get_stale_donations, donation_key, thirty_days,
}
use esi_isk.Db.Donations.{prune_donation, get_stale_donations}
use esi_isk.Worker.Maint.{prune_each_donation}

module _ {F : Type 0} where
  -- the donations of a table whose ids are not those of the given ones
  abbrev pub others : List (Donation F) → List (Donation F) → List (Donation F)
  others ds rows = keep (λ r. not (elem r.id (map donation_key ds))) rows

  others-delete_by :
      (d : Donation F) (ds rows : List (Donation F))
      → others ds (delete_by donation_key d.id rows) ≡ others (d ∷ ds) rows
  unfolding delete_by
  others-delete_by d ds [] = refl
  others-delete_by d ds (r ∷ rows) =
      let rest = others-delete_by d ds rows in
      elim (Bool-cases (r.id == d.id)) [ inl e ↦ ground arith | inr e ↦ ground arith ]

  others_none : (rows : List (Donation F)) → others [] rows ≡ rows
  others_none [] = refl
  others_none (r ∷ rows) = ap (λ l. r ∷ l) (others_none rows)

  prune_donation-eq :
      (d : Donation F) (w : Db F)
      → IsUp w
      → attempt (prune_donation d) w
        ≡ (ok (ok tt), record (ticked w) { donations = delete_by donation_key d.id w.donations })
  unfolding prune_donation stmt_remove_donation
  prune_donation-eq d w up =
      let removed =
        execute-up_ok
          (λ (x : Db F). ok (record x { donations = delete_by donation_key d.id x.donations })) w up
          refl in
      ground arith

  -- When the database answers, the loop of pruneDonations goes through, removes the rows with the ids
  -- of the given donations and no other, and changes nothing else in the tables.
  pub prune_each_donation-eq :
      (ds : List (Donation F)) (w : Db F)
      → IsUp w
      → (n : ℕ) × (prune_each_donation ds w
          ≡ (ok tt, record w { donations = others ds w.donations; calls = n }))
  unfolding prune_each_donation
  prune_each_donation-eq [] w up =
      (w.calls, ap (λ l. (ok tt, record w { donations = l })) (sym (others_none w.donations)))
  prune_each_donation-eq (d ∷ ds) w up =
      let here = prune_donation-eq d w up in
      let w₁ = record (ticked w) { donations = delete_by donation_key d.id w.donations } in
      let (n, rest) = prune_each_donation-eq ds w₁ up in
      let same = others-delete_by d ds w.donations in (n, ground arith)

  -- whether StmtGetStaleDonations finds a row
  abbrev pub is_old : ℕ → Donation F → Bool
  is_old now d = ltb (d.timestamp + thirty_days) now

  elem-keep :
      (now : ℕ) (d : Donation F) (rows : List (Donation F))
      → elem d.id (map donation_key (keep (is_old now) rows)) ≡ true
      → (r : Donation F) → elem d.id (map donation_key (keep (is_old now) (r ∷ rows))) ≡ true
  elem-keep now d rows h r = elim (Bool-cases (is_old now r)) [
    | inl e ↦ elim (Bool-cases (d.id == r.id)) [ inl k ↦ ground arith | inr k ↦ ground arith ]
    | inr e ↦ ground arith
  ]

  old_others :
      (now : ℕ) (rows all : List (Donation F))
      → ((d : Donation F)
          → is_old now d ≡ true
          → elem d.id (map donation_key (keep (is_old now) rows)) ≡ true
          → elem d.id (map donation_key all) ≡ true)
      → keep (is_old now) (others all rows) ≡ []
  old_others now [] all h = refl
  old_others now (r ∷ rows) all h =
      let rest = old_others now rows all (λ d o e. h d o (elem-keep now d rows e r)) in
      elim (Bool-cases (is_old now r)) [
        | inl e ↦ let in_all = h r e (ground arith) in ground arith
        | inr e ↦ elim (Bool-cases (elem r.id (map donation_key all))) [
          | inl k ↦ ground arith
          | inr k ↦ ground arith
        ]
      ]

  -- When the database answers and at most 100 donations are older than thirty days, which is the limit
  -- of GetStaleDonations, no donation that old is left after pruneDonations has removed what
  -- GetStaleDonations found, and the loop goes through.
  pub prune_each_donation-get_stale_donations :
      (w : Db F)
      → IsUp w
      → length (keep (is_old w.now) w.donations) ≤ 100
      → (stale : List (Donation F)) × (n : ℕ) × (w' : Db F) × (get_stale_donations w
          ≡ (ok stale, record w { calls = n }))
        × (prune_each_donation stale (record w { calls = n }) ≡ (ok tt, w'))
        × (keep (is_old w.now) w'.donations ≡ [])
  unfolding get_stale_donations stmt_get_stale_donations
  prune_each_donation-get_stale_donations w up few =
      let stale = keep (is_old w.now) w.donations in
      let w₁ = ticked w in
      let (n, pruned) = prune_each_donation-eq stale w₁ up in
      let read = query-up (λ (x : Db F). take 100 (keep (is_old x.now) x.donations)) w up in
      let all_of_them : take 100 stale ≡ stale = take-length 100 stale few in
      let gone = old_others w.now w.donations stale (λ d o e. e) in
      (stale, w₁.calls, _, read ∙ ap (λ l. (ok l, w₁)) all_of_them, pruned, gone)
