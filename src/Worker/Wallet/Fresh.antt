-- ===== src/Worker/Wallet/Fresh.antt =====
-- The first loop of saveWalletRun of isk/worker/wallet.go on donations that are not stored yet.
use esi_isk.Base.{ℕ, ◌≡◌, ap, sym, ◌∙◌, List, [], ◌∷◌, ◌++◌, append-nil, append_assoc, none, arith}
use esi_isk.Base.Float.{Float64}
use esi_isk.Db.Types.{Donation}
use esi_isk.Db.Store.{Db, ok}
use esi_isk.Db.Store.Laws.{IsUp, ticked, execute-up_ok, >>=-ok}
use esi_isk.Db.Statements.Tables.{find_by, insert_by}
use esi_isk.Db.Statements.Gifts.{stmt_add_donation, donation_key}
use esi_isk.Db.Donations.{save_donation}
use esi_isk.Worker.Wallet.{save_donations}

module _ {F : Type 0} where
  -- No donation has an id that is in the table, or that another of them has.
  abbrev pub IsFresh : List (Donation F) → List (Donation F) → Type 0
  IsFresh rows [] = Unit
  IsFresh rows (d ∷ ds) = (find_by donation_key d.id rows ≡ none) × IsFresh (rows ++ d ∷ []) ds

  save_donation-eq :
      (d : Donation F) (w : Db F)
      → IsUp w
      → find_by donation_key d.id w.donations ≡ none
      → save_donation d w ≡ (ok tt, record (ticked w) { donations = w.donations ++ d ∷ [] })
  unfolding save_donation stmt_add_donation insert_by
  save_donation-eq d w up free = execute-up_ok _ w up (ground arith)

module _ {F : Type 0} ⦃f : Float64 F⦄ where
  -- When the database answers and no id is there twice, the first loop of saveWalletRun succeeds, puts
  -- the donations behind those that were there, in order, and changes nothing else in the tables.
  pub save_donations-IsFresh :
      (ds : List (Donation F)) (w : Db F)
      → IsUp w
      → IsFresh w.donations ds
      → (n : ℕ) × (save_donations ds w
          ≡ (ok tt, record w { donations = w.donations ++ ds; calls = n }))
  unfolding save_donations
  save_donations-IsFresh [] w up fresh =
      (w.calls, ap (λ l. (ok tt, record w { donations = l })) (sym (append-nil w.donations)))
  save_donations-IsFresh (d ∷ ds) w up fresh =
      let stored = save_donation-eq d w up fresh.0 in
      let w₁ = record (ticked w) { donations = w.donations ++ d ∷ [] } in
      let (n, rest) = save_donations-IsFresh ds w₁ up fresh.1 in
      let same = append_assoc w.donations (d ∷ []) ds in
      (
        n,
        >>=-ok (save_donation d) (λ _. save_donations ds) w stored
            ∙ rest
            ∙ ap (λ l. (ok tt, record w { donations = l; calls = n })) same,
      )
