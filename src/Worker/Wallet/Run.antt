-- ===== src/Worker/Wallet/Run.antt =====
-- What saveWalletRun writes: no donation is counted twice.
use esi_isk.Base.{
  ℕ, ◌≡◌, refl, sym, ap, subst, ◌∙◌, true, List, [], ◌∷◌, ◌++◌, append-nil, append_assoc, map, elem,
  All, All-imp, none, some, arith, inl, inr, Bool-cases, Option-cases,
}
use esi_isk.Base.Float.{Float64}
use esi_isk.Db.Types.{Donation, Affiliation}
use esi_isk.Db.Store.{Db, Result, ok, err, panic, Action, execute, ◌>>◌}
use esi_isk.Db.Store.Laws.{>>=-eq-ok, >>=-ok, >>=-err}
use esi_isk.Db.Statements.Tables.{find_by, insert_by, find_by-append_some, find_by-prefix_none}
use esi_isk.Db.Statements.Gifts.{stmt_add_donation, donation_key}
use esi_isk.Db.Donations.{save_donation}
use esi_isk.Db.Names.{save_names}
use esi_isk.Db.Characters.{save_character_donations}
use esi_isk.Worker.Wallet.{save_donations, save_wallet_run}

module _ {F : Type 0} ⦃f : Float64 F⦄ where
  -- What one SaveDonation did: it stored a donation whose id was free, or failed and changed no table.
  abbrev Stored : Donation F → Db F → Result (Unit {0}) × Db F → Type 0
  Stored d w (ok _, w') =
      (find_by donation_key d.id w.donations ≡ none)
      × (w' ≡ record w { donations = w.donations ++ d ∷ []; calls = w'.calls })
  Stored d w (err _, w') = w' ≡ record w { calls = w'.calls }
  Stored d w (panic, w') = ⊥

  save_donation-Stored : (d : Donation F) (w : Db F) → Stored d w (save_donation d w)
  unfolding save_donation stmt_add_donation execute insert_by
  save_donation-Stored d w = elim (Bool-cases (w.answers w.calls)) [
    | inl up ↦ elim (Option-cases (find_by donation_key d.id w.donations)) [
      | inl free ↦ rw (up, free) (free, refl)
      | inr (x, taken) ↦ rw (up, taken) refl
    ]
    | inr down ↦ rw down refl
  ]

  -- The tables that a failed run leaves alone.
  pub record KeepsTotals (w w' : Db F) : Type 0 where
    pub characters : w'.characters ≡ w.characters
    pub names : w'.names ≡ w.names
    pub users : w'.users ≡ w.users

  -- A call ended with an error.
  abbrev pub Fails : {A : Type 0} → Result A × Db F → Type 0
  Fails (ok _, w') = ⊥
  Fails (err _, w') = Unit
  Fails (panic, w') = ⊥

  taken_stays :
      (d : Donation F) (w w' : Db F) (k : ℕ) (x : Donation F)
      → w' ≡ record w { donations = w.donations ++ d ∷ []; calls = w'.calls }
      → find_by donation_key k w.donations ≡ some x
      → find_by donation_key k w'.donations ≡ some x
  taken_stays d w w' k x e h =
      ap (λ (v : Db F). find_by donation_key k v.donations) e
      ∙ find_by-append_some donation_key k w.donations (d ∷ []) x h

  kept_on : (w w₁ w₂ : Db F) → KeepsTotals w w₁ → KeepsTotals w₁ w₂ → KeepsTotals w w₂
  kept_on w w₁ w₂ h k = record {
    characters = k.characters ∙ h.characters;
    names = k.names ∙ h.names;
    users = k.users ∙ h.users;
  }

  -- A run that failed and left the totals alone.
  abbrev pub FailsCleanly : {A : Type 0} → Db F → Result A × Db F → Type 0
  FailsCleanly w r = Fails r × KeepsTotals w r.1

  save_donations_again :
      (ds : List (Donation F)) (w : Db F) (k : ℕ) (x : Donation F)
      → find_by donation_key k w.donations ≡ some x
      → elem k (map donation_key ds) ≡ true
      → FailsCleanly w (save_donations ds w)
  unfolding save_donations
  save_donations_again [] w k x h e = cc
  save_donations_again (d ∷ ds) w k x h e =
      go (save_donation d w) refl (save_donation-Stored d w) (λ w₁. save_donations_again ds w₁ k x)
    where
      go :
          (p : Result (Unit {0}) × Db F)
          → save_donation d w ≡ p
          → Stored d w p
          → ((w₁ : Db F)
              → find_by donation_key k w₁.donations ≡ some x
              → elem k (map donation_key ds) ≡ true
              → FailsCleanly w₁ (save_donations ds w₁))
          → FailsCleanly w (save_donations (d ∷ ds) w)
      go (ok u, w₁) eq (free, st) ih =
          let rest = ih w₁ (taken_stays d w w₁ k x st h) (ground arith) in
          subst (FailsCleanly w) (sym (>>=-ok (save_donation d) (λ _. save_donations ds) w eq))
            (rest.0, kept_on w w₁ _ (ground arith) rest.1)
      go (err y, w₁) eq st ih =
          subst (FailsCleanly w) (sym (>>=-err (save_donation d) (λ _. save_donations ds) w eq))
            (tt, ground arith)
      go (panic, w₁) eq st ih = absurd st

  -- A run over donations of which one has an id that is stored already ends with an error, and leaves
  -- the totals of the characters, the names and the users as they were: nothing is counted twice, and
  -- the run cannot succeed.
  pub save_wallet_run_again :
      (ds : List (Donation F)) (affs : List Affiliation) (w : Db F) (k : ℕ) (x : Donation F)
      → find_by donation_key k w.donations ≡ some x
      → elem k (map donation_key ds) ≡ true
      → FailsCleanly w (save_wallet_run ds affs w)
  unfolding save_wallet_run
  save_wallet_run_again ds affs w k x h e =
      go (save_donations ds w) refl (save_donations_again ds w k x h e)
    where
      save_rest : Action F (Unit {0})
      save_rest = save_names affs >> save_character_donations ds affs true

      go :
          (p : Result (Unit {0}) × Db F)
          → save_donations ds w ≡ p
          → FailsCleanly w p
          → FailsCleanly w (save_wallet_run ds affs w)
      go (ok u, w₁) eq st = absurd st.0
      go (err y, w₁) eq st =
          subst (FailsCleanly w) (sym (>>=-err (save_donations ds) (λ _. save_rest) w eq)) st
      go (panic, w₁) eq st = absurd st.0

  -- A run of the first loop that succeeds has stored the donations, in order, behind those that were
  -- there, and none of their ids was stored before.
  pub save_donations-eq-ok :
      (ds : List (Donation F)) (w w' : Db F)
      → save_donations ds w ≡ (ok tt, w')
      → (w'.donations ≡ w.donations ++ ds)
        × All (λ d. find_by donation_key d.id w.donations ≡ none) ds
        × KeepsTotals w w'
  unfolding save_donations
  save_donations-eq-ok [] w w' e =
      let same : w ≡ w' = ground arith in
      (ap (λ (x : Db F). x.donations) (sym same) ∙ sym (append-nil w.donations), tt, ground arith)
  save_donations-eq-ok (d ∷ ds) w w' e =
      let (u, w₁, e₁, e₂) = >>=-eq-ok (save_donation d) (λ _. save_donations ds) w e in
      let st : Stored d w (ok u, w₁) = subst (Stored d w) e₁ (save_donation-Stored d w) in
      let (is, free, kept) = save_donations-eq-ok ds w₁ w' e₂ in
      let grown : w₁.donations ≡ w.donations ++ d ∷ [] = ap (λ (x : Db F). x.donations) st.1 in
      (
        is ∙ ap (λ (l : List (Donation F)). l ++ ds) grown ∙ append_assoc w.donations (d ∷ []) ds,
        (
          st.0,
          All-imp (λ c. find_by donation_key c.id w₁.donations ≡ none)
              (λ c. find_by donation_key c.id w.donations ≡ none) ds
              (λ c h.
                find_by-prefix_none donation_key c.id w.donations (d ∷ [])
                  (ap (λ (l : List (Donation F)). find_by donation_key c.id l) (sym grown) ∙ h))
              free,
        ),
        kept_on w w₁ w' (ground arith) kept,
      )
