-- ===== src/Db/Characters/Laws.antt =====
-- SaveCharacterDonations up to its writes: the rows that a batch of donations leaves in memory.
use esi_isk.Base.{
  ℕ, ◌≡◌, refl, sym, ap, ◌∙◌, Bool, true, false, List, [], ◌∷◌, ◌++◌, append_assoc, append-nil,
  All-append, All-map, subst, arith,
}
use esi_isk.Base.Float.{Float64}
use esi_isk.Db.Types.{Affiliation, Donation, CharacterRow}
use esi_isk.Db.Store.{Db, ok, pure}
use esi_isk.Db.Store.Laws.{SameTables, >>=-eq-ok}
use esi_isk.Db.Totals.{add_to_row, add_to_totals}
use esi_isk.Db.Characters.{
  Batch, no_batch, meet, enter_donation, enter_recipient, enter_totals, enter_donations,
}
use esi_isk.Db.Characters.Reading.{IsBound}
use esi_isk.Db.Characters.Meeting.{
  IsBatch, IsRow, IsCovered, occurs, add_to_row-id, add_all-snoc, meet-IsMet,
}

module _ {F : Type 0} ⦃f : Float64 F⦄ where
  -- One donation entered into each row.
  IsRow-add :
      (chars : List (CharacterRow F)) (affs : List Affiliation) (ds : List (Donation F)) (n : Bool)
      (d : Donation F) (r : CharacterRow F)
      → IsRow chars affs ds n r
      → IsRow chars affs (ds ++ d ∷ []) n (add_to_row d r)
  IsRow-add chars affs ds n d r h = record {
    bound = h.bound;
    same_id = add_to_row-id d r ∙ h.same_id;
    is_bound =
        subst (λ (i : ℕ). IsBound chars affs i (record { row = h.bound; is_new = n }))
          (sym (add_to_row-id d r)) h.is_bound;
    entered = ap (add_to_row d) h.entered ∙ sym (add_all-snoc ds d h.bound);
  }

  occurs-add_to_totals :
      (i : ℕ) (d : Donation F) (rs : List (CharacterRow F))
      → occurs i (add_to_totals d rs) ≡ occurs i rs
  unfolding add_to_totals
  occurs-add_to_totals i d [] = refl
  occurs-add_to_totals i d (r ∷ rs) =
      rw (add_to_row-id d r) (omega (arith, occurs-add_to_totals i d rs))

  -- The batch after the totals of one donation.
  abbrev with_totals : Donation F → Batch F → Batch F
  with_totals d s = record s {
    fresh = add_to_totals d s.fresh;
    updated = add_to_totals d s.updated;
  }

  with_totals-IsBatch :
      (chars : List (CharacterRow F)) (affs : List Affiliation) (ds : List (Donation F))
      (d : Donation F) (s : Batch F)
      → IsCovered s.all d
      → IsBatch chars affs ds s
      → IsBatch chars affs (ds ++ d ∷ []) (with_totals d s)
  unfolding add_to_totals
  with_totals-IsBatch chars affs ds d s c inv = record {
    covered = All-append (IsCovered s.all) ds (d ∷ []) inv.covered (c, tt);
    once = λ i.
        omega
          (arith, inv.once i, occurs-add_to_totals i d s.fresh, occurs-add_to_totals i d s.updated);
    fresh_rows =
        All-map (IsRow chars affs ds true) (IsRow chars affs (ds ++ d ∷ []) true) (add_to_row d)
          s.fresh (IsRow-add chars affs ds true d) inv.fresh_rows;
    updated_rows =
        All-map (IsRow chars affs ds false) (IsRow chars affs (ds ++ d ∷ []) false) (add_to_row d)
          s.updated (IsRow-add chars affs ds false d) inv.updated_rows;
  }

  enter_donation-IsBatch :
      (affs : List Affiliation) (ds : List (Donation F)) (d : Donation F) (s : Batch F) (w : Db F)
      {s' : Batch F} {w' : Db F}
      → enter_donation affs true d s w ≡ (ok s', w')
      → IsBatch w.characters affs ds s
      → IsBatch w.characters affs (ds ++ d ∷ []) s' × SameTables w w'
  unfolding enter_donation
  enter_donation-IsBatch affs ds d s w {s'} {w'} h inv =
      let (s₁, w₁, e₁, g₁) = >>=-eq-ok (meet affs d.donator s) (enter_recipient affs true d) w h in
      let (s₂, w₂, e₂, g₂) =
        >>=-eq-ok (meet affs d.recipient s₁) (λ s. pure (enter_totals true d s)) w₁ g₁ in
      let (m₁, t₁) = meet-IsMet affs ds d.donator s w e₁ inv in
      let same : w.characters ≡ w₁.characters = ground arith in
      let inv₁ = subst (λ (l : List (CharacterRow F)). IsBatch l affs ds s₁) same m₁.batch in
      let (m₂, t₂) = meet-IsMet affs ds d.recipient s₁ w₁ e₂ inv₁ in
      let inv₂ = subst (λ (l : List (CharacterRow F)). IsBatch l affs ds s₂) (sym same) m₂.batch in
      let is : with_totals d s₂ ≡ s' = ground arith in
      (
        subst (IsBatch w.characters affs (ds ++ d ∷ [])) is (
            with_totals-IsBatch w.characters affs ds d s₂ (m₂.still d.donator m₁.here, m₂.here)
              inv₂),
        ground arith,
      )

  enter_donations-from :
      (affs : List Affiliation) (ds es : List (Donation F)) (s : Batch F) (w : Db F) {s' : Batch F}
      {w' : Db F}
      → enter_donations affs true es s w ≡ (ok s', w')
      → IsBatch w.characters affs ds s
      → IsBatch w.characters affs (ds ++ es) s' × SameTables w w'
  unfolding enter_donations
  enter_donations-from affs ds [] s w {s'} {w'} h inv =
      let same : s ≡ s' = ground arith in
      (
        subst (λ (l : List (Donation F)). IsBatch w.characters affs l s') (sym (append-nil ds))
            (subst (IsBatch w.characters affs ds) same inv),
        ground arith,
      )
  enter_donations-from affs ds (d ∷ es) s w {s'} {w'} h inv =
      let (s₁, w₁, e, g) =
        >>=-eq-ok (enter_donation affs true d s) (enter_donations affs true es) w h in
      let (inv₁, t₁) = enter_donation-IsBatch affs ds d s w e inv in
      let same : w.characters ≡ w₁.characters = ground arith in
      let (inv₂, t₂) =
        enter_donations-from affs (ds ++ d ∷ []) es s₁ w₁ g
          (subst (λ (l : List (CharacterRow F)). IsBatch l affs (ds ++ d ∷ []) s₁) same inv₁) in
      (
        subst (λ (l : List (Donation F)). IsBatch w.characters affs l s')
            (append_assoc ds (d ∷ []) es)
            (subst (λ (l : List (CharacterRow F)). IsBatch l affs ((ds ++ d ∷ []) ++ es) s')
              (sym same) inv₂),
        ground arith,
      )

  no_batch-IsBatch :
      (chars : List (CharacterRow F)) (affs : List Affiliation) → IsBatch chars affs [] no_batch
  no_batch-IsBatch chars affs = record {
    covered = tt;
    once = λ i. refl;
    fresh_rows = tt;
    updated_rows = tt;
  }

  -- When the rows of a batch of donations have been entered, before anything is written: both
  -- parties of every donation are among the characters met; each character met has exactly one row,
  -- new or updated, and no other has one; each row is the row its character was bound to (empty, or
  -- read back from the table, with the corporation and alliance of its affiliation) with the whole
  -- batch entered in order, although the character is bound only where it is first met; and no table
  -- has changed.
  pub enter_donations-IsBatch :
      (affs : List Affiliation) (ds : List (Donation F)) (w : Db F) (s : Batch F) (w' : Db F)
      → enter_donations affs true ds no_batch w ≡ (ok s, w')
      → IsBatch w.characters affs ds s × SameTables w w'
  enter_donations-IsBatch affs ds w s w' h =
      enter_donations-from affs [] ds no_batch w h (no_batch-IsBatch w.characters affs)
