-- ===== src/Db/Characters/Complete.antt =====
-- The whole of SaveCharacterDonations of isk/db/character.go, from the table to the table.
use esi_isk.Base.{
  ℕ, ◌≡◌, sym, ap, subst, ◌∙◌, true, false, List, [], ◌∷◌, elem, All, All-append, All-map, All-imp,
  none, Bool-cases, Option-cases, inl, inr, arith,
}
use esi_isk.Base.Float.{Float64}
use esi_isk.Db.Types.{Affiliation, Donation, CharacterRow}
use esi_isk.Db.Store.{Db, ok, pure, attempt}
use esi_isk.Db.Store.Laws.{IsUp, SameTables, >>=-ok, >>=-eq-ok, attempt-eq-ok}
use esi_isk.Db.Statements.Tables.{find_by}
use esi_isk.Db.Statements.Characters.{char_key}
use esi_isk.Db.Totals.{add_to_row, add_to_totals}
use esi_isk.Db.Characters.{
  Bound, Batch, no_batch, get_character, bound_of, affiliate, finish_bound, bind_affiliation,
  bind_with, enlist, meet, enter_totals, enter_recipient, enter_donation, enter_donations,
  save_characters, save_character_donations,
}
use esi_isk.Db.Characters.Reading.{
  IsBound-id, bind_affiliation-IsBound, bind_with-eq, finish_bound-eq-ok,
}
use esi_isk.Db.Characters.Meeting.{IsBatch, IsRow, add_to_row-id, meet_new}
use esi_isk.Db.Characters.Known.{IsNamedRow, All-find_by, get_character-Succeeds}
use esi_isk.Db.Characters.Success.{ResolvesParties, enter_donations_total}
use esi_isk.Db.Characters.Creating.{IsAbsent, IsPresent, written}
use esi_isk.Db.Characters.Saving.{save_characters-written}

module _ {F : Type 0} ⦃f : Float64 F⦄ where
  -- A character that counts as new is missing from the table.
  bind_affiliation_new :
      (id : ℕ) (affs : List Affiliation) (w : Db F) {b : Bound F} {w' : Db F}
      → IsUp w
      → All (IsNamedRow w.names) w.characters
      → bind_affiliation id affs w ≡ (ok b, w')
      → b.is_new ≡ true
      → find_by char_key id w.characters ≡ none
  unfolding bound_of affiliate bind_with
  bind_affiliation_new id affs w {b} {w'} up known h new =
      let (aff, found, e) = bind_with-eq affs id w h in
      let (r, w₁, read, g) = >>=-eq-ok (attempt (get_character id)) (finish_bound id aff) w e in
      let (c, has, is) = finish_bound-eq-ok id aff r w₁ g in
      let got = attempt-eq-ok (get_character id) w read in
      elim (Option-cases (find_by char_key id w.characters)) [
        | inl none_found ↦ none_found
        | inr (row, some_found) ↦
            let (char, w₂, ok_read) =
              get_character-Succeeds id w row up some_found
                (All-find_by (IsNamedRow w.names) id w.characters row known some_found) in
            let same : r ≡ ok char = ap (λ p. p.0) (sym got ∙ ok_read) in absurd (ground arith)
      ]

  -- The database answers, and the names of all its characters are stored.
  abbrev IsReady : Db F → Type 0
  IsReady w = IsUp w × All (IsNamedRow w.names) w.characters

  IsReady-same : (w w' : Db F) → SameTables w w' → IsReady w → IsReady w'
  IsReady-same w w' same ready = subst IsReady (sym same) ready

  abbrev AreAbsent : Db F → Batch F → Type 0
  AreAbsent w s = All (IsAbsent w.characters) s.fresh

  -- the batch after a step has only characters that are missing from the table as new ones
  abbrev KeepsAbsent : Db F → Batch F → Db F → Type 0
  KeepsAbsent w s' w' = AreAbsent w s' × SameTables w w'

  KeepsAbsent-next :
      (w w₁ : Db F) (s₂ : Batch F) {w₂ : Db F}
      → SameTables w w₁
      → KeepsAbsent w₁ s₂ w₂
      → KeepsAbsent w s₂ w₂
  KeepsAbsent-next w w₁ s₂ {w₂} same (absent, rest) = (
    subst (λ rows. All (IsAbsent rows) s₂.fresh) (ap (λ (x : Db F). x.characters) same) absent,
    ground arith,
  )

  enlist-AreAbsent :
      (id : ℕ) (s : Batch F) (b : Bound F) (w : Db F)
      → AreAbsent w s
      → (b.is_new ≡ true → IsAbsent w.characters b.row)
      → AreAbsent w (enlist id s b)
  unfolding enlist
  enlist-AreAbsent id s b w absent fresh = elim (Bool-cases b.is_new) [
    | inl new ↦
        rw new (All-append (IsAbsent w.characters) s.fresh (b.row ∷ []) absent (fresh new, tt))
    | inr old ↦ rw old absent
  ]

  meet-KeepsAbsent :
      (affs : List Affiliation) (id : ℕ) (s : Batch F) (w : Db F) {s' : Batch F} {w' : Db F}
      → IsReady w
      → AreAbsent w s
      → meet affs id s w ≡ (ok s', w')
      → KeepsAbsent w s' w'
  unfolding meet
  meet-KeepsAbsent affs id s w {s'} {w'} ready absent h = elim (Bool-cases (elem id s.all)) [
    | inl met ↦ let same : s ≡ s' = ground arith in (subst (AreAbsent w) same absent, ground arith)
    | inr new ↦
        let (b, w₁, e, g) =
          >>=-eq-ok (bind_affiliation id affs) (λ b. pure (enlist id s b)) w
            (sym (meet_new affs id s w new) ∙ h) in
        let (bound, same) = bind_affiliation-IsBound affs id w e in
        let is : enlist id s b ≡ s' = ground arith in
        (
          subst (AreAbsent w) is (
              enlist-AreAbsent id s b w absent (λ n.
                ap (λ (i : ℕ). find_by char_key i w.characters)
                  (IsBound-id w.characters affs id b bound)
                ∙ bind_affiliation_new id affs w ready.0 ready.1 e n)),
          ground arith,
        )
  ]

  enter_totals-AreAbsent :
      (d : Donation F) (s : Batch F) (w : Db F)
      → AreAbsent w s
      → AreAbsent w (enter_totals true d s)
  unfolding enter_totals add_to_totals
  enter_totals-AreAbsent d s w absent =
      All-map (IsAbsent w.characters) (IsAbsent w.characters) (add_to_row d) s.fresh
        (λ c a. ap (λ (i : ℕ). find_by char_key i w.characters) (add_to_row-id d c) ∙ a) absent

  enter_donation-KeepsAbsent :
      (affs : List Affiliation) (d : Donation F) (s : Batch F) (w : Db F) {s' : Batch F} {w' : Db F}
      → IsReady w
      → AreAbsent w s
      → enter_donation affs true d s w ≡ (ok s', w')
      → KeepsAbsent w s' w'
  unfolding enter_donation enter_recipient
  enter_donation-KeepsAbsent affs d s w {s'} {w'} ready absent h =
      let (s₁, w₁, e₁, g₁) = >>=-eq-ok (meet affs d.donator s) (enter_recipient affs true d) w h in
      let (a₁, same₁) = meet-KeepsAbsent affs d.donator s w ready absent e₁ in
      let (s₂, w₂, e₂, g₂) =
        >>=-eq-ok (meet affs d.recipient s₁) (λ x. pure (enter_totals true d x)) w₁ g₁ in
      let (a₂, same₂) = KeepsAbsent-next w w₁ s₂ same₁ (
        meet-KeepsAbsent affs d.recipient s₁ w₁ (IsReady-same w w₁ same₁ ready)
          (subst (λ x. AreAbsent x s₁) (sym same₁) a₁) e₂) in
      let is : enter_totals true d s₂ ≡ s' = ground arith in
      (subst (AreAbsent w) is (enter_totals-AreAbsent d s₂ w a₂), ground arith)

  enter_donations-KeepsAbsent :
      (affs : List Affiliation) (ds : List (Donation F)) (s : Batch F) (w : Db F) {s' : Batch F}
      {w' : Db F}
      → IsReady w
      → AreAbsent w s
      → enter_donations affs true ds s w ≡ (ok s', w')
      → KeepsAbsent w s' w'
  unfolding enter_donations
  enter_donations-KeepsAbsent affs [] s w {s'} {w'} ready absent h =
      let is : s ≡ s' = ground arith in (subst (AreAbsent w) is absent, ground arith)
  enter_donations-KeepsAbsent affs (d ∷ ds) s w {s'} {w'} ready absent h =
      let (s₁, w₁, e, g) =
        >>=-eq-ok (enter_donation affs true d s) (enter_donations affs true ds) w h in
      let (a₁, same) = enter_donation-KeepsAbsent affs d s w ready absent e in
      KeepsAbsent-next w w₁ s' same (
        enter_donations-KeepsAbsent affs ds s₁ w₁ (IsReady-same w w₁ same ready)
          (subst (λ x. AreAbsent x s₁) (sym same) a₁) g)

  -- A row that was read is in the table.
  IsRow-IsPresent :
      (affs : List Affiliation) (ds : List (Donation F)) (rows : List (CharacterRow F))
      (c : CharacterRow F)
      → IsRow rows affs ds false c
      → IsPresent rows c
  IsRow-IsPresent affs ds rows c row = let (r, found, same) = row.is_bound.starts in (r, found)

  -- SaveCharacterDonations with additions, on a database that answers and has the names of its
  -- characters, for donations whose parties all have an affiliation with a corporation: it succeeds,
  -- changes nothing but the rows of characters, and then every party is found with its row of the
  -- batch, the one that it was bound to with all the donations entered; everybody else is as before.
  pub save_character_donations-written :
      (affs : List Affiliation) (ds : List (Donation F)) (w : Db F)
      → IsUp w
      → All (IsNamedRow w.names) w.characters
      → All (ResolvesParties affs) ds
      → (s : Batch F) × (rows : List (CharacterRow F)) × (n : ℕ) × (save_character_donations ds affs
            true w
          ≡ (ok tt, record w { characters = rows; calls = n }))
        × IsBatch w.characters affs ds s
        × ((i : ℕ)
            → find_by char_key i rows
              ≡ written s.updated i (written s.fresh i (find_by char_key i w.characters)))
  unfolding save_character_donations
  save_character_donations-written affs ds w up known parties =
      let (s, w₁, e, batch, same) = enter_donations_total affs ds w parties in
      let (absent, stays) = enter_donations-KeepsAbsent affs ds no_batch w (up, known) tt e in
      let chars : w.characters ≡ w₁.characters = ap (λ (x : Db F). x.characters) (sym same) in
      let present =
        All-imp (IsRow w.characters affs ds false) (IsPresent w.characters) s.updated
          (λ c r. IsRow-IsPresent affs ds w.characters c r) batch.updated_rows in
      let (rows, n, saved, found) =
        save_characters-written s w₁ (subst IsUp (sym same) up) (λ i. ground (arith, batch.once i))
          (subst (λ x. AreAbsent x s) (sym same) absent)
          (subst (λ t. All (IsPresent t) s.updated) chars present) in
      (
        s,
        rows,
        n,
        >>=-ok (enter_donations affs true ds no_batch) save_characters w e ∙ saved ∙ ground arith,
        batch,
        λ i.
            found i
            ∙ ap (λ t. written s.updated i (written s.fresh i (find_by char_key i t))) (sym chars),
      )
