-- ===== src/Db/Characters/Success.antt =====
-- When SaveCharacterDonations and SaveCharacterContracts of isk/db/character.go get to their writes:
-- the reading of characters cannot panic, so only a missing affiliation can stop them.
use esi_isk.Base.{
  ℕ, ◌≡◌, refl, Bool, true, List, [], ◌∷◌, Option, none, some, All, elem, Bool-cases, inl, inr,
}
use esi_isk.Base.Float.{Float64}
use esi_isk.Db.Types.{Name, Affiliation, Donation, CharacterRow}
use esi_isk.Db.Store.{Db, ok, pure, attempt}
use esi_isk.Db.Store.Calm.{
  Calm, Succeeds, Calm-pure, Calm-fail, Calm-query, Calm-bind, attempt-Succeeds, >>=-Succeeds,
}
use esi_isk.Db.Store.Laws.{SameTables}
use esi_isk.Db.Statements.Characters.{stmt_char_details}
use esi_isk.Db.Names.{get_names}
use esi_isk.Db.Names.Laws.{Calm-get_names}
use esi_isk.Db.Characters.{
  get_affiliation, Batch, no_batch, named, get_character_names, get_character, finish_bound,
  bind_with, bind_affiliation, enlist, meet, enter_totals, enter_recipient, enter_donation,
  enter_donations,
}
use esi_isk.Db.Characters.Laws.{enter_donations-IsBatch}
use esi_isk.Db.Characters.Meeting.{IsBatch}

-- The affiliation of a character is found, and has a corporation.
abbrev pub Resolves : List Affiliation → ℕ → Type 0
Resolves affs id =
    (aff : Affiliation) × (c : Name) × (get_affiliation id affs ≡ ok aff)
    × (aff.corporation ≡ some c)

module _ {F : Type 0} ⦃f : Float64 F⦄ where
  Calm-named : (found : Option (CharacterRow F)) → Calm (named found)
  unfolding named get_character_names
  Calm-named none = Calm-fail _
  Calm-named (some row) = Calm-bind {m = get_names _} (Calm-get_names _) (λ names. Calm-pure _)

  pub Calm-get_character : (id : ℕ) → Calm {F = F} (get_character id)
  unfolding get_character stmt_char_details
  Calm-get_character id = Calm-bind {m = stmt_char_details id} (Calm-query _) Calm-named

  bind_with-Succeeds :
      (id : ℕ) (aff : Affiliation) (c : Name) (w : Db F)
      → aff.corporation ≡ some c
      → Succeeds (bind_with id aff w)
  unfolding bind_with finish_bound
  bind_with-Succeeds id aff c w has =
      >>=-Succeeds (attempt (get_character id)) (finish_bound id aff) w
        (attempt-Succeeds (get_character id) w (Calm-get_character id))
        (λ r w₁. rw has (_, w₁, refl))

  bind_affiliation-Succeeds :
      (id : ℕ) (affs : List Affiliation) (w : Db F)
      → Resolves affs id
      → Succeeds (bind_affiliation id affs w)
  unfolding bind_affiliation
  bind_affiliation-Succeeds id affs w (aff, c, found, has) =
      rw (found, bind_affiliation) (bind_with-Succeeds id aff c w has)

  meet-Succeeds :
      (affs : List Affiliation) (id : ℕ) (s : Batch F) (w : Db F)
      → Resolves affs id
      → Succeeds (meet affs id s w)
  unfolding meet
  meet-Succeeds affs id s w r = elim (Bool-cases (elem id s.all)) [
    | inl e ↦ rw e (s, w, refl)
    | inr e ↦ rw e (
        >>=-Succeeds (bind_affiliation id affs) (λ b. pure (enlist id s b)) w
          (bind_affiliation-Succeeds id affs w r) (λ b w₁. (_, w₁, refl)))
  ]

  -- Both parties of a donation have an affiliation with a corporation.
  abbrev pub ResolvesParties : List Affiliation → Donation F → Type 0
  ResolvesParties affs d = Resolves affs d.donator × Resolves affs d.recipient

  enter_donations-Succeeds :
      (affs : List Affiliation) (addition : Bool) (ds : List (Donation F)) (s : Batch F) (w : Db F)
      → All (ResolvesParties affs) ds
      → Succeeds (enter_donations affs addition ds s w)
  unfolding enter_donations enter_donation enter_recipient
  enter_donations-Succeeds affs addition [] s w r = (s, w, refl)
  enter_donations-Succeeds affs addition (d ∷ ds) s w r =
      >>=-Succeeds (enter_donation affs addition d s) (enter_donations affs addition ds) w
        (>>=-Succeeds (meet affs d.donator s) (enter_recipient affs addition d) w
          (meet-Succeeds affs d.donator s w r.0.0)
          (λ s₁ w₁.
            >>=-Succeeds (meet affs d.recipient s₁) (λ s₂. pure (enter_totals addition d s₂)) w₁
              (meet-Succeeds affs d.recipient s₁ w₁ r.0.1) (λ s₂ w₂. (_, w₂, refl))))
        (λ s₁ w₁. enter_donations-Succeeds affs addition ds s₁ w₁ r.1)

  -- If both parties of every donation have an affiliation with a corporation, then entering the
  -- batch gets to its writes, whichever calls of the database are answered: no table has changed;
  -- both parties of every donation are among the characters met; each of these has exactly one row,
  -- new or updated, and no other character has one; and each row is the row that its character was
  -- bound to (empty, or read back from the table, with the corporation and alliance of its
  -- affiliation) with the whole batch entered in order, although a character is bound only where it
  -- is first met.
  pub enter_donations_total :
      (affs : List Affiliation) (ds : List (Donation F)) (w : Db F)
      → All (ResolvesParties affs) ds
      → (s : Batch F) × (w' : Db F) × (enter_donations affs true ds no_batch w ≡ (ok s, w'))
        × IsBatch w.characters affs ds s
        × SameTables w w'
  enter_donations_total affs ds w r =
      let (s, w', e) = enter_donations-Succeeds affs true ds no_batch w r in
      let (batch, same) = enter_donations-IsBatch affs ds w s w' e in (s, w', e, batch, same)
