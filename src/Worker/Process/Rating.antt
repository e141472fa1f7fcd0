-- ===== src/Worker/Process/Rating.antt =====
-- Which standing updateStandings of isk/worker/esi.go gives to a character.
use esi_isk.Base.{
  ℕ, ◌≡◌, refl, sym, ap, subst, false, ◌&&◌, List, map, keep, ◌==◌, arith, [], ◌∷◌, ◌∙◌,
}
use esi_isk.Base.Float.{Float64}
use esi_isk.Cx.{Options}
use esi_isk.Db.Types.{Donation, Character}
use esi_isk.Db.Store.{Db, ok}
use esi_isk.Db.Store.Laws.{IsUp, ticked, query-up, execute-up_ok, SameTables}
use esi_isk.Db.Statements.Tables.{update_by}
use esi_isk.Db.Statements.Characters.{char_key, stored_row, stmt_update_character}
use esi_isk.Db.Statements.Gifts.{stmt_char_standing_isk}
use esi_isk.Db.Characters.{get_character, save_character, update_character}
use esi_isk.Db.Characters.Reading.{Reads-get_character}
use esi_isk.Db.Characters.Rows.{to_row, round2}
use esi_isk.Db.Donations.{get_donations, get_char_standing_isk, sum_amounts}
use esi_isk.Worker.Process.{Services, set_standing, rate, rate_by, rate_found, update_standing}

module _ {F : Type 0} ⦃f : Float64 F⦄ (sv : Services F) (opts : Options) where
  open f use {zero_f, hundred, add, mul, div, round, lt, one_percent}

  -- amounts added up one by one, from zero
  abbrev pub sum_from : F → List F → F
  sum_from x [] = x
  sum_from x (y ∷ ys) = sum_from (add x y) ys

  sum_amounts-eq :
      (x : F) (ds : List (Donation F)) → sum_amounts x ds ≡ sum_from x (map (λ d. d.amount) ds)
  unfolding sum_amounts
  sum_amounts-eq x [] = refl
  sum_amounts-eq x (d ∷ ds) = sum_amounts-eq (add x d.amount) ds

  -- the donations of a character to the owner of the service as GetCharStandingISK reads them: in the
  -- order of the sort, each amount to two decimals
  abbrev pub payments : ℕ → List (Donation F) → List (Donation F)
  payments id rows = sv.sort_donations (
      map (λ (d : Donation F). record d { amount = div (round (mul d.amount hundred)) hundred })
        (keep (λ (d : Donation F). d.recipient == opts.character_id && d.donator == id) rows))

  -- what a character has donated to the owner of the service
  abbrev pub paid : ℕ → List (Donation F) → F
  paid id rows = sum_from zero_f (map (λ (d : Donation F). d.amount) (payments id rows))

  -- a character with the standing that it has paid for
  abbrev pub rated : ℕ → List (Donation F) → Character F → Character F
  rated id rows char = record char {
    good_standing = lt (mul char.received_isk_30 one_percent) (paid id rows);
  }

  get_char_standing_isk-eq :
      (id : ℕ) (w : Db F)
      → IsUp w
      → get_char_standing_isk sv.sort_donations opts.character_id id w
        ≡ (ok (paid id w.donations), ticked w)
  unfolding get_char_standing_isk get_donations stmt_char_standing_isk round2
  get_char_standing_isk-eq id w up =
      let read =
        query-up
          (λ (x : Db F).
            keep (λ (d : Donation F). d.recipient == opts.character_id && d.donator == id)
              x.donations)
          w up in
      let summed : get_char_standing_isk sv.sort_donations opts.character_id id w
          ≡ (ok (sum_amounts zero_f (payments id w.donations)), ticked w) =
        ground arith in
      summed ∙ ap (λ x. (ok x, ticked w)) (sum_amounts-eq zero_f (payments id w.donations))

  save_character-eq :
      (char : Character F) (w : Db F)
      → IsUp w
      → save_character char w ≡ (
        ok tt,
        record (ticked w) {
          characters =
              update_by char_key
                (to_row char).id
                (λ old. record (stored_row (to_row char)) { id = old.id })
                w.characters;
        },
      )
  unfolding save_character update_character stmt_update_character
  save_character-eq char w up = execute-up_ok _ w up refl

  rate-eq :
      (id : ℕ) (char : Character F) (w : Db F)
      → IsUp w
      → rate sv opts.character_id id char w ≡ (
        ok tt,
        record (ticked (ticked w)) {
          characters =
              update_by char_key
                (to_row (rated id w.donations char)).id
                (λ old. record (stored_row (to_row (rated id w.donations char))) { id = old.id })
                w.characters;
        },
      )
  unfolding rate rate_by set_standing
  rate-eq id char w up =
      let read = get_char_standing_isk-eq id w up in
      let saved = save_character-eq (rated id w.donations char) (ticked w) up in ground arith

  -- For a character that GetCharacter finds, other than the owner of the service, and a database that
  -- answers, updateStandings rewrites the rows with its id: the character is stored as it was read,
  -- with good standing exactly if the sum of all its stored donations to the owner, each to two
  -- decimals, is strictly more than 0.01 times its 30-day total of ISK received, by `<` on floats. No
  -- other row of characters changes.
  pub update_standing-eq :
      (id : ℕ) (char : Character F) (w w₁ : Db F)
      → IsUp w
      → (id == opts.character_id) ≡ false
      → get_character id w ≡ (ok char, w₁)
      → (w' : Db F) × (update_standing sv opts id w ≡ (ok tt, w'))
        × (w'.characters
            ≡ update_by char_key
                (to_row (rated id w.donations char)).id
                (λ old. record (stored_row (to_row (rated id w.donations char))) { id = old.id })
                w.characters)
  unfolding update_standing rate_found
  update_standing-eq id char w w₁ up other found =
      let same : SameTables w w₁ =
        subst (λ r. SameTables w r.1) found ((Reads-get_character id).same w) in
      let up₁ : IsUp w₁ = subst IsUp (sym same) up in
      let run = rate-eq id char w₁ up₁ in
      let same_chars : w₁.characters ≡ w.characters = ap (λ (x : Db F). x.characters) same in
      let same_rows : w₁.donations ≡ w.donations = ap (λ (x : Db F). x.donations) same in
      let run' =
        subst
          (λ (rows : List (Donation F)). rate sv opts.character_id id char w₁ ≡ (
            ok tt,
            record (ticked (ticked w₁)) {
              characters =
                  update_by char_key (to_row (rated id rows char)).id
                    (λ old. record (stored_row (to_row (rated id rows char))) { id = old.id })
                    w₁.characters;
            },
          ))
          same_rows run in
      (
        record (ticked (ticked w₁)) {
          characters =
              update_by char_key (to_row (rated id w.donations char)).id
                (λ old. record (stored_row (to_row (rated id w.donations char))) { id = old.id })
                w₁.characters;
        },
        rw other (ground (arith, found, run')),
        ap
            (update_by char_key (to_row (rated id w.donations char)).id
              (λ old. record (stored_row (to_row (rated id w.donations char))) { id = old.id }))
            same_chars,
      )
