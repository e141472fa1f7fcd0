-- ===== src/Api/View/Passphrase.antt =====
-- Who gets to see the custom view: the passphrase of isk/api/custom.go.
use esi_isk.Base.{
  ℕ, ◌≡◌, ◌⊎◌, inl, inr, refl, ap, ◌∙◌, String, Bool, true, false, List, some, ◌==◌, str_eq, eq_iff,
  Bool-cases, arith,
}
use esi_isk.Base.Float.{Float64}
use esi_isk.Cx.{Options}
use esi_isk.Db.Types.{CharDetails, Donation, Contract}
use esi_isk.Db.PrefTypes.{Preferences}
use esi_isk.Db.Store.{Db, Result, ok, err, panic, ◌>>=◌, attempt}
use esi_isk.Db.Store.Laws.{SameTables, >>=-eq-ok, attempt-eq-ok}
use esi_isk.Db.Details.{get_char_details, get_char_details-IsCalm}
use esi_isk.Api.Format.{Formats}
use esi_isk.Api.Rows.{RowPattern}
use esi_isk.Api.View.{
  Part, page, passphrase_of, check_passphrase, show_page, read_preferences, custom_with,
  custom_found, custom,
}

module _ {F : Type 0} where
  -- The view may be shown: the character is not of good standing, or has no passphrase, or the request
  -- has it.
  abbrev pub MayShow : String → CharDetails F → Preferences F → Type 0
  MayShow given c p =
      (c.character.good_standing ≡ false)
      ⊎ ((s : String) × (passphrase_of p ≡ ok s) × ((s ≡ "") ⊎ (given ≡ s)))

  check_passphrase-MayShow :
      (given : String) (c : CharDetails F) (p : Preferences F)
      → check_passphrase given c p ≡ ok true
      → MayShow given c p
  unfolding check_passphrase
  check_passphrase-MayShow given c p h = elim (Bool-cases c.character.good_standing) [
    | inl good ↦ inr (go good (passphrase_of p) refl)
    | inr bad ↦ inl bad
  ]
    where
      go :
          c.character.good_standing ≡ true
          → (r : Result String) → passphrase_of p ≡ r
          → (s : String) × (passphrase_of p ≡ ok s) × ((s ≡ "") ⊎ (given ≡ s))
      go good (ok s) e = (
        s,
        e,
        elim (Bool-cases (str_eq s "")) [
          | inl empty ↦ inl ((eq_iff s "").0 empty)
          | inr set ↦ inr ((eq_iff given s).0 (ground arith))
        ],
      )
      go good (err x) e = absurd (ground arith)
      go good panic e = absurd (ground arith)

module _ {F : Type 0} ⦃f : Float64 F⦄ (fmt : Formats F)
    (sort_rows : List RowPattern → List RowPattern) (clock : ℕ → ℕ) where
  show_page-MayShow :
      (parses : String → Bool) (given : String) (c : CharDetails F) (p : Preferences F) (w : Db F)
      {parts : List Part} {w' : Db F}
      → show_page fmt sort_rows clock parses given c p w ≡ (ok (page parts), w')
      → MayShow given c p
  unfolding show_page
  show_page-MayShow parses given c p w {parts} {w'} h = go (check_passphrase given c p) refl
    where
      go : (r : Result Bool) → check_passphrase given c p ≡ r → MayShow given c p
      go (ok true) e = check_passphrase-MayShow given c p e
      go (ok false) e = absurd (ground arith)
      go (err x) e = absurd (ground arith)
      go panic e = absurd (ground arith)

  custom_with-MayShow :
      (parses : String → Bool) (given : String) (c : CharDetails F) (r : Result (Preferences F) × ℕ)
      (w : Db F) {parts : List Part} {w' : Db F}
      → custom_with fmt sort_rows clock parses given c r w ≡ (ok (page parts), w')
      → (p : Preferences F) × (r.0 ≡ ok p) × MayShow given c p
  unfolding custom_with
  custom_with-MayShow parses given c (ok p, s) w h =
      (p, refl, show_page-MayShow parses given c p w h)
  custom_with-MayShow parses given c (err x, s) w h = absurd (ground arith)
  custom_with-MayShow parses given c (panic, s) w h = absurd (ground arith)

  -- A page of the custom view is shown only for a character that was found, with its preferences of the
  -- kind that was asked for, and only if the character is not of good standing, has no passphrase among
  -- these preferences, or the request has the passphrase.
  pub custom-MayShow :
      (sort_donations : List (Donation F) → List (Donation F))
      (sort_contracts : List (Contract F) → List (Contract F)) (parses : String → Bool)
      (opts : Options) (id : ℕ) (t given : String) (w : Db F) {parts : List Part} {w' : Db F}
      → custom fmt sort_rows clock sort_donations sort_contracts parses opts (some id) t given w
        ≡ (ok (page parts), w')
      → (c : CharDetails F) × (p : Preferences F) × (w₁ : Db F) × ((get_char_details sort_donations
            sort_contracts id w).0
          ≡ ok c)
        × SameTables w w₁
        × ((status : ℕ) × ((read_preferences opts t id w₁).0 ≡ ok (ok p, status)))
        × MayShow given c p
  unfolding custom custom_found
  custom-MayShow sort_donations sort_contracts parses opts id t given w {parts} {w'} h =
      elim (Bool-cases (id == 0)) [
        | inl z ↦ absurd (ground arith)
        | inr nz ↦
            let entered : (attempt (get_char_details sort_donations sort_contracts id)
                    >>= custom_found fmt sort_rows clock parses opts t given id)
                  w
                ≡ (ok (page parts), w') =
              ground arith in
            let (r, w₁, e, g) =
              >>=-eq-ok (attempt (get_char_details sort_donations sort_contracts id))
                (custom_found fmt sort_rows clock parses opts t given id) w entered in
            go r w₁ (attempt-eq-ok (get_char_details sort_donations sort_contracts id) w e) g
      ]
    where
      go :
          (r : Result (CharDetails F)) (w₁ : Db F)
          → get_char_details sort_donations sort_contracts id w ≡ (r, w₁)
          → custom_found fmt sort_rows clock parses opts t given id r w₁ ≡ (ok (page parts), w')
          → (c : CharDetails F) × (p : Preferences F) × (w₁ : Db F) × ((get_char_details
                sort_donations sort_contracts id w).0
              ≡ ok c)
            × SameTables w w₁
            × ((status : ℕ) × ((read_preferences opts t id w₁).0 ≡ ok (ok p, status)))
            × MayShow given c p
      go (ok c) w₁ e g =
          let ((found, status), w₂, read, shown) =
            >>=-eq-ok (read_preferences opts t id) (custom_with fmt sort_rows clock parses given c)
              w₁ g in
          let (p, is, may) = custom_with-MayShow parses given c (found, status) w₂ shown in
          let (_, same) = get_char_details-IsCalm sort_donations sort_contracts id w in
          (
            c,
            p,
            w₁,
            ap (λ x. x.0) e,
            ground arith,
            (status, ap (λ x. x.0) read ∙ ap (λ o. ok (o, status)) is),
            may,
          )
      go (err x) w₁ e g = absurd (ground arith)
      go panic w₁ e g = absurd (ground arith)
