-- ===== src/Worker/Process/Standings.antt =====
-- What updateStandings of isk/worker/esi.go can change.
use esi_isk.Base.{ℕ, ◌≡◌, refl, sym, subst, List, [], ◌∷◌, ◌==◌, Bool-cases, inl, inr, arith}
use esi_isk.Base.Float.{Float64}
use esi_isk.Cx.{Options}
use esi_isk.Db.Types.{Character}
use esi_isk.Db.Store.{
  Db, Error, Result, ok, err, panic, Action, pure, ◌>>=◌, attempt, execute, call,
}
use esi_isk.Db.Store.Laws.{Reads, Reads-query, >>=-ok, >>=-err}
use esi_isk.Db.Store.Calm.{Calm, IsCalm, Calm-query}
use esi_isk.Db.Statements.Characters.{stmt_update_character}
use esi_isk.Db.Statements.Gifts.{stmt_char_standing_isk}
use esi_isk.Db.Characters.{get_character, save_character, update_character}
use esi_isk.Db.Characters.Reading.{Reads-get_character}
use esi_isk.Db.Characters.Success.{Calm-get_character}
use esi_isk.Db.Donations.{get_donations, get_char_standing_isk}
use esi_isk.Worker.Process.{
  Services, set_standing, rate_by, rate, rate_found, update_standing, update_standings,
}

module _ {F : Type 0} ⦃f : Float64 F⦄ where
  -- Only the rows of characters differ, and the count of the calls.
  abbrev pub OnlyCharacters : Db F → Db F → Type 0
  OnlyCharacters w w' = w' ≡ record w { characters = w'.characters; calls = w'.calls }

  -- A step that does not panic and changes at most the rows of characters.
  record Rates {A : Type 0} (m : Action F A) : Type 0 where
    pub calm : (w : Db F) → IsCalm (m w)
    pub only : (w : Db F) → OnlyCharacters w (m w).1

  Rates-Reads : {A : Type 0} {m : Action F A} → Calm m → Reads m → Rates m
  Rates-Reads c r = record { calm = c.calm; only = λ w. ground (arith, r.same w) }

  Rates-bind :
      {A B : Type 0} {m : Action F A} {k : A → Action F B}
      → Rates m
      → ((a : A) → Rates (k a))
      → Rates (m >>= k)
  Rates-bind {A} {B} {m} {k} hm hk = record {
    calm = λ w. (go w (m w) refl (hm.calm w) (hm.only w)).0;
    only = λ w. (go w (m w) refl (hm.calm w) (hm.only w)).1;
  }
    where
      go :
          (w : Db F) (p : Result A × Db F)
          → m w ≡ p
          → IsCalm (m w)
          → OnlyCharacters w (m w).1
          → IsCalm ((m >>= k) w) × OnlyCharacters w ((m >>= k) w).1
      go w (ok a, w₁) e c o =
          let next = (hk a).only w₁ in
          let calm_next = (hk a).calm w₁ in
          subst (λ r. IsCalm r × OnlyCharacters w r.1) (sym (>>=-ok m k w e))
            (calm_next, ground arith)
      go w (err x, w₁) e c o =
          subst (λ r. IsCalm r × OnlyCharacters w r.1) (sym (>>=-err m k w e)) (tt, ground arith)
      go w (panic, w₁) e c o = absurd (subst IsCalm e c)

  Rates-attempt : {A : Type 0} {m : Action F A} → Rates m → Rates (attempt m)
  Rates-attempt {A} {m} hm = record {
    calm = λ w. (go w (m w) refl (hm.calm w) (hm.only w)).0;
    only = λ w. (go w (m w) refl (hm.calm w) (hm.only w)).1;
  }
    where
      go :
          (w : Db F) (p : Result A × Db F)
          → m w ≡ p
          → IsCalm (m w)
          → OnlyCharacters w (m w).1
          → IsCalm (attempt m w) × OnlyCharacters w (attempt m w).1
      go w (ok a, w₁) e c o = ground arith
      go w (err x, w₁) e c o = ground arith
      go w (panic, w₁) e c o = absurd (subst IsCalm e c)

  -- An attempt hands over a value or an error.
  after-attempt :
      {A B : Type 0} (m : Action F A) (k : Result A → Action F B)
      → Rates m
      → ((a : A) → Rates (k (ok a)))
      → ((e : Error) → Rates (k (err e)))
      → Rates (attempt m >>= k)
  after-attempt {A} {B} m k hm h_ok h_err = record {
    calm = λ w. (go w (m w) refl (hm.calm w) (hm.only w)).0;
    only = λ w. (go w (m w) refl (hm.calm w) (hm.only w)).1;
  }
    where
      go :
          (w : Db F) (p : Result A × Db F)
          → m w ≡ p
          → IsCalm (m w)
          → OnlyCharacters w (m w).1
          → IsCalm ((attempt m >>= k) w) × OnlyCharacters w ((attempt m >>= k) w).1
      go w (ok a, w₁) e c o =
          let next = (h_ok a).only w₁ in
          subst (λ r. IsCalm r × OnlyCharacters w r.1)
            (sym (>>=-ok (attempt m) k w {a = ok a} {w₁ = w₁} (ground arith)))
            ((h_ok a).calm w₁, ground arith)
      go w (err x, w₁) e c o =
          let next = (h_err x).only w₁ in
          subst (λ r. IsCalm r × OnlyCharacters w r.1)
            (sym (>>=-ok (attempt m) k w {a = err x} {w₁ = w₁} (ground arith)))
            ((h_err x).calm w₁, ground arith)
      go w (panic, w₁) e c o = absurd (subst IsCalm e c)

  Rates-pure : {A : Type 0} (a : A) → Rates (pure a)
  Rates-pure a = record { calm = λ w. tt; only = λ w. refl }

  Rates-save_character : (char : Character F) → Rates (save_character char)
  unfolding save_character update_character stmt_update_character execute call
  Rates-save_character char = record {
    calm = λ w. elim (Bool-cases (w.answers w.calls)) [ inl e ↦ rw e tt | inr e ↦ rw e tt ];
    only = λ w. elim (Bool-cases (w.answers w.calls)) [ inl e ↦ rw e refl | inr e ↦ rw e refl ];
  }

  module _ (sv : Services F) (opts : Options) where
    Rates-set_standing : (char : Character F) (isk : F) → Rates (set_standing sv char isk)
    unfolding set_standing
    Rates-set_standing char isk =
        let rated = record char {
          good_standing = f.lt (f.mul char.received_isk_30 f.one_percent) isk;
        } in
        Rates-bind (Rates-attempt (Rates-save_character rated)) (λ _. Rates-pure tt)

    Rates-get_char_standing_isk :
        (owner id : ℕ) → Rates (get_char_standing_isk sv.sort_donations owner id)
    unfolding get_char_standing_isk get_donations stmt_char_standing_isk
    Rates-get_char_standing_isk owner id =
        Rates-bind (Rates-bind (Rates-Reads (Calm-query _) (Reads-query _)) (λ rows. Rates-pure _))
          (λ ds. Rates-pure _)

    Rates-rate : (owner id : ℕ) (char : Character F) → Rates (rate sv owner id char)
    unfolding rate rate_by
    Rates-rate owner id char =
        after-attempt (get_char_standing_isk sv.sort_donations owner id) (rate_by sv char)
          (Rates-get_char_standing_isk owner id) (λ isk. Rates-set_standing char isk)
          (λ e. Rates-pure tt)

    Rates-update_standing : (id : ℕ) → Rates (update_standing sv opts id)
    unfolding update_standing rate_found
    Rates-update_standing id = elim (Bool-cases (id == opts.character_id)) [
      | inl e ↦ rw e (Rates-pure tt)
      | inr e ↦ rw e (
          after-attempt (get_character id) (rate_found sv opts.character_id id)
            (Rates-Reads (Calm-get_character id) (Reads-get_character id))
            (λ char. Rates-rate opts.character_id id char) (λ e. Rates-pure tt))
    ]

    Rates-update_standings : (ids : List ℕ) → Rates (update_standings sv opts ids)
    unfolding update_standings
    Rates-update_standings [] = Rates-pure tt
    Rates-update_standings (id ∷ ids) =
        Rates-bind (Rates-update_standing id) (λ _. Rates-update_standings ids)

    -- updateStandings cannot panic, whatever calls of the database fail, and changes no table but the
    -- rows of characters.
    pub update_standings-OnlyCharacters :
        (ids : List ℕ) (w : Db F)
        → IsCalm (update_standings sv opts ids w)
          × OnlyCharacters w (update_standings sv opts ids w).1
    update_standings-OnlyCharacters ids w =
        let r = Rates-update_standings ids in (r.calm w, r.only w)
