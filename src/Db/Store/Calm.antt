-- ===== src/Db/Store/Calm.antt =====
-- Which actions cannot panic, and which succeed.
use esi_isk.Base.{suc, ◌≡◌, refl, subst, sym, Option, Option-cases, inl, inr, Bool-cases, arith}
use esi_isk.Db.Store.{
  Db, Error, Result, ok, err, panic, Action, pure, fail, ◌>>=◌, attempt, query, get, call,
}
use esi_isk.Db.Store.Laws.{>>=-ok, >>=-err}

module _ {F : Type 0} where
  abbrev pub IsCalm : {A : Type 0} → Result A × Db F → Type 0
  IsCalm (ok _, _) = Unit
  IsCalm (err _, _) = Unit
  IsCalm (panic, _) = ⊥

  -- The action does not panic, whatever the tables are.
  pub record Calm {A : Type 0} (m : Action F A) : Type 0 where
    pub calm : (w : Db F) → IsCalm (m w)

  -- A call ended with a value.
  abbrev pub Succeeds : {A : Type 0} → Result A × Db F → Type 0
  Succeeds {A} r = (a : A) × (w : Db F) × (r ≡ (ok a, w))

  pub Calm-pure : {A : Type 0} (a : A) → Calm (pure a)
  Calm-pure a = record { calm = λ w. tt }

  pub Calm-fail : {A : Type 0} (e : Error) → Calm {A = A} (fail e)
  Calm-fail e = record { calm = λ w. tt }

  pub Calm-query : {A : Type 0} (q : Db F → A) → Calm (query q)
  unfolding query call
  Calm-query q = record {
    calm = λ w. elim (Bool-cases (w.answers w.calls)) [ inl e ↦ rw e tt | inr e ↦ rw e tt ];
  }

  pub Calm-get : {A : Type 0} (q : Db F → Option A) → Calm (get q)
  unfolding get call
  Calm-get q = record {
    calm = λ w. elim (Bool-cases (w.answers w.calls)) [
      | inl e ↦ elim (Option-cases (q (record w { calls = suc w.calls }))) [
        | inl n ↦ rw (e, n) tt
        | inr (a, n) ↦ rw (e, n) tt
      ]
      | inr e ↦ rw e tt
    ];
  }

  pub Calm-bind :
      {A B : Type 0} {m : Action F A} {k : A → Action F B}
      → Calm m
      → ((a : A) → Calm (k a))
      → Calm (m >>= k)
  Calm-bind {A} {B} {m} {k} hm hk = record { calm = λ w. go w (m w) refl (hm.calm w) }
    where
      go : (w : Db F) (p : Result A × Db F) → m w ≡ p → IsCalm p → IsCalm ((m >>= k) w)
      go w (ok a, w₁) e h = subst IsCalm (sym (>>=-ok m k w e)) ((hk a).calm w₁)
      go w (err x, w₁) e h = subst IsCalm (sym (>>=-err m k w e)) tt
      go w (panic, w₁) e h = absurd h

  -- A calm action that is attempted succeeds, and hands over its result.
  pub attempt-Succeeds : {A : Type 0} (m : Action F A) (w : Db F) → Calm m → Succeeds (attempt m w)
  attempt-Succeeds {A} m w h = go (m w) refl (h.calm w)
    where
      go : (p : Result A × Db F) → m w ≡ p → IsCalm p → Succeeds (attempt m w)
      go (ok a, w₁) e c = (ok a, w₁, ground arith)
      go (err x, w₁) e c = (err x, w₁, ground arith)
      go (panic, w₁) e c = absurd c

  pub >>=-Succeeds :
      {A B : Type 0} (m : Action F A) (k : A → Action F B) (w : Db F)
      → Succeeds (m w)
      → ((a : A) (w₁ : Db F) → Succeeds (k a w₁))
      → Succeeds ((m >>= k) w)
  >>=-Succeeds m k w (a, w₁, e) h = subst Succeeds (sym (>>=-ok m k w e)) (h a w₁)
