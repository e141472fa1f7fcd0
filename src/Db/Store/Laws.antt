-- ===== src/Db/Store/Laws.antt =====
-- Reasoning about actions: what a successful chain of calls did, and which actions only read.
use esi_isk.Base.{
  none, ℕ, suc, true, false, Option-cases, ◌≡◌, ◌⊎◌, inl, inr, refl, sym, ◌∙◌, Option, some,
  Bool-cases, arith,
}
use esi_isk.Db.Store.{
  Db, Error, unavailable, no_rows, Result, ok, err, panic, Action, pure, fail, crash, ◌>>=◌,
  attempt, query, get, execute, call,
}

module _ {F : Type 0} where
  -- A chain that succeeds has a first part that does.
  pub >>=-eq-ok :
      {A B : Type 0} (m : Action F A) (k : A → Action F B) (w : Db F) {b : B} {w' : Db F}
      → (m >>= k) w ≡ (ok b, w')
      → (a : A) × (w₁ : Db F) × (m w ≡ (ok a, w₁)) × (k a w₁ ≡ (ok b, w'))
  >>=-eq-ok {A} {B} m k w {b} {w'} h = go (m w) refl
    where
      go :
          (p : Result A × Db F)
          → m w ≡ p
          → (a : A) × (w₁ : Db F) × (m w ≡ (ok a, w₁)) × (k a w₁ ≡ (ok b, w'))
      go (ok a, w₁) e = (a, w₁, e, ground arith)
      go (err x, w₁) e = absurd (ground arith)
      go (panic, w₁) e = absurd (ground arith)

  -- A chain goes on after a success, and ends at an error.
  pub >>=-ok :
      {A B : Type 0} (m : Action F A) (k : A → Action F B) (w : Db F) {a : A} {w₁ : Db F}
      → m w ≡ (ok a, w₁)
      → (m >>= k) w ≡ k a w₁
  >>=-ok m k w e = ground arith

  pub >>=-err :
      {A B : Type 0} (m : Action F A) (k : A → Action F B) (w : Db F) {x : Error} {w₁ : Db F}
      → m w ≡ (err x, w₁)
      → (m >>= k) w ≡ (err x, w₁)
  >>=-err m k w e = ground arith

  -- Chains of actions that agree on what they do.
  pub >>=-cong :
      {A B : Type 0} (m m' : Action F A) (k k' : A → Action F B) (w : Db F)
      → m w ≡ m' w
      → ((a : A) (w₁ : Db F) → k a w₁ ≡ k' a w₁)
      → (m >>= k) w ≡ (m' >>= k') w
  >>=-cong {A} {B} m m' k k' w e h = go (m' w) e refl
    where
      go : (p : Result A × Db F) → m w ≡ p → m' w ≡ p → (m >>= k) w ≡ (m' >>= k') w
      go (ok a, w₁) q q' = >>=-ok m k w q ∙ h a w₁ ∙ sym (>>=-ok m' k' w q')
      go (err x, w₁) q q' = >>=-err m k w q ∙ sym (>>=-err m' k' w q')
      go (panic, w₁) q q' = ground arith

  -- What an attempt hands over is what the action returned.
  pub attempt-eq-ok :
      {A : Type 0} (m : Action F A) (w : Db F) {r : Result A} {w' : Db F}
      → attempt m w ≡ (ok r, w')
      → m w ≡ (r, w')
  attempt-eq-ok m w h = ground arith

  -- `w'` has the tables of `w`; at most the count of the calls differs.
  abbrev pub SameTables : Db F → Db F → Type 0
  SameTables w w' = w' ≡ record w { calls = w'.calls }

  -- An action that reads changes no table.
  pub record Reads {A : Type 0} (m : Action F A) : Type 0 where
    pub same : (w : Db F) → SameTables w (m w).1

  pub Reads-pure : {A : Type 0} (a : A) → Reads (pure a)
  Reads-pure a = record { same = λ w. refl }

  pub Reads-fail : {A : Type 0} (e : Error) → Reads {A = A} (fail e)
  Reads-fail e = record { same = λ w. refl }

  pub Reads-crash : {A : Type 0} → Reads {A = A} crash
  Reads-crash = record { same = λ w. refl }

  pub Reads-query : {A : Type 0} (q : Db F → A) → Reads (query q)
  unfolding query
  Reads-query q = record { same = λ w. ground arith }

  pub Reads-get : {A : Type 0} (q : Db F → Option A) → Reads (get q)
  unfolding get
  Reads-get q = record { same = λ w. ground arith }

  pub Reads-bind :
      {A B : Type 0} {m : Action F A} {k : A → Action F B}
      → Reads m
      → ((a : A) → Reads (k a))
      → Reads (m >>= k)
  Reads-bind {A} {B} {m} {k} hm hk = record { same = λ w. go w (m w) refl }
    where
      go : (w : Db F) (p : Result A × Db F) → m w ≡ p → SameTables w ((m >>= k) w).1
      go w (ok a, w₁) e = ground (arith, hm.same w, (hk a).same w₁)
      go w (err x, w₁) e = ground (arith, hm.same w)
      go w (panic, w₁) e = ground (arith, hm.same w)

  pub Reads-attempt : {A : Type 0} {m : Action F A} → Reads m → Reads (attempt m)
  Reads-attempt {A} {m} hm = record { same = λ w. go w (m w) refl }
    where
      go : (w : Db F) (p : Result A × Db F) → m w ≡ p → SameTables w (attempt m w).1
      go w (ok a, w₁) e = ground (arith, hm.same w)
      go w (err x, w₁) e = ground (arith, hm.same w)
      go w (panic, w₁) e = ground (arith, hm.same w)

  -- The database answers every call.
  abbrev pub IsUp : Db F → Type 0
  IsUp w = (n : ℕ) → w.answers n ≡ true

  -- the tables when one more call was made
  abbrev pub ticked : Db F → Db F
  ticked w = record w { calls = suc w.calls }

  pub query-up :
      {A : Type 0} (q : Db F → A) (w : Db F) → IsUp w → query q w ≡ (ok (q (ticked w)), ticked w)
  unfolding query
  query-up q w up = rw (up w.calls)

  pub get-up :
      {A : Type 0} (q : Db F → Option A) (w : Db F) {a : A}
      → IsUp w
      → q (ticked w) ≡ some a
      → get q w ≡ (ok a, ticked w)
  unfolding get
  get-up q w up e = ground (arith, up w.calls)

  pub execute-up_ok :
      (g : Db F → Result (Db F)) (w : Db F) {w' : Db F}
      → IsUp w
      → g (ticked w) ≡ ok w'
      → execute g w ≡ (ok tt, w')
  unfolding execute
  execute-up_ok g w up e = ground (arith, up w.calls)

  pub execute-up_err :
      (g : Db F → Result (Db F)) (w : Db F) {e : Error}
      → IsUp w
      → g (ticked w) ≡ err e
      → execute g w ≡ (err e, ticked w)
  unfolding execute
  execute-up_err g w up e = ground (arith, up w.calls)

  -- A statement either ends well or leaves the tables alone.
  pub execute-refused :
      (g : Db F → Result (Db F)) (w : Db F) {r : Result (Unit {0})} {w' : Db F}
      → execute g w ≡ (r, w')
      → (r ≡ ok tt) ⊎ SameTables w w'
  unfolding execute call
  execute-refused g w {r} {w'} h = elim (Bool-cases (w.answers w.calls)) [
    | inl up ↦ go up (g (record w { calls = suc w.calls })) refl
    | inr down ↦ inr (ground arith)
  ]
    where
      go :
          w.answers w.calls ≡ true
          → (q : Result (Db F)) → g (record w { calls = suc w.calls }) ≡ q
          → (r ≡ ok tt) ⊎ SameTables w w'
      go up (ok x) e = inl (ground arith)
      go up (err x) e = inr (ground arith)
      go up panic e = inr (ground arith)

  -- What a chain hands over, whatever the tables are then.
  pub >>=-value :
      {A B : Type 0} (m : Action F A) (k : A → Action F B) (w : Db F) {a : A} {b : B}
      → (m w).0 ≡ ok a
      → ((w₁ : Db F) → (k a w₁).0 ≡ ok b)
      → ((m >>= k) w).0 ≡ ok b
  >>=-value {A} {B} m k w {a} {b} e h = go (m w) refl
    where
      go : (p : Result A × Db F) → m w ≡ p → ((m >>= k) w).0 ≡ ok b
      go (ok x, w₁) q = ground (arith, h w₁)
      go (err x, w₁) q = absurd (ground arith)
      go (panic, w₁) q = absurd (ground arith)

  pub attempt-value :
      {A : Type 0} (m : Action F A) (w : Db F) {a : A}
      → (m w).0 ≡ ok a
      → (attempt m w).0 ≡ ok (ok a)
  attempt-value m w e = ground arith

  -- One call by itself, answered or not.
  pub query-answered :
      {A : Type 0} (q : Db F → A) (w : Db F)
      → w.answers w.calls ≡ true
      → query q w ≡ (ok (q (ticked w)), ticked w)
  unfolding query
  query-answered q w up = rw up

  pub query-unanswered :
      {A : Type 0} (q : Db F → A) (w : Db F)
      → w.answers w.calls ≡ false
      → query q w ≡ (err unavailable, ticked w)
  unfolding query
  query-unanswered q w down = rw down

  pub get-cases :
      {A : Type 0} (q : Db F → Option A) (w : Db F)
      → ((a : A) × (q (ticked w) ≡ some a) × (get q w ≡ (ok a, ticked w)))
        ⊎ ((e : Error) × (get q w ≡ (err e, ticked w)))
  unfolding get call
  get-cases q w = elim (Bool-cases (w.answers w.calls)) [
    | inl up ↦ elim (Option-cases (q (ticked w))) [
      | inl missing ↦ inr (no_rows, rw (up, missing))
      | inr (a, found) ↦ inl (a, found, rw (up, found))
    ]
    | inr down ↦ inr (unavailable, rw down)
  ]

  pub get-up_none :
      {A : Type 0} (q : Db F → Option A) (w : Db F)
      → IsUp w
      → q (ticked w) ≡ none
      → get q w ≡ (err no_rows, ticked w)
  unfolding get call
  get-up_none q w up e = rw (up w.calls, e)
