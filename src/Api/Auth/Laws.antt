-- ===== src/Api/Auth/Laws.antt =====
-- What the state store promises: a state is accepted once, only after it was issued, and not after its
-- lifetime; pruning is never seen.
use esi_isk.Base.{
  ℕ, ◌+◌, ◌≤◌, ◌≡◌, ◌⊎◌, inl, inr, refl, String, Bool, true, false, List, [], ◌∷◌, Option, none,
  some, ltb, str_eq, All, if◌then◌else◌, Bool-cases, arith, ap, sym, ◌∙◌, subst,
}
use esi_isk.Api.Auth.{
  StateStore, lifetime, after_cutoff, lookup, to_prune, prune, known_state, new_state,
}
use esi_isk.Api.Auth.Store.{
  IsMap, put-IsMap, known_state-IsMap, delete_all-IsMap, old, lookup-put, lookup-delete_all,
  member-to_prune, lookup-known_state,
}

-- One step of a goroutine, with its time: a login that was handed a state, a callback that brings one
-- back, and a round of maintenance.
pub data Event : Type 0 where
  login : ℕ → String → Event
  callback : ℕ → String → Event
  tick : ℕ → Event

abbrev pub time_of : Event → ℕ
time_of (login now state) = now
time_of (callback now state) = now
time_of (tick now) = now

-- The store after some steps, the newest first.
abbrev pub after : List Event → StateStore
after [] = []
after (login now state ∷ h) = new_state now state (after h)
after (callback now state ∷ h) = (known_state now state (after h)).1
after (tick now ∷ h) = prune now (after h)

-- When a state was last issued, if no callback has brought it since: what the steps say, and no store.
abbrev pub pending : String → List Event → Option ℕ
pending state [] = none
pending state (login now x ∷ h) = if str_eq x state then some now else pending state h
pending state (callback now x ∷ h) = if str_eq x state then none else pending state h
pending state (tick now ∷ h) = pending state h

-- whether a state that was issued then is accepted now
abbrev pub accepted : ℕ → Option ℕ → Bool
accepted now none = false
accepted now (some ts) = ltb now (ts + lifetime)

after-IsMap : (h : List Event) → IsMap (after h)
unfolding new_state prune
after-IsMap [] = tt
after-IsMap (login now x ∷ h) = put-IsMap x now (after h) (after-IsMap h)
after-IsMap (callback now x ∷ h) = known_state-IsMap now x (after h) (after-IsMap h)
after-IsMap (tick now ∷ h) = delete_all-IsMap (to_prune now (after h)) (after h) (after-IsMap h)

-- What is in the store and what is pending differ at most in a state that is too old to be accepted.
abbrev Agrees : ℕ → Option ℕ → Option ℕ → Type 0
Agrees now a b = (a ≡ b) ⊎ ((a ≡ none) × (ts : ℕ) × (b ≡ some ts) × (ts + lifetime ≤ now))

-- The outcome of the agreement, and how it lasts.
accepted-Agrees : (now : ℕ) (a b : Option ℕ) → Agrees now a b → accepted now a ≡ accepted now b
accepted-Agrees now a b (inl e) = ap (accepted now) e
accepted-Agrees now a b (inr (e, ts, k, le)) = ground arith

Agrees-if :
    (now : ℕ) (c : Bool) (o a b : Option ℕ)
    → Agrees now a b
    → Agrees now (if c then o else a) (if c then o else b)
Agrees-if now true o a b h = inl refl
Agrees-if now false o a b h = h

Agrees-prune :
    (now t : ℕ) (a b : Option ℕ)
    → t ≤ now
    → Agrees now a b
    → Agrees now (if old t a then none else a) b
Agrees-prune now t none b le h = h
Agrees-prune now t (some ts) b le (inl e) = elim (Bool-cases (ltb (ts + lifetime) t)) [
  | inl o ↦ inr (ground arith, ts, sym e, ground arith)
  | inr o ↦ inl (ground arith)
]
Agrees-prune now t (some ts) b le (inr (e, _, _, _)) = absurd (ground arith)

after-Agrees :
    (now : ℕ) (state : String) (h : List Event)
    → All (λ e. time_of e ≤ now) h
    → Agrees now (lookup state (after h)) (pending state h)
unfolding new_state prune lookup
after-Agrees now state [] le = inl refl
after-Agrees now state (login t x ∷ h) le =
    subst (λ o. Agrees now o (pending state (login t x ∷ h))) (sym (lookup-put state x t (after h)))
      (Agrees-if now (str_eq x state) (some t) (lookup state (after h)) (pending state h)
        (after-Agrees now state h le.1))
after-Agrees now state (callback t x ∷ h) le =
    subst (λ o. Agrees now o (pending state (callback t x ∷ h)))
      (sym (lookup-known_state t x state (after h)))
      (Agrees-if now (str_eq x state) none (lookup state (after h)) (pending state h)
        (after-Agrees now state h le.1))
after-Agrees now state (tick t ∷ h) le =
    let gone = lookup-delete_all state (to_prune t (after h)) (after h) in
    let stale = member-to_prune t state (after h) (after-IsMap h) in
    let rest =
      Agrees-prune now t (lookup state (after h)) (pending state h) le.0
        (after-Agrees now state h le.1) in
    subst (λ o. Agrees now o (pending state h))
      (sym (gone ∙ ap (λ m. if m then none else lookup state (after h)) stale)) rest

-- After any steps, of logins, callbacks and maintenance, whose times are not later than `now`,
-- knownState accepts a state exactly if a login issued it less than 300 seconds before and no callback
-- has brought it since.
pub known_state-after :
    (now : ℕ) (state : String) (h : List Event)
    → All (λ e. time_of e ≤ now) h
    → (known_state now state (after h)).0 ≡ accepted now (pending state h)
unfolding known_state after_cutoff
known_state-after now state h le =
    known (lookup state (after h)) refl
    ∙ accepted-Agrees now (lookup state (after h)) (pending state h) (after-Agrees now state h le)
  where
    known :
        (o : Option ℕ)
        → lookup state (after h) ≡ o
        → (known_state now state (after h)).0 ≡ accepted now (lookup state (after h))
    known none e = ground arith
    known (some ts) e = ground arith

-- After a round of maintenance the store has exactly the states that it had and that were issued at
-- most 300 seconds before, with their times, whatever steps came before.
pub lookup-prune :
    (now : ℕ) (state : String) (h : List Event)
    → lookup state (prune now (after h))
      ≡ (if old now (lookup state (after h)) then none else lookup state (after h))
unfolding prune
lookup-prune now state h =
    lookup-delete_all state (to_prune now (after h)) (after h)
    ∙ ap (λ m. if m then none else lookup state (after h))
        (member-to_prune now state (after h) (after-IsMap h))
