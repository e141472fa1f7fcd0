-- ===== src/Api/Auth/Store.antt =====
-- The map of login states in isk/api/auth.go: what is found after each operation on it.
use esi_isk.Base.{
  ℕ, ◌+◌, ◌≡◌, inl, inr, refl, String, Bool, true, false, List, [], ◌∷◌, Option, none, some, ltb,
  str_eq, eq_iff, if◌then◌else◌, Bool-cases, arith, ap, sym, ◌∙◌, subst,
}
use esi_isk.Api.Auth.{
  StateStore, lifetime, before_cutoff, lookup, delete, put, to_prune, delete_all, known_state,
}

str_eq-left : (a b c : String) → str_eq a b ≡ true → str_eq a c ≡ str_eq b c
str_eq-left a b c e = ap (λ x. str_eq x c) ((eq_iff a b).0 e)

str_eq-sym : (a b : String) → str_eq a b ≡ str_eq b a
str_eq-sym a b = elim (Bool-cases (str_eq a b)) [
  | inl e ↦ e ∙ sym ((eq_iff b a).1 (sym ((eq_iff a b).0 e)))
  | inr e ↦ elim (Bool-cases (str_eq b a)) [
    | inl k ↦ let same = (eq_iff a b).1 (sym ((eq_iff b a).0 k)) in absurd (ground arith)
    | inr k ↦ e ∙ sym k
  ]
]

pub lookup-put :
    (state x : String) (t : ℕ) (s : StateStore)
    → lookup state (put x t s) ≡ (if str_eq x state then some t else lookup state s)
unfolding lookup put
lookup-put state x t [] = refl
lookup-put state x t (i ∷ s) = elim (Bool-cases (str_eq i.state x)) [
  | inl e ↦ let same = str_eq-left i.state x state e in ground arith
  | inr e ↦ elim (Bool-cases (str_eq i.state state)) [
    | inl k ↦
        let other = str_eq-left i.state state x k in let back = str_eq-sym state x in ground arith
    | inr k ↦ let rest = lookup-put state x t s in ground arith
  ]
]

lookup-delete :
    (state x : String) (s : StateStore)
    → lookup state (delete x s) ≡ (if str_eq x state then none else lookup state s)
unfolding lookup delete
lookup-delete state x [] = ground arith
lookup-delete state x (i ∷ s) = elim (Bool-cases (str_eq i.state x)) [
  | inl e ↦
      let same = str_eq-left i.state x state e in let rest = lookup-delete state x s in ground arith
  | inr e ↦ elim (Bool-cases (str_eq i.state state)) [
    | inl k ↦
        let other = str_eq-left i.state state x k in let back = str_eq-sym state x in ground arith
    | inr k ↦ let rest = lookup-delete state x s in ground arith
  ]
]

-- No key is there twice.
abbrev pub IsMap : StateStore → Type 0
IsMap [] = Unit
IsMap (i ∷ s) = (lookup i.state s ≡ none) × IsMap s

pub put-IsMap : (x : String) (t : ℕ) (s : StateStore) → IsMap s → IsMap (put x t s)
unfolding put lookup
put-IsMap x t [] h = (refl, tt)
put-IsMap x t (i ∷ s) h = elim (Bool-cases (str_eq i.state x)) [
  | inl e ↦ let same = (eq_iff i.state x).0 e in ground arith
  | inr e ↦
      let rest = put-IsMap x t s h.1 in
      let absent = lookup-put i.state x t s in let back = str_eq-sym i.state x in ground arith
]

delete-IsMap : (x : String) (s : StateStore) → IsMap s → IsMap (delete x s)
unfolding delete
delete-IsMap x [] h = tt
delete-IsMap x (i ∷ s) h = elim (Bool-cases (str_eq i.state x)) [
  | inl e ↦ let rest = delete-IsMap x s h.1 in ground arith
  | inr e ↦
      let rest = delete-IsMap x s h.1 in
      let absent = lookup-delete i.state x s in let back = str_eq-sym i.state x in ground arith
]

pub known_state-IsMap :
    (now : ℕ) (x : String) (s : StateStore) → IsMap s → IsMap (known_state now x s).1
unfolding known_state
known_state-IsMap now x s h = known (lookup x s) refl
  where
    known : (o : Option ℕ) → lookup x s ≡ o → IsMap (known_state now x s).1
    known none e = ground arith
    known (some ts) e = let rest = delete-IsMap x s h in ground arith

pub delete_all-IsMap : (xs : List String) (s : StateStore) → IsMap s → IsMap (delete_all xs s)
unfolding delete_all
delete_all-IsMap [] s h = h
delete_all-IsMap (x ∷ xs) s h = delete_all-IsMap xs (delete x s) (delete-IsMap x s h)

abbrev pub member : String → List String → Bool
member state [] = false
member state (x ∷ xs) = if str_eq x state then true else member state xs

pub lookup-delete_all :
    (state : String) (xs : List String) (s : StateStore)
    → lookup state (delete_all xs s) ≡ (if member state xs then none else lookup state s)
unfolding delete_all
lookup-delete_all state [] s = refl
lookup-delete_all state (x ∷ xs) s =
    let rest = lookup-delete_all state xs (delete x s) in
    let here = lookup-delete state x s in ground arith

-- whether an issued state is old enough to go
abbrev pub old : ℕ → Option ℕ → Bool
old now none = false
old now (some ts) = ltb (ts + lifetime) now

pub member-to_prune :
    (now : ℕ) (state : String) (s : StateStore)
    → IsMap s
    → member state (to_prune now s) ≡ old now (lookup state s)
unfolding to_prune lookup before_cutoff
member-to_prune now state [] h = refl
member-to_prune now state (i ∷ s) h = elim (Bool-cases (str_eq i.state state)) [
  | inl e ↦
      let rest = member-to_prune now state s h.1 in
      let gone = subst (λ x. lookup x s ≡ none) ((eq_iff i.state state).0 e) h.0 in ground arith
  | inr e ↦ let rest = member-to_prune now state s h.1 in ground arith
]

pub lookup-known_state :
    (now : ℕ) (x state : String) (s : StateStore)
    → lookup state (known_state now x s).1 ≡ (if str_eq x state then none else lookup state s)
unfolding known_state
lookup-known_state now x state s = known (lookup x s) refl
  where
    known :
        (o : Option ℕ)
        → lookup x s ≡ o
        → lookup state (known_state now x s).1 ≡ (if str_eq x state then none else lookup state s)
    known none e = elim (Bool-cases (str_eq x state)) [
      | inl k ↦ let gone = subst (λ y. lookup y s ≡ none) ((eq_iff x state).0 k) e in ground arith
      | inr k ↦ ground arith
    ]
    known (some ts) e = let rest = lookup-delete state x s in ground arith
