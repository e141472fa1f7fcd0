-- ===== src/Api/Auth.antt =====
-- The states that a login hands out: StateStore of isk/api/auth.go. Every method holds the lock from
-- its first access to its last, so what the goroutines do is a sequence of these steps. Times are in
-- nanoseconds, and the clock is what the caller's `time.Now` returned.
pub mod Store
pub mod Laws
use esi_isk.Base.{
  ℕ, ◌+◌, ◌*◌, String, Bool, true, false, not, List, [], ◌∷◌, Option, none, some, ltb, str_eq, keep,
  if◌then◌else◌,
}

-- a state and when it was issued
pub record Issued : Type 0 where
  pub state : String
  pub ts : ℕ

-- The map `states`, an association list without repeated keys.
abbrev pub StateStore : Type 0
StateStore = List Issued

-- the 300 seconds of stateCutoff
abbrev pub lifetime : ℕ
lifetime = 300 * 1000000000

-- `ts.Before(stateCutoff())` and `ts.After(stateCutoff())`
unfoldable pub before_cutoff : ℕ → ℕ → Bool
before_cutoff now ts = ltb (ts + lifetime) now

unfoldable pub after_cutoff : ℕ → ℕ → Bool
after_cutoff now ts = ltb now (ts + lifetime)

-- `s.states[state]`
unfoldable pub lookup : String → StateStore → Option ℕ
lookup state [] = none
lookup state (i ∷ s) = if str_eq i.state state then some i.ts else lookup state s

-- `delete(s.states, state)`
unfoldable pub delete : String → StateStore → StateStore
delete state s = keep (λ i. not (str_eq i.state state)) s

-- `s.states[state] = ts`
unfoldable pub put : String → ℕ → StateStore → StateStore
put state ts [] = record { state = state; ts = ts } ∷ []
put state ts (i ∷ s) =
    if str_eq i.state state then record { state = state; ts = ts } ∷ s else i ∷ put state ts s

-- the two loops of prune
pub to_prune : ℕ → StateStore → List String
unfolding before_cutoff
to_prune now [] = []
to_prune now (i ∷ s) = if before_cutoff now i.ts then i.state ∷ to_prune now s else to_prune now s

pub delete_all : List String → StateStore → StateStore
unfolding delete
delete_all [] s = s
delete_all (state ∷ states) s = delete_all states (delete state s)

-- prune
unfoldable pub prune : ℕ → StateStore → StateStore
unfolding to_prune delete_all
prune now s = delete_all (to_prune now s) s

-- knownState
unfoldable pub known_state : ℕ → String → StateStore → Bool × StateStore
unfolding lookup delete after_cutoff
known_state now state s = elim (lookup state s) [
  | none ↦ (false, s)
  | some ts ↦ (after_cutoff now ts, delete state s)
]

-- newState: `fresh` is the uuid that was made
unfoldable pub new_state : ℕ → String → StateStore → StateStore
unfolding put
new_state now fresh s = put fresh now s
