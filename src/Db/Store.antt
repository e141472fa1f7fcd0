-- ===== src/Db/Store.antt =====
-- The tables behind isk/db and the calls that reach them: queryNamedResult, getNamedResult and
-- executeNamed of isk/db/utils.go. A call may fail for reasons of its own (the connection, the
-- server): `answers n` says whether the call number `n` is answered, and nothing is assumed of it.
-- A Go function that talks to the database is an `Action`: it returns a value, an error or a panic,
-- and the tables as they are then, since there are no transactions.
pub mod Laws
pub mod Calm
use esi_isk.Base.{ℕ, suc, Bool, List, Option, none, some, if◌then◌else◌}
use esi_isk.Db.Types.{Name, Donation, Item, Contract, CharacterRow, User}
use esi_isk.Db.PrefTypes.{DbPreferences}

pub record Db (F : Type 0) : Type 0 where
  pub characters : List (CharacterRow F)
  pub donations : List (Donation F)
  pub contracts : List (Contract F)
  pub contract_items : List Item
  pub names : List Name
  pub users : List User
  pub preferences : List (DbPreferences F)
  -- the server's NOW()
  pub now : ℕ
  -- how many calls were made, and which are answered
  pub calls : ℕ
  pub answers : ℕ → Bool

-- The errors that the program tells apart, or that a caller reports.
pub data Error : Type 0 where
  unavailable duplicate_key no_rows out_of_range : Error
  character_not_found user_not_found : Error
  failed_characters : List ℕ → Error
  -- `UserError` with its code
  user_error : ℕ → Error
  -- the errors that a handler makes for itself
  not_valid : Error
  -- an error of a service outside the program
  service : Error

pub data Result (A : Type 0) : Type 0 where
  ok : A → Result A
  err : Error → Result A
  panic : Result A

abbrev pub Action : Type 0 → Type 0 → Type 0
Action F A = Db F → Result A × Db F

module _ {F : Type 0} where
  abbrev pub pure : {A : Type 0} → A → Action F A
  pure a w = (ok a, w)

  abbrev pub fail : {A : Type 0} → Error → Action F A
  fail e w = (err e, w)

  -- a nil dereference or a call of `panic`
  abbrev pub crash : {A : Type 0} → Action F A
  crash w = (panic, w)

  infixl 5 ◌>>=◌ ◌>>◌
  abbrev pub ◌>>=◌ : {A B : Type 0} → Action F A → (A → Action F B) → Action F B
  ◌>>=◌ m k w =
      let (r, w') = m w in elim r [ ok a ↦ k a w' | err e ↦ (err e, w') | panic ↦ (panic, w') ]

  abbrev pub ◌>>◌ : {A B : Type 0} → Action F A → Action F B → Action F B
  m >> k = m >>= λ _. k

  -- `a, err := m`, with the error in hand
  abbrev pub attempt : {A : Type 0} → Action F A → Action F (Result A)
  attempt m w =
      let (r, w') = m w in
      elim r [ ok a ↦ (ok (ok a), w') | err e ↦ (ok (err e), w') | panic ↦ (panic, w') ]

  -- One call: it fails if it is not answered, and then changes nothing.
  unfoldable pub call : {A : Type 0} → (Db F → Result A × Db F) → Action F A
  call run w =
      let w' = record w { calls = suc w.calls } in
      if w.answers w.calls then run w' else (err unavailable, w')

  -- a SELECT (queryNamedResult and the scan of its rows)
  unfoldable pub query : {A : Type 0} → (Db F → A) → Action F A
  unfolding call
  query f = call (λ w. (ok (f w), w))

  -- a SELECT of one row (getNamedResult)
  unfoldable pub get : {A : Type 0} → (Db F → Option A) → Action F A
  unfolding call
  get f = call (λ w. (elim (f w) [ none ↦ err no_rows | some a ↦ ok a ], w))

  -- an INSERT, UPDATE or DELETE (executeNamed); an error where a constraint of the table refuses it
  unfoldable pub execute : (Db F → Result (Db F)) → Action F (Unit {0})
  unfolding call
  execute f =
      call (λ w. elim (f w) [ ok w' ↦ (ok tt, w') | err e ↦ (err e, w) | panic ↦ (panic, w) ])
