-- ===== src/Worker/Process/Laws.antt =====
-- What a round of the worker in isk/worker/esi.go does, and where it breaks off.
use esi_isk.Base.{
  ℕ, ◌+◌, ◌≡◌, ◌≤◌, refl, subst, ap, ◌∙◌, true, false, ◌||◌, List, [], ◌∷◌, ◌++◌, elem, elem-snoc,
  ◌==◌, if◌then◌else◌, Bool-cases, inl, inr, arith, Bool, String, ◌⊎◌, ◌≢◌,
}
use esi_isk.Base.Float.{Float64}
use esi_isk.Db.Types.{User}
use esi_isk.Db.Store.{Db, Error, service, Result, ok, err, panic, Action, ◌>>=◌, attempt}
use esi_isk.Db.Store.Laws.{>>=-ok}
use esi_isk.Db.Users.{get_users_to_process}
use esi_isk.Db.Users.Laws.{str_ne}
use esi_isk.Worker.Contracts.Laws.{count}
use esi_isk.Worker.Process.{
  Services, add_processed, check_token, get_character_token, pull_character, processed_with,
  process_each, process_found, process_users,
}

count-snoc :
    (i j : ℕ) (l : List ℕ) → count i (l ++ j ∷ []) ≡ (if j == i then 1 + count i l else count i l)
count-snoc i j [] = ground arith
count-snoc i j (k ∷ l) = ground (arith, count-snoc i j l)

count_absent : (i : ℕ) (l : List ℕ) → elem i l ≡ false → count i l ≡ 0
count_absent i [] h = refl
count_absent i (j ∷ l) h = ground (arith, count_absent i l)

-- The ids of one more user are added to the processed ones without repetition: if no id was there
-- twice, none is, and the ids are then those that were there and those of the user.
pub add_processed-elem :
    (processed ids : List ℕ)
    → ((i : ℕ) → count i processed ≤ 1)
    → (i : ℕ)
    → (count i (add_processed processed ids) ≤ 1)
      × (elem i (add_processed processed ids) ≡ elem i processed || elem i ids)
unfolding add_processed
add_processed-elem processed [] h i = (h i, ground arith)
add_processed-elem processed (id ∷ ids) h i = elim (Bool-cases (elem id processed)) [
  | inl e ↦
      let rest = add_processed-elem processed ids h i in
      elim (Bool-cases (i == id)) [
        | inl same ↦
            let at : i ≡ id = ground arith in
            let there = ap (λ (j : ℕ). elem j processed) at ∙ e in ground arith
        | inr other ↦ ground arith
      ]
  | inr e ↦
      let once : ((j : ℕ) → count j (processed ++ id ∷ []) ≤ 1) = λ j.
        (let snoc = count-snoc j id processed in
          elim (Bool-cases (id == j)) [
            | inl same ↦
                let at : id ≡ j = ground arith in
                let absent =
                  count_absent j processed (subst (λ (k : ℕ). elem k processed ≡ false) at e) in
                ground arith
            | inr other ↦ ground (arith, h j)
          ]) in
      let rest = add_processed-elem (processed ++ id ∷ []) ids once i in
      let snoc = elem-snoc i id processed in ground arith
]

module _ {F : Type 0} ⦃f : Float64 F⦄ (sv : Services F) where
  -- There is no token for the user: it cannot be refreshed or verified, or it is of another character
  -- or owner.
  abbrev pub LacksToken : User → Type 0
  LacksToken user =
      ((e : Error) × (sv.verify user ≡ err e))
      ⊎ ((id : ℕ) × (owner : String) × (sv.verify user ≡ ok (id, owner))
          × ((id ≢ user.character_id) ⊎ (owner ≢ user.owner_hash)))

  get_character_token-LacksToken :
      (user : User) → LacksToken user → (e : Error) × (get_character_token sv user ≡ err e)
  unfolding get_character_token check_token
  get_character_token-LacksToken user (inl (e, failed)) = (e, rw failed refl)
  get_character_token-LacksToken user (inr (id, owner, other, inl differs)) =
      (service, rw other (ground (arith, differs)))
  get_character_token-LacksToken user (inr (id, owner, other, inr differs)) =
      let no = str_ne owner user.owner_hash differs in (service, rw other (ground (arith, no)))

  attempt-lost :
      {A B : Type 0} (m : Action F A) (k k' : Result A → Action F B) (w : Db F)
      → ((r : Result A) (w₁ : Db F) → k r w₁ ≡ (panic, (k' r w₁).1))
      → (attempt m >>= k) w ≡ (panic, ((attempt m >>= k') w).1)
  attempt-lost {A} {B} m k k' w h = go (m w) refl
    where
      go : (p : Result A × Db F) → m w ≡ p → (attempt m >>= k) w ≡ (panic, ((attempt m >>= k') w).1)
      go (ok a, w₁) at = let lost = h (ok a) w₁ in ground (arith, at, lost)
      go (err x, w₁) at = let lost = h (err x) w₁ in ground (arith, at, lost)
      go (panic, w₁) at = ground (arith, at)

  -- The two loops, one of which ends before the other is lost, after their first user.
  process_each_lost-cons :
      (u : User) (us rest : List User) (processed : List ℕ) (w : Db F)
      → ((has_ctx : Bool) (ids : List ℕ) (w₁ : Db F)
          → process_each sv has_ctx rest ids w₁ ≡ (panic, (process_each sv has_ctx us ids w₁).1))
      → process_each sv true (u ∷ rest) processed w
        ≡ (panic, (process_each sv true (u ∷ us) processed w).1)
  unfolding process_each
  process_each_lost-cons u us rest processed w next = go (get_character_token sv u) refl
    where
      go :
          (r : Result (Unit {0}))
          → get_character_token sv u ≡ r
          → process_each sv true (u ∷ rest) processed w
            ≡ (panic, (process_each sv true (u ∷ us) processed w).1)
      go (ok _) token = rw token (
          attempt-lost (pull_character sv u)
            (λ r. process_each sv true rest (processed_with sv processed r))
            (λ r. process_each sv true us (processed_with sv processed r)) w
            (λ r. next true (processed_with sv processed r)))
      go (err x) token = rw token (next false processed w)
      go panic token = rw token refl

  process_each_lost_context :
      (before : List User) (user next : User) (users : List User) (has_ctx : Bool)
      (processed : List ℕ) (w : Db F) (e : Error)
      → get_character_token sv user ≡ err e
      → process_each sv has_ctx (before ++ user ∷ next ∷ users) processed w
        ≡ (panic, (process_each sv has_ctx before processed w).1)
  unfolding process_each
  process_each_lost_context [] user next users false processed w e failed = refl
  process_each_lost_context [] user next users true processed w e failed = rw failed refl
  process_each_lost_context (u ∷ us) user next users false processed w e failed = refl
  process_each_lost_context (u ∷ us) user next users true processed w e failed =
      process_each_lost-cons u us (us ++ user ∷ next ∷ users) processed w
        (λ has_ctx ids w₁. process_each_lost_context us user next users has_ctx ids w₁ e failed)

  -- If there is no token for a user that GetUsersToProcess finds, and another user follows it, then
  -- processUsers panics, whatever the database and the services answer, and the tables are those that
  -- the loop over the users before it leaves.
  pub process_users_lost_context :
      (before : List User) (user next : User) (users : List User) (w w₁ : Db F)
      → get_users_to_process w ≡ (ok (before ++ user ∷ next ∷ users), w₁)
      → LacksToken user
      → process_users sv w ≡ (panic, (process_each sv true before [] w₁).1)
  unfolding process_users process_found
  process_users_lost_context before user next users w w₁ found lacks =
      let (e, failed) = get_character_token-LacksToken user lacks in
      >>=-ok (attempt get_users_to_process) (process_found sv) w
        {a = ok (before ++ user ∷ next ∷ users)} {w₁ = w₁} (ground (arith, found))
      ∙ process_each_lost_context before user next users true [] w₁ e failed
