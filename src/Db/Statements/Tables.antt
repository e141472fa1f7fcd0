-- ===== src/Db/Statements/Tables.antt =====
-- What the statements have in common: rows that are found, added and changed by a key.
use esi_isk.Base.{
  ℕ, ◌≡◌, refl, ◌≢◌, false, not, List, [], ◌∷◌, ◌++◌, map, Option, none, some, find, keep,
  if◌then◌else◌, arith, ◌==◌,
}
use esi_isk.Db.Types.{NullTime, NullInt64}
use esi_isk.Db.Store.{Result, ok, err, duplicate_key}

module _ {R : Type 0} (key : R → ℕ) where
  -- WHERE key = k LIMIT 1
  abbrev pub find_by : ℕ → List R → Option R
  find_by k rows = find (λ r. key r == k) rows

  -- INSERT of a row, `key` being the primary key
  unfoldable pub insert_by : R → List R → Result (List R)
  insert_by r rows = elim (find_by (key r) rows) [
    | none ↦ ok (rows ++ r ∷ [])
    | some _ ↦ err duplicate_key
  ]

  -- UPDATE … WHERE key = k
  unfoldable pub update_by : ℕ → (R → R) → List R → List R
  update_by k change rows = map (λ r. if key r == k then change r else r) rows

  -- DELETE … WHERE key = k
  unfoldable pub delete_by : ℕ → List R → List R
  delete_by k rows = keep (λ r. not (key r == k)) rows

module _ {R : Type 0} (key : R → ℕ) where
  -- What is found by a key has that key.
  pub key-find_by : (k : ℕ) (rows : List R) (r : R) → find_by key k rows ≡ some r → key r ≡ k
  key-find_by k [] r e = cc
  key-find_by k (x ∷ rows) r e = ground (arith, key-find_by k rows r)

module _ {R : Type 0} (key : R → ℕ) (k : ℕ) (change : R → R) where
  -- After an UPDATE the row of its key is the changed one, where the change keeps the key.
  pub find_by-update_by_self :
      (rows : List R) (r : R)
      → ((x : R) → key (change x) ≡ key x)
      → find_by key k rows ≡ some r
      → find_by key k (update_by key k change rows) ≡ some (change r)
  unfolding update_by
  find_by-update_by_self [] r keeps e = cc
  find_by-update_by_self (x ∷ rows) r keeps e =
      ground (arith, keeps x, find_by-update_by_self rows r keeps)

  -- An UPDATE of one key leaves the rows of the others.
  pub find_by-update_by_ne :
      (j : ℕ) (rows : List R)
      → j ≢ k
      → ((x : R) → key (change x) ≡ key x)
      → find_by key j (update_by key k change rows) ≡ find_by key j rows
  unfolding update_by
  find_by-update_by_ne j [] ne keeps = refl
  find_by-update_by_ne j (x ∷ rows) ne keeps =
      ground (arith, keeps x, find_by-update_by_ne j rows ne keeps)

module _ {R : Type 0} (key : R → ℕ) where
  pub find_by-append_none :
      (k : ℕ) (rows more : List R)
      → find_by key k rows ≡ none
      → find_by key k (rows ++ more) ≡ find_by key k more
  find_by-append_none k [] more e = refl
  find_by-append_none k (x ∷ rows) more e = ground (arith, find_by-append_none k rows more)

  pub find_by-append_some :
      (k : ℕ) (rows more : List R) (r : R)
      → find_by key k rows ≡ some r
      → find_by key k (rows ++ more) ≡ some r
  find_by-append_some k [] more r e = cc
  find_by-append_some k (x ∷ rows) more r e = ground (arith, find_by-append_some k rows more r)

  pub find_by-prefix_none :
      (k : ℕ) (rows more : List R) → find_by key k (rows ++ more) ≡ none → find_by key k rows ≡ none
  find_by-prefix_none k [] more e = refl
  find_by-prefix_none k (x ∷ rows) more e = ground (arith, find_by-prefix_none k rows more)

  -- After a DELETE no row has its key.
  pub find_by-delete_by_self : (k : ℕ) (rows : List R) → find_by key k (delete_by key k rows) ≡ none
  unfolding delete_by
  find_by-delete_by_self k [] = refl
  find_by-delete_by_self k (x ∷ rows) = ground (arith, find_by-delete_by_self k rows)

-- A timestamp column that may be NULL reads back with the zero time if it is.
unfoldable pub stored_time : NullTime → NullTime
stored_time t = if t.valid then t else record { time = 0; valid = false }

unfoldable pub stored_int : NullInt64 → NullInt64
stored_int n = if n.valid then n else record { int64 = 0; valid = false }
