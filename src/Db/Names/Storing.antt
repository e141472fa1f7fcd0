-- ===== src/Db/Names/Storing.antt =====
-- What SaveNames leaves in the table of names.
use esi_isk.Base.{
  ℕ, suc, ◌≡◌, ◌⊎◌, inl, inr, refl, subst, ◌∙◌, true, List, [], ◌∷◌, ◌++◌, none, some, ◌==◌, str_eq,
  eq_iff, if◌then◌else◌, Bool-cases, Option-cases, arith,
}
use esi_isk.Db.Types.{Name, Affiliation}
use esi_isk.Db.Store.{Db, ok}
use esi_isk.Db.Store.Laws.{IsUp, ticked, execute-up_ok, >>=-ok}
use esi_isk.Db.Statements.Tables.{
  find_by, key-find_by, insert_by, update_by, find_by-update_by_self, find_by-update_by_ne,
}
use esi_isk.Db.Statements.Characters.{name_key, stmt_new_name, stmt_update_name}
use esi_isk.Db.Names.{
  NameMap, collect_names, new_name, update_name, known_names, store_name, store_names,
  save_name_map, save_names,
}
use esi_isk.Db.Names.Saving.{
  renamed, all_names, IsMap, find_by-snoc, collect_names-IsMap, find_by-collect_names,
  known_names-looked_up,
}

-- The table after one name was stored.
abbrev Stored : Name → List Name → List Name → Type 0
Stored n table table' =
    (i : ℕ) → find_by name_key i table' ≡ (if n.id == i then some n else find_by name_key i table)

abbrev rename : Name → List Name → List Name
rename n table = update_by name_key n.id (λ old. record old { name = n.name }) table

rename-Stored :
    (n prev : Name) (table : List Name)
    → find_by name_key n.id table ≡ some prev
    → Stored n table (rename n table)
rename-Stored n prev table e i = elim (Bool-cases (n.id == i)) [
  | inl is ↦
      let same : n.id ≡ i = ground arith in
      let prev_id = key-find_by name_key n.id table prev e in
      let self =
        find_by-update_by_self name_key n.id (λ old. record old { name = n.name }) table prev
          (λ x. refl) e in
      let here =
        subst (λ j. find_by name_key j (rename n table) ≡ some (record prev { name = n.name })) same
          self in
      ground arith
  | inr other ↦
      find_by-update_by_ne name_key n.id (λ old. record old { name = n.name }) i table
        (λ same. absurd (ground arith)) (λ x. refl)
      ∙ ground arith
]

kept-Stored :
    (n prev : Name) (table : List Name)
    → find_by name_key n.id table ≡ some prev
    → str_eq prev.name n.name ≡ true
    → Stored n table table
kept-Stored n prev table e is_same i = elim (Bool-cases (n.id == i)) [
  | inl is ↦
      let same : n.id ≡ i = ground arith in
      let prev_id = key-find_by name_key n.id table prev e in
      let name = (eq_iff prev.name n.name).0 is_same in
      let here = subst (λ j. find_by name_key j table ≡ some prev) same e in ground arith
  | inr other ↦ ground arith
]

-- What is known of the names to store is what the table has.
abbrev Fits : List Name → NameMap → List Name → Type 0
Fits table known ns =
    (i : ℕ) → (find_by name_key i ns ≡ none) ⊎ (find_by name_key i known ≡ find_by name_key i table)

Fits-Stored :
    (n : Name) (ns known table table' : List Name)
    → find_by name_key n.id ns ≡ none
    → Fits table known (n ∷ ns)
    → Stored n table table'
    → Fits table' known ns
Fits-Stored n ns known table table' alone fits stored i = elim (Bool-cases (n.id == i)) [
  | inl is ↦
      let same : n.id ≡ i = ground arith in
      inl (subst (λ j. find_by name_key j ns ≡ none) same alone)
  | inr other ↦ elim (fits i) [
    | inl no_name ↦ inl (ground arith)
    | inr known_i ↦ inr (ground (arith, stored i))
  ]
]

renamed-Stored :
    (n : Name) (ns table table' : List Name) (i : ℕ)
    → find_by name_key n.id ns ≡ none
    → Stored n table table'
    → renamed ns i (find_by name_key i table') ≡ renamed (n ∷ ns) i (find_by name_key i table)
renamed-Stored n ns table table' i alone stored = elim (Bool-cases (n.id == i)) [
  | inl is ↦
      let same : n.id ≡ i = ground arith in
      let gone = subst (λ j. find_by name_key j ns ≡ none) same alone in ground (arith, stored i)
  | inr other ↦ ground (arith, stored i)
]

module _ {F : Type 0} where
  new_name-eq :
      (n : Name) (w : Db F)
      → IsUp w
      → find_by name_key n.id w.names ≡ none
      → new_name n.id n.name w ≡ (ok tt, record (ticked w) { names = w.names ++ n ∷ [] })
  unfolding new_name stmt_new_name insert_by
  new_name-eq n w up e = execute-up_ok _ w up (ground arith)

  update_name-eq :
      (n : Name) (w : Db F)
      → IsUp w
      → update_name n.id n.name w ≡ (ok tt, record (ticked w) { names = rename n w.names })
  unfolding update_name stmt_update_name
  update_name-eq n w up = execute-up_ok _ w up refl

  store_name-Stored :
      (known : NameMap) (n : Name) (w : Db F)
      → IsUp w
      → find_by name_key n.id known ≡ find_by name_key n.id w.names
      → (rows : List Name) × (k : ℕ) × (store_name known n w
          ≡ (ok tt, record w { names = rows; calls = k }))
        × Stored n w.names rows
  unfolding store_name
  store_name-Stored known n w up agrees = elim (Option-cases (find_by name_key n.id w.names)) [
    | inl missing ↦
        let added = new_name-eq n w up missing in
        (
          w.names ++ n ∷ [],
          suc w.calls,
          ground arith,
          λ i. ground (arith, find_by-snoc i n w.names),
        )
    | inr (prev, e) ↦ elim (Bool-cases (str_eq prev.name n.name)) [
      | inl same ↦ (w.names, w.calls, ground arith, kept-Stored n prev w.names e same)
      | inr changed ↦
          let updated = update_name-eq n w up in
          (rename n w.names, suc w.calls, ground arith, rename-Stored n prev w.names e)
    ]
  ]

  store_names-renamed :
      (known ns : List Name) (w : Db F)
      → IsUp w
      → IsMap ns
      → Fits w.names known ns
      → (rows : List Name) × (k : ℕ) × (store_names known ns w
          ≡ (ok tt, record w { names = rows; calls = k }))
        × ((i : ℕ) → find_by name_key i rows ≡ renamed ns i (find_by name_key i w.names))
  unfolding store_names
  store_names-renamed known [] w up unique fits = (w.names, w.calls, refl, λ i. refl)
  store_names-renamed known (n ∷ ns) w up unique fits =
      let first : find_by name_key n.id known ≡ find_by name_key n.id w.names = elim (fits n.id) [
        | inl no_name ↦ absurd (ground arith)
        | inr is ↦ is
      ] in
      let (rows₁, k₁, e₁, stored) = store_name-Stored known n w up first in
      let w₁ = record w { names = rows₁; calls = k₁ } in
      let (rows, k, e, found) =
        store_names-renamed known ns w₁ up unique.1
          (Fits-Stored n ns known w.names rows₁ unique.0 fits stored) in
      (
        rows,
        k,
        >>=-ok (store_name known n) (λ _. store_names known ns) w e₁ ∙ e,
        λ i. found i ∙ renamed-Stored n ns w.names rows₁ i unique.0 stored,
      )

  -- SaveNames on a database that answers succeeds and changes nothing but the table of names, where
  -- afterwards each id of the affiliations is found with the first name that they give for it, and any
  -- other id as before.
  pub save_names-renamed :
      (affs : List Affiliation) (w : Db F)
      → IsUp w
      → (rows : List Name) × (k : ℕ) × (save_names affs w
          ≡ (ok tt, record w { names = rows; calls = k }))
        × ((i : ℕ)
            → find_by name_key i rows ≡ renamed (all_names affs) i (find_by name_key i w.names))
  unfolding save_names save_name_map
  save_names-renamed affs w up =
      let ns = collect_names affs [] in
      let (known, k₁, e₁, looked) = known_names-looked_up ns [] w up (λ i. inl refl) in
      let fits : Fits w.names known ns = λ i. elim (Option-cases (find_by name_key i ns)) [
        | inl missing ↦ inl missing
        | inr (n, has) ↦ inr (ground (arith, looked i))
      ] in
      let (rows, k, e, found) =
        store_names-renamed known ns (record w { calls = k₁ }) up (collect_names-IsMap affs [] tt)
          fits in
      (
        rows,
        k,
        >>=-ok (known_names ns []) (λ m. store_names m ns) w e₁ ∙ e,
        λ i. found i ∙ ground (arith, find_by-collect_names i affs []),
      )
