-- ===== src/Db/Names/Saving.antt =====
-- Which names SaveNames collects, and what it finds out about them before it stores any.
use esi_isk.Base.{
  ℕ, ◌≡◌, ◌⊎◌, inl, inr, refl, subst, String, List, [], ◌∷◌, ◌++◌, Option, none, some, ◌==◌,
  if◌then◌else◌, Bool-cases, Option-cases, arith,
}
use esi_isk.Db.Types.{Name, Affiliation}
use esi_isk.Db.Store.{Db, ok}
use esi_isk.Db.Store.Laws.{IsUp, ticked}
use esi_isk.Db.Statements.Tables.{find_by, key-find_by}
use esi_isk.Db.Statements.Characters.{name_key}
use esi_isk.Db.Names.{
  NameMap, add_new, put, collect_names, merge_names, get_names_into, get_names, known_names,
}
use esi_isk.Db.Names.Laws.{get_name_missing, name_in, get_name-named}

-- what a table shows for an id once names were written over it
abbrev pub renamed : List Name → ℕ → Option Name → Option Name
renamed ns i before = elim (find_by name_key i ns) [ none ↦ before | some n ↦ some n ]

-- All the names of some affiliations, in order.
abbrev pub one : Option Name → List Name
one none = []
one (some n) = n ∷ []

abbrev pub all_names : List Affiliation → List Name
all_names [] = []
all_names (a ∷ affs) = one a.character ++ (one a.corporation ++ (one a.alliance ++ all_names affs))

-- No id is repeated.
abbrev pub IsMap : List Name → Type 0
IsMap [] = Unit
IsMap (n ∷ ns) = (find_by name_key n.id ns ≡ none) × IsMap ns

pub find_by-snoc :
    (i : ℕ) (n : Name) (ns : List Name)
    → find_by name_key i (ns ++ n ∷ []) ≡ (elim (find_by name_key i ns) [
      | none ↦ if n.id == i then some n else none
      | some m ↦ some m
    ])
find_by-snoc i n [] = ground arith
find_by-snoc i n (m ∷ ns) = ground (arith, find_by-snoc i n ns)

IsMap-snoc :
    (n : Name) (ns : List Name) → find_by name_key n.id ns ≡ none → IsMap ns → IsMap (ns ++ n ∷ [])
IsMap-snoc n [] e h = (refl, tt)
IsMap-snoc n (m ∷ ns) e h =
    (ground (arith, find_by-snoc m.id n ns), IsMap-snoc n ns (ground arith) h.1)

-- Collecting keeps the first name of each id.
add_new-IsMap : (o : Option Name) (ns : List Name) → IsMap ns → IsMap (add_new o ns)
unfolding add_new
add_new-IsMap none ns h = h
add_new-IsMap (some n) ns h = elim (Option-cases (find_by name_key n.id ns)) [
  | inl e ↦ subst IsMap (ground (arith, e)) (IsMap-snoc n ns e h)
  | inr (m, e) ↦ subst IsMap (ground (arith, e)) h
]

find_by-add_new :
    (i : ℕ) (o : Option Name) (ns : List Name)
    → find_by name_key i (add_new o ns) ≡ renamed ns i (find_by name_key i (one o))
unfolding add_new
find_by-add_new i none ns = ground arith
find_by-add_new i (some n) ns = elim (Option-cases (find_by name_key n.id ns)) [
  | inl e ↦ ground (arith, find_by-snoc i n ns)
  | inr (m, e) ↦ elim (Bool-cases (n.id == i)) [
    | inl is ↦
        let same : n.id ≡ i = ground arith in
        let here = subst (λ j. find_by name_key j ns ≡ some m) same e in ground arith
    | inr other ↦ ground arith
  ]
]

find_by-append :
    (i : ℕ) (xs ys : List Name)
    → find_by name_key i (xs ++ ys) ≡ renamed xs i (find_by name_key i ys)
find_by-append i [] ys = refl
find_by-append i (x ∷ xs) ys = ground (arith, find_by-append i xs ys)

pub collect_names-IsMap :
    (affs : List Affiliation) (ns : NameMap) → IsMap ns → IsMap (collect_names affs ns)
unfolding collect_names
collect_names-IsMap [] ns h = h
collect_names-IsMap (a ∷ affs) ns h =
    collect_names-IsMap affs (add_new a.alliance (add_new a.corporation (add_new a.character ns))) (
      add_new-IsMap a.alliance (add_new a.corporation (add_new a.character ns))
        (add_new-IsMap a.corporation (add_new a.character ns) (add_new-IsMap a.character ns h)))

pub find_by-collect_names :
    (i : ℕ) (affs : List Affiliation) (ns : NameMap)
    → find_by name_key i (collect_names affs ns)
      ≡ renamed ns i (find_by name_key i (all_names affs))
unfolding collect_names
find_by-collect_names i [] ns = ground arith
find_by-collect_names i (a ∷ affs) ns =
    let c₁ = add_new a.character ns in
    let c₂ = add_new a.corporation c₁ in
    ground (
      arith,
      find_by-collect_names i affs (add_new a.alliance c₂),
      find_by-add_new i a.alliance c₂,
      find_by-add_new i a.corporation c₁,
      find_by-add_new i a.character ns,
      find_by-append i (one a.character) (one a.corporation ++ (one a.alliance ++ all_names affs)),
      find_by-append i (one a.corporation) (one a.alliance ++ all_names affs),
      find_by-append i (one a.alliance) (all_names affs),
    )

-- What is known of a name is in the table.
abbrev pub Agrees : List Name → NameMap → Type 0
Agrees table known =
    (i : ℕ)
    → (find_by name_key i known ≡ none) ⊎ (find_by name_key i known ≡ find_by name_key i table)

-- What is known once some names were looked up.
abbrev pub looked_up : List Name → List Name → ℕ → Option Name → Option Name
looked_up table ns i before = elim (find_by name_key i ns) [
  | none ↦ before
  | some _ ↦ find_by name_key i table
]

find_by-put :
    (i id : ℕ) (name : String) (known : NameMap)
    → find_by name_key i (put id name known)
      ≡ (if id == i then some (record { id = id; name = name }) else find_by name_key i known)
unfolding put
find_by-put i id name [] = ground arith
find_by-put i id name (n ∷ known) = ground (arith, find_by-put i id name known)

-- A name from the table is put under the id that it has there.
find_by-put_table :
    (id : ℕ) (row : Name) (i : ℕ) (known table : List Name)
    → find_by name_key id table ≡ some row
    → find_by name_key i (put id (name_in table id) known)
      ≡ (if id == i then find_by name_key i table else find_by name_key i known)
find_by-put_table id row i known table e = elim (Bool-cases (id == i)) [
  | inl is ↦
      let same : id ≡ i = ground arith in
      let row_id = key-find_by name_key id table row e in
      let there = subst (λ j. find_by name_key j table ≡ some row) same e in
      ground (arith, find_by-put i id (name_in table id) known)
  | inr other ↦ ground (arith, find_by-put i id (name_in table id) known)
]

Agrees-put :
    (id : ℕ) (row : Name) (known table : List Name)
    → find_by name_key id table ≡ some row
    → Agrees table known
    → Agrees table (put id (name_in table id) known)
Agrees-put id row known table e agrees i = elim (Bool-cases (id == i)) [
  | inl is ↦ inr (ground (arith, find_by-put_table id row i known table e))
  | inr other ↦ elim (agrees i) [
    | inl none_known ↦ inl (ground (arith, find_by-put_table id row i known table e))
    | inr same ↦ inr (ground (arith, find_by-put_table id row i known table e))
  ]
]

-- One more name was looked up: it is missing from the table, or it was put.
looked_up_missing :
    (n : Name) (ns known known' table : List Name) (i : ℕ)
    → find_by name_key n.id table ≡ none
    → Agrees table known
    → find_by name_key i known' ≡ looked_up table ns i (find_by name_key i known)
    → find_by name_key i known' ≡ looked_up table (n ∷ ns) i (find_by name_key i known)
looked_up_missing n ns known known' table i missing agrees h = elim (Bool-cases (n.id == i)) [
  | inl is ↦
      let same : n.id ≡ i = ground arith in
      let nothing = subst (λ j. find_by name_key j table ≡ none) same missing in
      elim (agrees i) [ inl k ↦ ground arith | inr k ↦ ground arith ]
  | inr other ↦ ground arith
]

looked_up-put :
    (n row : Name) (ns known known' table : List Name) (i : ℕ)
    → find_by name_key n.id table ≡ some row
    → find_by name_key i known'
      ≡ looked_up table ns i (find_by name_key i (put n.id (name_in table n.id) known))
    → find_by name_key i known' ≡ looked_up table (n ∷ ns) i (find_by name_key i known)
looked_up-put n row ns known known' table i e h =
    ground (arith, find_by-put_table n.id row i known table e)

module _ {F : Type 0} where
  pub known_names-looked_up :
      (ns : List Name) (known : NameMap) (w : Db F)
      → IsUp w
      → Agrees w.names known
      → (known' : NameMap) × (n : ℕ) × (known_names ns known w
          ≡ (ok known', record w { calls = n }))
        × ((i : ℕ) → find_by name_key i known' ≡ looked_up w.names ns i (find_by name_key i known))
  unfolding known_names get_names get_names_into merge_names
  known_names-looked_up [] known w up agrees = (known, w.calls, refl, λ i. refl)
  known_names-looked_up (n ∷ ns) known w up agrees =
      elim (Option-cases (find_by name_key n.id w.names)) [
        | inl missing ↦
            let looked = get_name_missing n.id w up missing in
            let (known', k, rest, found) = known_names-looked_up ns known (ticked w) up agrees in
            (
              known',
              k,
              ground arith,
              λ i. looked_up_missing n ns known known' w.names i missing agrees (found i),
            )
        | inr (row, e) ↦
            let looked = get_name-named n.id w up (row, e) in
            let known₁ = put n.id (name_in w.names n.id) known in
            let (known', k, rest, found) =
              known_names-looked_up ns known₁ (ticked w) up
                (Agrees-put n.id row known w.names e agrees) in
            (
              known',
              k,
              ground arith,
              λ i. looked_up-put n row ns known known' w.names i e (found i),
            )
      ]
