-- ===== src/Db/Names/Laws.antt =====
-- Reading names changes no table, does not panic, and finds the names that are in the table.
use esi_isk.Base.{
  ℕ, ◌≡◌, refl, sym, ◌∙◌, String, List, [], ◌∷◌, none, some, All, Option-cases, inl, inr, arith,
}
use esi_isk.Db.Types.{Name}
use esi_isk.Db.Store.{Db, no_rows, ok, err}
use esi_isk.Db.Store.Laws.{
  Reads, Reads-pure, Reads-get, Reads-bind, IsUp, ticked, get-up, >>=-ok, get-up_none, >>=-err,
}
use esi_isk.Db.Store.Calm.{Calm, Calm-pure, Calm-get, Calm-bind, Succeeds}
use esi_isk.Db.Statements.Characters.{stmt_get_name, name_key}
use esi_isk.Db.Statements.Tables.{find_by}
use esi_isk.Db.Names.{NameMap, put, get_name, get_names_into, get_names}

-- the name of an id among the rows of the table
abbrev pub name_in : List Name → ℕ → String
name_in ns id = elim (find_by name_key id ns) [ none ↦ "" | some n ↦ n.name ]

abbrev pub IsNamed : List Name → ℕ → Type 0
IsNamed ns id = (n : Name) × (find_by name_key id ns ≡ some n)

module _ {F : Type 0} where
  Reads-stmt_get_name : (id : ℕ) → Reads {F = F} (stmt_get_name id)
  unfolding stmt_get_name
  Reads-stmt_get_name id = Reads-get _

  pub Reads-get_name : (id : ℕ) → Reads {F = F} (get_name id)
  unfolding get_name
  Reads-get_name id =
      Reads-bind {m = stmt_get_name id} (Reads-stmt_get_name id) (λ n. Reads-pure n.name)

  Reads-get_names_into : (ids : List ℕ) (names : NameMap) → Reads {F = F} (get_names_into ids names)
  unfolding get_names_into
  Reads-get_names_into [] names = Reads-pure names
  Reads-get_names_into (id ∷ ids) names =
      Reads-bind {m = get_name id} (Reads-get_name id)
        (λ name. Reads-get_names_into ids (put id name names))

  pub Reads-get_names : (ids : List ℕ) → Reads {F = F} (get_names ids)
  unfolding get_names
  Reads-get_names ids = Reads-get_names_into ids []

  pub Calm-get_name : (id : ℕ) → Calm {F = F} (get_name id)
  unfolding get_name stmt_get_name
  Calm-get_name id = Calm-bind {m = stmt_get_name id} (Calm-get _) (λ n. Calm-pure n.name)

  Calm-get_names_into : (ids : List ℕ) (names : NameMap) → Calm {F = F} (get_names_into ids names)
  unfolding get_names_into
  Calm-get_names_into [] names = Calm-pure names
  Calm-get_names_into (id ∷ ids) names =
      Calm-bind {m = get_name id} (Calm-get_name id)
        (λ name. Calm-get_names_into ids (put id name names))

  pub Calm-get_names : (ids : List ℕ) → Calm {F = F} (get_names ids)
  unfolding get_names
  Calm-get_names ids = Calm-get_names_into ids []

  -- Names that are in the table are read.
  pub get_name-named :
      (id : ℕ) (w : Db F)
      → IsUp w
      → IsNamed w.names id
      → get_name id w ≡ (ok (name_in w.names id), ticked w)
  unfolding get_name stmt_get_name
  get_name-named id w up (n, e) =
      let read = get-up (λ (x : Db F). find_by name_key id x.names) w up e in ground arith

  get_names_into-Succeeds :
      (ids : List ℕ) (names : NameMap) (w : Db F)
      → IsUp w
      → All (IsNamed w.names) ids
      → Succeeds (get_names_into ids names w)
  unfolding get_names_into
  get_names_into-Succeeds [] names w up known = (names, w, refl)
  get_names_into-Succeeds (id ∷ ids) names w up known =
      let read = get_name-named id w up known.0 in
      let (found, w₁, e) =
        get_names_into-Succeeds ids (put id (name_in w.names id) names) (ticked w) up known.1 in
      (found, w₁, >>=-ok (get_name id) (λ name. get_names_into ids (put id name names)) w read ∙ e)

  pub get_names-Succeeds :
      (ids : List ℕ) (w : Db F) → IsUp w → All (IsNamed w.names) ids → Succeeds (get_names ids w)
  unfolding get_names
  get_names-Succeeds ids w up known = get_names_into-Succeeds ids [] w up known

  pub get_name_missing :
      (id : ℕ) (w : Db F)
      → IsUp w
      → find_by name_key id w.names ≡ none
      → get_name id w ≡ (err no_rows, ticked w)
  unfolding get_name stmt_get_name
  get_name_missing id w up e =
      let read = get-up_none (λ (x : Db F). find_by name_key id x.names) w up e in ground arith

  -- Names that were read are in the table.
  get_names_into-IsNamed :
      (ids : List ℕ) (names : NameMap) (w : Db F) {found : NameMap} {w' : Db F}
      → IsUp w
      → get_names_into ids names w ≡ (ok found, w')
      → All (IsNamed w.names) ids
  unfolding get_names_into
  get_names_into-IsNamed [] names w up h = tt
  get_names_into-IsNamed (id ∷ ids) names w {found} {w'} up h =
      elim (Option-cases (find_by name_key id w.names)) [
        | inl missing ↦
            let read = get_name_missing id w up missing in
            let failed =
              >>=-err (get_name id) (λ name. get_names_into ids (put id name names)) w read in
            absurd (ground arith)
        | inr (n, e) ↦
            let read = get_name-named id w up (n, e) in
            let rest =
              sym (>>=-ok (get_name id) (λ name. get_names_into ids (put id name names)) w read)
              ∙ h in
            (
              (n, e),
              get_names_into-IsNamed ids (put id (name_in w.names id) names) (ticked w) up rest,
            )
      ]

  pub get_names-IsNamed :
      (ids : List ℕ) (w : Db F) {found : NameMap} {w' : Db F}
      → IsUp w
      → get_names ids w ≡ (ok found, w')
      → All (IsNamed w.names) ids
  unfolding get_names
  get_names-IsNamed ids w up h = get_names_into-IsNamed ids [] w up h
