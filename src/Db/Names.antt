-- ===== src/Db/Names.antt =====
-- isk/db/names.go. A Go map of names is an association list without repeated ids; the order in which
-- `range` visits it, which Go leaves open, is the order of the list.
pub mod Laws
pub mod Saving
pub mod Storing
use esi_isk.Base.{
  ℕ, String, List, [], ◌∷◌, ◌++◌, Option, none, some, find, ◌==◌, str_eq, if◌then◌else◌, map,
}
use esi_isk.Db.Types.{Name, Affiliation}
use esi_isk.Db.Store.{Db, Result, ok, err, panic, Action, pure, ◌>>=◌, ◌>>◌, attempt}
use esi_isk.Db.Statements.Characters.{stmt_get_name, stmt_new_name, stmt_update_name, name_key}
use esi_isk.Db.Statements.Tables.{find_by}

abbrev pub NameMap : Type 0
NameMap = List Name

-- `names[name.ID] = name.Name` where the id is not in the map yet
pub add_new : Option Name → NameMap → NameMap
add_new none names = names
add_new (some n) names = elim (find_by name_key n.id names) [
  | none ↦ names ++ n ∷ []
  | some _ ↦ names
]

-- `names[id] = name`
pub put : ℕ → String → NameMap → NameMap
put id name [] = record { id = id; name = name } ∷ []
put id name (n ∷ names) =
    if n.id == id then record { id = id; name = name } ∷ names else n ∷ put id name names

-- the two loops of SaveNames
unfoldable pub collect_names : List Affiliation → NameMap → NameMap
unfolding add_new
collect_names [] names = names
collect_names (a ∷ affs) names =
    collect_names affs (add_new a.alliance (add_new a.corporation (add_new a.character names)))

-- `for knownID, knownName := range knownNames { known[knownID] = knownName }`
merge_names : NameMap → NameMap → NameMap
unfolding put
merge_names [] known = known
merge_names (n ∷ ns) known = merge_names ns (put n.id n.name known)

module _ {F : Type 0} where
  -- GetName
  unfoldable pub get_name : ℕ → Action F String
  unfolding stmt_get_name
  get_name id = do n ← stmt_get_name id; pure n.name

  -- the loop of GetNames
  get_names_into : List ℕ → NameMap → Action F NameMap
  unfolding get_name put
  get_names_into [] names = pure names
  get_names_into (id ∷ ids) names = do name ← get_name id; get_names_into ids (put id name names)

  -- GetNames
  unfoldable pub get_names : List ℕ → Action F NameMap
  unfolding get_names_into
  get_names ids = get_names_into ids []

  -- newName
  unfoldable pub new_name : ℕ → String → Action F (Unit {0})
  unfolding stmt_new_name
  new_name id name = stmt_new_name id name

  -- updateName
  unfoldable pub update_name : ℕ → String → Action F (Unit {0})
  unfolding stmt_update_name
  update_name id name = stmt_update_name id name

  -- the first loop of saveNames: an error leaves the id out of `known`
  pub known_names : List Name → NameMap → Action F NameMap
  unfolding get_names merge_names
  known_names [] known = pure known
  known_names (n ∷ ns) known = do
    r ← attempt (get_names (n.id ∷ []))
    known_names ns (elim r [ ok found ↦ merge_names found known | err _ ↦ known | panic ↦ known ])

  -- the body of the second loop of saveNames
  pub store_name : NameMap → Name → Action F (Unit {0})
  unfolding new_name update_name
  store_name known n = elim (find_by name_key n.id known) [
    | none ↦ new_name n.id n.name
    | some prev ↦ if str_eq prev.name n.name then pure tt else update_name n.id n.name
  ]

  -- the second loop of saveNames
  pub store_names : NameMap → List Name → Action F (Unit {0})
  unfolding store_name
  store_names known [] = pure tt
  store_names known (n ∷ ns) = do store_name known n; store_names known ns

  -- saveNames
  unfoldable pub save_name_map : NameMap → Action F (Unit {0})
  unfolding known_names store_names
  save_name_map names = do known ← known_names names []; store_names known names

  -- SaveNames
  unfoldable pub save_names : List Affiliation → Action F (Unit {0})
  unfolding save_name_map collect_names
  save_names affiliations = save_name_map (collect_names affiliations [])
