-- ===== src/Web.antt =====
-- isk/web.go: the origins that the server allows, and the setup of the owning character when it starts.
pub mod Laws
use Prim.Native.String.{◌++◌}
use esi_isk.Base.{
  ℕ, String, Bool, true, false, ◌&&◌, List, [], ◌∷◌, Option, none, some, ltb, ◌==◌, str_eq,
  if◌then◌else◌,
}
use esi_isk.Base.Int.{ℤ}
use esi_isk.Base.Float.{Float64}
use esi_isk.Cx.{Options}
use esi_isk.Db.Types.{Name, Affiliation, Character, CharacterRow}
use esi_isk.Db.Store.{
  Error, not_valid, Result, ok, err, panic, Action, pure, fail, crash, ◌>>=◌, ◌>>◌, attempt,
}
use esi_isk.Db.Names.{save_names}
use esi_isk.Db.Characters.{get_character, new_character}
use esi_isk.Db.Characters.Rows.{empty_row}
use esi_isk.Worker.Esi.{EsiName, Directory}
use esi_isk.Worker.Names.{resolve_character, resolve_corporation}

-- getAllowed; `dec` prints a number
unfoldable pub get_allowed : (ℤ → String) → Options → List String
get_allowed dec opts =
    let proto = if opts.https then "https" else "http" in
    ((proto ++ "://") ++ opts.hostname)
    ∷ ((proto ++ "://") ++ (opts.hostname ++ (":" ++ dec opts.port)))
    ∷ []

-- the loop of InitialSetup over the answers of ESI; "" where no character has the id
unfoldable pub owner_name : ℕ → List EsiName → String
owner_name id [] = ""
owner_name id (n ∷ ns) =
    if str_eq n.category "character" && n.id == id then n.name else owner_name id ns

module _ (esi : Directory) where
  -- the affiliation of the owning character
  unfoldable pub owner_affiliation : ℕ → String → Affiliation
  unfolding resolve_character resolve_corporation
  owner_affiliation id name =
      let corp = resolve_character esi id in
      let alliance = resolve_corporation esi corp.id in
      record {
        character = some (record { id = id; name = name });
        corporation = some corp;
        alliance = if ltb 0 alliance.id then some alliance else none;
      }

module _ {F : Type 0} ⦃f : Float64 F⦄ (esi : Directory) where
  -- the row of the owning character
  unfoldable pub owner_row : ℕ → CharacterRow F
  unfolding empty_row resolve_character resolve_corporation
  owner_row id =
      let corp = resolve_character esi id in
      record (empty_row id) {
        corporation_id = corp.id;
        alliance_id = (resolve_corporation esi corp.id).id;
        good_standing = true;
      }

  pub create_owner : ℕ → String → Action F (Unit {0})
  unfolding save_names new_character owner_affiliation owner_row
  create_owner id name =
      if str_eq name ""
      then fail not_valid
      else (do save_names (owner_affiliation esi id name ∷ []); new_character (owner_row id))

  -- the rest of InitialSetup, with what GetCharacter returned
  pub setup_with : ℕ → Result (Character F) → Action F (Unit {0})
  unfolding owner_name create_owner
  setup_with id (ok _) = pure tt
  setup_with id panic = crash
  setup_with id (err _) = elim (esi.universe_names (id ∷ [])) [
    | ok names ↦ create_owner id (owner_name id names)
    | err e ↦ fail e
    | panic ↦ crash
  ]

  -- InitialSetup. worker.Context, which connects to ESI and ends the process where it cannot, is left out.
  unfoldable pub initial_setup : Options → Action F (Unit {0})
  unfolding get_character setup_with
  initial_setup opts = do
    r ← attempt (get_character opts.character_id)
    setup_with opts.character_id r
