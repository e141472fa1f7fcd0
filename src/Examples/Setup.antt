-- ===== src/Examples/Setup.antt =====
-- The theorems on stored names and on the setup of the owning character, which is 8.
use esi_isk.Base.{ℕ, ◌≡◌, refl, List, [], ◌∷◌, ◌==◌, if◌then◌else◌}
use esi_isk.Base.Int.{ℤ}
use esi_isk.Db.Types.{Name}
use esi_isk.Db.Store.{Db, ok, err, service, query, get, execute}
use esi_isk.Db.Statements.Tables.{find_by}
use esi_isk.Db.Statements.Characters.{name_key, stored_row}
use esi_isk.Db.Names.{save_names}
use esi_isk.Db.Names.Saving.{renamed, all_names}
use esi_isk.Db.Names.Storing.{save_names-renamed}
use esi_isk.Worker.Esi.{Directory}
use esi_isk.Web.{owner_row, initial_setup}
use esi_isk.Web.Laws.{IsSetUp, initial_setup-initial_setup}
use esi_isk.Examples.Cents.{cents}
use esi_isk.Examples.Data.{affiliations, tables, options, name_of}

save_names-renamed_example :
    (rows : List Name) × (k : ℕ) × (save_names affiliations tables
      ≡ (ok tt, record tables { names = rows; calls = k }))
    × ((i : ℕ)
        → find_by name_key i rows
          ≡ renamed (all_names affiliations) i (find_by name_key i tables.names))
save_names-renamed_example = save_names-renamed affiliations tables (λ n. refl)

-- ESI, where character 8 is of the corporation 90, which is in no alliance
abbrev directory : Directory
directory = record {
  universe_names = λ ids. elim ids [
    | [] ↦ err service
    | id ∷ _ ↦ ok (
        record { id = id; name = "N"; category = if id == 8 then "character" else "corporation" }
        ∷ [])
  ];
  corporation_alliance = λ _. ok 0;
  character_corporation = λ _. ok 90;
}

-- a database without any character or name
abbrev unset : Db ℤ
unset = record tables { characters = []; names = [] }

set_up : initial_setup directory options unset ≡ (
  ok tt,
  record unset {
    characters = stored_row (owner_row directory 8) ∷ [];
    names = name_of 8 "N" ∷ name_of 90 "N" ∷ [];
    calls = 6;
  },
)
unfolding initial_setup query get execute
set_up = refl

initial_setup-initial_setup_example :
    let w = record unset {
      characters = stored_row (owner_row directory 8) ∷ [];
      names = name_of 8 "N" ∷ name_of 90 "N" ∷ [];
      calls = 6;
    } in
    IsSetUp directory 8 w
    × (k : ℕ) × (initial_setup directory options w ≡ (ok tt, record w { calls = k }))
initial_setup-initial_setup_example =
    initial_setup-initial_setup directory options unset (λ n. refl) set_up
