-- ===== src/Examples/Whole.antt =====
-- The theorem on a whole run of the wallet at the gifts, of which none is stored.
use esi_isk.Base.{ℕ, ◌≡◌, refl, List, ◌++◌, []}
use esi_isk.Base.Int.{ℤ}
use esi_isk.Db.Types.{Name, CharacterRow}
use esi_isk.Db.Store.{Db, ok}
use esi_isk.Db.Statements.Tables.{find_by}
use esi_isk.Db.Statements.Characters.{name_key, char_key}
use esi_isk.Db.Names.Saving.{renamed, all_names}
use esi_isk.Db.Characters.{Batch}
use esi_isk.Db.Characters.Meeting.{IsBatch}
use esi_isk.Db.Characters.Creating.{written}
use esi_isk.Worker.Wallet.{save_wallet_run}
use esi_isk.Worker.Wallet.Whole.{save_wallet_run-written}
use esi_isk.Examples.Cents.{cents}
use esi_isk.Examples.Data.{gifts, affiliations, tables}
use esi_isk.Examples.Saving.{names_of_8}
use esi_isk.Examples.Totals.{seven, eight}

abbrev no_gifts : Db ℤ
no_gifts = record tables { donations = [] }

save_wallet_run-written_example :
    (s : Batch ℤ) × (names : List Name) × (rows : List (CharacterRow ℤ)) × (n : ℕ)
    × (save_wallet_run gifts affiliations no_gifts ≡ (
      ok tt,
      record no_gifts {
        donations = no_gifts.donations ++ gifts;
        names = names;
        characters = rows;
        calls = n;
      },
    ))
    × ((i : ℕ)
        → find_by name_key i names
          ≡ renamed (all_names affiliations) i (find_by name_key i no_gifts.names))
    × IsBatch no_gifts.characters affiliations gifts s
    × ((i : ℕ)
        → find_by char_key i rows
          ≡ written s.updated i (written s.fresh i (find_by char_key i no_gifts.characters)))
save_wallet_run-written_example =
    save_wallet_run-written gifts affiliations no_gifts (λ n. refl) (refl, (refl, tt))
      (names_of_8, tt) ((seven, eight), ((eight, seven), tt))
