-- ===== src/Worker/Wallet/Whole.antt =====
-- The whole of saveWalletRun of isk/worker/wallet.go: what a run of new donations leaves in the tables.
use esi_isk.Base.{
  ℕ, ◌≡◌, refl, ◌∙◌, List, [], ◌∷◌, ◌++◌, All, All-imp, Option, none, some, arith, true,
}
use esi_isk.Base.Float.{Float64}
use esi_isk.Db.Types.{Name, Affiliation, Donation, CharacterRow}
use esi_isk.Db.Store.{Db, ok, ◌>>=◌}
use esi_isk.Db.Store.Laws.{IsUp, >>=-ok}
use esi_isk.Db.Statements.Tables.{find_by}
use esi_isk.Db.Statements.Characters.{name_key, char_key}
use esi_isk.Db.Names.{save_names}
use esi_isk.Db.Names.Laws.{IsNamed}
use esi_isk.Db.Names.Saving.{renamed, all_names}
use esi_isk.Db.Names.Storing.{save_names-renamed}
use esi_isk.Db.Characters.{Batch, positive, save_character_donations}
use esi_isk.Db.Characters.Known.{IsNamedRow}
use esi_isk.Db.Characters.Meeting.{IsBatch}
use esi_isk.Db.Characters.Creating.{written}
use esi_isk.Db.Characters.Success.{ResolvesParties}
use esi_isk.Db.Characters.Complete.{save_character_donations-written}
use esi_isk.Worker.Wallet.{save_donations, save_wallet_run}
use esi_isk.Worker.Wallet.Fresh.{IsFresh, save_donations-IsFresh}

-- Storing names leaves no id without a name that had one.
IsNamed-renamed :
    (ns before after : List Name) (i : ℕ)
    → find_by name_key i after ≡ renamed ns i (find_by name_key i before)
    → IsNamed before i
    → IsNamed after i
IsNamed-renamed ns before after i e (n, has) = go (find_by name_key i ns) refl
  where
    go : (o : Option Name) → find_by name_key i ns ≡ o → IsNamed after i
    go none m = (n, ground arith)
    go (some x) m = (x, ground arith)

module _ {F : Type 0} ⦃f : Float64 F⦄ where
  IsNamedRow-renamed :
      (ns before after : List Name) (rows : List (CharacterRow F))
      → ((i : ℕ) → find_by name_key i after ≡ renamed ns i (find_by name_key i before))
      → All (IsNamedRow before) rows
      → All (IsNamedRow after) rows
  IsNamedRow-renamed ns before after rows e named =
      All-imp (IsNamedRow before) (IsNamedRow after) rows
        (λ c h.
          All-imp (IsNamed before) (IsNamed after)
            (positive (c.id ∷ c.corporation_id ∷ c.alliance_id ∷ []))
            (λ i k. IsNamed-renamed ns before after i (e i) k) h)
        named

  -- saveWalletRun on donations of which none is stored and no two have one id, where the database
  -- answers and has the names of its characters, and both parties of each donation have an affiliation
  -- with a corporation: it succeeds, the donations are behind those that were stored, each id of the
  -- affiliations has the first name given for it, every party is found with the row that it was bound
  -- to and all the donations entered, everybody else is as before, and no other table changes.
  pub save_wallet_run-written :
      (ds : List (Donation F)) (affs : List Affiliation) (w : Db F)
      → IsUp w
      → IsFresh w.donations ds
      → All (IsNamedRow w.names) w.characters
      → All (ResolvesParties affs) ds
      → (s : Batch F) × (names : List Name) × (rows : List (CharacterRow F)) × (n : ℕ)
        × (save_wallet_run ds affs w ≡ (
          ok tt,
          record w { donations = w.donations ++ ds; names = names; characters = rows; calls = n },
        ))
        × ((i : ℕ)
            → find_by name_key i names ≡ renamed (all_names affs) i (find_by name_key i w.names))
        × IsBatch w.characters affs ds s
        × ((i : ℕ)
            → find_by char_key i rows
              ≡ written s.updated i (written s.fresh i (find_by char_key i w.characters)))
  unfolding save_wallet_run
  save_wallet_run-written ds affs w up fresh named parties =
      let (k₁, e₁) = save_donations-IsFresh ds w up fresh in
      let w₁ = record w { donations = w.donations ++ ds; calls = k₁ } in
      let (names, k₂, e₂, named_as) = save_names-renamed affs w₁ up in
      let w₂ = record w₁ { names = names; calls = k₂ } in
      let still = IsNamedRow-renamed (all_names affs) w.names names w.characters named_as named in
      let (s, rows, n, e₃, batch, found) =
        save_character_donations-written affs ds w₂ up still parties in
      (
        s,
        names,
        rows,
        n,
        >>=-ok (save_donations ds)
              (λ _. save_names affs >>= λ _. save_character_donations ds affs true) w e₁
            ∙ >>=-ok (save_names affs) (λ _. save_character_donations ds affs true) w₁ e₂
            ∙ e₃,
        named_as,
        batch,
        found,
      )
