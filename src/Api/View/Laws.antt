-- ===== src/Api/View/Laws.antt =====
-- What the custom view of isk/api/custom.go shows to whom.
use esi_isk.Base.{
  ℕ, suc, ◌≤◌, ◌≡◌, refl, ap, String, Bool, true, false, List, [], ◌∷◌, ◌++◌, none, some, take,
  length, length-take_le, Option-cases, inl, inr, arith,
}
use esi_isk.Base.Int.{pos_part}
use esi_isk.Base.Float.{Float64}
use esi_isk.Db.Types.{CharDetails}
use esi_isk.Db.PrefTypes.{Prefs, Preferences}
use esi_isk.Db.Store.{Db, Result, ok, Action, pure, ◌>>=◌}
use esi_isk.Db.Store.Laws.{>>=-ok}
use esi_isk.Api.Format.{Formats}
use esi_isk.Api.Rows.{RowPattern, get_row_patterns}
use esi_isk.Api.Rows.Bounds.{RowsLe, get_row_patterns-RowsLe}
use esi_isk.Api.View.{Part, header, row, footer, row_parts, write_templates}

-- how many of the parts are rows
abbrev pub count_rows : List Part → ℕ
count_rows [] = 0
count_rows (header s ∷ parts) = count_rows parts
count_rows (row s ∷ parts) = suc (count_rows parts)
count_rows (footer s ∷ parts) = count_rows parts

count_rows-row_parts :
    (rows : List RowPattern) (s : String)
    → count_rows (row_parts rows ++ footer s ∷ []) ≡ length rows
count_rows-row_parts [] s = refl
count_rows-row_parts (r ∷ rows) s = ap suc (count_rows-row_parts rows s)

-- the number of rows that a view asks for: that of the donations' preferences where there are any
abbrev pub rows_asked : {F : Type 0} → Preferences F → ℕ
rows_asked p = elim p.donations [
  | some d ↦ pos_part d.rows
  | none ↦ elim p.contracts [ some k ↦ pos_part k.rows | none ↦ 0 ]
]

abbrev pub has_preferences : {F : Type 0} → Preferences F → Bool
has_preferences p = elim p.donations [
  | some d ↦ true
  | none ↦ elim p.contracts [ some k ↦ true | none ↦ false ]
]

module _ {F : Type 0} ⦃f : Float64 F⦄ (fmt : Formats F)
    (sort_rows : List RowPattern → List RowPattern) (clock : ℕ → ℕ) where
  abbrev pub PageLe : ℕ → Result (List Part) × Db F → Type 0
  PageLe n r = (parts : List Part) × (w : Db F) × (r ≡ (ok parts, w)) × (count_rows parts ≤ n)

  page_of_rows :
      (n : ℕ) (m : Action F (List RowPattern)) (top bottom : String) (w : Db F)
      → RowsLe n (m w)
      → PageLe n ((m >>= λ rows. pure (header top ∷ row_parts rows ++ footer bottom ∷ [])) w)
  page_of_rows n m top bottom w (rows, w₁, e, few) =
      let counted = count_rows-row_parts rows bottom in
      (
        header top ∷ row_parts rows ++ footer bottom ∷ [],
        w₁,
        >>=-ok m (λ rs. pure (header top ∷ row_parts rs ++ footer bottom ∷ [])) w e,
        omega arith,
      )

  -- Where there are preferences for donations, contracts or both, the custom view is written, whatever
  -- calls of the database fail, and has at most as many rows as those for donations ask for, or those
  -- for contracts if there are none for donations.
  pub write_templates-PageLe :
      (c : CharDetails F) (p : Preferences F) (w : Db F)
      → has_preferences p ≡ true
      → PageLe (rows_asked p) (write_templates fmt sort_rows clock c p w)
  unfolding write_templates
  write_templates-PageLe c p w has = elim (Option-cases p.donations) [
    | inl no_d ↦ elim (Option-cases p.contracts) [
      | inl no_c ↦ absurd (ground arith)
      | inr (k, some_c) ↦
          rw (no_d, some_c)
            (page_of_rows (pos_part k.rows) (get_row_patterns fmt clock c k "c") k.header k.footer w
              (get_row_patterns-RowsLe fmt c k clock "c" w))
    ]
    | inr (d, some_d) ↦ elim (Option-cases p.contracts) [
      | inl no_c ↦
          rw (some_d, no_c)
            (page_of_rows (pos_part d.rows) (get_row_patterns fmt clock c d "d") d.header d.footer w
              (get_row_patterns-RowsLe fmt c d clock "d" w))
      | inr (k, some_c) ↦ rw (some_d, some_c) (both d k)
    ]
  ]
    where
      both :
          (d k : Prefs F)
          → PageLe (pos_part d.rows) (
              (get_row_patterns fmt clock c d "d" >>= λ donations.
              (get_row_patterns fmt clock c k "c" >>= λ contracts. pure (
                header d.header
                  ∷ row_parts (take (pos_part d.rows) (sort_rows (donations ++ contracts)))
                ++ footer d.footer ∷ [])))
                w)
      both d k =
          let (ds, w₁, e₁, few₁) = get_row_patterns-RowsLe fmt c d clock "d" w in
          let (ks, w₂, e₂, few₂) = get_row_patterns-RowsLe fmt c k clock "c" w₁ in
          let shown = take (pos_part d.rows) (sort_rows (ds ++ ks)) in
          let counted = count_rows-row_parts shown d.footer in
          let few = length-take_le (pos_part d.rows) (sort_rows (ds ++ ks)) in
          (
            header d.header ∷ row_parts shown ++ footer d.footer ∷ [],
            w₂,
            ground (arith, e₁, e₂),
            omega arith,
          )
