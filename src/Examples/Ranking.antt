-- ===== src/Examples/Ranking.antt =====
-- The theorem on the top lists, with an insertion sort as the order of the database.
use mathlib.Core.List.{Perm}
use mathlib.Core.List.Perm
use esi_isk.Base.{
  ◌≡◌, true, false, inl, inr, refl, List, [], ◌∷◌, All, All-imp, if◌then◌else◌, Bool-cases, arith,
}
use esi_isk.Base.Int.{ℤ}
use esi_isk.Db.Types.{CharacterRow}
use esi_isk.Db.Top.{recipient_of, donator_of, get_top_recipients, get_top_donators}
use esi_isk.Db.Top.Laws.{Descends, IsOrderDesc, IsTop, get_top_recipients-IsTop}
use esi_isk.Examples.Cents.{cents}
use esi_isk.Examples.Data.{tables}

le_trans : (x y z : ℤ) → cents.le x y ≡ true → cents.le y z ≡ true → cents.le x z ≡ true
unfolding cents
le_trans x y z h k = ground arith

le_total : (x y : ℤ) → cents.le x y ≡ false → cents.le y x ≡ true
unfolding cents
le_total x y h = ground arith

module _ (key : CharacterRow ℤ → ℤ) where
  unfoldable insert : CharacterRow ℤ → List (CharacterRow ℤ) → List (CharacterRow ℤ)
  insert c [] = c ∷ []
  insert c (d ∷ ds) = if cents.le (key d) (key c) then c ∷ d ∷ ds else d ∷ insert c ds

  unfoldable sort_desc : List (CharacterRow ℤ) → List (CharacterRow ℤ)
  unfolding insert
  sort_desc [] = []
  sort_desc (c ∷ cs) = insert c (sort_desc cs)

  insert-Perm : (c : CharacterRow ℤ) (ds : List (CharacterRow ℤ)) → Perm (insert c ds) (c ∷ ds)
  unfolding insert
  insert-Perm c [] = Perm.rfl
  insert-Perm c (d ∷ ds) = elim (Bool-cases (cents.le (key d) (key c))) [
    | inl e ↦ rw (e, insert) Perm.rfl
    | inr e ↦ rw (e, insert) (Perm.trans (Perm.cons d (insert-Perm c ds)) (Perm.swap c d ds))
  ]

  sort_desc-Perm : (cs : List (CharacterRow ℤ)) → Perm (sort_desc cs) cs
  unfolding sort_desc
  sort_desc-Perm [] = Perm.rfl
  sort_desc-Perm (c ∷ cs) =
      Perm.trans (insert-Perm c (sort_desc cs)) (Perm.cons c (sort_desc-Perm cs))

  insert-All :
      (P : CharacterRow ℤ → Type 0) (c : CharacterRow ℤ) (ds : List (CharacterRow ℤ))
      → P c
      → All P ds
      → All P (insert c ds)
  unfolding insert
  insert-All P c [] p h = (p, tt)
  insert-All P c (d ∷ ds) p h = elim (Bool-cases (cents.le (key d) (key c))) [
    | inl e ↦ rw (e, insert) (p, h)
    | inr e ↦ rw (e, insert) (h.0, insert-All P c ds p h.1)
  ]

  insert-Descends :
      (c : CharacterRow ℤ) (ds : List (CharacterRow ℤ))
      → Descends key ds
      → Descends key (insert c ds)
  unfolding insert
  insert-Descends c [] h = (tt, tt)
  insert-Descends c (d ∷ ds) h = elim (Bool-cases (cents.le (key d) (key c))) [
    | inl e ↦
        rw (e, insert)
          (
            (
              e,
              All-imp (λ x. cents.le (key x) (key d) ≡ true) (λ x. cents.le (key x) (key c) ≡ true)
                  ds (λ x k. le_trans (key x) (key d) (key c) k e) h.0,
            ),
            h,
          )
    | inr e ↦
        rw (e, insert)
          (
            insert-All (λ x. cents.le (key x) (key d) ≡ true) c ds (le_total (key d) (key c) e) h.0,
            insert-Descends c ds h.1,
          )
  ]

  sort_desc-Descends : (cs : List (CharacterRow ℤ)) → Descends key (sort_desc cs)
  unfolding sort_desc
  sort_desc-Descends [] = tt
  sort_desc-Descends (c ∷ cs) = insert-Descends c (sort_desc cs) (sort_desc-Descends cs)

sort_desc-IsOrderDesc : IsOrderDesc sort_desc
sort_desc-IsOrderDesc = record { same_rows = sort_desc-Perm; descends = sort_desc-Descends }

get_top_recipients-IsTop_example :
    IsTop
      (λ c. c.received_isk_30)
      (recipient_of sort_desc)
      tables
      (get_top_recipients sort_desc tables)
    × IsTop
        (λ c. c.donated_isk_30)
        (donator_of sort_desc)
        tables
        (get_top_donators sort_desc tables)
get_top_recipients-IsTop_example =
    get_top_recipients-IsTop sort_desc tables sort_desc-IsOrderDesc refl
