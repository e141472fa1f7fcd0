-- ===== src/Worker/Paging/Laws.antt =====
-- The order in which the pages arrive matters neither to what is gathered nor to whether an error
-- ends the fetching.
use mathlib.Core.List.{Perm, Permᴰ, perm_append_comm}
use mathlib.Core.List.Perm
use mathlib.Core.Logic.{∥∥₁_elim}
use esi_isk.Base.{
  ◌≡◌, sym, ap, subst, subst₂, ◌∙◌, List, [], ◌∷◌, ◌++◌, map, All, append_assoc, append-nil,
}
use esi_isk.Db.Store.{Result, ok, err, panic}
use esi_isk.Base.Int.{ℤ}
use esi_isk.Worker.Esi.{Pages}
use esi_isk.Worker.Paging.{gather, further, expand_to}

module _ {A : Type 0} where
  -- the entries of a page, none where it failed
  abbrev pub entries_of : Result (List A) → List A
  entries_of (ok xs) = xs
  entries_of _ = []

  abbrev pub all_entries : List (Result (List A)) → List A
  all_entries [] = []
  all_entries (r ∷ rs) = entries_of r ++ all_entries rs

  abbrev pub IsOk : Result (List A) → Type 0
  IsOk (ok _) = Unit
  IsOk _ = ⊥

  gather_ok :
      (rs : List (Result (List A))) (acc : List A)
      → All IsOk rs
      → gather rs acc ≡ ok (acc ++ all_entries rs)
  unfolding gather
  gather_ok [] acc h = ap ok (sym (append-nil acc))
  gather_ok (ok xs ∷ rs) acc h =
      gather_ok rs (acc ++ xs) h.1 ∙ ap ok (append_assoc acc xs (all_entries rs))
  gather_ok (err e ∷ rs) acc h = absurd h.0
  gather_ok (panic ∷ rs) acc h = absurd h.0

  gather-eq-ok :
      (rs : List (Result (List A))) (acc : List A) {xs : List A}
      → gather rs acc ≡ ok xs
      → All IsOk rs
  unfolding gather
  gather-eq-ok [] acc e = tt
  gather-eq-ok (ok ys ∷ rs) acc e = (tt, gather-eq-ok rs (acc ++ ys) e)
  gather-eq-ok (err x ∷ rs) acc e = cc
  gather-eq-ok (panic ∷ rs) acc e = cc

  swap_front : (xs ys zs : List A) → Perm (xs ++ (ys ++ zs)) (ys ++ (xs ++ zs))
  swap_front xs ys zs =
      subst₂ Perm (append_assoc xs ys zs) (append_assoc ys xs zs)
        (Perm.append (perm_append_comm xs ys) Perm.rfl)

  all_entries-permᴰ :
      {rs qs : List (Result (List A))} → Permᴰ rs qs → Perm (all_entries rs) (all_entries qs)
  all_entries-permᴰ Permᴰ.nil = Perm.rfl
  all_entries-permᴰ (Permᴰ.cons {a = a} {b = b} {l₁ = l} e p) =
      Perm.append (subst (λ x. Perm (entries_of a) (entries_of x)) e Perm.rfl) (all_entries-permᴰ p)
  all_entries-permᴰ (Permᴰ.swap {a = a} {b = b} {l = l} e h) =
      subst₂
        (λ x y.
          Perm (entries_of a ++ (entries_of b ++ all_entries l))
            (entries_of x ++ (entries_of y ++ all_entries l)))
        h e (swap_front (entries_of a) (entries_of b) (all_entries l))
  all_entries-permᴰ (Permᴰ.trans p q) = Perm.trans (all_entries-permᴰ p) (all_entries-permᴰ q)

  pub all_entries-perm :
      {rs qs : List (Result (List A))} → Perm rs qs → Perm (all_entries rs) (all_entries qs)
  all_entries-perm p = ∥∥₁_elim p squash₁ all_entries-permᴰ

  -- Fetching the further pages succeeds exactly when every page that arrives is in order, and then
  -- gives the entries of all further pages up to their order, whatever the order of arrival, which
  -- is some order of the pages that were asked for.
  pub expand_to-perm :
      (pages : Pages A) (x_pages : ℤ)
      → Perm (pages.arrive (further x_pages)) (further x_pages)
      → let arrived = map pages.page (pages.arrive (further x_pages)) in
        (All IsOk arrived
          → (xs : List A) × (expand_to pages x_pages ≡ ok xs)
            × Perm xs (all_entries (map pages.page (further x_pages))))
        × ((xs : List A) → expand_to pages x_pages ≡ ok xs → All IsOk arrived)
  unfolding expand_to
  expand_to-perm pages x_pages p = (
    λ all. (
      all_entries (map pages.page (pages.arrive (further x_pages))),
      gather_ok (map pages.page (pages.arrive (further x_pages))) [] all,
      all_entries-perm (Perm.map pages.page p),
    ),
    λ xs e. gather-eq-ok _ [] e,
  )
