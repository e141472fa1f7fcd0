-- ===== src/Worker/Paging.antt =====
-- The fetching of further pages: expandWalletJournal of isk/worker/wallet.go and expandContracts of
-- isk/worker/contracts.go, which are the same code over two types. Each page is requested by a
-- goroutine of its own, and the answers are taken in the order in which they arrive. Left out is what
-- happens after the first error: the functions return it and close their channels, and a goroutine that
-- has yet to send the answer of another page then panics, which ends the worker.
pub mod Laws
use esi_isk.Base.{
  ℕ, zero, suc, ◌+◌, ◌-◌, String, Bool, List, [], ◌∷◌, ◌++◌, map, Option, none, some, str_eq,
  if◌then◌else◌,
}
use esi_isk.Base.Int.{ℤ, pos, negsuc, pos_part}
use esi_isk.Db.Store.{Result, ok, err, panic, service}
use esi_isk.Worker.Esi.{Pages}

-- n numbers from a first one
abbrev pub count_from : ℕ → ℕ → List ℕ
count_from i zero = []
count_from i (suc n) = i ∷ count_from (i + 1) n

-- the loop over the channels: pages are appended as they arrive, and the first error ends it. This is
-- the result of the function, without the panic of goroutines that send later.
unfoldable pub gather : {A : Type 0} → List (Result (List A)) → List A → Result (List A)
gather [] additional = ok additional
gather (ok entries ∷ rest) additional = gather rest (additional ++ entries)
gather (err e ∷ rest) additional = err e
gather (panic ∷ rest) additional = panic

-- the numbers of the pages behind the first
abbrev pub further : ℤ → List ℕ
further x_pages = count_from 2 (pos_part x_pages - 1)

-- the part behind the reading of X-Pages
unfoldable pub expand_to : {A : Type 0} → Pages A → ℤ → Result (List A)
unfolding gather
expand_to pages x_pages = gather (map pages.page (pages.arrive (further x_pages))) []

-- `strconv.ParseInt(…, 10, 32)` is the parameter
unfoldable pub expand : {A : Type 0} → (String → Option ℤ) → Pages A → Result (List A)
unfolding expand_to
expand parse_int32 pages =
    if str_eq pages.x_pages "" then ok [] else (elim (parse_int32 pages.x_pages) [
      | none ↦ err service
      | some x_pages ↦ expand_to pages x_pages
    ])
