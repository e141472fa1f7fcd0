-- ===== src/Api/Rows/Laws.antt =====
-- Which rows the custom view shows: getRowPatterns of isk/api/custom.go against a description of the
-- view on lists.
use esi_isk.Base.{
  ℕ, zero, suc, ◌≡◌, refl, sym, subst, Bool, true, false, not, List, [], ◌∷◌, inl, inr, length,
  take, take_while, keep, All, map, Bool-cases, arith,
}
use esi_isk.Base.Int.{ℤ, pos_part}
use esi_isk.Base.Float.{Float64}
use esi_isk.Db.Types.{Name, Donation, Contract, CharDetails}
use esi_isk.Db.PrefTypes.{Prefs}
use esi_isk.Db.Store.{Db, not_valid, ok, err}
use esi_isk.Db.Store.Laws.{IsUp, ticked}
use esi_isk.Db.Names.{get_name}
use esi_isk.Db.Names.Laws.{IsNamed, name_in, get_name-named}
use esi_isk.Api.Format.{Formats, donation_text, contract_text}
use esi_isk.Api.Rows.{
  RowPattern, Next, too_old, row_loop, get_valid_donation, get_valid_contract, next_donation,
  next_contract, get_donation_row, get_contract_row, donation_row, contract_row, get_row_patterns,
}

-- What a view of `rows` rows shows of a list: the entries that pass, up to the first one that is too
-- old.
abbrev pub view : {A : Type 0} → (A → Bool) → (A → ℕ) → ℕ → ℤ → ℕ → List A → List A
view passes time now max_age rows xs =
    take rows (take_while (λ x. not (too_old now max_age (time x))) (keep passes xs))

-- The loop, for any type of entry.
module _ {F A : Type 0} (passes : A → Bool) (row : A → RowPattern) (P : A → Type 0)
    (Ready : Db F → Type 0) (next : Next F A) where
  record IsNext : Type 0 where
    pub stop : (w : Db F) → next [] w ≡ (err not_valid, w)
    pub skip : (x : A) (xs : List A) → passes x ≡ false → next (x ∷ xs) ≡ next xs
    pub step :
        (x : A) (xs : List A) (w : Db F)
        → passes x ≡ true
        → P x
        → Ready w
        → next (x ∷ xs) w ≡ (ok (row x, xs), ticked w)
    pub ready : (w : Db F) → Ready w → Ready (ticked w)

  row_loop-eq :
      IsNext
      → (now : ℕ) (max_age : ℤ) (rows : ℕ) (xs : List A) (w : Db F) → All P xs
      → Ready w
      → (row_loop next max_age (λ _. now) rows xs w).0
        ≡ ok (map row (view passes (λ x. (row x).ts) now max_age rows xs))
  unfolding row_loop
  row_loop-eq n now max_age zero xs w p r = refl
  row_loop-eq n now max_age (suc rows) [] w p r = let e = n.stop w in ground arith
  row_loop-eq n now max_age (suc rows) (x ∷ xs) w p r = elim (Bool-cases (passes x)) [
    | inl e ↦ elim (Bool-cases (too_old now max_age (row x).ts)) [
      | inl o ↦ let here = n.step x xs w e p.0 r in ground arith
      | inr o ↦
          let rest = row_loop-eq n now max_age rows xs (ticked w) p.1 (n.ready w r) in
          let here = n.step x xs w e p.0 r in ground (arith, rest)
    ]
    | inr e ↦
        let rest = row_loop-eq n now max_age (suc rows) xs w p.1 r in
        let here = n.skip x xs e in ground (arith, rest)
  ]

-- The two kinds of rows.
module _ {F : Type 0} ⦃f : Float64 F⦄ (fmt : Formats F) (c : CharDetails F) (p : Prefs F)
    (ns : List Name) where
  open f use {le}

  abbrev pub IsKnown : ℕ → Type 0
  IsKnown id = IsNamed ns id

  abbrev Serves : Db F → Type 0
  Serves w = IsUp w × (w.names ≡ ns)

  get_name-eq :
      (id : ℕ) (w : Db F) → IsKnown id → Serves w → get_name id w ≡ (ok (name_in ns id), ticked w)
  get_name-eq id w known (up, names) =
      subst (λ (l : List Name). get_name id w ≡ (ok (name_in l id), ticked w)) names
        (get_name-named id w up (subst (λ (l : List Name). IsNamed l id) (sym names) known))

  -- the row of a donation
  abbrev pub shown_donation : Donation F → RowPattern
  shown_donation d = record {
    str =
        donation_text fmt c.character.name (name_in ns d.donator) d.note d.amount d.timestamp
          p.pattern;
    ts = d.timestamp;
  }

  abbrev pub shown_contract : Contract F → RowPattern
  shown_contract k = record {
    str =
        contract_text fmt c.character.name (name_in ns k.donator) k.note (length k.items) k.value
          k.issued p.pattern;
    ts = k.issued;
  }

  next_donation-IsNext :
      IsNext
        (λ d. le p.minimum d.amount)
        shown_donation
        (λ d. IsKnown d.donator)
        Serves
        (next_donation fmt c p)
  unfolding next_donation get_valid_donation donation_row get_donation_row
  next_donation-IsNext = record {
    stop = λ w. refl;
    skip = λ d ds e. ground arith;
    step = λ d ds w e k s. let named = get_name-eq d.donator w k s in ground arith;
    ready = λ w s. s;
  }

  next_contract-IsNext :
      IsNext
        (λ k. le p.minimum k.value)
        shown_contract
        (λ k. IsKnown k.donator)
        Serves
        (next_contract fmt c p)
  unfolding next_contract get_valid_contract contract_row get_contract_row
  next_contract-IsNext = record {
    stop = λ w. refl;
    skip = λ k ks e. ground arith;
    step = λ k ks w e known s. let named = get_name-eq k.donator w known s in ground arith;
    ready = λ w s. s;
  }

  -- With the database answering, every giver's name known and a clock that stands still, getRowPatterns
  -- for "d" shows the text of the donations of at least the minimum, in their order, up to the first one
  -- that is older than the maximal age, and at most as many as the preferences ask for; for "c" the
  -- same of the contracts by their value.
  pub get_row_patterns-eq :
      (now : ℕ) (w : Db F)
      → IsUp w
      → w.names ≡ ns
      → All (λ d. IsKnown d.donator) c.donations
      → All (λ k. IsKnown k.donator) c.contracts
      → ((get_row_patterns fmt (λ _. now) c p "d" w).0
          ≡ ok (
              map shown_donation (
                view
                  (λ d. le p.minimum d.amount)
                  (λ d. d.timestamp)
                  now
                  p.max_age
                  (pos_part p.rows)
                  c.donations)))
        × ((get_row_patterns fmt (λ _. now) c p "c" w).0
            ≡ ok (
                map shown_contract (
                  view
                    (λ k. le p.minimum k.value)
                    (λ k. k.issued)
                    now
                    p.max_age
                    (pos_part p.rows)
                    c.contracts)))
  unfolding get_row_patterns
  get_row_patterns-eq now w up names known_d known_c = (
    row_loop-eq (λ d. le p.minimum d.amount) shown_donation (λ d. IsKnown d.donator) Serves
        (next_donation fmt c p) next_donation-IsNext now p.max_age (pos_part p.rows) c.donations w
        known_d (up, names),
    row_loop-eq (λ k. le p.minimum k.value) shown_contract (λ k. IsKnown k.donator) Serves
        (next_contract fmt c p) next_contract-IsNext now p.max_age (pos_part p.rows) c.contracts w
        known_c (up, names),
  )
