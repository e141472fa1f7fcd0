-- ===== src/Db/Characters/Meeting.antt =====
-- The rows that a batch of donations leaves in memory, and what meeting a character does to them, in
-- SaveCharacterDonations of isk/db/character.go.
use esi_isk.Base.{
  ℕ, ◌+◌, ◌≡◌, refl, sym, ap, ◌∙◌, Bool, true, false, List, [], ◌∷◌, ◌++◌, elem, elem-snoc, elem-ne,
  All, All-append, All-imp, subst, ◌==◌, if◌then◌else◌, arith, Bool-cases, inl, inr,
}
use native.Mathlib.Nat.{add_comm}
use esi_isk.Base.Float.{Float64}
use esi_isk.Db.Types.{Affiliation, Donation, CharacterRow}
use esi_isk.Db.Store.{Db, ok, pure, ◌>>=◌}
use esi_isk.Db.Store.Laws.{SameTables, >>=-eq-ok}
use esi_isk.Db.Totals.{add_to_row}
use esi_isk.Db.Totals.Laws.{add_all}
use esi_isk.Db.Characters.{Bound, Batch, enlist, meet, bind_affiliation}
use esi_isk.Db.Characters.Reading.{IsBound, IsBound-id, bind_affiliation-IsBound}

module _ {F : Type 0} ⦃f : Float64 F⦄ where
  -- how many rows of a list have an id
  abbrev pub occurs : ℕ → List (CharacterRow F) → ℕ
  occurs i [] = 0
  occurs i (c ∷ cs) = (if i == c.id then 1 else 0) + occurs i cs

  occurs-append :
      (i : ℕ) (xs ys : List (CharacterRow F)) → occurs i (xs ++ ys) ≡ occurs i xs + occurs i ys
  occurs-append i [] ys = omega arith
  occurs-append i (x ∷ xs) ys = omega (arith, occurs-append i xs ys)

  -- Both parties of a donation are among the characters that were met.
  abbrev pub IsCovered : List ℕ → Donation F → Type 0
  IsCovered all d = (elem d.donator all ≡ true) × (elem d.recipient all ≡ true)

  -- A row in memory: the row that its character was bound to, with the donations entered.
  pub record IsRow (chars : List (CharacterRow F)) (affs : List Affiliation)
      (ds : List (Donation F)) (is_new : Bool) (r : CharacterRow F) : Type 0 where
    pub bound : CharacterRow F
    pub same_id : r.id ≡ bound.id
    pub is_bound : IsBound chars affs r.id (record { row = bound; is_new = is_new })
    pub entered : r ≡ add_all ds bound

  pub record IsBatch (chars : List (CharacterRow F)) (affs : List Affiliation)
      (ds : List (Donation F)) (s : Batch F) : Type 0 where
    pub covered : All (IsCovered s.all) ds
    pub once : (i : ℕ) → occurs i s.fresh + occurs i s.updated ≡ (if elem i s.all then 1 else 0)
    pub fresh_rows : All (IsRow chars affs ds true) s.fresh
    pub updated_rows : All (IsRow chars affs ds false) s.updated

  pub add_to_row-id : (d : Donation F) (c : CharacterRow F) → (add_to_row d c).id ≡ c.id
  unfolding add_to_row
  add_to_row-id d c = ground arith

  -- Donations between other characters leave a row alone.
  add_to_row_others :
      (all : List ℕ) (d : Donation F) (c : CharacterRow F)
      → IsCovered all d
      → elem c.id all ≡ false
      → add_to_row d c ≡ c
  unfolding add_to_row
  add_to_row_others all d c h e =
      ground (arith, elem-ne c.id d.donator all e h.0, elem-ne c.id d.recipient all e h.1)

  add_all_others :
      (all : List ℕ) (ds : List (Donation F)) (c : CharacterRow F)
      → All (IsCovered all) ds
      → elem c.id all ≡ false
      → add_all ds c ≡ c
  unfolding add_all
  add_all_others all [] c h e = refl
  add_all_others all (d ∷ ds) c h e =
      rw (add_to_row_others all d c h.0 e) (add_all_others all ds c h.1 e)

  pub add_all-snoc :
      (ds : List (Donation F)) (d : Donation F) (c : CharacterRow F)
      → add_all (ds ++ d ∷ []) c ≡ add_to_row d (add_all ds c)
  unfolding add_all
  add_all-snoc [] d c = refl
  add_all-snoc (e ∷ ds) d c = add_all-snoc ds d (add_to_row e c)

  IsCovered-snoc :
      (all : List ℕ) (id : ℕ) (d : Donation F) → IsCovered all d → IsCovered (all ++ id ∷ []) d
  IsCovered-snoc all id d h =
      ground (arith, elem-snoc d.donator id all, elem-snoc d.recipient id all)

  -- A row that was just bound.
  IsRow-bound :
      (chars : List (CharacterRow F)) (affs : List Affiliation) (ds : List (Donation F)) (id : ℕ)
      (all : List ℕ) (b : Bound F)
      → All (IsCovered all) ds
      → elem id all ≡ false
      → IsBound chars affs id b
      → IsRow chars affs ds b.is_new b.row
  IsRow-bound chars affs ds id all b covered e h =
      let same = IsBound-id chars affs id b h in
      record {
        bound = b.row;
        same_id = refl;
        is_bound = subst (λ (i : ℕ). IsBound chars affs i b) (sym same) h;
        entered = sym (add_all_others all ds b.row covered (ap (λ (i : ℕ). elem i all) same ∙ e));
      }

  -- A row for a new id keeps the rows and the ids in step.
  once-snoc :
      (i id : ℕ) (all : List ℕ) (xs ys : List (CharacterRow F)) (r : CharacterRow F)
      → elem id all ≡ false
      → r.id ≡ id
      → occurs i xs + occurs i ys ≡ (if elem i all then 1 else 0)
      → occurs i (xs ++ r ∷ []) + occurs i ys ≡ (if elem i (all ++ id ∷ []) then 1 else 0)
  once-snoc i id all xs ys r e same h =
      ground (arith, occurs-append i xs (r ∷ []), elem-snoc i id all)

  enlist-IsBatch :
      (chars : List (CharacterRow F)) (affs : List Affiliation) (ds : List (Donation F)) (id : ℕ)
      (s : Batch F) (r : CharacterRow F) (is_new : Bool)
      → elem id s.all ≡ false
      → IsBound chars affs id (record { row = r; is_new = is_new })
      → IsBatch chars affs ds s
      → IsBatch chars affs ds (enlist id s (record { row = r; is_new = is_new }))
  unfolding enlist
  enlist-IsBatch chars affs ds id s r true e h inv =
      let same = IsBound-id chars affs id _ h in
      record {
        covered =
            All-imp (IsCovered s.all) (IsCovered (s.all ++ id ∷ [])) ds (IsCovered-snoc s.all id)
              inv.covered;
        once = λ i. once-snoc i id s.all s.fresh s.updated r e same (inv.once i);
        fresh_rows =
            All-append (IsRow chars affs ds true) s.fresh (r ∷ []) inv.fresh_rows
              (IsRow-bound chars affs ds id s.all _ inv.covered e h, tt);
        updated_rows = inv.updated_rows;
      }
  enlist-IsBatch chars affs ds id s r false e h inv =
      let same = IsBound-id chars affs id _ h in
      record {
        covered =
            All-imp (IsCovered s.all) (IsCovered (s.all ++ id ∷ [])) ds (IsCovered-snoc s.all id)
              inv.covered;
        once = λ i.
            add_comm (occurs i s.fresh) (occurs i (s.updated ++ r ∷ []))
            ∙ once-snoc i id s.all s.updated s.fresh r e same
                (add_comm (occurs i s.updated) (occurs i s.fresh) ∙ inv.once i);
        fresh_rows = inv.fresh_rows;
        updated_rows =
            All-append (IsRow chars affs ds false) s.updated (r ∷ []) inv.updated_rows
              (IsRow-bound chars affs ds id s.all _ inv.covered e h, tt);
      }

  enlist-all : (id : ℕ) (s : Batch F) (b : Bound F) → (enlist id s b).all ≡ s.all ++ id ∷ []
  unfolding enlist
  enlist-all id s b = ground arith

  -- What one character's turn does: the batch stays right, and the character is in it.
  pub record IsMet (chars : List (CharacterRow F)) (affs : List Affiliation)
      (ds : List (Donation F)) (id : ℕ) (s s' : Batch F) : Type 0 where
    pub batch : IsBatch chars affs ds s'
    pub here : elem id s'.all ≡ true
    pub still : (i : ℕ) → elem i s.all ≡ true → elem i s'.all ≡ true

  enlist-IsMet :
      (chars : List (CharacterRow F)) (affs : List Affiliation) (ds : List (Donation F)) (id : ℕ)
      (s : Batch F) (b : Bound F)
      → elem id s.all ≡ false
      → IsBound chars affs id b
      → IsBatch chars affs ds s
      → IsMet chars affs ds id s (enlist id s b)
  enlist-IsMet chars affs ds id s b e h inv = record {
    batch = enlist-IsBatch chars affs ds id s b.row b.is_new e h inv;
    here = rw (enlist-all id s b) (ground (arith, elem-snoc id id s.all));
    still = λ i k. rw (enlist-all id s b) (ground (arith, elem-snoc i id s.all));
  }

  pub meet_new :
      (affs : List Affiliation) (id : ℕ) (s : Batch F) (w : Db F)
      → elem id s.all ≡ false
      → meet affs id s w ≡ (bind_affiliation id affs >>= λ b. pure (enlist id s b)) w
  unfolding meet
  meet_new affs id s w new = rw new

  pub meet-IsMet :
      (affs : List Affiliation) (ds : List (Donation F)) (id : ℕ) (s : Batch F) (w : Db F)
      {s' : Batch F} {w' : Db F}
      → meet affs id s w ≡ (ok s', w')
      → IsBatch w.characters affs ds s
      → IsMet w.characters affs ds id s s' × SameTables w w'
  unfolding meet
  meet-IsMet affs ds id s w {s'} {w'} h inv = elim (Bool-cases (elem id s.all)) [
    | inl known ↦
        let same : s ≡ s' = ground arith in
        (
          subst (IsMet w.characters affs ds id s) same
              (record { batch = inv; here = known; still = λ i k. k }),
          ground arith,
        )
    | inr new ↦
        let (b, w₁, e, g) =
          >>=-eq-ok (bind_affiliation id affs) (λ b. pure (enlist id s b)) w
            (sym (meet_new affs id s w new) ∙ h) in
        let (bound, same) = bind_affiliation-IsBound affs id w e in
        let is : enlist id s b ≡ s' = ground arith in
        (
          subst (IsMet w.characters affs ds id s) is
              (enlist-IsMet w.characters affs ds id s b new bound inv),
          ground arith,
        )
  ]
