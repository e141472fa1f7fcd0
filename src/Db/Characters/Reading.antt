-- ===== src/Db/Characters/Reading.antt =====
-- Reading a character leaves the tables alone, and binding a character gives a row that is empty or
-- read from the table.
use esi_isk.Base.{
  ℕ, ◌≡◌, refl, sym, ap, subst, ◌∙◌, Bool, true, false, List, [], ◌∷◌, Option, none, some, arith,
  inl, inr, Option-cases,
}
use esi_isk.Base.Float.{Float64}
use esi_isk.Db.Types.{Name, Affiliation, CharacterRow, Character}
use esi_isk.Db.Store.{Db, Result, ok, err, panic, pure, attempt, query}
use esi_isk.Db.Store.Laws.{
  Reads, Reads-pure, Reads-fail, Reads-crash, Reads-query, Reads-bind, Reads-attempt, SameTables,
  attempt-eq-ok, >>=-eq-ok,
}
use esi_isk.Db.Statements.Characters.{stmt_char_details, char_key}
use esi_isk.Db.Statements.Tables.{find_by, key-find_by}
use esi_isk.Db.Names.{NameMap, get_names}
use esi_isk.Db.Names.Laws.{Reads-get_names}
use esi_isk.Db.Characters.Rows.{to_character, to_row, empty_row}
use esi_isk.Db.Characters.{
  named, get_affiliation, fill_name, fill_names, get_character_names, get_character, bound_of,
  affiliate, bind_affiliation, bind_with, finish_bound, Bound, positive,
}

module _ {F : Type 0} ⦃f : Float64 F⦄ where
  Reads-stmt_char_details : (id : ℕ) → Reads {F = F} (stmt_char_details id)
  unfolding stmt_char_details
  Reads-stmt_char_details id = Reads-query _

  Reads-get_character_names : (row : CharacterRow F) → Reads (get_character_names row)
  unfolding get_character_names
  Reads-get_character_names row =
      Reads-bind {m = get_names _} (Reads-get_names _) (λ names. Reads-pure _)

  Reads-found : (found : Option (CharacterRow F)) → Reads (named found)
  unfolding named
  Reads-found none = Reads-fail _
  Reads-found (some row) = Reads-get_character_names row

  pub Reads-get_character : (id : ℕ) → Reads {F = F} (get_character id)
  unfolding get_character
  Reads-get_character id =
      Reads-bind {m = stmt_char_details id} (Reads-stmt_char_details id) Reads-found

  to_row-fill_name : (n : Name) (c : Character F) → to_row (fill_name n c) ≡ to_row c
  unfolding fill_name to_row
  to_row-fill_name n c = ground arith

  named-eq-ok :
      (found : Option (CharacterRow F)) (w : Db F) {char : Character F} {w' : Db F}
      → named found w ≡ (ok char, w')
      → (c : CharacterRow F) × (found ≡ some c)
        × (names : NameMap) × (char ≡ fill_names names (to_character c))
  unfolding named get_character_names
  named-eq-ok none w h = absurd (ground arith)
  named-eq-ok (some row) w h =
      let (names, w₁, e, g) =
        >>=-eq-ok (get_names (positive (row.id ∷ row.corporation_id ∷ row.alliance_id ∷ [])))
          (λ names. pure (fill_names names (to_character row))) w h in
      (row, refl, names, ground arith)

  found-eq :
      (id : ℕ) (w : Db F) {found : Option (CharacterRow F)} {w₁ : Db F}
      → stmt_char_details id w ≡ (ok found, w₁)
      → found ≡ find_by char_key id w.characters
  unfolding stmt_char_details query
  found-eq id w h = ground arith

  -- What is read back from the table does not depend on the names.
  to_row-fill_names : (names : NameMap) (c : Character F) → to_row (fill_names names c) ≡ to_row c
  unfolding fill_names
  to_row-fill_names [] c = refl
  to_row-fill_names (n ∷ names) c = to_row-fill_names names (fill_name n c) ∙ to_row-fill_name n c

  -- A character that is read comes from a row of the table.
  get_character-eq-ok :
      (id : ℕ) (w : Db F) {char : Character F} {w' : Db F}
      → get_character id w ≡ (ok char, w')
      → (c : CharacterRow F) × (find_by char_key id w.characters ≡ some c)
        × (to_row char ≡ to_row (to_character c))
  unfolding get_character
  get_character-eq-ok id w h =
      let (found, w₁, e, g) = >>=-eq-ok (stmt_char_details id) named w h in
      let (c, is, names, same) = named-eq-ok found w₁ g in
      (c, sym (found-eq id w e) ∙ is, ap to_row same ∙ to_row-fill_names names (to_character c))

  -- The row that a character is bound to: an empty one, or the row of the table read back.
  abbrev pub Starts : List (CharacterRow F) → Bool → ℕ → CharacterRow F → Type 0
  Starts chars true id b = b ≡ empty_row id
  Starts chars false id b =
      (c : CharacterRow F) × (find_by char_key id chars ≡ some c) × (b ≡ to_row (to_character c))

  -- What bindAffiliation returns: a starting row with the corporation and alliance of the
  -- character's affiliation.
  pub record IsBound (chars : List (CharacterRow F)) (affs : List Affiliation) (id : ℕ)
      (b : Bound F) : Type 0 where
    pub start : CharacterRow F
    pub starts : Starts chars b.is_new id start
    pub aff : Affiliation
    pub corporation : Name
    pub found : get_affiliation id affs ≡ ok aff
    pub has_corporation : aff.corporation ≡ some corporation
    pub is_row : b.row ≡ record start {
      corporation_id = corporation.id;
      alliance_id = elim aff.alliance [ none ↦ start.alliance_id | some a ↦ a.id ];
    }

  Starts-id :
      (chars : List (CharacterRow F)) (is_new : Bool) (id : ℕ) (b : CharacterRow F)
      → Starts chars is_new id b
      → b.id ≡ id
  unfolding to_row to_character empty_row
  Starts-id chars true id b h = ap (λ (c : CharacterRow F). c.id) h
  Starts-id chars false id b (c, found, same) =
      ap (λ (x : CharacterRow F). x.id) same ∙ key-find_by char_key id chars c found

  pub IsBound-id :
      (chars : List (CharacterRow F)) (affs : List Affiliation) (id : ℕ) (b : Bound F)
      → IsBound chars affs id b
      → b.row.id ≡ id
  IsBound-id chars affs id b h =
      ap (λ (x : CharacterRow F). x.id) h.is_row ∙ Starts-id chars b.is_new id h.start h.starts

  bound_of-Starts :
      (id : ℕ) (w w' : Db F) (r : Result (Character F))
      → get_character id w ≡ (r, w')
      → Starts w.characters (bound_of id r).is_new id (bound_of id r).row
  unfolding bound_of
  bound_of-Starts id w w' (ok char) h = get_character-eq-ok id w h
  bound_of-Starts id w w' (err e) h = refl
  bound_of-Starts id w w' panic h = refl

  Reads-bind_with : (id : ℕ) (aff : Affiliation) → Reads {F = F} (bind_with id aff)
  unfolding bind_with
  Reads-bind_with id aff =
      Reads-bind {m = attempt (get_character id)} (Reads-attempt (Reads-get_character id))
        (λ r. Reads-finish r)
    where
      Reads-finish : (r : Result (Character F)) → Reads (finish_bound id aff r)
      Reads-finish r = elim (Option-cases aff.corporation) [
        | inl e ↦ rw (e, finish_bound) Reads-crash
        | inr (c, e) ↦ rw (e, finish_bound) (Reads-pure _)
      ]

  pub finish_bound-eq-ok :
      (id : ℕ) (aff : Affiliation) (r : Result (Character F)) (w : Db F) {b : Bound F} {w' : Db F}
      → finish_bound id aff r w ≡ (ok b, w')
      → (c : Name) × (aff.corporation ≡ some c) × (b ≡ affiliate aff c.id (bound_of id r))
  unfolding finish_bound
  finish_bound-eq-ok id aff r w h = elim (Option-cases aff.corporation) [
    | inl e ↦ absurd (ground arith)
    | inr (c, e) ↦ (c, e, ground arith)
  ]

  bind_with-IsBound :
      (affs : List Affiliation) (id : ℕ) (w : Db F) (aff : Affiliation) {b : Bound F} {w' : Db F}
      → get_affiliation id affs ≡ ok aff
      → bind_with id aff w ≡ (ok b, w')
      → IsBound w.characters affs id b
  unfolding bind_with affiliate
  bind_with-IsBound affs id w aff {b} {w'} found h =
      let (r, w₁, e, g) = >>=-eq-ok (attempt (get_character id)) (finish_bound id aff) w h in
      let (c, has, is) = finish_bound-eq-ok id aff r w₁ g in
      let base = bound_of id r in
      record {
        start = base.row;
        starts =
            subst (λ (n : Bool). Starts w.characters n id base.row) (ground arith)
              (bound_of-Starts id w w₁ r (attempt-eq-ok (get_character id) w e));
        aff = aff;
        corporation = c;
        found = found;
        has_corporation = has;
        is_row = ap (λ (x : Bound F). x.row) is;
      }

  pub bind_with-eq :
      (affs : List Affiliation) (id : ℕ) (w : Db F) {b : Bound F} {w' : Db F}
      → bind_affiliation id affs w ≡ (ok b, w')
      → (aff : Affiliation) × (get_affiliation id affs ≡ ok aff) × (bind_with id aff w ≡ (ok b, w'))
  unfolding bind_affiliation
  bind_with-eq affs id w {b} {w'} h = go (get_affiliation id affs) refl
    where
      go :
          (r : Result Affiliation)
          → get_affiliation id affs ≡ r
          → (aff : Affiliation) × (get_affiliation id affs ≡ ok aff)
            × (bind_with id aff w ≡ (ok b, w'))
      go (ok aff) e = (aff, e, ground arith)
      go (err x) e = absurd (ground arith)
      go panic e = absurd (ground arith)

  pub bind_affiliation-IsBound :
      (affs : List Affiliation) (id : ℕ) (w : Db F) {b : Bound F} {w' : Db F}
      → bind_affiliation id affs w ≡ (ok b, w')
      → IsBound w.characters affs id b × SameTables w w'
  bind_affiliation-IsBound affs id w {b} {w'} h =
      let (aff, found, e) = bind_with-eq affs id w h in
      (bind_with-IsBound affs id w aff found e, ground (arith, (Reads-bind_with id aff).same w))
