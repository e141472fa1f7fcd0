-- ===== src/Db/Top/Laws.antt =====
-- Which characters the top lists have.
use esi_isk.Base.{
  ℕ, suc, ◌≡◌, ◌⊎◌, inl, inr, refl, sym, ap, subst, ◌∙◌, String, true, List, [], ◌∷◌, Option, none,
  some, keep, take, drop, length, take-drop, take-filled, length-take_le, All, All-drop, ◌++◌, ◌≤◌,
  zero, arith,
}
use mathlib.Core.List.{Perm}
use esi_isk.Base.Float.{Float64}
use esi_isk.Db.Types.{Name, CharacterRow, Character}
use esi_isk.Db.Store.{Db, Error, Result, ok, err, attempt, query}
use esi_isk.Db.Store.Laws.{SameTables, ticked, >>=-ok, query-answered, get-cases}
use esi_isk.Db.Statements.Tables.{find_by}
use esi_isk.Db.Statements.Characters.{stmt_get_name, name_key}
use esi_isk.Db.Names.{get_name}
use esi_isk.Db.Names.Laws.{name_in}
use esi_isk.Db.Top.{
  with_name, name_rows, get_top, stmt_top_received, stmt_top_donated, recipient_of, donator_of,
  get_top_recipients, get_top_donators,
}

module _ {F : Type 0} where
  -- A lookup of a name gives what the table has, or an error.
  get_name-cases :
      (id : ℕ) (w : Db F)
      → (w₁ : Db F) × SameTables w w₁
        × ((get_name id w ≡ (ok (name_in w.names id), w₁))
            ⊎ ((e : Error) × (get_name id w ≡ (err e, w₁))))
  unfolding get_name stmt_get_name
  get_name-cases id w = elim (get-cases (λ (x : Db F). find_by name_key id x.names) w) [
    | inl (n, found, read) ↦ (ticked w, refl, inl (ground arith))
    | inr (e, failed) ↦ (ticked w, refl, inr (e, ground arith))
  ]

  -- The characters that a function makes of some rows.
  abbrev pub made :
      (CharacterRow F → Option (Character F)) → List (CharacterRow F) → List (Character F)
  made transform [] = []
  made transform (row ∷ rows) = elim (transform row) [
    | none ↦ made transform rows
    | some char ↦ char ∷ made transform rows
  ]

  -- The character `c`, with its name from the table or as it was.
  abbrev pub AreNamed : List Name → List (Character F) → List (Character F) → Type 0
  AreNamed ns [] [] = Unit
  AreNamed ns [] (c ∷ cs) = ⊥
  AreNamed ns (b ∷ bs) [] = ⊥
  AreNamed ns (b ∷ bs) (c ∷ cs) =
      ((c ≡ b) ⊎ (c ≡ record b { name = name_in ns b.id })) × AreNamed ns bs cs

  name_rows-AreNamed :
      (transform : CharacterRow F → Option (Character F)) (rows : List (CharacterRow F)) (w : Db F)
      → (chars : List (Character F)) × (w₁ : Db F) × (name_rows transform rows w ≡ (ok chars, w₁))
        × SameTables w w₁
        × AreNamed w.names (made transform rows) chars
  unfolding name_rows
  name_rows-AreNamed transform [] w = ([], w, refl, refl, tt)
  name_rows-AreNamed transform (row ∷ rows) w =
      go (λ w₁. name_rows-AreNamed transform rows w₁) (transform row) refl
    where
      Rest : Type 0
      Rest =
          (w₀ : Db F)
          → (chars : List (Character F)) × (w₁ : Db F) × (name_rows transform rows w₀
              ≡ (ok chars, w₁))
            × SameTables w₀ w₁
            × AreNamed w₀.names (made transform rows) chars

      Listed : List (Character F) → Type 0
      Listed bs =
          (chars : List (Character F)) × (w₁ : Db F) × (name_rows transform (row ∷ rows) w
            ≡ (ok chars, w₁))
          × SameTables w w₁
          × AreNamed w.names bs chars

      next :
          Rest
          → (char : Character F) (r : Result String) (w₁ : Db F) → transform row ≡ some char
          → attempt (get_name char.id) w ≡ (ok r, w₁)
          → SameTables w w₁
          → (with_name char r ≡ char)
            ⊎ (with_name char r ≡ record char { name = name_in w.names char.id })
          → Listed (char ∷ made transform rows)
      next more char r w₁ e looked same is =
          let (chars, w₂, rest, same₂, named) = more w₁ in
          let names : w₁.names ≡ w.names = ap (λ (x : Db F). x.names) same in
          (
            with_name char r ∷ chars,
            w₂,
            ground arith,
            ground arith,
            (is, subst (λ ns. AreNamed ns (made transform rows) chars) names named),
          )

      go :
          Rest
          → (o : Option (Character F)) → transform row ≡ o
          → Listed (made transform (row ∷ rows))
      go more none e =
          let (chars, w₁, rest, same, named) = more w in
          let is : made transform rows ≡ made transform (row ∷ rows) = ground arith in
          subst Listed is (chars, w₁, ground arith, same, named)
      go more (some char) e =
          let (w₁, same, looked) = get_name-cases char.id w in
          let is : char ∷ made transform rows ≡ made transform (row ∷ rows) = ground arith in
          subst Listed is (elim looked [
            | inl read ↦
                next more char (ok (name_in w.names char.id)) w₁ e (ground arith) same (inr refl)
            | inr (x, failed) ↦ next more char (err x) w₁ e (ground arith) same (inl refl)
          ])

  get_top-AreNamed :
      (q : Db F → List (CharacterRow F)) (transform : CharacterRow F → Option (Character F))
      (w : Db F)
      → w.answers w.calls ≡ true
      → (chars : List (Character F)) × (w₁ : Db F) × (get_top (query q) transform w
          ≡ (ok chars, w₁))
        × SameTables w w₁
        × AreNamed w.names (made transform (q (ticked w))) chars
  unfolding get_top
  get_top-AreNamed q transform w up =
      let (chars, w₁, listed, same, named) =
        name_rows-AreNamed transform (q (ticked w)) (ticked w) in
      (
        chars,
        w₁,
        >>=-ok (query q) (name_rows transform) w (query-answered q w up) ∙ listed,
        ground arith,
        named,
      )

module _ {F : Type 0} ⦃f : Float64 F⦄ where
  -- Each row comes before those with no larger value of a column.
  abbrev pub Descends : (CharacterRow F → F) → List (CharacterRow F) → Type 0
  Descends key [] = Unit
  Descends key (c ∷ cs) = All (λ d. f.le (key d) (key c) ≡ true) cs × Descends key cs

  -- What ORDER BY … DESC documents: the same rows, in descending order.
  pub record IsOrderDesc
      (order_desc : (CharacterRow F → F) → List (CharacterRow F) → List (CharacterRow F))
      : Type 0 where
    pub same_rows :
        (key : CharacterRow F → F) (rows : List (CharacterRow F)) → Perm (order_desc key rows) rows
    pub descends :
        (key : CharacterRow F → F) (rows : List (CharacterRow F))
        → Descends key (order_desc key rows)

  take-Descends :
      (key : CharacterRow F → F) (n : ℕ) (rows : List (CharacterRow F))
      → Descends key rows
      → All (λ t. All (λ c. f.le (key c) (key t) ≡ true) (drop n rows)) (take n rows)
  take-Descends key zero rows d = tt
  take-Descends key (suc n) [] d = tt
  take-Descends key (suc n) (r ∷ rows) d =
      (All-drop (λ c. f.le (key c) (key r) ≡ true) n rows d.0, take-Descends key n rows d.1)

  -- A top list: at most six of the characters of good standing, and all of them if there are fewer;
  -- those left out have no more in the column than any of the six. Shown is what a function makes of
  -- each row, with its name from the table, or without a name where the lookup failed.
  pub record IsTop (key : CharacterRow F → F) (transform : CharacterRow F → Option (Character F))
      (w : Db F) (r : Result (List (Character F)) × Db F) : Type 0 where
    pub top : List (CharacterRow F)
    pub rest : List (CharacterRow F)
    pub all_good : Perm (top ++ rest) (keep (λ (c : CharacterRow F). c.good_standing) w.characters)
    pub at_most_six : length top ≤ 6
    pub filled : (rest ≡ []) ⊎ (length top ≡ 6)
    pub best : All (λ t. All (λ c. f.le (key c) (key t) ≡ true) rest) top
    pub chars : List (Character F)
    pub after : Db F
    pub listed : r ≡ (ok chars, after)
    pub same : SameTables w after
    pub named : AreNamed w.names (made transform top) chars

  module _ (order_desc : (CharacterRow F → F) → List (CharacterRow F) → List (CharacterRow F)) where
    get_top-IsTop :
        (key : CharacterRow F → F) (transform : CharacterRow F → Option (Character F)) (w : Db F)
        → IsOrderDesc order_desc
        → w.answers w.calls ≡ true
        → IsTop key transform w (
            get_top
              (query λ x.
                take 6
                  (order_desc key (keep (λ (c : CharacterRow F). c.good_standing) x.characters)))
              transform
              w)
    get_top-IsTop key transform w is up =
        let good = keep (λ (c : CharacterRow F). c.good_standing) w.characters in
        let ordered = order_desc key good in
        let (chars, w₁, listed, same, named) =
          get_top-AreNamed
            (λ x.
              take 6 (order_desc key (keep (λ (c : CharacterRow F). c.good_standing) x.characters)))
            transform w up in
        record {
          top = take 6 ordered;
          rest = drop 6 ordered;
          all_good = subst (λ l. Perm l good) (sym (take-drop 6 ordered)) (is.same_rows key good);
          at_most_six = length-take_le 6 ordered;
          filled = take-filled 6 ordered;
          best = take-Descends key 6 ordered (is.descends key good);
          chars = chars;
          after = w₁;
          listed = listed;
          same = same;
          named = named;
        }

    -- GetTopRecipients and GetTopDonators, where their first call is answered and ORDER BY … DESC gives
    -- the same rows in descending order, succeed and change no table, and give the characters of good
    -- standing that received and donated most in thirty days, six at most, less those of them whose
    -- whole total is not positive, whatever lookups of names fail.
    pub get_top_recipients-IsTop :
        (w : Db F)
        → IsOrderDesc order_desc
        → w.answers w.calls ≡ true
        → IsTop
            (λ c. c.received_isk_30)
            (recipient_of order_desc)
            w
            (get_top_recipients order_desc w)
          × IsTop (λ c. c.donated_isk_30) (donator_of order_desc) w (get_top_donators order_desc w)
    unfolding get_top_recipients get_top_donators stmt_top_received stmt_top_donated
    get_top_recipients-IsTop w is up = (
      get_top-IsTop (λ c. c.received_isk_30) (recipient_of order_desc) w is up,
      get_top-IsTop (λ c. c.donated_isk_30) (donator_of order_desc) w is up,
    )
