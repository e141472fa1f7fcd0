-- ===== src/Api/Prefs/Reading.antt =====
-- What the page of preferences reads: the kinds, the body of a request, and the stored preferences.
use esi_isk.Base.{
  ℕ, ◌≡◌, ◌⊎◌, inl, inr, refl, sym, ap, subst, ◌∙◌, String, Option, none, some, str_eq, eq_iff,
  Bool-cases, Option-cases, arith,
}
use esi_isk.Base.Int.{ℤ}
use esi_isk.Cx.{Options}
use esi_isk.Db.PrefTypes.{Prefs, Preferences, DbPreferences}
use esi_isk.Db.Store.{Db, Result, ok, err, panic, attempt}
use esi_isk.Db.Store.Laws.{
  execute-refused, SameTables, Reads, Reads-pure, Reads-fail, Reads-query, Reads-attempt,
  Reads-bind,
}
use esi_isk.Db.Statements.Preferences.{
  stmt_get_preferences, update_prefs, stmt_set_donation_preferences, stmt_set_contract_preferences,
  stmt_set_combined_preferences,
}
use esi_isk.Db.Preferences.{
  set_preferences, get_preferences as stored_preferences, db_prefs, known_prefs, to_preferences,
  return,
}
use esi_isk.Api.View.{get_pref_type, read_preferences as get_preferences}
use esi_isk.Api.Prefs.{
  Decoder, CacheLib, sane_both, read_multiple_prefs, read_body, passphrase_of,
  drop_custom_api_cache,
}

pub set_preferences-refused :
    {F : Type 0} (id : ℕ) (p : Preferences F) (w : Db F) {r : Result (Unit {0})} {w' : Db F}
    → set_preferences id p w ≡ (r, w')
    → (r ≡ ok tt) ⊎ SameTables w w'
unfolding set_preferences stmt_set_combined_preferences stmt_set_contract_preferences
    stmt_set_donation_preferences update_prefs
set_preferences-refused {F} id p w {r} {w'} h = go p.donations p.contracts h
  where
    go :
        (d c : Option (Prefs F))
        → set_preferences id (record { donations = d; contracts = c }) w ≡ (r, w')
        → (r ≡ ok tt) ⊎ SameTables w w'
    go none none e = inr (ground arith)
    go none (some c) e = execute-refused _ w e
    go (some d) none e = execute-refused _ w e
    go (some d) (some c) e = execute-refused _ w e

-- The three kinds of preferences.
pref_type-cases :
    (t kind : String) → get_pref_type t ≡ some kind → (kind ≡ "d") ⊎ ((kind ≡ "c") ⊎ (kind ≡ "a"))
unfolding get_pref_type
pref_type-cases t kind h = elim (Bool-cases (str_eq t "")) [
  | inl e ↦ inl (ground arith)
  | inr n ↦ elim (Bool-cases (str_eq t "d")) [
    | inl d ↦ inl (sym (same (ground arith)) ∙ (eq_iff t "d").0 d)
    | inr nd ↦ elim (Bool-cases (str_eq t "c")) [
      | inl c ↦ inr (inl (sym (same (ground arith)) ∙ (eq_iff t "c").0 c))
      | inr nc ↦ elim (Bool-cases (str_eq t "a")) [
        | inl a ↦ inr (inr (sym (same (ground arith)) ∙ (eq_iff t "a").0 a))
        | inr na ↦ absurd (ground arith)
      ]
    ]
  ]
]
  where
    same : some t ≡ some kind → t ≡ kind
    same e = ground arith

module _ {F : Type 0} (opts : Options) (decoder : Decoder F) where
  -- Preferences that were read have those whose passphrase the cache needs.
  passphrase_of-read_a :
      {C : Type 0} (lib : CacheLib C) (body : String) (p : Preferences F)
      → read_multiple_prefs opts decoder body ≡ ok p
      → (s : String) × (passphrase_of lib "a" p ≡ ok s)
  unfolding read_multiple_prefs sane_both passphrase_of
  passphrase_of-read_a lib body p h = elim (Option-cases p.donations) [
    | inl e ↦ absurd (ground arith)
    | inr (d, e) ↦ (d.passphrase, ground arith)
  ]

  passphrase_of-read_one :
      {C : Type 0} (lib : CacheLib C) (body : String) (kind : String) (p : Preferences F)
      → (kind ≡ "d") ⊎ (kind ≡ "c")
      → read_body opts decoder body kind ≡ ok p
      → (s : String) × (passphrase_of lib kind p ≡ ok s)
  unfolding read_body passphrase_of
  passphrase_of-read_one lib body kind p (inl is) h = elim (Option-cases p.donations) [
    | inl e ↦ absurd (ground (arith, subst (λ k. read_body opts decoder body k ≡ ok p) is h))
    | inr (d, e) ↦ (d.passphrase, ap (λ k. passphrase_of lib k p) is ∙ ground arith)
  ]
  passphrase_of-read_one lib body kind p (inr is) h = elim (Option-cases p.contracts) [
    | inl e ↦ absurd (ground (arith, subst (λ k. read_body opts decoder body k ≡ ok p) is h))
    | inr (d, e) ↦ (d.passphrase, ap (λ k. passphrase_of lib k p) is ∙ ground arith)
  ]

  pub passphrase_of-read :
      {C : Type 0} (lib : CacheLib C) (t body kind : String) (p : Preferences F)
      → get_pref_type t ≡ some kind
      → read_body opts decoder body kind ≡ ok p
      → (s : String) × (passphrase_of lib kind p ≡ ok s)
  unfolding read_body
  passphrase_of-read lib t body kind p known h = elim (pref_type-cases t kind known) [
    | inl d ↦ passphrase_of-read_one lib body kind p (inl d) h
    | inr (inl c) ↦ passphrase_of-read_one lib body kind p (inr c) h
    | inr (inr a) ↦
        let (s, e) =
          passphrase_of-read_a lib body p (subst (λ k. read_body opts decoder body k ≡ ok p) a h) in
        (s, ap (λ k. passphrase_of lib k p) a ∙ e)
  ]

pub drop_custom_api_cache-ok :
    {F C : Type 0} (lib : CacheLib C) (dec : ℤ → String) (char_id : ℤ) (p : Preferences F)
    (t : String) (cache : C) (s : String)
    → passphrase_of lib t p ≡ ok s
    → (cache' : C) × (drop_custom_api_cache lib dec char_id p t cache ≡ ok cache')
unfolding drop_custom_api_cache
drop_custom_api_cache-ok {F} {C} lib dec char_id p t cache s e =
    go (drop_custom_api_cache lib dec char_id p t cache) refl
  where
    go :
        (q : Result C)
        → drop_custom_api_cache lib dec char_id p t cache ≡ q
        → (cache' : C) × (drop_custom_api_cache lib dec char_id p t cache ≡ ok cache')
    go (ok cache') h = (cache', h)
    go (err x) h = absurd (ground arith)
    go panic h = absurd (ground arith)

-- Preferences are read without changing a table.
pub Reads-get_preferences :
    {F : Type 0} (opts : Options) (t : String) (id : ℕ) → Reads {F = F} (get_preferences opts t id)
unfolding get_preferences stored_preferences db_prefs stmt_get_preferences
Reads-get_preferences opts t id = elim (Option-cases (get_pref_type t)) [
  | inl e ↦ rw (e, get_preferences) (Reads-pure _)
  | inr (kind, e) ↦
      rw (e, get_preferences)
        (Reads-bind {m = attempt (stored_preferences opts kind id)}
          (Reads-attempt
            (Reads-bind {m = db_prefs id} (found id) (λ p. handed (to_preferences opts kind p))))
          (λ r. Reads-pure _))
]
  where
    handed : {F : Type 0} {A : Type 0} (r : Result A) → Reads {F = F} (return r)
    handed r = record { same = λ w. refl }

    known : {F : Type 0} (o : Option (DbPreferences F)) → Reads (known_prefs o)
    known none = Reads-fail _
    known (some p) = Reads-pure _

    found : {F : Type 0} (id : ℕ) → Reads {F = F} (db_prefs id)
    found id = Reads-bind {m = stmt_get_preferences id} (Reads-query _) known
