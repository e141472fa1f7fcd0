-- ===== src/Api/Prefs/Laws.antt =====
-- What the page of preferences does to the tables.
use esi_isk.Base.{ℕ, zero, suc, ◌≡◌, ◌≤◌, ◌⊎◌, inl, inr, refl, String, some, Option-cases, arith}
use esi_isk.Base.Int.{ℤ, pos, negsuc, pos_part}
use esi_isk.Cx.{Options}
use esi_isk.Db.PrefTypes.{Preferences}
use esi_isk.Db.Store.{Db, Result, ok, err, panic, pure, ◌>>=◌}
use esi_isk.Db.Store.Laws.{SameTables, Reads, Reads-pure, Reads-crash, Reads-bind}
use esi_isk.Db.Preferences.{set_preferences}
use esi_isk.Api.View.{get_pref_type, read_preferences as get_preferences}
use esi_isk.Api.Answer.{Answer, Printer}
use esi_isk.Api.Prefs.{
  Method, method_get, method_post, other_method, SessionValue, missing, int32, unexpected, Request,
  Decoder, CacheLib, read_body, no_content, show_preferences, write_preferences, stored,
  update_with, update_preferences, with_character, with_session, preferences,
}
use esi_isk.Api.Prefs.Reading.{
  set_preferences-refused, passphrase_of-read, drop_custom_api_cache-ok, Reads-get_preferences,
}

module _ {F C : Type 0} (opts : Options) (decoder : Decoder F) (printer : Printer F)
    (lib : CacheLib C) (dec : ℤ → String) (now : ℕ) where
  -- A request stored preferences: a logged-in character posted them, they were read and are sane, the
  -- statement succeeded, and nothing more happened to the tables.
  pub record Stores (r : Request) (w w' : Db F) (res : Result (Answer × C)) : Type 0 where
    pub id : ℕ
    pub id_pos : 1 ≤ id
    pub posts : r.method ≡ method_post
    pub logged_in : r.session ≡ int32 (pos id)
    pub kind : String
    pub is_kind : get_pref_type r.t ≡ some kind
    pub prefs : Preferences F
    pub read : read_body opts decoder r.body kind ≡ ok prefs
    pub saved : set_preferences id prefs w ≡ (ok tt, w')
    pub cache' : C
    pub answered : res ≡ ok (no_content, cache')

  update_with-eq :
      (t kind body : String) (id : ℕ) (cache : C) (p : Preferences F) (w : Db F)
      {res : Result (Answer × C)} {w' : Db F}
      → get_pref_type t ≡ some kind
      → read_body opts decoder body kind ≡ ok p
      → update_with opts decoder printer lib dec now (pos id) kind cache (ok p) w ≡ (res, w')
      → SameTables w w'
        ⊎ ((set_preferences id p w ≡ (ok tt, w')) × (cache' : C) × (res ≡ ok (no_content, cache')))
  unfolding update_with stored
  update_with-eq t kind body id cache p w {res} {w'} known read h = go (set_preferences id p w) refl
    where
      go :
          (q : Result (Unit {0}) × Db F)
          → set_preferences id p w ≡ q
          → SameTables w w'
            ⊎ ((set_preferences id p w ≡ (ok tt, w'))
                × (cache' : C) × (res ≡ ok (no_content, cache')))
      go (ok u, w₁) e =
          let (s, has) = passphrase_of-read opts decoder lib t body kind p known read in
          let (cache', dropped) = drop_custom_api_cache-ok lib dec (pos id) p kind cache s has in
          inr (ground arith, cache', ground arith)
      go (err x, w₁) e = elim (set_preferences-refused id p w e) [
        | inl well ↦ absurd (ground arith)
        | inr same ↦ inl (ground arith)
      ]
      go (panic, w₁) e = elim (set_preferences-refused id p w e) [
        | inl well ↦ absurd (ground arith)
        | inr same ↦ inl (ground arith)
      ]

  shown-Reads :
      (found : Result (Preferences F) × ℕ)
      → Reads (show_preferences opts decoder printer lib dec now found)
  unfolding show_preferences
  shown-Reads (ok p, s) = Reads-pure _
  shown-Reads (err x, s) = Reads-pure _
  shown-Reads (panic, s) = Reads-crash

  Reads-write_preferences :
      (t : String) (char_id : ℤ) (cache : C)
      → Reads {A = Answer × C}
          (write_preferences opts decoder printer lib dec now t char_id >>= λ a. pure (a, cache))
  unfolding write_preferences
  Reads-write_preferences t char_id cache =
      Reads-bind
        {m = get_preferences opts t (pos_part char_id)
          >>= show_preferences opts decoder printer lib dec now}
        (Reads-bind {m = get_preferences opts t (pos_part char_id)}
          (Reads-get_preferences opts t (pos_part char_id)) shown-Reads)
        (λ a. Reads-pure (a, cache))

  update_preferences-Stores :
      (r : Request) (id : ℕ) (cache : C) (w : Db F) {res : Result (Answer × C)} {w' : Db F}
      → 1 ≤ id
      → r.method ≡ method_post
      → r.session ≡ int32 (pos id)
      → update_preferences opts decoder printer lib dec now r.t r.body (pos id) cache w ≡ (res, w')
      → SameTables w w' ⊎ Stores r w w' res
  unfolding update_preferences update_with
  update_preferences-Stores r id cache w {res} {w'} id_pos posts logged_in h =
      elim (Option-cases (get_pref_type r.t)) [
        | inl e ↦ inl (ground arith)
        | inr (kind, e) ↦ go kind e (read_body opts decoder r.body kind) refl
      ]
    where
      go :
          (kind : String)
          → get_pref_type r.t ≡ some kind
          → (q : Result (Preferences F)) → read_body opts decoder r.body kind ≡ q
          → SameTables w w' ⊎ Stores r w w' res
      go kind e (err x) read = inl (ground arith)
      go kind e panic read = inl (ground arith)
      go kind e (ok p) read =
          let updated : update_with opts decoder printer lib dec now (pos id) kind cache (ok p) w
              ≡ (res, w') =
            ground arith in
          elim (update_with-eq r.t kind r.body id cache p w e read updated) [
            | inl same ↦ inl same
            | inr (saved, cache', answered) ↦ inr (record {
              id = id;
              id_pos = id_pos;
              posts = posts;
              logged_in = logged_in;
              kind = kind;
              is_kind = e;
              prefs = p;
              read = read;
              saved = saved;
              cache' = cache';
              answered = answered;
            })
          ]

  -- A request to the page of preferences changes no table, whatever it is, what calls of the database
  -- fail and how it ends, unless a logged-in character posted preferences that can be read and are
  -- sane: then their one statement is all that happens to the tables, and the answer is 204.
  pub preferences-Stores :
      (r : Request) (cache : C) (w : Db F) {res : Result (Answer × C)} {w' : Db F}
      → preferences opts decoder printer lib dec now r cache w ≡ (res, w')
      → SameTables w w' ⊎ Stores r w w' res
  unfolding preferences with_session with_character
  preferences-Stores r cache w {res} {w'} h = go r.method r.session refl refl
    where
      read_only :
          (char_id : ℤ)
          → (write_preferences opts decoder printer lib dec now r.t char_id >>= λ a.
                pure (a, cache))
              w
            ≡ (res, w')
          → SameTables w w'
      read_only char_id e = ground (arith, (Reads-write_preferences r.t char_id cache).same w)

      go :
          (m : Method) (s : SessionValue)
          → r.method ≡ m
          → r.session ≡ s
          → SameTables w w' ⊎ Stores r w w' res
      go other_method s em es = inl (ground arith)
      go method_get missing em es = inl (ground arith)
      go method_post missing em es = inl (ground arith)
      go method_get unexpected em es = inl (ground arith)
      go method_post unexpected em es = inl (ground arith)
      go method_get (int32 (negsuc n)) em es = inl (ground arith)
      go method_post (int32 (negsuc n)) em es = inl (ground arith)
      go method_get (int32 (pos zero)) em es = inl (ground arith)
      go method_post (int32 (pos zero)) em es = inl (ground arith)
      go method_get (int32 (pos (suc n))) em es = inl (read_only (pos (suc n)) (ground arith))
      go method_post (int32 (pos (suc n))) em es =
          update_preferences-Stores r (suc n) cache w (ground arith) em es (ground arith)
