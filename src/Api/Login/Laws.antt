-- ===== src/Api/Login/Laws.antt =====
-- What a callback of the login server may do.
use esi_isk.Base.{
  ℕ, ◌≡◌, ◌≤◌, ◌⊎◌, inl, inr, refl, sym, ap, ◌∙◌, String, Bool, true, false, List, ◌∷◌, none, some,
  All, eq_iff, if◌then◌else◌, arith,
}
use esi_isk.Base.Float.{Float64}
use esi_isk.Cx.{Options}
use esi_isk.Db.Types.{User}
use esi_isk.Db.Store.{Db, Result, ok, err, panic}
use esi_isk.Db.Users.{save_user}
use esi_isk.Api.Answer.{Answer, write}
use esi_isk.Api.Auth.{StateStore, lookup, known_state}
use esi_isk.Api.Auth.Store.{lookup-known_state}
use esi_isk.Api.Auth.Laws.{Event, time_of, after, pending, accepted, known_state-after}
use esi_isk.Api.Login.{
  Token, LoginLib, Login, user_from_token, signed_in, with_user, with_token, with_state, callback,
}

-- A state that is not in the store is not known.
known_state_missing :
    (now : ℕ) (state : String) (s : StateStore)
    → lookup state s ≡ none
    → known_state now state s ≡ (false, s)
unfolding known_state
known_state_missing now state s e = ground arith

module _ {F : Type 0} ⦃f : Float64 F⦄ (opts : Options) (lib : LoginLib) where
  -- A callback signed a user in: the login server vouched for the user, the tables are as SaveUser
  -- leaves them, and the session has the user's character exactly if SaveUser succeeded.
  pub record Signs (code : String) (l l' : Login F) (res : Result Answer) : Type 0 where
    pub token : Token
    pub user : User
    pub exchanged : lib.exchange code ≡ ok token
    pub vouched : user_from_token lib token ≡ ok user
    pub tables : l'.tables ≡ (save_user user l.tables).1
    pub char :
        l'.char ≡ (elim (save_user user l.tables).0 [ ok _ ↦ some user.character_id | _ ↦ l.char ])

  -- The tables and the session are as before.
  abbrev pub Unsigned : Login F → Login F → Type 0
  Unsigned l l' = (l'.tables ≡ l.tables) × (l'.char ≡ l.char)

  with_token-Signs :
      (code : String) (l : Login F) {res : Result Answer} {l' : Login F}
      → with_token opts lib (lib.exchange code) l ≡ (res, l')
      → (l'.store ≡ l.store) × (Unsigned l l' ⊎ Signs code l l' res)
  unfolding with_token with_user signed_in
  with_token-Signs code l {res} {l'} h = go (lib.exchange code) refl
    where
      signs :
          (token : Token) (user : User)
          → lib.exchange code ≡ ok token
          → user_from_token lib token ≡ ok user
          → (p : Result (Unit {0}) × Db F) → save_user user l.tables ≡ p
          → ((l'.store ≡ l.store) × (l'.tables ≡ (save_user user l.tables).1))
            × (l'.char
                ≡ (elim (save_user user l.tables).0 [ ok _ ↦ some user.character_id | _ ↦ l.char ]))
      signs token user e v (ok u, w) s = ground arith
      signs token user e v (err x, w) s = ground arith
      signs token user e v (panic, w) s = ground arith

      known :
          (token : Token)
          → lib.exchange code ≡ ok token
          → (r : Result User) → user_from_token lib token ≡ r
          → (l'.store ≡ l.store) × (Unsigned l l' ⊎ Signs code l l' res)
      known token e (ok user) v =
          let ((store, tables), char) = signs token user e v (save_user user l.tables) refl in
          (
            store,
            inr (record {
              token = token;
              user = user;
              exchanged = e;
              vouched = v;
              tables = tables;
              char = char;
            }),
          )
      known token e (err x) v = (ground arith, inl (ground arith, ground arith))
      known token e panic v = (ground arith, inl (ground arith, ground arith))

      go :
          (r : Result Token)
          → lib.exchange code ≡ r
          → (l'.store ≡ l.store) × (Unsigned l l' ⊎ Signs code l l' res)
      go (ok token) e = known token e (user_from_token lib token) refl
      go (err x) e = (ground arith, inl (ground arith, ground arith))
      go panic e = (ground arith, inl (ground arith, ground arith))

  with_state-Signs :
      (p : Bool × StateStore) (code : String) (l : Login F) {res : Result Answer} {l' : Login F}
      → with_state opts lib p code l ≡ (res, l')
      → (l'.store ≡ p.1)
        × (Unsigned l l' ⊎ ((p.0 ≡ true) × Signs code l l' res))
        × (p.0 ≡ false → res ≡ ok (write 400 "invalid state"))
  unfolding with_state
  with_state-Signs (false, store) code l h =
      (ground arith, inl (ground arith, ground arith), λ no_state. ground arith)
  with_state-Signs (true, store) code l {res} {l'} h =
      let (same, or) = with_token-Signs code (record l { store = store }) h in
      (
        same,
        elim or [
          | inl unsigned ↦ inl unsigned
          | inr s ↦ inr (
            refl,
            record {
              token = s.token;
              user = s.user;
              exchanged = s.exchanged;
              vouched = s.vouched;
              tables = s.tables;
              char = s.char;
            },
          )
        ],
        λ no_state. absurd (ground arith),
      )

  -- Where auth is configured, and after any steps of logins, callbacks and maintenance whose times are
  -- not later than `now`, a callback changes the tables or the session only if its state was issued less
  -- than 300 seconds before and no callback has brought it since, and the login server vouched for a
  -- user: then the tables are as SaveUser leaves them, and the session has the user's character if
  -- SaveUser succeeded and is as before if not. Any other state is answered with 400. The store is
  -- afterwards the one that the steps and this callback lead to.
  pub callback-after :
      (now : ℕ) (state code : String) (h : List Event) (l : Login F) {res : Result Answer}
      {l' : Login F}
      → opts.has_auth ≡ true
      → All (λ e. time_of e ≤ now) h
      → l.store ≡ after h
      → callback opts lib now state code l ≡ (res, l')
      → (l'.store ≡ after (Event.callback now state ∷ h))
        × (Unsigned l l' ⊎ ((accepted now (pending state h) ≡ true) × Signs code l l' res))
        × (accepted now (pending state h) ≡ false → res ≡ ok (write 400 "invalid state"))
  unfolding callback
  callback-after now state code h l {res} {l'} auth before is e =
      let answer : (known_state now state l.store).0 ≡ accepted now (pending state h) =
        ap (λ s. (known_state now state s).0) is ∙ known_state-after now state h before in
      let (store, or, refused) = with_state-Signs (known_state now state l.store) code l (
        sym (
          ap
            (λ (b : Bool).
              if b
              then with_state opts lib (known_state now state l.store) code l
              else (ok (write 500 "auth is not configured"), l))
            auth)
        ∙ e) in
      (
        store ∙ ap (λ s. (known_state now state s).1) is,
        elim or [ inl unsigned ↦ inl unsigned | inr (known, s) ↦ inr (sym answer ∙ known, s) ],
        λ no_state. refused (answer ∙ no_state),
      )

  -- Where auth is configured, a state that a callback has brought is of no use to another, whatever the
  -- first led to: the second is answered with 400 and changes nothing.
  pub callback-callback :
      (now later : ℕ) (state code code' : String) (l : Login F) {res : Result Answer} {l' : Login F}
      → opts.has_auth ≡ true
      → callback opts lib now state code l ≡ (res, l')
      → callback opts lib later state code' l' ≡ (ok (write 400 "invalid state"), l')
  unfolding callback with_state
  callback-callback now later state code code' l {res} {l'} auth e =
      let first : with_state opts lib (known_state now state l.store) code l ≡ (res, l') =
        ground arith in
      let store = (with_state-Signs (known_state now state l.store) code l first).0 in
      let gone : lookup state l'.store ≡ none =
        ap (lookup state) store
        ∙ lookup-known_state now state state l.store
        ∙ ground (arith, (eq_iff state state).1 refl) in
      let missing = known_state_missing later state l'.store gone in ground arith
