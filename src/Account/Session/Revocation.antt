-- ===== src/Account/Session/Revocation.antt =====
-- A revoked session of local_auth.py stays revoked.
use rag_llm.Prelude.{
  ℕ, String, ◌≡◌, ◌≢◌, refl, sym, ap, subst, ◌⊎◌, ◌∙◌, Bool, true, false, not, Option, none, some,
  List, [], ◌∷◌, is_empty, length_chars, Bool-cases, Option-cases, inl, inr, ◌==◌, string_eq,
  Member, eq_iff, ltb, ◌||◌,
}
use rag_llm.Failure.{err, value_error}
use rag_llm.Workspace.Table.{
  find, select, update_where, Member-update_where, Member-select, find-Member, find-key,
}
use rag_llm.Account.Row.{User, AuthSession, Accounts, id_of, hash_of}
use rag_llm.Account.Session
use rag_llm.Account.Session.{
  is_valid, user_of, is_idle, touch, is_unrevoked, revoke, is_stale, new_session, insert_session,
  with_token, seen,
}

-- What happens to the tables: calls of the three functions on sessions, and any change of the users.
pub data Event : Type 0 where
  create_session : ℕ → String → String → String → Option String → ℕ → ℕ → Event
  authenticate_session : String → ℕ → Event
  revoke_session : String → ℕ → Event
  change_users : List User → Event

-- No session with this hash is valid, at any time.
abbrev IsDead : String → Accounts → Type 0
IsDead hash s =
    (e : AuthSession)
    → Member e s.sessions
    → e.token_hash ≡ hash
    → (time : ℕ) → is_valid time e ≡ false

module _ (sha256 : String → String) (ip_of : String → Option String) where
  abbrev pub happen : Event → Accounts → Accounts
  happen (create_session hours token user_id agent ip clock now) s =
      (Session.create_session sha256 ip_of hours token user_id agent ip clock now s).1
  happen (authenticate_session token now) s =
      (Session.authenticate_session sha256 ip_of token now s).1
  happen (revoke_session token now) s = Session.revoke_session sha256 ip_of token now s
  happen (change_users users) s = record s { users = users }

  abbrev pub history : List Event → Accounts → Accounts
  history [] s = s
  history (e ∷ events) s = history events (happen e s)

  -- A creation does not draw a token with this hash.
  abbrev pub IsOther : String → Event → Type 0
  IsOther hash (create_session hours token user_id agent ip clock now) = sha256 token ≢ hash
  IsOther hash _ = Unit

  update-IsDead :
      (hash : String) (f : AuthSession → Bool) (u : AuthSession → AuthSession) (s : Accounts)
      → ((e : AuthSession) → (u e).token_hash ≡ e.token_hash)
      → ((e : AuthSession) (time : ℕ) → is_valid time e ≡ false → is_valid time (u e) ≡ false)
      → IsDead hash s
      → IsDead hash (record s { sessions = update_where f u s.sessions })
  update-IsDead hash f u s same keeps dead e m h time =
      let (r, n, p) = Member-update_where f u e s.sessions m in
      elim (Bool-cases (f r)) [
        | inl q ↦
            let is : e ≡ u r = rw q at p in
            rw is (keeps r time (dead r n (sym (same r) ∙ (sym (ap hash_of is) ∙ h)) time))
        | inr q ↦ let is : e ≡ r = rw q at p in rw is (dead r n (sym (ap hash_of is) ∙ h) time)
      ]

  create_session_cases :
      (token : String) (e : AuthSession) (now : ℕ) (s : Accounts)
      → ((with_token sha256 ip_of token (insert_session sha256 ip_of e now s)).1 ≡ s)
        ⊎ ((with_token sha256 ip_of token (insert_session sha256 ip_of e now s)).1
            ≡ record s { sessions = select (λ f. not (is_stale now f)) (e ∷ s.sessions) })
  unfolding insert_session
  create_session_cases token e now s = elim (Option-cases (find id_of e.user_id s.users)) [
    | inl p ↦ inl (rw (p, insert_session) refl)
    | inr (v, p) ↦ elim (Option-cases (find hash_of e.token_hash s.sessions)) [
      | inl q ↦ inr (rw (p, insert_session) (rw q refl))
      | inr (f, q) ↦ inl (rw (p, insert_session) (rw q refl))
    ]
  ]

  create_session-IsDead :
      (hash : String) (hours : ℕ) (token user_id agent : String) (ip : Option String)
      (clock now : ℕ) (s : Accounts)
      → sha256 token ≢ hash
      → IsDead hash s
      → IsDead hash (Session.create_session sha256 ip_of hours token user_id agent ip clock now s).1
  unfolding Session.create_session new_session
  create_session-IsDead hash hours token user_id agent ip clock now s other dead =
      let made : AuthSession = new_session sha256 ip_of hours token user_id agent ip clock now in
      elim (create_session_cases token made now s) [
        | inl e ↦ subst (IsDead hash) (sym e) dead
        | inr e ↦ subst (IsDead hash) (sym e) (λ f m h time.
            elim (Member-select (λ g. not (is_stale now g)) f (made ∷ s.sessions) m).0 [
              | inl p ↦ absurd (other (sym (ap hash_of p) ∙ h))
              | inr n ↦ dead f n h time
            ])
      ]

  touch-valid :
      (now : ℕ) (e : AuthSession) (time : ℕ)
      → is_valid time e ≡ false
      → is_valid time (touch now e) ≡ false
  unfolding is_valid touch
  touch-valid now e time h = h

  revoke-invalid : (now : ℕ) (e : AuthSession) (time : ℕ) → is_valid time (revoke now e) ≡ false
  unfolding is_valid revoke
  revoke-invalid now e time = refl

  seen-IsDead :
      (hash own : String) (o : Option User) (now : ℕ) (s : Accounts)
      → IsDead hash s
      → IsDead hash (seen sha256 ip_of o own now s).1
  unfolding touch
  seen-IsDead hash own none now s dead = dead
  seen-IsDead hash own (some v) now s dead =
      update-IsDead hash (is_idle own now) (touch now) s (λ e. refl) (touch-valid now) dead

  authenticate_session-IsDead :
      (hash token : String) (now : ℕ) (s : Accounts)
      → IsDead hash s
      → IsDead hash (Session.authenticate_session sha256 ip_of token now s).1
  unfolding Session.authenticate_session
  authenticate_session-IsDead hash token now s dead =
      elim (Bool-cases (is_empty token || ltb 256 (length_chars token))) [
        | inl e ↦ rw e dead
        | inr e ↦ rw e (
            seen-IsDead hash (sha256 token)
              (user_of now (find hash_of (sha256 token) s.sessions) s.users) now s dead)
      ]

  revoke_session-IsDead :
      (hash token : String) (now : ℕ) (s : Accounts)
      → IsDead hash s
      → IsDead hash (Session.revoke_session sha256 ip_of token now s)
  unfolding Session.revoke_session revoke
  revoke_session-IsDead hash token now s dead = elim (Bool-cases (is_empty token)) [
    | inl e ↦ rw e dead
    | inr e ↦ rw e (
        update-IsDead hash (is_unrevoked (sha256 token)) (revoke now) s (λ e. refl)
          (λ e time h. revoke-invalid now e time) dead)
  ]

  happen-IsDead :
      (hash : String) (e : Event) (s : Accounts)
      → IsOther hash e
      → IsDead hash s
      → IsDead hash (happen e s)
  happen-IsDead hash (create_session hours token user_id agent ip clock now) s other dead =
      create_session-IsDead hash hours token user_id agent ip clock now s other dead
  happen-IsDead hash (authenticate_session token now) s other dead =
      authenticate_session-IsDead hash token now s dead
  happen-IsDead hash (revoke_session token now) s other dead =
      revoke_session-IsDead hash token now s dead
  happen-IsDead hash (change_users users) s other dead = dead

  history-IsDead :
      (hash : String) (events : List Event) (s : Accounts)
      → ((e : Event) → Member e events → IsOther hash e)
      → IsDead hash s
      → IsDead hash (history events s)
  history-IsDead hash [] s other dead = dead
  history-IsDead hash (e ∷ events) s other dead =
      history-IsDead hash events (happen e s) (λ f m. other f (inr m))
        (happen-IsDead hash e s (other e (inl refl)) dead)

  kept-invalid :
      (hash : String) (e : AuthSession) (time : ℕ)
      → e.token_hash ≡ hash
      → is_unrevoked hash e ≡ false
      → is_valid time e ≡ false
  unfolding is_unrevoked is_valid
  kept-invalid hash e time same h =
      let mine : (e.token_hash == hash) ≡ true = (eq_iff e.token_hash hash).1 same in
      elim (Option-cases e.revoked_at) [
        | inl r ↦ absurd (cc (rw (mine, r) at h))
        | inr (t, r) ↦ rw r refl
      ]

  -- The revocation itself: what was unrevoked is revoked, what was revoked stays.
  revoked-IsDead :
      (token : String) (now : ℕ) (s : Accounts)
      → is_empty token ≡ false
      → IsDead (sha256 token) (Session.revoke_session sha256 ip_of token now s)
  unfolding Session.revoke_session
  revoked-IsDead token now s some_token = rw some_token (λ e m h time.
      let (r, n, p) =
        Member-update_where (is_unrevoked (sha256 token)) (revoke now) e s.sessions m in
      elim (Bool-cases (is_unrevoked (sha256 token) r)) [
        | inl q ↦
            let is : e ≡ revoke now r = rw q at p in
            subst (λ x. is_valid time x ≡ false) (sym is) (revoke-invalid now r time)
        | inr q ↦
            let is : e ≡ r = rw q at p in
            subst (λ x. is_valid time x ≡ false) (sym is)
              (kept-invalid (sha256 token) r time (sym (ap hash_of is) ∙ h) q)
      ])

  dead-refused :
      (token : String) (time : ℕ) (s : Accounts)
      → IsDead (sha256 token) s
      → Session.authenticate_session sha256 ip_of token time s
        ≡ (err (value_error "Требуется вход в систему."), s)
  unfolding Session.authenticate_session user_of
  dead-refused token time s dead =
      elim (Bool-cases (is_empty token || ltb 256 (length_chars token))) [
        | inl e ↦ rw e refl
        | inr e ↦ elim (Option-cases (find hash_of (sha256 token) s.sessions)) [
          | inl f ↦ rw e (rw f refl)
          | inr (d, f) ↦
              let out : is_valid time d ≡ false =
                dead d (find-Member hash_of (sha256 token) s.sessions d f)
                  (find-key hash_of (sha256 token) s.sessions d f) time in
              rw e (rw f (rw out refl))
        ]
      ]

  -- After its revocation a token that is not empty is refused at every time, whatever calls and changes of the users
  -- come in between, as long as no creation draws a token with the same hash.
  pub revoke_session-Stays :
      (token : String) (now time : ℕ) (s : Accounts) (events : List Event)
      → is_empty token ≡ false
      → ((e : Event) → Member e events → IsOther (sha256 token) e)
      → Session.authenticate_session sha256 ip_of token time
          (history events (Session.revoke_session sha256 ip_of token now s))
        ≡ (
          err (value_error "Требуется вход в систему."),
          history events (Session.revoke_session sha256 ip_of token now s),
        )
  revoke_session-Stays token now time s events some_token other =
      dead-refused token time (history events (Session.revoke_session sha256 ip_of token now s)) (
        history-IsDead (sha256 token) events (Session.revoke_session sha256 ip_of token now s) other
          (revoked-IsDead token now s some_token))
