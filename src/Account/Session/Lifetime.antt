-- ===== src/Account/Session/Lifetime.antt =====
-- How long a session of local_auth.py is accepted.
use rag_llm.Prelude.{
  ℕ, ◌+◌, ◌≤◌, String, ◌≡◌, refl, ap, ◌∙◌, true, false, not, Option, none, some, List, ◌∷◌, arith,
  ltb, is_empty, length_chars, if◌then◌else◌, eq_refl, Bool-cases, inl, inr, ◌==◌, string_eq,
}
use rag_llm.Failure.{ok, err, value_error}
use rag_llm.Workspace.Table.{find, select}
use rag_llm.Account.Row.{User, AuthSession, Accounts, id_of, hash_of}
use rag_llm.Account.Session.{
  session_lifetime, is_stale, is_valid, active_user, user_of, new_session, insert_session,
  create_session, authenticate_session,
}

module _ (sha256 : String → String) (ip_of : String → Option String) where
  insert_session_ok :
      (e : AuthSession) (now : ℕ) (s : Accounts) (v : User)
      → find id_of e.user_id s.users ≡ some v
      → find hash_of e.token_hash s.sessions ≡ none
      → is_stale now e ≡ false
      → insert_session sha256 ip_of e now s
        ≡ (ok tt, record s { sessions = e ∷ select (λ f. not (is_stale now f)) s.sessions })
  unfolding insert_session select
  insert_session_ok e now s v u f live = rw (u, insert_session) (rw f (rw live refl))

  user_of_session :
      (e : AuthSession) (time : ℕ) (users : List User) (v : User)
      → e.revoked_at ≡ none
      → find id_of e.user_id users ≡ some v
      → v.active ≡ true
      → user_of time (some e) users ≡ (if ltb time e.expires_at then some v else none)
  unfolding user_of is_valid active_user
  user_of_session e time users v r u a =
      let valid : is_valid time e ≡ ltb time e.expires_at = rw r refl in
      let user : active_user e.user_id users ≡ some v = rw (u, active_user) (rw a refl) in
      ap (λ b. if b then active_user e.user_id users else none) valid
      ∙ ap (λ o. if ltb time e.expires_at then o else none) user

  -- What is asked of the first row with the token's hash.
  authenticate_first :
      (token : String) (e : AuthSession) (rest : List AuthSession) (time : ℕ) (users : List User)
      (v : User)
      → is_empty token ≡ false
      → length_chars token ≤ 256
      → e.token_hash ≡ sha256 token
      → e.revoked_at ≡ none
      → find id_of e.user_id users ≡ some v
      → v.active ≡ true
      → (authenticate_session sha256 ip_of token time
          (record { users = users; sessions = e ∷ rest })).0
        ≡ (if ltb time e.expires_at then ok v else err (value_error "Требуется вход в систему."))
  unfolding authenticate_session find
  authenticate_first token e rest time users v some_token l same r u a =
      let short : ltb 256 (length_chars token) ≡ false = ground arith in
      let mine : (e.token_hash == sha256 token) ≡ true = rw same (eq_refl (sha256 token)) in
      rw some_token (
        rw short (
          rw mine (
            rw (user_of_session e time users v r u a) (elim (Bool-cases (ltb time e.expires_at)) [
              | inl p ↦ rw p refl
              | inr p ↦ rw p refl
            ]))))

  -- A session for an active user, with a token that is new, not empty and at most 256 characters
  -- long, is created, and its token is accepted for this user exactly until the configured lifetime
  -- has passed. This asks that the lifetime has not already passed by the database's clock.
  pub create_session-Opens :
      (hours : ℕ) (token user_id user_agent : String) (ip_address : Option String)
      (clock now time : ℕ) (s : Accounts) (v : User)
      → find id_of user_id s.users ≡ some v
      → v.active ≡ true
      → find hash_of (sha256 token) s.sessions ≡ none
      → is_empty token ≡ false
      → length_chars token ≤ 256
      → now ≤ clock + session_lifetime hours
      → ((create_session sha256 ip_of hours token user_id user_agent ip_address clock now s).0
          ≡ ok token)
        × ((authenticate_session sha256 ip_of token time
              (create_session sha256 ip_of hours token user_id user_agent ip_address clock now
                s).1).0
            ≡ (if ltb time (clock + session_lifetime hours)
                then ok v
                else err (value_error "Требуется вход в систему.")))
  unfolding create_session new_session is_stale
  create_session-Opens hours token user_id user_agent ip_address clock now time s v u a f e l n =
      let made : AuthSession =
        new_session sha256 ip_of hours token user_id user_agent ip_address clock now in
      let live : is_stale now made ≡ false = ground arith in
      let after : create_session sha256 ip_of hours token user_id user_agent ip_address clock now s
          ≡ (
            ok token,
            record s { sessions = made ∷ select (λ f. not (is_stale now f)) s.sessions },
          ) =
        rw (insert_session_ok made now s v u f live) refl in
      (
        ap (λ r. r.0) after,
        rw after (
            authenticate_first token made (select (λ f. not (is_stale now f)) s.sessions) time
              s.users v e l refl refl u a),
      )
