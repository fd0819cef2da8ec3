-- ===== src/Account/Session.antt =====
-- The sessions of local_auth.py. SHA-256, HMAC, the reading of an IP address and the drawn token are
-- parameters. As everywhere here a time is one of the database, but `clock`, the application's.
pub mod Lifetime
pub mod Revocation
use Prim.Native.String
use Prim.Native.Char.{code}
use rag_llm.Prelude.{
  ℕ, zero, suc, ◌+◌, ◌*◌, String, Bool, true, false, not, ◌&&◌, ◌||◌, Option, none, some, List, [],
  ◌∷◌, ltb, max, min, is_empty, length_chars, ◌==◌, string_eq, if◌then◌else◌,
}
use rag_llm.Failure.{Result, ok, err, Action, value_error, runtime_error, other_error}
use rag_llm.Workspace.Table.{find, select, update_where}
use rag_llm.Account.Row.{User, AuthSession, Accounts, minute, hour, day, id_of, hash_of}

-- `_session_lifetime()`
abbrev pub session_lifetime : ℕ → ℕ
session_lifetime hours = max 1 (min hours (24 * 30)) * hour

-- `cookie_max_age()`, in seconds
abbrev pub cookie_max_age : ℕ → ℕ
cookie_max_age hours = max 1 (min hours (24 * 30)) * 3600

-- `t < now - interval`
abbrev pub is_before : Option ℕ → ℕ → ℕ → Bool
is_before none interval now = false
is_before (some t) interval now = ltb (t + interval) now

unfoldable pub is_stale : ℕ → AuthSession → Bool
is_stale now e = ltb e.expires_at now || is_before e.revoked_at (7 * day) now

unfoldable pub is_valid : ℕ → AuthSession → Bool
is_valid now e = elim e.revoked_at [ none ↦ ltb now e.expires_at | some t ↦ false ]

-- The user that the session stands for.
unfoldable pub active_user : String → List User → Option User
active_user id users = elim (find id_of id users) [
  | none ↦ none
  | some v ↦ if v.active then some v else none
]

unfoldable pub user_of : ℕ → Option AuthSession → List User → Option User
unfolding active_user
user_of now none users = none
user_of now (some e) users = if is_valid now e then active_user e.user_id users else none

unfoldable pub is_idle : String → ℕ → AuthSession → Bool
is_idle hash now e = e.token_hash == hash && ltb (e.last_seen_at + 5 * minute) now

unfoldable pub touch : ℕ → AuthSession → AuthSession
touch now e = record e { last_seen_at = now }

unfoldable pub is_unrevoked : String → AuthSession → Bool
is_unrevoked hash e = e.token_hash == hash && (elim e.revoked_at [ none ↦ true | some t ↦ false ])

unfoldable pub revoke : ℕ → AuthSession → AuthSession
revoke now e = record e { revoked_at = some now }

module _ (sha256 : String → String) (ip_of : String → Option String) where
  unfoldable pub new_session : ℕ → String → String → String → Option String → ℕ → ℕ → AuthSession
  new_session hours token user_id user_agent ip_address clock now = record {
    token_hash = sha256 token;
    user_id = user_id;
    created_at = now;
    last_seen_at = now;
    expires_at = clock + session_lifetime hours;
    revoked_at = none;
    user_agent_hash = if is_empty user_agent then "" else sha256 user_agent;
    ip_address = elim ip_address [ none ↦ none | some ip ↦ if is_empty ip then none else ip_of ip ];
  }

  -- The INSERT asks for the user and for a new token; the stale sessions go in the same transaction.
  unfoldable pub insert_session : AuthSession → ℕ → Action Accounts (Unit {0})
  insert_session e now s = elim (find id_of e.user_id s.users) [
    | none ↦ (err (other_error "foreign key violation"), s)
    | some v ↦ elim (find hash_of e.token_hash s.sessions) [
      | some f ↦ (err (other_error "unique violation"), s)
      | none ↦ (ok tt, record s { sessions = select (λ f. not (is_stale now f)) (e ∷ s.sessions) })
    ]
  ]

  abbrev pub with_token : String → Result (Unit {0}) × Accounts → Result String × Accounts
  with_token token (ok tt, s) = (ok token, s)
  with_token token (err e, s) = (err e, s)

  unfoldable pub create_session :
      ℕ → String → String → String → Option String → ℕ → ℕ → Action Accounts String
  create_session hours token user_id user_agent ip_address clock now s =
      with_token token
        (insert_session (new_session hours token user_id user_agent ip_address clock now) now s)

  abbrev pub seen : Option User → String → ℕ → Action Accounts User
  seen none hash now s = (err (value_error "Требуется вход в систему."), s)
  seen (some v) hash now s =
      (ok v, record s { sessions = update_where (is_idle hash now) (touch now) s.sessions })

  unfoldable pub authenticate_session : String → ℕ → Action Accounts User
  authenticate_session token now s =
      if is_empty token || ltb 256 (length_chars token)
      then (err (value_error "Требуется вход в систему."), s)
      else seen (user_of now (find hash_of (sha256 token) s.sessions) s.users) (sha256 token) now s

  unfoldable pub revoke_session : String → ℕ → Accounts → Accounts
  revoke_session token now s = if is_empty token then s else record s {
    sessions = update_where (is_unrevoked (sha256 token)) (revoke now) s.sessions;
  }

-- `len(value.encode("utf-8"))`
unfoldable pub byte_length : String → ℕ
byte_length String.[] = 0
byte_length (String.◌∷◌ c s) =
    byte_length s
    + (if ltb (code c) 128
        then 1
        else if ltb (code c) 2048
        then 2
        else if ltb (code c) 65536
        then 3
        else 4)

-- `hmac.new(secret, message, sha256).hexdigest()` is a parameter.
module _ (hmac : String → String → String) (secret : String) where
  unfoldable pub csrf_token : String → Result String
  unfolding byte_length
  csrf_token session_token =
      if ltb (byte_length secret) 32
      then err (runtime_error "RAG_SECRET_KEY must contain at least 32 bytes")
      else ok (hmac secret (String.◌++◌ "csrf:" session_token))

  abbrev pub is_token : String → Result String → Result Bool
  is_token candidate (err e) = err e
  is_token candidate (ok token) = ok (token == candidate)

  unfoldable pub verify_csrf : String → String → Result Bool
  verify_csrf session_token candidate =
      if is_empty session_token || is_empty candidate
      then ok false
      else is_token candidate (csrf_token session_token)
