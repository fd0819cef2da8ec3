-- ===== src/Account/Login.antt =====
-- `authenticate_credentials` of local_auth.py. The application's clock and the database's are two
-- arguments. The statements of one call run without another process in between.
pub mod Outcome
use rag_llm.Prelude.{
  ℕ, suc, ◌+◌, ◌*◌, String, Bool, true, false, not, ◌&&◌, Option, none, some, List, leb, ltb, min,
  max, if◌then◌else◌,
}
use rag_llm.Failure.{Result, ok, err, Action, value_error}
use rag_llm.Workspace.Table.{find, modify}
use rag_llm.Account.Text.{Unicode, normalize_email}
use rag_llm.Account.Row.{User, Accounts, minute, id_of, email_of}
use rag_llm.Account.Register.{Hasher}

unfoldable pub find_active : String → List User → Option User
find_active email users = elim (find email_of email users) [
  | none ↦ none
  | some v ↦ if v.active then some v else none
]

abbrev pub or_invalid : Result String → String
or_invalid (ok email) = email
or_invalid (err e) = "invalid@example.invalid"

unfoldable pub is_locked : User → ℕ → Bool
is_locked v clock = elim v.locked_until [ none ↦ false | some t ↦ ltb clock t ]

-- `max(1, min(minutes, 240))` minutes
abbrev pub lock_time : ℕ → ℕ
lock_time minutes = max 1 (min minutes 240) * minute

-- The update after a wrong password.
unfoldable pub note_failure : ℕ → ℕ → User → User
note_failure minutes now v = record v {
  failed_login_count = suc v.failed_login_count;
  locked_until =
      if leb 5 (suc v.failed_login_count) then some (now + lock_time minutes) else v.locked_until;
  updated_at = now;
}

-- The update after a login.
unfoldable pub note_success : String → ℕ → User → User
note_success password_hash now v = record v {
  password_hash = password_hash;
  failed_login_count = 0;
  locked_until = none;
  last_login_at = some now;
  updated_at = now;
}

abbrev pub or_row : Option User → User → User
or_row none v = v
or_row (some w) v = w

-- An attempt to log in: the entered email and password, the drawn salt and the two clocks.
pub record Attempt : Type 0 where
  pub email : String
  pub password : String
  pub salt : String
  pub clock : ℕ
  pub now : ℕ

module _ (u : Unicode) (hasher : Hasher) (minutes : ℕ) where
  -- `hash(password)` if the hash is outdated, else the hash.
  unfoldable pub replacement_hash : Attempt → User → String
  replacement_hash a v =
      if hasher.check_needs_rehash v.password_hash
      then hasher.hash a.salt a.password
      else v.password_hash

  unfoldable pub is_verified : Attempt → User → Bool
  is_verified a v = not (is_locked v a.clock) && hasher.verify v.password_hash a.password

  abbrev pub fail_login : Attempt → User → Accounts → Accounts
  fail_login a v s = record s { users = modify id_of v.id (note_failure minutes a.now) s.users }

  abbrev pub pass_login : Attempt → User → Accounts → Accounts
  pass_login a v s = record s {
    users = modify id_of v.id (note_success (replacement_hash a v) a.now) s.users;
  }

  unfoldable pub login_row : Attempt → Option User → Action Accounts User
  login_row a none s = (err (value_error "Неверная почта или пароль."), s)
  login_row a (some v) s =
      if is_verified a v
      then (ok (or_row (find id_of v.id (pass_login a v s).users) v), pass_login a v s)
      else (err (value_error "Неверная почта или пароль."), fail_login a v s)

  unfoldable pub login_email : Attempt → String
  login_email a = or_invalid (normalize_email u a.email)

  -- For an unknown account a fixed hash is verified; the result is dropped.
  unfoldable pub authenticate_credentials : Attempt → Action Accounts User
  authenticate_credentials a s = login_row a (find_active (login_email a) s.users) s
