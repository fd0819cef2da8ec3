-- ===== src/Account/Register.antt =====
-- `register_user` of local_auth.py, and what it and the login take from argon2.
pub mod Outcome
use rag_llm.Prelude.{
  ℕ, String, Bool, true, false, none, some, List, ◌∷◌, ◌==◌, string_eq, any, is_empty, strip,
  if◌then◌else◌,
}
use rag_llm.Failure.{Result, ok, err, Action, value_error}
use rag_llm.Workspace.Table.{find}
use rag_llm.Account.Text.{Unicode, normalize_email, validate_password, display_name}
use rag_llm.Account.Row.{User, Accounts, id_of, email_of}

-- The PasswordHasher, with the salt that it draws as an argument. `verify` is false where the
-- library raises.
pub record Hasher : Type 0 where
  pub hash : String → String → String
  pub verify : String → String → Bool
  pub check_needs_rehash : String → Bool

-- The addresses of RAG_LOCAL_ADMIN_EMAILS, split at its commas.
unfoldable pub is_admin_email : Unicode → List String → String → Bool
is_admin_email u emails email =
    any (λ e. if is_empty (strip e) then false else u.casefold (strip e) == email) emails

unfoldable pub new_user : String → String → String → String → Bool → ℕ → User
new_user id email name password_hash admin now = record {
  id = id;
  email = email;
  email_normalized = email;
  display_name = name;
  password_hash = password_hash;
  active = true;
  is_admin = admin;
  failed_login_count = 0;
  locked_until = none;
  last_login_at = none;
  created_at = now;
  updated_at = now;
}

-- The INSERT, with the unique index of email_normalized and the primary key.
unfoldable pub insert_user : User → Action Accounts User
insert_user user s = elim (find email_of user.email_normalized s.users) [
  | some v ↦
      (err (value_error "Не удалось создать аккаунт. Проверьте данные или выполните вход."), s)
  | none ↦ elim (find id_of user.id s.users) [
    | some v ↦
        (err (value_error "Не удалось создать аккаунт. Проверьте данные или выполните вход."), s)
    | none ↦ (ok user, record s { users = user ∷ s.users })
  ]
]

module _ (u : Unicode) (hasher : Hasher) where
  unfoldable pub register_valid :
      List String → String → String → String → String → String → ℕ → Action Accounts User
  unfolding insert_user new_user
  register_valid admins id email name password salt now =
      insert_user
        (new_user id email name (hasher.hash salt password) (is_admin_email u admins email) now)

  unfoldable pub register_named :
      List String → String → String → Result String → String → String → ℕ → Action Accounts User
  register_named admins id email (err e) password salt now s = (err e, s)
  register_named admins id email (ok name) password salt now s =
      register_valid admins id email name password salt now s

  unfoldable pub register_checked :
      List String
      → String
      → String
      → Result (Unit {0})
      → String
      → String
      → String
      → ℕ
      → Action Accounts User
  register_checked admins id email (err e) name password salt now s = (err e, s)
  register_checked admins id email (ok tt) name password salt now s =
      register_named admins id email (display_name u name email) password salt now s

  unfoldable pub register_email :
      List String → String → Result String → String → String → String → ℕ → Action Accounts User
  register_email admins id (err e) name password salt now s = (err e, s)
  register_email admins id (ok email) name password salt now s =
      register_checked admins id email (validate_password u password email) name password salt now s

  -- The identifier that the database draws and the salt of the hash are arguments.
  unfoldable pub register_user :
      List String → String → String → String → String → String → ℕ → Action Accounts User
  register_user admins id email name password salt now =
      register_email admins id (normalize_email u email) name password salt now
