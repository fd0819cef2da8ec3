-- ===== src/Account/Examples.antt =====
-- Concrete inputs for the theorems of the accounts.
use rag_llm.Prelude.{
  ℕ, String, ◌≡◌, refl, true, false, Option, none, some, List, [], ◌∷◌, ◌==◌, string_eq, arith,
  Member, inl, inr, ltb, if◌then◌else◌, eq_refl, eq_iff, ◌≢◌, ◌+◌, ◌≤◌, length_chars, strip,
  split_at,
}
use rag_llm.Failure.{ok, err, value_error}
use rag_llm.Workspace.Table.{find, modify, IsKeyed}
use rag_llm.Account.Text.{
  Unicode, normalize_email, is_email, validate_password, holds_email, display_name,
}
use rag_llm.Account.Row.{User, Accounts, id_of}
use rag_llm.Account.Register.{
  Hasher, register_user, register_email, register_checked, register_named, register_valid,
  is_admin_email,
}
use rag_llm.Account.Register.Outcome.{register_user-authenticate_credentials}
use rag_llm.Account.Login.{
  Attempt, authenticate_credentials, note_success, find_active, login_email, login_row, is_verified,
  is_locked, replacement_hash, lock_time,
}
use rag_llm.Account.Login.Outcome.{IsGrant, authenticate_credentials-Grants}
use rag_llm.Account.Lockout.{after_attempts, IsGuess, lockout, login_after_lock}
use rag_llm.Account.Session
use rag_llm.Account.Session.Lifetime.{create_session-Opens}
use rag_llm.Account.Session.Revocation.{
  Event, IsOther, history, create_session, change_users, revoke_session-Stays,
}

abbrev unicode : Unicode
unicode = record { nfkc = λ s. s; casefold = λ s. s }

abbrev hasher : Hasher
hasher = record {
  hash = λ salt password. password;
  verify = λ hash password. hash == password;
  check_needs_rehash = λ hash. false;
}

abbrev anna : User
anna = record {
  id = "u1";
  email = "anna@example.org";
  email_normalized = "anna@example.org";
  display_name = "Anna";
  password_hash = "correct horse";
  active = true;
  is_admin = false;
  failed_login_count = 0;
  locked_until = none;
  last_login_at = none;
  created_at = 1;
  updated_at = 1;
}

abbrev accounts : Accounts
accounts = record { users = anna ∷ []; sessions = [] }

accounts-IsKeyed : IsKeyed id_of accounts.users
accounts-IsKeyed = ((λ q m. absurd m), _)

abbrev attempt : String → ℕ → Attempt
attempt password time = record {
  email = " anna@example.org";
  password = password;
  salt = "s";
  clock = time;
  now = time;
}

abbrev guesses : List Attempt
guesses = attempt "a" 1 ∷ attempt "b" 2 ∷ attempt "c" 3 ∷ attempt "d" 4 ∷ []

attempt_email :
    (password : String) (time : ℕ)
    → login_email unicode hasher 15 (attempt password time) ≡ "anna@example.org"
unfolding login_email normalize_email length_chars strip is_email split_at
attempt_email password time = refl

guesses-IsGuess :
    (b : Attempt)
    → Member b guesses
    → IsGuess unicode hasher 15 "anna@example.org" anna b × (b.now + lock_time 15 ≤ 901000000)
guesses-IsGuess b (inl e) = rw e ((attempt_email "a" 1, refl), omega arith)
guesses-IsGuess b (inr (inl e)) = rw e ((attempt_email "b" 2, refl), omega arith)
guesses-IsGuess b (inr (inr (inl e))) = rw e ((attempt_email "c" 3, refl), omega arith)
guesses-IsGuess b (inr (inr (inr (inl e)))) = rw e ((attempt_email "d" 4, refl), omega arith)
guesses-IsGuess b (inr (inr (inr (inr w)))) = absurd w

lockout_example :
    (authenticate_credentials unicode hasher 15 (attempt "correct horse" 6) (
      after_attempts unicode hasher 15
        (attempt "e" 5 ∷ [])
        (after_attempts unicode hasher 15 guesses accounts))).0
    ≡ err (value_error "Неверная почта или пароль.")
unfolding find_active find
lockout_example =
    lockout unicode hasher 15 "anna@example.org" accounts anna guesses (attempt "e" 5)
      (attempt "correct horse" 6) accounts-IsKeyed refl (λ b m. (guesses-IsGuess b m).0)
      (attempt_email "e" 5, refl) (omega arith) (attempt_email "correct horse" 6) (omega arith)

login_after_lock_example :
    (w : User) × ((authenticate_credentials unicode hasher 15
        (attempt "correct horse" 901000000)
        (after_attempts unicode hasher 15 guesses accounts)).0
      ≡ ok w)
unfolding find_active find is_locked
login_after_lock_example =
    login_after_lock unicode hasher 15 "anna@example.org" accounts anna guesses
      (attempt "correct horse" 901000000) accounts-IsKeyed refl guesses-IsGuess refl
      (attempt_email "correct horse" 901000000) refl

credentials_accepted :
    (authenticate_credentials unicode hasher 15 (attempt "correct horse" 7) accounts).0
    ≡ ok (note_success "correct horse" 7 anna)
unfolding authenticate_credentials login_row find_active find login_email normalize_email
    length_chars strip is_email split_at is_verified is_locked note_success modify replacement_hash
credentials_accepted = refl

authenticate_credentials-Grants_example :
    (v : User) × (find_active
        (login_email unicode hasher 15 (attempt "correct horse" 7))
        accounts.users
      ≡ some v)
    × IsGrant unicode hasher 15 accounts
        (attempt "correct horse" 7)
        v
        (note_success "correct horse" 7 anna)
authenticate_credentials-Grants_example =
    authenticate_credentials-Grants unicode hasher 15 accounts (attempt "correct horse" 7)
      (note_success "correct horse" 7 anna) accounts-IsKeyed credentials_accepted

abbrev bea : User
bea = record anna {
  id = "u2";
  email = "bea@example.org";
  email_normalized = "bea@example.org";
  display_name = "Bea";
  password_hash = "a long password";
  created_at = 9;
  updated_at = 9;
}

bea_registered :
    (register_user unicode hasher [] "u2" "bea@example.org" "Bea" "a long password" "s" 9
      accounts).0
    ≡ ok bea
unfolding register_user register_email normalize_email length_chars strip is_email split_at
    register_checked validate_password holds_email register_named display_name register_valid find
    is_admin_email
bea_registered = refl

register_user-authenticate_credentials_example :
    (h : String) × ((authenticate_credentials unicode hasher 15
        (record {
          email = "bea@example.org";
          password = "a long password";
          salt = "t";
          clock = 10;
          now = 10;
        })
        (register_user unicode hasher [] "u2" "bea@example.org" "Bea" "a long password" "s" 9
          accounts).1).0
      ≡ ok (note_success h 10 bea))
register_user-authenticate_credentials_example =
    register_user-authenticate_credentials unicode hasher [] "u2" "a long password" "s" 9 15 10 10
      "bea@example.org" "Bea" "t" accounts bea (λ a p. eq_refl p) accounts-IsKeyed bea_registered

abbrev sha : String → String
sha s = s

abbrev ip_of : String → Option String
ip_of s = some s

create_session-Opens_example :
    ((Session.create_session sha ip_of 168 "t1" "u1" "" none 20 21 accounts).0 ≡ ok "t1")
    × ((Session.authenticate_session sha ip_of "t1" 22
          (Session.create_session sha ip_of 168 "t1" "u1" "" none 20 21 accounts).1).0
        ≡ (if ltb 22 (20 + Session.session_lifetime 168)
            then ok anna
            else err (value_error "Требуется вход в систему.")))
unfolding find length_chars
create_session-Opens_example =
    create_session-Opens sha ip_of 168 "t1" "u1" "" none 20 21 22 accounts anna refl refl refl refl
      (omega arith) (omega arith)

-- The account with an open session of the token "t1".
abbrev logged_in : Accounts
logged_in = record accounts {
  sessions =
      record {
        token_hash = "t1";
        user_id = "u1";
        created_at = 20;
        last_seen_at = 20;
        expires_at = 90000;
        revoked_at = none;
        user_agent_hash = "";
        ip_address = none;
      }
      ∷ [];
}

abbrev events : List Event
events = create_session 168 "t2" "u1" "" none 30 30 ∷ change_users (anna ∷ []) ∷ []

apart : (a b : String) → (a == b) ≡ false → a ≢ b
apart a b e h = absurd (cc (e, (eq_iff a b).1 h))

events-IsOther : (e : Event) → Member e events → IsOther sha ip_of "t1" e
events-IsOther e (inl p) = rw p (apart "t2" "t1" refl)
events-IsOther e (inr (inl p)) = rw p _
events-IsOther e (inr (inr w)) = absurd w

revoke_session-Stays_example :
    Session.authenticate_session sha ip_of "t1" 40
      (history sha ip_of events (Session.revoke_session sha ip_of "t1" 29 logged_in))
    ≡ (
      err (value_error "Требуется вход в систему."),
      history sha ip_of events (Session.revoke_session sha ip_of "t1" 29 logged_in),
    )
revoke_session-Stays_example =
    revoke_session-Stays sha ip_of "t1" 29 40 logged_in events refl events-IsOther
