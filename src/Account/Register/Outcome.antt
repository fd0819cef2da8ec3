-- ===== src/Account/Register/Outcome.antt =====
-- What a registration of local_auth.py asks for and leaves.
use rag_llm.Prelude.{
  ℕ, String, ◌≡◌, refl, sym, subst, ap, true, false, none, some, List, ◌∷◌, inl, inr, Option-cases,
  eq_refl, string_eq,
}
use rag_llm.Failure.{Result, ok, err}
use rag_llm.Workspace.Table.{find, IsKeyed}
use rag_llm.Workspace.Table.Keyed.{cons-IsKeyed}
use rag_llm.Account.Text.{Unicode, normalize_email, validate_password, display_name}
use rag_llm.Account.Row.{User, Accounts, id_of, email_of}
use rag_llm.Account.Register.{
  Hasher, new_user, is_admin_email, insert_user, register_valid, register_named, register_checked,
  register_email, register_user,
}
use rag_llm.Account.Login.{
  Attempt, authenticate_credentials, login_email, find_active, is_verified, is_locked, note_success,
  replacement_hash,
}
use rag_llm.Account.Login.Outcome.{login-granted}

-- What an INSERT that succeeds has found and left.
insert_user_ok :
    (user w : User) (s : Accounts)
    → (insert_user user s).0 ≡ ok w
    → (w ≡ user)
      × (find email_of user.email_normalized s.users ≡ none)
      × (find id_of user.id s.users ≡ none)
      × ((insert_user user s).1 ≡ record s { users = user ∷ s.users })
unfolding insert_user
insert_user_ok user w s h = elim (Option-cases (find email_of user.email_normalized s.users)) [
  | inr (v, e) ↦ absurd (cc (rw (e, insert_user) at h))
  | inl e ↦ elim (Option-cases (find id_of user.id s.users)) [
    | inr (v, f) ↦ absurd (cc (rw (e, insert_user, f) at h))
    | inl f ↦
        let same : ok user ≡ ok w = rw (e, insert_user, f) at h in
        (sym (cc), e, f, rw (e, insert_user) (rw f refl))
  ]
]

module _ (u : Unicode) (hasher : Hasher) (admins : List String) (id password salt : String)
    (now : ℕ) where
  -- A registration with the normalized address and the cleaned name.
  pub record IsRegistered (email : String) (s t : Accounts) (w : User) : Type 0 where
    pub name : String
    pub user :
        w ≡ new_user id email name (hasher.hash salt password) (is_admin_email u admins email) now
    pub unused : find email_of email s.users ≡ none
    pub fresh : find id_of id s.users ≡ none
    pub stored : t ≡ record s { users = w ∷ s.users }

  valid-IsRegistered :
      (email name : String) (s : Accounts) (w : User)
      → (register_valid u hasher admins id email name password salt now s).0 ≡ ok w
      → IsRegistered email s (register_valid u hasher admins id email name password salt now s).1 w
  unfolding register_valid new_user
  valid-IsRegistered email name s w h =
      let made : User =
        new_user id email name (hasher.hash salt password) (is_admin_email u admins email) now in
      let (same, unused, fresh, stored) = insert_user_ok made w s h in
      record { name = name; user = same; unused = unused; fresh = fresh; stored = rw same stored }

  named-IsRegistered :
      (email : String) (name : Result String) (s : Accounts) (w : User)
      → (register_named u hasher admins id email name password salt now s).0 ≡ ok w
      → IsRegistered email s (register_named u hasher admins id email name password salt now s).1 w
  unfolding register_named
  named-IsRegistered email (err e) s w h = absurd (cc)
  named-IsRegistered email (ok name) s w h = valid-IsRegistered email name s w h

  checked-IsRegistered :
      (email name : String) (checked : Result (Unit {0})) (s : Accounts) (w : User)
      → (register_checked u hasher admins id email checked name password salt now s).0 ≡ ok w
      → (checked ≡ ok tt)
        × IsRegistered email s
            (register_checked u hasher admins id email checked name password salt now s).1
            w
  unfolding register_checked
  checked-IsRegistered email name (err e) s w h = absurd (cc)
  checked-IsRegistered email name (ok tt) s w h =
      (refl, named-IsRegistered email (display_name u name email) s w h)

  -- A registration that succeeds has normalized the address, checked the password and found the
  -- address and the identifier unused; it adds one account, with the hash of the password.
  email-IsRegistered :
      (email : Result String) (name : String) (s : Accounts) (w : User)
      → (register_email u hasher admins id email name password salt now s).0 ≡ ok w
      → (e : String) × (email ≡ ok e)
        × (validate_password u password e ≡ ok tt)
        × IsRegistered e s (register_email u hasher admins id email name password salt now s).1 w
  unfolding register_email
  email-IsRegistered (err e) name s w h = absurd (cc)
  email-IsRegistered (ok e) name s w h =
      let (valid, registered) =
        checked-IsRegistered e name (validate_password u password e) s w h in
      (e, refl, valid, registered)

  registered_found :
      (email : String) (s t : Accounts) (w : User)
      → IsRegistered email s t w
      → (find_active email t.users ≡ some w)
        × (w.password_hash ≡ hasher.hash salt password)
        × (w.locked_until ≡ none)
        × (w.id ≡ id)
  unfolding find_active find new_user
  registered_found email s t w r =
      rw r.stored (rw r.user (rw (eq_refl email, find_active, find) (refl, refl, refl, refl)))

  granted :
      (minutes : ℕ) (a : Attempt) (w : User)
      → hasher.verify (hasher.hash salt a.password) a.password ≡ true
      → w.password_hash ≡ hasher.hash salt a.password
      → w.locked_until ≡ none
      → is_verified u hasher minutes a w ≡ true
  unfolding is_verified is_locked
  granted minutes a w right stored free =
      let verified : hasher.verify w.password_hash a.password ≡ true =
        subst (λ x. hasher.verify x a.password ≡ true) (sym stored) right in
      let unlocked : is_locked w a.clock ≡ false = rw free refl in rw (unlocked, verified) refl

  -- A new account can log in: whatever a registration accepts as address and password, the login
  -- accepts afterwards, at any time, and the new row is the one that is updated. This asks that the
  -- hasher verifies a password against its own hashes and that the identifiers of the accounts are
  -- distinct.
  pub register_user-authenticate_credentials :
      (minutes clock later : ℕ) (email name drawn : String) (s : Accounts) (w : User)
      → ((a p : String) → hasher.verify (hasher.hash a p) p ≡ true)
      → IsKeyed id_of s.users
      → (register_user u hasher admins id email name password salt now s).0 ≡ ok w
      → (h : String) × ((authenticate_credentials u hasher minutes
            (record {
              email = email;
              password = password;
              salt = drawn;
              clock = clock;
              now = later;
            })
            (register_user u hasher admins id email name password salt now s).1).0
          ≡ ok (note_success h later w))
  unfolding register_user login_email
  register_user-authenticate_credentials minutes clock later email name drawn s w law keyed h =
      let (e, valid, _, r) = email-IsRegistered (normalize_email u email) name s w h in
      let t : Accounts = (register_user u hasher admins id email name password salt now s).1 in
      let a : Attempt = record {
        email = email;
        password = password;
        salt = drawn;
        clock = clock;
        now = later;
      } in
      let (found, stored, free, own) = registered_found e s t w r in
      let ids : IsKeyed id_of t.users =
        subst (λ x. IsKeyed id_of x.users) (sym r.stored)
          (cons-IsKeyed id_of w s.users (rw own r.fresh) keyed) in
      let mine : login_email u hasher minutes a ≡ e = rw valid refl in
      (
        replacement_hash u hasher minutes a w,
        ap (λ x. x.0)
            (login-granted u hasher minutes t w a ids (rw mine found)
              (granted minutes a w (law salt password) stored free)),
      )
