-- ===== src/Account/Login/Outcome.antt =====
-- What a login of local_auth.py answers and grants.
use rag_llm.Prelude.{
  ℕ, String, ◌≡◌, refl, sym, ◌∙◌, ap, subst, Bool, true, false, not, none, some, List, arith, inl,
  inr, Bool-cases, Option-cases, and_true, if◌then◌else◌,
}
use rag_llm.Failure.{ok, err, value_error}
use rag_llm.Workspace.Table.{find, modify, IsKeyed}
use rag_llm.Workspace.Table.Keyed.{find-modify_key}
use rag_llm.Workspace.Table.{find-Member, find-of_Member}
use rag_llm.Account.Text.{Unicode}
use rag_llm.Account.Row.{User, Accounts, id_of, email_of}
use rag_llm.Account.Register.{Hasher}
use rag_llm.Account.Login.{
  Attempt, authenticate_credentials, login_row, login_email, find_active, is_verified, is_locked,
  note_success, replacement_hash, fail_login, pass_login,
}

guarded-some :
    {A : Type 0} (b : Bool) (x y : A) → (if b then some x else none) ≡ some y → (b ≡ true) × (x ≡ y)
guarded-some true x y h = (refl, cc)
guarded-some false x y h = absurd (cc)

find_active-some :
    (email : String) (users : List User) (v : User)
    → find_active email users ≡ some v
    → (find email_of email users ≡ some v) × (v.active ≡ true)
unfolding find_active
find_active-some email users v h = elim (Option-cases (find email_of email users)) [
  | inl e ↦ absurd (cc (rw (e, find_active) at h))
  | inr (w, e) ↦
      let (a, p) = guarded-some w.active w v (rw (e, find_active) at h) in
      ((e ∙ ap some p), (sym (ap (λ x. x.active) p) ∙ a))
]

note_success-id : (h : String) (now : ℕ) (w : User) → (note_success h now w).id ≡ w.id
unfolding note_success
note_success-id h now w = refl

-- A change of the row leaves it the account of its email.
pub find_active-modify :
    (email : String) (users : List User) (v : User) (u : User → User)
    → ((w : User) → (u w).email_normalized ≡ w.email_normalized)
    → (u v).active ≡ v.active
    → IsKeyed id_of users
    → find_active email users ≡ some v
    → find_active email (modify id_of v.id u users) ≡ some (u v)
unfolding find_active
find_active-modify email users v u same active k h =
    let (f, a) = find_active-some email users v h in
    rw (find-modify_key id_of email_of email u users v same k f, find_active) (rw (active ∙ a) refl)

module _ (u : Unicode) (hasher : Hasher) (minutes : ℕ) where
  pub login-refused :
      (s : Accounts) (v : User) (a : Attempt)
      → find_active (login_email u hasher minutes a) s.users ≡ some v
      → is_verified u hasher minutes a v ≡ false
      → authenticate_credentials u hasher minutes a s
        ≡ (err (value_error "Неверная почта или пароль."), fail_login u hasher minutes a v s)
  unfolding authenticate_credentials login_row
  login-refused s v a found out = rw found (rw out refl)

  pub login-granted :
      (s : Accounts) (v : User) (a : Attempt)
      → IsKeyed id_of s.users
      → find_active (login_email u hasher minutes a) s.users ≡ some v
      → is_verified u hasher minutes a v ≡ true
      → authenticate_credentials u hasher minutes a s ≡ (
        ok (note_success (replacement_hash u hasher minutes a v) a.now v),
        pass_login u hasher minutes a v s,
      )
  unfolding authenticate_credentials login_row
  login-granted s v a k found pass =
      let (f, _) = find_active-some (login_email u hasher minutes a) s.users v found in
      let row : find id_of v.id s.users ≡ some v =
        find-of_Member id_of s.users v k
          (find-Member email_of (login_email u hasher minutes a) s.users v f) in
      let after : find id_of v.id (pass_login u hasher minutes a v s).users
          ≡ some (note_success (replacement_hash u hasher minutes a v) a.now v) =
        find-modify_key id_of id_of v.id
          (note_success (replacement_hash u hasher minutes a v) a.now) s.users v
          (note_success-id (replacement_hash u hasher minutes a v) a.now) k row in
      rw found (rw pass (rw after refl))

  pub login-unknown :
      (s : Accounts) (a : Attempt)
      → find_active (login_email u hasher minutes a) s.users ≡ none
      → authenticate_credentials u hasher minutes a s
        ≡ (err (value_error "Неверная почта или пароль."), s)
  unfolding authenticate_credentials login_row
  login-unknown s a out = rw out refl

  verified_lem :
      (a : Attempt) (v : User)
      → is_verified u hasher minutes a v ≡ true
      → (hasher.verify v.password_hash a.password ≡ true) × (is_locked v a.clock ≡ false)
  unfolding is_verified
  verified_lem a v h =
      let (x, y) =
        and_true (not (is_locked v a.clock)) (hasher.verify v.password_hash a.password) h in
      (y, ground arith)

  granted_row :
      (s : Accounts) (v : User) (a : Attempt)
      → IsKeyed id_of s.users
      → find_active (login_email u hasher minutes a) s.users ≡ some v
      → find_active (login_email u hasher minutes a) (pass_login u hasher minutes a v s).users
        ≡ some (note_success (replacement_hash u hasher minutes a v) a.now v)
  unfolding note_success
  granted_row s v a k found =
      find_active-modify (login_email u hasher minutes a) s.users v
        (note_success (replacement_hash u hasher minutes a v) a.now) (λ w. refl) refl k found

  abbrev pub IsGrant : Accounts → Attempt → User → User → Type 0
  IsGrant s a v w =
      (hasher.verify v.password_hash a.password ≡ true)
      × (is_locked v a.clock ≡ false)
      × (find_active (login_email u hasher minutes a)
            (authenticate_credentials u hasher minutes a s).1.users
          ≡ some w)
      × (w.failed_login_count ≡ 0)
      × (w.locked_until ≡ none)

  -- If the identifiers of the accounts are distinct, a login that succeeds was for an active account
  -- that was not locked, with its password; the returned row is the one that the table then holds,
  -- without failures and without a lock.
  pub authenticate_credentials-Grants :
      (s : Accounts) (a : Attempt) (w : User)
      → IsKeyed id_of s.users
      → (authenticate_credentials u hasher minutes a s).0 ≡ ok w
      → (v : User) × (find_active (login_email u hasher minutes a) s.users ≡ some v)
        × IsGrant s a v w
  unfolding note_success
  authenticate_credentials-Grants s a w k h =
      elim (Option-cases (find_active (login_email u hasher minutes a) s.users)) [
        | inl e ↦ absurd (cc (rw (login-unknown s a e) at h))
        | inr (v, e) ↦ elim (Bool-cases (is_verified u hasher minutes a v)) [
          | inl p ↦
              let same : ok (note_success (replacement_hash u hasher minutes a v) a.now v) ≡ ok w =
                rw (login-granted s v a k e p) at h in
              let q : note_success (replacement_hash u hasher minutes a v) a.now v ≡ w = cc in
              let (right, free) = verified_lem a v p in
              (
                v,
                e,
                subst (IsGrant s a v) q (
                  right,
                  free,
                  rw (login-granted s v a k e p) (granted_row s v a k e),
                  refl,
                  refl,
                ),
              )
          | inr p ↦ absurd (cc (rw (login-refused s v a e p) at h))
        ]
      ]
