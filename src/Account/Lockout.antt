-- ===== src/Account/Lockout.antt =====
-- How long guesses at a password are held back by local_auth.py.
use rag_llm.Prelude.{
  ℕ, suc, ◌+◌, ◌≤◌, ◌<◌, String, ◌≡◌, refl, sym, ap, subst, true, false, some, List, [], ◌∷◌, arith,
  length, Member, inl, inr, Bool-cases, leb,
}
use rag_llm.Failure.{ok, err, value_error}
use rag_llm.Workspace.Table.{IsKeyed}
use rag_llm.Workspace.Table.Keyed.{modify-IsKeyed}
use rag_llm.Account.Text.{Unicode}
use rag_llm.Account.Row.{User, Accounts, id_of}
use rag_llm.Account.Register.{Hasher}
use rag_llm.Account.Login.{
  Attempt, authenticate_credentials, login_email, find_active, is_verified, is_locked, lock_time,
  note_failure, note_success, replacement_hash, fail_login,
}
use rag_llm.Account.Login.Outcome.{find_active-modify, login-refused, login-granted}

module _ (u : Unicode) (hasher : Hasher) (minutes : ℕ) where
  -- The accounts after a sequence of attempts.
  abbrev pub after_attempts : List Attempt → Accounts → Accounts
  after_attempts [] s = s
  after_attempts (a ∷ attempts) s =
      after_attempts attempts (authenticate_credentials u hasher minutes a s).1

  -- A wrong password for the account.
  abbrev pub IsGuess : String → User → Attempt → Type 0
  IsGuess email v a =
      (login_email u hasher minutes a ≡ email) × (hasher.verify v.password_hash a.password ≡ false)

  -- What guesses leave of an account.
  record IsGuessed (email : String) (v : User) (n : ℕ) (s : Accounts) : Type 0 where
    user : User
    keyed : IsKeyed id_of s.users
    found : find_active email s.users ≡ some user
    counted : user.failed_login_count ≡ v.failed_login_count + n
    same_hash : user.password_hash ≡ v.password_hash

  wrong_password :
      (a : Attempt) (v : User)
      → hasher.verify v.password_hash a.password ≡ false
      → is_verified u hasher minutes a v ≡ false
  unfolding is_verified
  wrong_password a v wrong = elim (Bool-cases (is_locked v a.clock)) [
    | inl e ↦ rw e refl
    | inr e ↦ rw e (rw wrong refl)
  ]

  -- A guess leaves the table as a failure, and the account as failed.
  guess-fails :
      (email : String) (s : Accounts) (w : User) (a : Attempt)
      → IsKeyed id_of s.users
      → find_active email s.users ≡ some w
      → IsGuess email w a
      → ((authenticate_credentials u hasher minutes a s).1 ≡ fail_login u hasher minutes a w s)
        × (find_active email (fail_login u hasher minutes a w s).users
            ≡ some (note_failure minutes a.now w))
  unfolding note_failure
  guess-fails email s w a k found (e, wrong) = (
    ap (λ r. r.1) (login-refused u hasher minutes s w a (rw e found) (wrong_password a w wrong)),
    find_active-modify email s.users w (note_failure minutes a.now) (λ x. refl) refl k found,
  )

  guess-IsGuessed :
      (email : String) (v : User) (n : ℕ) (s : Accounts) (a : Attempt)
      → IsGuessed email v n s
      → IsGuess email v a
      → IsGuessed email v (n + 1) (authenticate_credentials u hasher minutes a s).1
  unfolding note_failure
  guess-IsGuessed email v n s a g (e, wrong) =
      let (left, found) = guess-fails email s g.user a g.keyed g.found (e, rw g.same_hash wrong) in
      rw left (record {
        user = note_failure minutes a.now g.user;
        keyed =
            modify-IsKeyed id_of g.user.id (note_failure minutes a.now) (λ w. refl) s.users g.keyed;
        found = found;
        counted = ground (arith, g.counted);
        same_hash = g.same_hash;
      })

  after-IsGuessed :
      (email : String) (v : User) (n : ℕ) (s : Accounts) (attempts : List Attempt)
      → IsGuessed email v n s
      → ((a : Attempt) → Member a attempts → IsGuess email v a)
      → IsGuessed email v (n + length attempts) (after_attempts attempts s)
  after-IsGuessed email v n s [] g h =
      subst (λ k. IsGuessed email v k s) (let e : n ≡ n + 0 = omega arith in e) g
  after-IsGuessed email v n s (a ∷ attempts) g h =
      subst (λ k. IsGuessed email v k (after_attempts (a ∷ attempts) s))
        (let e : n + 1 + length attempts ≡ n + length (a ∷ attempts) = omega arith in e)
        (after-IsGuessed email v (n + 1) (authenticate_credentials u hasher minutes a s).1 attempts
          (guess-IsGuessed email v n s a g (h a (inl refl))) (λ b m. h b (inr m)))

  after_guesses :
      (email : String) (s : Accounts) (v : User) (attempts : List Attempt)
      → IsKeyed id_of s.users
      → find_active email s.users ≡ some v
      → ((a : Attempt) → Member a attempts → IsGuess email v a)
      → IsGuessed email v (length attempts) (after_attempts attempts s)
  after_guesses email s v attempts k found h =
      subst (λ k. IsGuessed email v k (after_attempts attempts s))
        (let e : 0 + length attempts ≡ length attempts = omega arith in e)
        (after-IsGuessed email v 0 s attempts
          (record { user = v; keyed = k; found = found; counted = omega arith; same_hash = refl })
          h)

  note_failure-locked :
      (v : User) (now clock : ℕ)
      → 4 ≤ v.failed_login_count
      → clock < now + lock_time minutes
      → is_locked (note_failure minutes now v) clock ≡ true
  unfolding note_failure is_locked
  note_failure-locked v now clock count h =
      rw (let e : leb 5 (suc v.failed_login_count) ≡ true = ground arith in e) (ground arith)

  locked_out :
      (a : Attempt) (v : User)
      → is_locked v a.clock ≡ true
      → is_verified u hasher minutes a v ≡ false
  unfolding is_verified
  locked_out a v locked = rw locked refl

  -- After guesses at the active account of an address, the last of which is at least the fifth failure
  -- in a row, every login at this account is refused until the lock time has passed since the last
  -- guess, with whatever password. This asks that the identifiers of the accounts are distinct.
  pub lockout :
      (email : String) (s : Accounts) (v : User) (guesses : List Attempt) (last a : Attempt)
      → IsKeyed id_of s.users
      → find_active email s.users ≡ some v
      → ((b : Attempt) → Member b guesses → IsGuess email v b)
      → IsGuess email v last
      → 4 ≤ v.failed_login_count + length guesses
      → login_email u hasher minutes a ≡ email
      → a.clock < last.now + lock_time minutes
      → (authenticate_credentials u hasher minutes a
          (after_attempts (last ∷ []) (after_attempts guesses s))).0
        ≡ err (value_error "Неверная почта или пароль.")
  lockout email s v guesses last a k found h (l, wrong) count e soon =
      let g : IsGuessed email v (length guesses) (after_attempts guesses s) =
        after_guesses email s v guesses k found h in
      let (left, now) =
        guess-fails email (after_attempts guesses s) g.user last g.keyed g.found
          (l, rw g.same_hash wrong) in
      rw left (
        ap (λ r. r.0)
          (login-refused u hasher minutes
            (fail_login u hasher minutes last g.user (after_attempts guesses s))
            (note_failure minutes last.now g.user) a (rw e now)
            (locked_out a (note_failure minutes last.now g.user)
              (note_failure-locked g.user last.now a.clock (rw g.counted count) soon))))

  note_failure-unlocked :
      (w : User) (now clock : ℕ)
      → is_locked w clock ≡ false
      → now + lock_time minutes ≤ clock
      → is_locked (note_failure minutes now w) clock ≡ false
  unfolding note_failure is_locked
  note_failure-unlocked w now clock free past =
      elim (Bool-cases (leb 5 (suc w.failed_login_count))) [
        | inl e ↦ rw e (ground arith)
        | inr e ↦ rw e free
      ]

  abbrev IsUnlocked : String → String → ℕ → Accounts → Type 0
  IsUnlocked email password_hash clock s =
      (x : User) × IsKeyed id_of s.users
      × (find_active email s.users ≡ some x)
      × (x.password_hash ≡ password_hash)
      × (is_locked x clock ≡ false)

  -- Guesses whose lock time is over leave no lock.
  after-IsUnlocked :
      (email : String) (clock : ℕ) (s : Accounts) (w : User) (guesses : List Attempt)
      → IsKeyed id_of s.users
      → find_active email s.users ≡ some w
      → ((b : Attempt) → Member b guesses → IsGuess email w b × (b.now + lock_time minutes ≤ clock))
      → is_locked w clock ≡ false
      → IsUnlocked email w.password_hash clock (after_attempts guesses s)
  unfolding note_failure
  after-IsUnlocked email clock s w [] k found h free = (w, k, found, refl, free)
  after-IsUnlocked email clock s w (b ∷ guesses) k found h free =
      let (g, past) = h b (inl refl) in
      let (left, now) = guess-fails email s w b k found g in
      subst (λ t. IsUnlocked email w.password_hash clock (after_attempts guesses t)) (sym left)
        (after-IsUnlocked email clock (fail_login u hasher minutes b w s)
          (note_failure minutes b.now w) guesses
          (modify-IsKeyed id_of w.id (note_failure minutes b.now) (λ x. refl) s.users k) now
          (λ c m. h c (inr m)) (note_failure-unlocked w b.now clock free past))

  -- Nobody is locked out for good: after any number of guesses at an active account, the right
  -- password logs in at any clock to which the lock time of each guess and the account's own lock, if
  -- it had one, have passed. This asks that the identifiers of the accounts are distinct.
  pub login_after_lock :
      (email : String) (s : Accounts) (v : User) (guesses : List Attempt) (a : Attempt)
      → IsKeyed id_of s.users
      → find_active email s.users ≡ some v
      → ((b : Attempt)
          → Member b guesses
          → IsGuess email v b × (b.now + lock_time minutes ≤ a.clock))
      → is_locked v a.clock ≡ false
      → login_email u hasher minutes a ≡ email
      → hasher.verify v.password_hash a.password ≡ true
      → (w : User) × ((authenticate_credentials u hasher minutes a (after_attempts guesses s)).0
          ≡ ok w)
  unfolding is_verified
  login_after_lock email s v guesses a k found h free e right =
      let (x, keyed, seen, same, unlocked) =
        after-IsUnlocked email a.clock s v guesses k found h free in
      let pass : is_verified u hasher minutes a x ≡ true = rw (unlocked, same, right) refl in
      (
        note_success (replacement_hash u hasher minutes a x) a.now x,
        ap (λ r. r.0)
            (login-granted u hasher minutes (after_attempts guesses s) x a keyed (rw e seen) pass),
      )
