-- ===== src/Account/Text.antt =====
-- The checks of an account's fields in local_auth.py. Unicode normalization and case folding are
-- parameters.
use Prim.Native.Char.{Char, code}
use rag_llm.Prelude.{
  String, ◌≡◌, refl, Bool, true, false, not, ◌&&◌, ◌||◌, [], ◌∷◌, leb, ltb, eqb, is_empty, is_space,
  strip, length_chars, split_at, if◌then◌else◌,
}
use rag_llm.Failure.{Result, ok, err, value_error}

-- `unicodedata.normalize("NFKC", s)` and `s.casefold()`
pub record Unicode : Type 0 where
  pub nfkc : String → String
  pub casefold : String → String

unfoldable pub is_in : Char → String → Bool
is_in c String.[] = false
is_in c (String.◌∷◌ d s) = eqb (code c) (code d) || is_in c s

-- `[A-Za-z0-9]`
unfoldable pub is_alphanumeric : Char → Bool
is_alphanumeric c =
    (leb 65 (code c) && leb (code c) 90)
    || (leb 97 (code c) && leb (code c) 122)
    || (leb 48 (code c) && leb (code c) 57)

unfoldable pub all_chars : (Char → Bool) → String → Bool
all_chars f String.[] = true
all_chars f (String.◌∷◌ c s) = f c && all_chars f s

unfoldable pub ends_alphanumeric : String → Bool
unfolding is_alphanumeric
ends_alphanumeric String.[] = false
ends_alphanumeric (String.◌∷◌ c s) =
    let rest = ends_alphanumeric s in if is_empty s then is_alphanumeric c else rest

unfoldable pub starts_alphanumeric : String → Bool
unfolding is_alphanumeric
starts_alphanumeric String.[] = false
starts_alphanumeric (String.◌∷◌ c s) = is_alphanumeric c

unfoldable pub is_local_part : String → Bool
unfolding is_alphanumeric is_in all_chars
is_local_part s =
    not (is_empty s) && all_chars (λ c. is_alphanumeric c || is_in c ".!#$%&'*+/=?^_`{|}~-") s

-- One character, or two with at most 251 between them.
unfoldable pub is_domain : String → Bool
unfolding is_alphanumeric is_in all_chars starts_alphanumeric ends_alphanumeric
is_domain s =
    starts_alphanumeric s
    && ends_alphanumeric s
    && leb (length_chars s) 253
    && all_chars (λ c. is_alphanumeric c || is_in c ".-") s

-- `_EMAIL_RE.fullmatch(email)`; neither part has an @.
unfoldable pub is_email : String → Bool
unfolding is_local_part is_domain
is_email s = elim (split_at b'@' s) [
  | [] ↦ false
  | local ∷ rest ↦ elim rest [
    | [] ↦ false
    | domain ∷ more ↦ elim more [ [] ↦ is_local_part local && is_domain domain | _ ∷ _ ↦ false ]
  ]
]

-- `email.partition("@")[0]`
unfoldable pub before_at : String → String
before_at String.[] = String.[]
before_at (String.◌∷◌ c s) =
    let rest = before_at s in if eqb (code c) b'@' then String.[] else String.◌∷◌ c rest

unfoldable pub starts_with : String → String → Bool
starts_with String.[] s = true
starts_with (String.◌∷◌ c p) String.[] = false
starts_with (String.◌∷◌ c p) (String.◌∷◌ d s) = eqb (code c) (code d) && starts_with p s

-- `part in s`
unfoldable pub is_within : String → String → Bool
unfolding starts_with
is_within part String.[] = is_empty part
is_within part (String.◌∷◌ c s) = starts_with part (String.◌∷◌ c s) || is_within part s

-- `" ".join(s.split())`: each run of white space between words is one space.
unfoldable pub squeeze_after : Bool → String → String
squeeze_after gap String.[] = String.[]
squeeze_after gap (String.◌∷◌ c s) =
    let skipped = squeeze_after true s in
    let kept = squeeze_after false s in
    if is_space c
    then skipped
    else if gap
    then String.◌∷◌ " " (String.◌∷◌ c kept)
    else String.◌∷◌ c kept

unfoldable pub squeeze : String → String
unfolding squeeze_after
squeeze s = squeeze_after false (strip s)

module _ (u : Unicode) where
  unfoldable pub normalize_email : String → Result String
  normalize_email value =
      let email = u.casefold (strip (u.nfkc value)) in
      if ltb 254 (length_chars email) || not (is_email email)
      then err (value_error "Укажите корректный адрес электронной почты.")
      else ok email

  unfoldable pub holds_email : String → String → Bool
  unfolding before_at is_within
  holds_email password email =
      leb 4 (length_chars (before_at email)) && is_within (before_at email) (u.casefold password)

  unfoldable pub validate_password : String → String → Result (Unit {0})
  validate_password password email =
      if ltb (length_chars password) 12
      then err (value_error "Пароль должен содержать не менее 12 символов.")
      else if ltb 128 (length_chars password)
      then err (value_error "Пароль не должен быть длиннее 128 символов.")
      else if holds_email password email
      then err (value_error "Пароль не должен содержать адрес электронной почты.")
      else ok tt

  unfoldable pub name_or_local_part : String → String → String
  unfolding squeeze before_at
  name_or_local_part value email =
      let name = squeeze (u.nfkc value) in if is_empty name then before_at email else name

  unfoldable pub display_name : String → String → Result String
  unfolding name_or_local_part
  display_name value email =
      let name = name_or_local_part value email in
      if leb 2 (length_chars name) && leb (length_chars name) 80
      then ok name
      else err (value_error "Имя должно содержать от 2 до 80 символов.")

email_accepted : is_email "anna.k+rag@example-1.org" ≡ true
unfolding is_email split_at length_chars
email_accepted = refl

email_refused : is_email "anna@-example.org" ≡ false
unfolding is_email split_at length_chars
email_refused = refl

squeezed : squeeze "  Anna \n  K. " ≡ "Anna K."
unfolding squeeze strip is_space
squeezed = refl
