-- ===== src/Failure.antt =====
-- Python's exceptions as values, and the methods that change state and may raise.
use rag_llm.Prelude.{String, Bool, true, false, if◌then◌else◌}

-- One constructor for each exception class that the modelled code raises or tells apart; the
-- text is the exception's message. `cancelled_error` is `asyncio.CancelledError`, which
-- `except Exception` does not catch.
pub data Error : Type 0 where
  runtime_error value_error permission_error other_error : String → Error
  cancelled_error : Error

-- `str(exc)`
unfoldable pub message : Error → String
message (runtime_error m) = m
message (value_error m) = m
message (permission_error m) = m
message (other_error m) = m
message cancelled_error = ""

-- Whether `except Exception` catches it.
unfoldable pub is_exception : Error → Bool
is_exception cancelled_error = false
is_exception _ = true

pub data Result {ℓ} (A : Type ℓ) : Type ℓ where
  ok : A → Result A
  err : Error → Result A

-- What was written before a raise stays written: the state comes back beside the error.
abbrev pub Action : Type 0 → Type 0 → Type 0
Action S A = S → Result A × S

module _ {S A : Type 0} where
  abbrev pub pure : A → Action S A
  pure a s = (ok a, s)

  abbrev pub raise : Error → Action S A
  raise e s = (err e, s)

  -- `try: m  except CancelledError: on_cancel; raise  except Exception as exc: on_error(exc); raise`.
  -- An exception of a handler replaces the one that it handles.
  abbrev pub rethrow : Error → Result (Unit {0}) × S → Result A × S
  rethrow e (ok u, s) = (err e, s)
  rethrow e (err e', s) = (err e', s)

  abbrev pub handled :
      Action S (Unit {0}) → (Error → Action S (Unit {0})) → Result A × S → Result A × S
  handled on_cancel on_error (ok a, s) = (ok a, s)
  handled on_cancel on_error (err e, s) =
      if is_exception e then rethrow e (on_error e s) else rethrow e (on_cancel s)

  unfoldable pub try_except :
      Action S A → Action S (Unit {0}) → (Error → Action S (Unit {0})) → Action S A
  try_except m on_cancel on_error s = handled on_cancel on_error (m s)

  -- `finally`, with what its block raises in place of the result.
  unfoldable pub try_finally : Result (Unit {0}) → Action S A → Action S A
  try_finally (ok u) m s = m s
  try_finally (err e) m s = (err e, (m s).1)

module _ {S A B : Type 0} where
  abbrev pub next_of : (A → Action S B) → Result A × S → Result B × S
  next_of f (ok a, s) = f a s
  next_of f (err e, s) = (err e, s)

  infixl 5 ◌>>=◌ ◌>>◌
  unfoldable pub ◌>>=◌ : Action S A → (A → Action S B) → Action S B
  ◌>>=◌ m f s = next_of f (m s)

  unfoldable pub ◌>>◌ : Action S A → Action S B → Action S B
  unfolding ◌>>=◌
  m >> n = m >>= λ _. n
