-- ===== src/World/Follows.antt =====
-- Actions of the queue and the workers whose writes to the `jobs` table are steps of the lifecycle
-- of Job/Steps.antt: one rule for each way to build an action.
use rag_llm.Prelude.{String, ◌≡◌, refl, Bool, true, false, List, [], ◌∷◌, if◌then◌else◌, is_empty}
use rag_llm.Failure.{
  Error, Result, ok, err, Action, pure, raise, rethrow, handled, try_except, try_finally,
  is_exception, next_of, ◌>>=◌, ◌>>◌,
}
use rag_llm.Job.{Field}
use rag_llm.Job.Steps.{Write, Reach, here, Reach-trans, one, write}
use rag_llm.World.{
  World, Await, returned, interrupted, dropped, await_by, awaited, scheduled, write_job, set_job,
  on_registry, when_given, interleave, lift,
}

-- Whether the action returns or raises, the table has gone along the lifecycle.
pub record Follows {R A : Type 0} (m : Action (World R) A) : Type 0 where
  pub at : (w : World R) → Reach w.store (m w).1.store

rethrow-store :
    {R : Type 0} (A : Type 0) (e : Error) (p : Result (Unit {0}) × World R)
    → (rethrow {A = A} e p).1.store ≡ p.1.store
rethrow-store A e (ok u, w) = refl
rethrow-store A e (err e', w) = refl

module _ {R A : Type 0} where
  pub Follows-pure : (a : A) → Follows {R = R} (pure a)
  Follows-pure a = record { at = λ w. here }

  pub Follows-raise : (e : Error) → Follows {R = R} {A = A} (raise e)
  Follows-raise e = record { at = λ w. here }

  pub Follows-if :
      (b : Bool) (m n : Action (World R) A) → Follows m → Follows n → Follows (if b then m else n)
  Follows-if true m n fm fn = fm
  Follows-if false m n fm fn = fn

  handled-Reach :
      (on_cancel : Action (World R) (Unit {0})) (on_error : Error → Action (World R) (Unit {0}))
      (p : Result A × World R)
      → Follows on_cancel
      → ((e : Error) → Follows (on_error e))
      → Reach p.1.store (handled on_cancel on_error p).1.store
  handled-Reach on_cancel on_error (ok a, w) fc fe = here
  handled-Reach on_cancel on_error (err e, w) fc fe = choose (is_exception e)
    where
      choose :
          (b : Bool)
          → Reach w.store
              (if b then rethrow {A = A} e (on_error e w) else rethrow e (on_cancel w)).1.store
      choose true = rw (rethrow-store A e (on_error e w)) ((fe e).at w)
      choose false = rw (rethrow-store A e (on_cancel w)) (fc.at w)

  pub Follows-try :
      (m : Action (World R) A) (on_cancel : Action (World R) (Unit {0}))
      (on_error : Error → Action (World R) (Unit {0}))
      → Follows m
      → Follows on_cancel
      → ((e : Error) → Follows (on_error e))
      → Follows (try_except m on_cancel on_error)
  unfolding try_except
  Follows-try m on_cancel on_error fm fc fe = record {
    at = λ w. Reach-trans (fm.at w) (handled-Reach on_cancel on_error (m w) fc fe);
  }

module _ {R A B : Type 0} where
  next_of-Reach :
      (f : A → Action (World R) B) (p : Result A × World R)
      → ((a : A) → Follows (f a))
      → Reach p.1.store (next_of f p).1.store
  next_of-Reach f (ok a, w) ff = (ff a).at w
  next_of-Reach f (err e, w) ff = here

  pub Follows-bind :
      (m : Action (World R) A) (f : A → Action (World R) B)
      → Follows m
      → ((a : A) → Follows (f a))
      → Follows (m >>= f)
  unfolding ◌>>=◌
  Follows-bind m f fm ff = record { at = λ w. Reach-trans (fm.at w) (next_of-Reach f (m w) ff) }

  pub Follows-then :
      (m : Action (World R) A) (n : Action (World R) B) → Follows m → Follows n → Follows (m >> n)
  unfolding ◌>>◌
  Follows-then m n fm fn = Follows-bind m (λ _. n) fm (λ _. fn)

module _ {R A : Type 0} where
  await_by-Reach :
      (awaits : List Await) (m : Action (World R) A)
      → Follows m
      → (w : World R) → Reach w.store (await_by awaits m w).1.store
  await_by-Reach [] m f w = f.at w
  await_by-Reach (returned ∷ awaits) m f w = f.at (record w { awaits = awaits })
  await_by-Reach (interrupted ∷ awaits) m f w = f.at (record w { awaits = awaits })
  await_by-Reach (dropped ∷ awaits) m f w = here

  pub Follows-awaited : (m : Action (World R) A) → Follows m → Follows (awaited m)
  unfolding awaited
  Follows-awaited m f = record { at = λ w. await_by-Reach w.awaits m f w }

  pub Follows-scheduled :
      (awaits : List Await) (m : Action (World R) A) → Follows m → Follows (scheduled awaits m)
  unfolding scheduled
  Follows-scheduled awaits m f = record { at = λ w. f.at (record w { awaits = awaits }) }

  pub Follows-finally :
      (stopped : Result (Unit {0})) (m : Action (World R) A)
      → Follows m
      → Follows (try_finally stopped m)
  unfolding try_finally
  Follows-finally (ok u) m f = record { at = λ w. f.at w }
  Follows-finally (err e) m f = record { at = λ w. f.at w }

module _ {R : Type 0} where
  pub Follows-set_job : (id : String) {fs : List Field} → Write fs → Follows {R = R} (set_job id fs)
  unfolding set_job
  Follows-set_job id w = record { at = λ s. one (write s.store id w) }

  pub Follows-on_registry : (m : Action R (Unit {0})) → Follows (on_registry m)
  unfolding on_registry
  Follows-on_registry m = record { at = λ w. here }

  pub Follows-when_given :
      (s : String) (m : Action (World R) (Unit {0})) → Follows m → Follows (when_given s m)
  unfolding when_given
  Follows-when_given s m fm = record { at = λ w. choose (is_empty s) w }
    where
      choose : (b : Bool) (w : World R) → Reach w.store (if b then (ok tt, w) else m w).1.store
      choose true w = here
      choose false w = fm.at w

-- What the other processes do while this one waits goes along the lifecycle.
pub record Behaves {R : Type 0} (others : World R → World R) : Type 0 where
  pub at : (w : World R) → Reach w.store (others w).store

module _ {R : Type 0} where
  pub Follows-interleave :
      (others : World R → World R) → Behaves others → Follows (interleave others)
  unfolding interleave
  Follows-interleave others b = Follows-awaited _ (record { at = λ w. b.at w })

  pub Follows-write_job :
      (id : String) {fs : List Field} → Write fs → Follows {R = R} (write_job id fs)
  unfolding write_job
  Follows-write_job id w = Follows-awaited _ (Follows-set_job id w)

  pub Follows-lift : {A : Type 0} (r : Result A) → Follows {R = R} (lift r)
  unfolding lift
  Follows-lift r = record { at = λ w. here }

  -- An action that is chosen by looking at the state.
  pub Follows-look :
      {A B : Type 0} (look : World R → B) (m : B → Action (World R) A)
      → ((b : B) → Follows (m b))
      → Follows (λ w. m (look w) w)
  Follows-look look m f = record { at = λ w. (f (look w)).at w }

pub ruleset follows_rules = (
  Follows-pure, Follows-raise, Follows-if, Follows-try, Follows-bind, Follows-then, Follows-set_job,
  Follows-on_registry, Follows-when_given, Follows-interleave, Follows-lift, Follows-awaited,
  Follows-write_job, Follows-scheduled, Follows-finally,
)
