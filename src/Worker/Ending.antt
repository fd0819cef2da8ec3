-- ===== src/Worker/Ending.antt =====
-- How a worker function may end: its result and the status of its job record.
use rag_llm.Prelude.{
  ℕ, String, ◌≡◌, refl, Bool, true, false, some, List, [], is_some, Bool-cases, inl, inr,
  if◌then◌else◌,
}
use rag_llm.Failure.{
  Error, Result, ok, err, is_exception, Action, pure, raise, rethrow, handled, try_except,
  try_finally, next_of, ◌>>=◌, ◌>>◌,
}
use rag_llm.Job.{
  closing, Status, Job, completed, failed, cancelled, Store, Field, set_fields, fetch, update_job,
}
use rag_llm.Job.Laws.{fetch-update_job_self}
use rag_llm.World.{World, Await, scheduled, lift}
use rag_llm.Worker.Task.{TaskResult, was_cancelled, finished}

-- The record of `id`, if there is one, has the status and a final time.
abbrev pub HasEnded : String → Status → Store → Type 0
HasEnded id status s =
    (j : Job) → fetch id s ≡ some j → (j.status ≡ status) × (is_some j.finished_at ≡ true)

-- The status that a result stands for: a raised exception is a failure, an abort a cancellation.
unfoldable pub status_of : {A : Type 0} → Result (TaskResult A) → Status
status_of (ok was_cancelled) = cancelled
status_of (ok (finished a)) = completed
status_of (err e) = if is_exception e then failed else cancelled

-- The record says what the result says.
abbrev pub Agrees : {A : Type 0} → String → Result (TaskResult A) → Store → Type 0
Agrees id r s = HasEnded id (status_of r) s

-- The same of the block under `try`, which settles only what it returns.
abbrev pub AgreesIfOk : {A : Type 0} → String → Result (TaskResult A) → Store → Type 0
AgreesIfOk id (ok x) s = Agrees id (ok x) s
AgreesIfOk id (err e) s = Unit

pub record Settles {R A : Type 0} (id : String) (m : Action (World R) (TaskResult A)) : Type 0 where
  pub at : (w : World R) → AgreesIfOk id (m w).0 (m w).1.store

-- The action returns, and all it does to the table is one write.
pub record Writes {R : Type 0} (id : String) (fs : List Field) (m : Action (World R) (Unit {0}))
    : Type 0 where
  pub returns : (w : World R) → (m w).0 ≡ ok tt
  pub stored : (w : World R) → (m w).1.store ≡ update_job id fs w.store

-- All that the action does to the table, if it returns, is one write.
pub record WritesIfOk {R : Type 0} (id : String) (fs : List Field) (m : Action (World R) (Unit {0}))
    : Type 0 where
  pub stored : (w : World R) → (m w).0 ≡ ok tt → (m w).1.store ≡ update_job id fs w.store

-- The action leaves the table alone.
pub record KeepsStore {R : Type 0} (m : Action (World R) (Unit {0})) : Type 0 where
  pub kept : (w : World R) → (m w).1.store ≡ w.store

-- Without an abort the action returns.
pub record ReturnsUncut {R : Type 0} (m : Action (World R) (Unit {0})) : Type 0 where
  pub at : (w : World R) → w.awaits ≡ [] → ((m w).0 ≡ ok tt) × ((m w).1.awaits ≡ [])

module _ {R A : Type 0} (id : String) where
  pub Settles-raise : (e : Error) → Settles {R = R} {A = A} id (raise e)
  Settles-raise e = record { at = λ w. tt }

  pub Settles-if :
      (b : Bool) (m n : Action (World R) (TaskResult A))
      → Settles id m
      → Settles id n
      → Settles id (if b then m else n)
  Settles-if true m n sm sn = sm
  Settles-if false m n sm sn = sn

module _ {R A B : Type 0} (id : String) where
  next_of-AgreesIfOk :
      (f : B → Action (World R) (TaskResult A)) (p : Result B × World R)
      → ((b : B) → Settles id (f b))
      → AgreesIfOk id (next_of f p).0 (next_of f p).1.store
  next_of-AgreesIfOk f (ok b, w) sf = (sf b).at w
  next_of-AgreesIfOk f (err e, w) sf = tt

  pub Settles-bind :
      (m : Action (World R) B) (f : B → Action (World R) (TaskResult A))
      → ((b : B) → Settles id (f b))
      → Settles id (m >>= f)
  unfolding ◌>>=◌
  Settles-bind m f sf = record { at = λ w. next_of-AgreesIfOk f (m w) sf }

  pub Settles-then :
      (m : Action (World R) B) (n : Action (World R) (TaskResult A))
      → Settles id n
      → Settles id (m >> n)
  unfolding ◌>>◌
  Settles-then m n sn = Settles-bind m (λ _. n) (λ _. sn)

-- The fields set the status and a final time.
abbrev pub Stamps : List Field → Status → Type 0
Stamps fs status =
    (i : Job) → ((set_fields fs i).status ≡ status) × (is_some (set_fields fs i).finished_at ≡ true)

pub closing-Stamps : (t : ℕ) → Stamps (closing t) cancelled
unfolding set_fields
closing-Stamps t i = (refl, refl)

pub HasEnded-update_job :
    (id : String) (fs : List Field) (status : Status) (s t : Store)
    → Stamps fs status
    → t ≡ update_job id fs s
    → HasEnded id status t
HasEnded-update_job id fs status s t stamps e j found =
    let (i, before, same) = fetch-update_job_self id fs s j (rw e at found) in rw same (stamps i)

rethrow-Agrees :
    {R : Type 0} (A : Type 0) (id : String) (e : Error) (fs : List Field) (status : Status)
    (w : World R) (p : Result (Unit {0}) × World R)
    → status_of {A = A} (err e) ≡ status
    → Stamps fs status
    → p.0 ≡ ok tt
    → p.1.store ≡ update_job id fs w.store
    → Agrees id (rethrow {A = TaskResult A} e p).0 (rethrow {A = TaskResult A} e p).1.store
rethrow-Agrees A id e fs status w (ok u, v) s stamps r stored =
    rw s (HasEnded-update_job id fs status w.store v.store stamps stored)
rethrow-Agrees A id e fs status w (err x, v) s stamps r stored = cc

module _ {R A : Type 0} (id : String) where
  -- One write of a status and a final time, and then the matching result.
  pub write-Agrees :
      (fs : List Field) (m : Action (World R) (Unit {0})) (r : TaskResult A)
      → Writes id fs m
      → Stamps fs (status_of (ok r))
      → (w : World R) → Agrees id ((m >> pure r) w).0 ((m >> pure r) w).1.store
  unfolding ◌>>◌
  write-Agrees fs m r wm stamps w = settled (m w) (wm.returns w) (wm.stored w)
    where
      settled :
          (p : Result (Unit {0}) × World R)
          → p.0 ≡ ok tt
          → p.1.store ≡ update_job id fs w.store
          → Agrees id (next_of (λ _. pure r) p).0 (next_of {A = Unit {0}} (λ _. pure r) p).1.store
      settled (ok u, v) e stored =
          HasEnded-update_job id fs (status_of (ok r)) w.store v.store stamps stored
      settled (err x, v) e stored = cc

  pub Settles-write :
      (fs : List Field) (m : Action (World R) (Unit {0})) (r : TaskResult A)
      → WritesIfOk id fs m
      → Stamps fs (status_of (ok r))
      → Settles id (m >> pure r)
  unfolding ◌>>◌
  Settles-write fs m r wm stamps = record { at = λ w. settled w (m w) (wm.stored w) }
    where
      settled :
          (w : World R) (p : Result (Unit {0}) × World R)
          → (p.0 ≡ ok tt → p.1.store ≡ update_job id fs w.store)
          → AgreesIfOk id
              (next_of (λ _. pure r) p).0
              (next_of {A = Unit {0}} (λ _. pure r) p).1.store
      settled w (ok u, v) h =
          HasEnded-update_job id fs (status_of (ok r)) w.store v.store stamps (h refl)
      settled w (err x, v) h = tt

  module _ (on_cancel : Action (World R) (Unit {0}))
      (on_error : Error → Action (World R) (Unit {0})) (cancel_fields : List Field)
      (error_fields : Error → List Field) (wc : Writes id cancel_fields on_cancel)
      (we : (e : Error) → Writes id (error_fields e) (on_error e))
      (sc : Stamps cancel_fields cancelled)
      (se : (e : Error) → Stamps (error_fields e) failed) where
    handled-Agrees :
        (p : Result (TaskResult A) × World R)
        → AgreesIfOk id p.0 p.1.store
        → Agrees id (handled on_cancel on_error p).0 (handled on_cancel on_error p).1.store
    handled-Agrees (ok a, w) h = h
    handled-Agrees (err e, w) h = elim (Bool-cases (is_exception e)) [
      | inl x ↦ rw x (
          rethrow-Agrees A id e (error_fields e) failed w (on_error e w) (unfold status_of in rw x)
            (se e) ((we e).returns w) ((we e).stored w))
      | inr x ↦ rw x (
          rethrow-Agrees A id e cancel_fields cancelled w (on_cancel w) (unfold status_of in rw x)
            sc (wc.returns w) (wc.stored w))
    ]

    -- A `try` whose handlers write the matching status leaves a record that agrees with the result.
    pub try-Agrees :
        (m : Action (World R) (TaskResult A))
        → Settles id m
        → (w : World R)
        → Agrees id
            (try_except m on_cancel on_error w).0
            (try_except m on_cancel on_error w).1.store
    unfolding try_except
    try-Agrees m sm w = handled-Agrees (m w) (sm.at w)

module _ {R A B : Type 0} (id : String) where
  -- After a first part that returns, the rest decides.
  pub then-Agrees :
      (m : Action (World R) B) (n : Action (World R) (TaskResult A)) (w : World R) (b : B)
      → (m w).0 ≡ ok b
      → ((v : World R) → Agrees id (n v).0 (n v).1.store)
      → Agrees id ((m >> n) w).0 ((m >> n) w).1.store
  unfolding ◌>>◌
  then-Agrees m n w b e h = go (m w) e
    where
      go :
          (p : Result B × World R)
          → p.0 ≡ ok b
          → Agrees id (next_of (λ _. n) p).0 (next_of {A = B} (λ _. n) p).1.store
      go (ok x, v) e = h v
      go (err x, v) e = cc

module _ {R A : Type 0} (id : String) where
  pub finally-Agrees :
      (stopped : Result (Unit {0})) (m : Action (World R) (TaskResult A))
      → stopped ≡ ok tt
      → ((w : World R) → Agrees id (m w).0 (m w).1.store)
      → (w : World R) → Agrees id (try_finally stopped m w).0 (try_finally stopped m w).1.store
  unfolding try_finally
  finally-Agrees (ok u) m e h w = h w
  finally-Agrees (err x) m e h w = absurd (cc)

  -- A task whose first reads return goes on.
  pub read-Agrees :
      (read : Result (Unit {0})) (m : Action (World R) (TaskResult A)) (w : World R)
      → read ≡ ok tt
      → Agrees id (m w).0 (m w).1.store
      → Agrees id ((lift read >> m) w).0 ((lift read >> m) w).1.store
  unfolding lift ◌>>◌
  read-Agrees (ok u) m w e h = h
  read-Agrees (err x) m w e h = absurd (cc)

  pub Settles-scheduled :
      (awaits : List Await) (m : Action (World R) (TaskResult A))
      → Settles id m
      → Settles id (scheduled awaits m)
  unfolding scheduled
  Settles-scheduled awaits m sm = record { at = λ w. sm.at (record w { awaits = awaits }) }
