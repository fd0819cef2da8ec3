-- ===== src/World.antt =====
-- The state that the queue facade and the workers share: the `jobs` table, the registry, and the
-- Redis side of ARQ. Redis itself is not modelled: `delivered` and `aborted` list the calls made.
pub mod Follows
use rag_llm.Prelude.{
  String, Bool, true, false, Option, none, some, List, [], ◌∷◌, is_empty, strip, if◌then◌else◌,
}
use rag_llm.Failure.{Result, ok, err, Action, cancelled_error}
use rag_llm.Job.{Store, Field, update_job}

-- `enqueue_job(function, job_id, _job_id=job_id, _queue_name=queue)`
pub record Delivery : Type 0 where
  pub function : String
  pub job_id : String
  pub queue : String

-- What becomes of one await of a task: it returns, or `asyncio.CancelledError` is raised in it, and
-- its statement has been carried out or has not.
pub data Await : Type 0 where
  returned interrupted dropped : Await

pub record World (R : Type 0) : Type 0 where
  pub store : Store
  pub registry : R
  pub connected : Bool
  pub delivered : List Delivery
  pub aborted : List String
  -- the files that `Path.unlink` was called on, as resolved path segments
  pub unlinked : List (List String)
  -- the awaits to come of the running task; those after the last return
  pub awaits : List Await

module _ {R A : Type 0} where
  abbrev pub await_by : List Await → Action (World R) A → Action (World R) A
  await_by [] m w = m w
  await_by (returned ∷ awaits) m w = m (record w { awaits = awaits })
  await_by (interrupted ∷ awaits) m w = (err cancelled_error, (m (record w { awaits = awaits })).1)
  await_by (dropped ∷ awaits) m w = (err cancelled_error, record w { awaits = awaits })

  -- `await` of one statement.
  unfoldable pub awaited : Action (World R) A → Action (World R) A
  awaited m w = await_by w.awaits m w

  -- A part of a task, with what becomes of its awaits.
  unfoldable pub scheduled : List Await → Action (World R) A → Action (World R) A
  scheduled awaits m w = m (record w { awaits = awaits })

module _ {R : Type 0} where
  -- What other processes do to the shared state while this one waits.
  unfoldable pub interleave : (World R → World R) → Action (World R) (Unit {0})
  unfolding awaited
  interleave others = awaited (λ w. (ok tt, record (others w) { awaits = w.awaits }))

  -- A call outside the shared state.
  unfoldable pub lift : {A : Type 0} → Result A → Action (World R) A
  lift r w = (r, w)

  -- A statement on the `jobs` table.
  unfoldable pub set_job : String → List Field → Action (World R) (Unit {0})
  set_job id fields w = (ok tt, record w { store = update_job id fields w.store })

  -- `await asyncio.to_thread(store.update_job, ...)`
  unfoldable pub write_job : String → List Field → Action (World R) (Unit {0})
  unfolding awaited set_job
  write_job id fields = awaited (set_job id fields)

  abbrev pub back : World R → Result (Unit {0}) × R → Result (Unit {0}) × World R
  back w (r, registry) = (r, record w { registry = registry })

  -- A statement on the registry.
  unfoldable pub on_registry : Action R (Unit {0}) → Action (World R) (Unit {0})
  on_registry m w = back w (m w.registry)

  -- `if text: …`
  unfoldable pub when_given : String → Action (World R) (Unit {0}) → Action (World R) (Unit {0})
  when_given given m w = if is_empty given then (ok tt, w) else m w

-- `str(payload.get(key, "")).strip()`
unfoldable pub stripped : Option String → String
unfolding strip
stripped none = ""
stripped (some s) = strip s
