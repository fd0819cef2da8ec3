-- ===== src/Worker/Deletion.antt =====
-- `delete_document_job` of ingestion_worker.py. A resolved path is the list of its segments from
-- the root; the file system is a parameter.
pub mod Lifecycle
pub mod Ending
use rag_llm.Prelude.{
  ℕ, String, Bool, true, false, Option, none, some, List, [], ◌∷◌, ◌++◌, ◌==◌, string_eq, is_empty,
  if◌then◌else◌,
}
use rag_llm.Failure.{
  Error, runtime_error, value_error, cancelled_error, message, Result, ok, err, Action, pure, raise,
  try_except, try_finally, ◌>>=◌, ◌>>◌,
}
use rag_llm.Job.{
  closing, JobView, Payload, Report, reported, running, completed, failed, Field, get_job,
}
use rag_llm.World.{World, awaited, scheduled, write_job, interleave, lift, stripped}
use rag_llm.Worker.Task.{
  Exit, Poll, Run, TaskResult, was_cancelled, finished, unwanted, is_flagged, chosen, report_of,
  failure,
}

-- `root in path.parents`: the root is a proper prefix of the path.
unfoldable pub in_parents : List String → List String → Bool
in_parents [] [] = false
in_parents [] (p ∷ path) = true
in_parents (r ∷ root) [] = false
in_parents (r ∷ root) (p ∷ path) = if r == p then in_parents root path else false

-- What the file system answers to the two calls of one run.
pub record Disk : Type 0 where
  pub resolve : String → Result (List String)
  pub unlinks : Result (Unit {0})

module _ {R : Type 0} (id : String) where
  close : ℕ → Action (World R) (Unit {0})
  close t = write_job id (closing t)

  fail_job : ℕ → Error → Action (World R) (Unit {0})
  fail_job t e =
      write_job id (Field.status failed ∷ Field.error (message e) ∷ Field.finished_at t ∷ [])

  -- `path.unlink(missing_ok=True)`; the file system decides whether it raises.
  unlink : Result (Unit {0}) → List String → Action (World R) (Unit {0})
  unlink (ok u) path w = (ok tt, record w { unlinked = w.unlinked ++ path ∷ [] })
  unlink (err e) path w = (err e, w)

  complete : Disk → ℕ → List String → Report → Action (World R) (TaskResult Report)
  complete disk t path r =
      unlink disk.unlinks path
      >> write_job id (
          Field.status completed
          ∷ Field.progress 100
          ∷ Field.result (reported r)
          ∷ Field.finished_at t
          ∷ [])
      >> pure (finished r)

  exited : Disk → ℕ → List String → Exit (World R) → Action (World R) (TaskResult Report)
  exited disk t path e = do
    interleave e.others
    r ← lift (report_of e.report e.stderr)
    if e.success
        then complete disk t path r
        else raise (runtime_error (failure r "document deletion failed"))

  after_round :
      Disk
      → ℕ
      → List String
      → Option (Exit (World R))
      → Action (World R) (TaskResult Report)
      → Action (World R) (TaskResult Report)
  after_round disk t path none rest = rest
  after_round disk t path (some e) rest = exited disk t path e

  decide :
      Disk
      → ℕ
      → List String
      → Bool
      → Option (Exit (World R))
      → Action (World R) (TaskResult Report)
      → Action (World R) (TaskResult Report)
  decide disk t path true exit rest = close t >> pure was_cancelled
  decide disk t path false exit rest =
      write_job id (Field.progress 70 ∷ []) >> after_round disk t path exit rest

  watch : Disk → ℕ → List String → List (Poll (World R)) → Action (World R) (TaskResult Report)
  watch disk t path [] = raise cancelled_error
  watch disk t path (p ∷ ps) =
      let rest = watch disk t path ps in
      interleave p.others >> λ w. decide disk t path (is_flagged id w.store) p.exit rest w

  checked : Disk → List String → List String → Run (World R) → Action (World R) (TaskResult Report)
  checked disk root path run =
      if in_parents root path
      then lift run.spawned >> watch disk run.ended path run.polls
      else raise (value_error "document path is outside the upload directory")

  task : Disk → List String → String → Run (World R) → Action (World R) (TaskResult Report)
  task disk root raw_path run =
      if is_empty raw_path
      then raise (value_error "deletion path is required")
      else lift (disk.resolve raw_path) >>= λ path. checked disk root path run

  execute : Disk → List String → String → Run (World R) → Action (World R) (TaskResult Report)
  execute disk root raw_path run =
      scheduled run.outside (
        interleave run.others
        >> write_job id
            (Field.status running ∷ Field.progress 10 ∷ Field.started_at run.started ∷ []))
      >> try_finally run.stopped (
          try_except (scheduled run.inside (task disk root raw_path run))
            (scheduled run.handling (close run.ended))
            (λ e. scheduled run.handling (fail_job run.ended e)))

-- `root` is the resolved upload directory.
module _ {R : Type 0} (disk : Disk) (root : List String) (id : String) (run : Run (World R)) where
  with_payload : Option JobView → Option Payload → Action (World R) (TaskResult Report)
  with_payload job none = raise (value_error "deletion job payload not found")
  with_payload job (some p) =
      if unwanted job
      then scheduled run.outside (close id run.started) >> pure was_cancelled
      else execute id disk root (stripped p.path) run

  pub delete_document_job : Option Payload → Action (World R) (TaskResult Report)
  delete_document_job payload =
      lift run.read >> λ w. with_payload (get_job id w.store) (chosen payload id w.store) w
