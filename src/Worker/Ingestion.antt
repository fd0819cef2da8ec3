-- ===== src/Worker/Ingestion.antt =====
-- `ingest_document_job` of ingestion_worker.py.
pub mod Lifecycle
pub mod Ending
use rag_llm.Prelude.{
  ℕ, ◌+◌, min, String, Bool, true, false, Option, none, some, List, [], ◌∷◌, is_empty, take_chars,
  if◌then◌else◌,
}
use rag_llm.Failure.{
  Error, runtime_error, value_error, cancelled_error, message, Action, pure, raise, try_except,
  try_finally, ◌>>=◌, ◌>>◌,
}
use rag_llm.Job.{
  closing, JobView, Payload, Report, reported, running, completed, failed, cancelled, Field,
  get_job,
}
use rag_llm.Registry.{Registry, DocumentPatch, text, number, texts, document_at}
use rag_llm.World.{
  World, awaited, scheduled, write_job, on_registry, when_given, interleave, lift, stripped,
}
use rag_llm.Worker.Task.{
  Exit, Poll, Run, TaskResult, was_cancelled, finished, unwanted, is_flagged, chosen, report_of,
  failure,
}

unfoldable pub document_ready : String → Report → DocumentPatch
document_ready id r = record (document_at (some "ready") id 100) {
  metadata = some (
      ("chunks", number r.chunks)
      ∷ ("parsing_backend", text r.parsing_backend)
      ∷ ("warnings", texts r.warnings)
      ∷ []);
}

unfoldable pub document_failed : String → String → DocumentPatch
document_failed id error = record (document_at (some "failed") id 100) {
  processing_state =
      some (record { job_id = some id; progress = some 100; error = some (take_chars 1000 error) });
}

module _ {R : Type 0} (reg : Registry R) (id doc : String) where
  -- `if document_id: update_document(document_id, patch)`
  on_document : DocumentPatch → Action (World R) (Unit {0})
  on_document patch = when_given doc (awaited (on_registry (reg.update_document doc patch)))

  -- The child has been stopped: both records say so.
  cancel_both : ℕ → Action (World R) (Unit {0})
  cancel_both t = write_job id (closing t) >> on_document (document_at (some "cancelled") id 100)

  fail_both : ℕ → Error → Action (World R) (Unit {0})
  fail_both t e =
      write_job id (Field.status failed ∷ Field.error (message e) ∷ Field.finished_at t ∷ [])
      >> on_document (document_failed id (message e))

  complete : ℕ → Report → Action (World R) (TaskResult Report)
  complete t r =
      write_job id (
        Field.status completed
        ∷ Field.progress 100
        ∷ Field.result (reported r)
        ∷ Field.finished_at t
        ∷ [])
      >> on_document (document_ready id r)
      >> pure (finished r)

  -- From `await output_task` on.
  exited : ℕ → Exit (World R) → Action (World R) (TaskResult Report)
  exited t e = do
    interleave e.others
    r ← lift (report_of e.report e.stderr)
    if e.success then complete t r else raise (runtime_error (failure r "ingestion failed"))

  note_progress : ℕ → Action (World R) (Unit {0})
  note_progress n = write_job id (Field.progress n ∷ []) >> on_document (document_at none id n)

  after_round :
      ℕ
      → Option (Exit (World R))
      → Action (World R) (TaskResult Report)
      → Action (World R) (TaskResult Report)
  after_round t none rest = rest
  after_round t (some e) rest = exited t e

  -- The rest of a round, with what the flag of the persisted job says.
  decide :
      ℕ
      → ℕ
      → Bool
      → Option (Exit (World R))
      → Action (World R) (TaskResult Report)
      → Action (World R) (TaskResult Report)
  decide t n true exit rest = cancel_both t >> pure was_cancelled
  decide t n false exit rest = note_progress n >> after_round t exit rest

  -- `while process.returncode is None: …`
  watch : ℕ → ℕ → List (Poll (World R)) → Action (World R) (TaskResult Report)
  watch t progress [] = raise cancelled_error
  watch t progress (p ∷ ps) =
      let n = min 90 (progress + 2) in
      let rest = watch t n ps in
      interleave p.others >> λ w. decide t n (is_flagged id w.store) p.exit rest w

  task : String → Run (World R) → Action (World R) (TaskResult Report)
  task path run =
      if is_empty path
      then raise (value_error "ingestion path is required")
      else lift run.spawned >> watch run.ended 20 run.polls

  execute : String → Run (World R) → Action (World R) (TaskResult Report)
  execute path run =
      scheduled run.outside (
        interleave run.others
        >> write_job id
            (Field.status running ∷ Field.progress 10 ∷ Field.started_at run.started ∷ [])
        >> on_document (document_at (some "processing") id 10))
      >> try_finally run.stopped (
          try_except (scheduled run.inside (task path run))
            (scheduled run.handling (cancel_both run.ended))
            (λ e. scheduled run.handling (fail_both run.ended e)))

  skip : Run (World R) → Action (World R) (TaskResult Report)
  skip run =
      scheduled run.outside (
        write_job id (Field.status cancelled ∷ Field.finished_at run.started ∷ [])
        >> on_document (document_at (some "cancelled") id 100))
      >> pure was_cancelled

module _ {R : Type 0} (reg : Registry R) (id : String) (run : Run (World R)) where
  with_payload : Option JobView → Option Payload → Action (World R) (TaskResult Report)
  with_payload job none = raise (value_error "ingestion job payload not found")
  with_payload job (some p) =
      if unwanted job
      then skip reg id (stripped p.document_id) run
      else execute reg id (stripped p.document_id) (stripped p.path) run

  pub ingest_document_job : Option Payload → Action (World R) (TaskResult Report)
  ingest_document_job payload =
      lift run.read >> λ w. with_payload (get_job id w.store) (chosen payload id w.store) w
