-- ===== src/Worker/Deletion/Ending.antt =====
-- How `delete_document_job` (ingestion_worker.py) ends when nothing aborts it outside its `try`.
use rag_llm.Prelude.{
  ℕ, String, ◌≡◌, refl, Bool, true, false, Option, none, some, List, [], ◌∷◌, is_empty,
  if◌then◌else◌,
}
use rag_llm.Failure.{Error, Result, ok, err, Action, message, pure, ◌>>◌}
use rag_llm.Job.{closing, Payload, Report, completed, failed, Field, get_job, set_fields, reported}
use rag_llm.World.{World, Await, scheduled, write_job, stripped, interleave}
use rag_llm.Worker.Task.{
  Exit, Poll, Run, IsUndisturbed, TaskResult, is_flagged, unwanted, chosen, was_cancelled, finished,
}
use rag_llm.Worker.Ending.{
  Agrees, Settles, Writes, Stamps, Settles-raise, Settles-if, Settles-bind, Settles-then,
  Settles-write, try-Agrees, read-Agrees, then-Agrees, write-Agrees, closing-Stamps, status_of,
  Settles-scheduled, finally-Agrees, KeepsStore,
}
use rag_llm.Worker.Writes.{
  then-ReturnsUncut, interleave-ReturnsUncut, write_job-WritesIfOk, write_job-ReturnsUncut,
  before-WritesIfOk, scheduled-Writes,
}
use rag_llm.Worker.Deletion.{
  Disk, in_parents, close, fail_job, unlink, complete, exited, after_round, decide, watch, checked,
  task, execute, with_payload, delete_document_job,
}

fail_fields : ℕ → Error → List Field
fail_fields t e = Field.status failed ∷ Field.error (message e) ∷ Field.finished_at t ∷ []

fail-Stamps : (t : ℕ) (e : Error) → Stamps (fail_fields t e) failed
unfolding set_fields fail_fields
fail-Stamps t e i = (refl, refl)

abbrev complete_fields : ℕ → Report → List Field
complete_fields t r =
    Field.status completed
    ∷ Field.progress 100
    ∷ Field.result (reported r)
    ∷ Field.finished_at t
    ∷ []

module _ {R : Type 0} (id : String) where
  unlink-KeepsStore :
      (unlinks : Result (Unit {0})) (path : List String)
      → KeepsStore {R = R} (unlink id unlinks path)
  unfolding unlink
  unlink-KeepsStore (ok u) path = record { kept = λ w. refl }
  unlink-KeepsStore (err e) path = record { kept = λ w. refl }

  complete-Settles :
      (disk : Disk) (t : ℕ) (path : List String) (r : Report)
      → Settles {R = R} id (complete id disk t path r)
  unfolding complete
  complete-Settles disk t path r =
      Settles-write id (complete_fields t r)
        (unlink id disk.unlinks path >> write_job id (complete_fields t r)) (finished r)
        (before-WritesIfOk id (complete_fields t r) (unlink id disk.unlinks path)
          (write_job id (complete_fields t r)) (unlink-KeepsStore disk.unlinks path)
          (write_job-WritesIfOk id (complete_fields t r)))
        (unfold set_fields status_of in λ i. (refl, refl))

  exited-Settles :
      (disk : Disk) (t : ℕ) (path : List String) (e : Exit (World R))
      → Settles id (exited id disk t path e)
  unfolding exited
  exited-Settles disk t path e = Settles-then id _ _ (
      Settles-bind id _ _
        λ r. Settles-if id e.success _ _ (complete-Settles disk t path r) (Settles-raise id _))

  after_round-Settles :
      (disk : Disk) (t : ℕ) (path : List String) (exit : Option (Exit (World R)))
      (rest : Action (World R) (TaskResult Report))
      → Settles id rest
      → Settles id (after_round id disk t path exit rest)
  unfolding after_round
  after_round-Settles disk t path none rest s = s
  after_round-Settles disk t path (some e) rest s = exited-Settles disk t path e

  decide-Settles :
      (disk : Disk) (t : ℕ) (path : List String) (exit : Option (Exit (World R)))
      (rest : Action (World R) (TaskResult Report))
      → Settles id rest
      → (flagged : Bool) → Settles id (decide id disk t path flagged exit rest)
  unfolding decide
  decide-Settles disk t path exit rest s true =
      Settles-write id (closing t) (close id t) was_cancelled
        (unfold close in write_job-WritesIfOk id _) (unfold status_of in closing-Stamps t)
  decide-Settles disk t path exit rest s false =
      Settles-then id _ _ (after_round-Settles disk t path exit rest s)

  watch-Settles :
      (disk : Disk) (t : ℕ) (path : List String) (ps : List (Poll (World R)))
      → Settles id (watch id disk t path ps)
  unfolding watch
  watch-Settles disk t path [] = Settles-raise id _
  watch-Settles disk t path (p ∷ ps) = Settles-then id _ _ (record {
    at = λ w.
        (decide-Settles disk t path p.exit (watch id disk t path ps) (watch-Settles disk t path ps)
            (is_flagged id w.store)).at
          w;
  })

  uncut-Writes :
      (awaits : List Await) (fs : List Field)
      → awaits ≡ []
      → Writes {R = R} id fs (scheduled awaits (write_job id fs))
  uncut-Writes awaits fs e =
      scheduled-Writes id fs awaits (write_job id fs) e (write_job-ReturnsUncut id fs)
        (write_job-WritesIfOk id fs)

  close-Writes :
      (awaits : List Await) (t : ℕ)
      → awaits ≡ []
      → Writes {R = R} id (closing t) (scheduled awaits (close id t))
  unfolding close
  close-Writes awaits t e = uncut-Writes awaits (closing t) e

  fail_job-Writes :
      (awaits : List Await) (t : ℕ) (x : Error)
      → awaits ≡ []
      → Writes {R = R} id (fail_fields t x) (scheduled awaits (fail_job id t x))
  unfolding fail_job fail_fields
  fail_job-Writes awaits t x e = uncut-Writes awaits (fail_fields t x) e

  module _ (disk : Disk) (root : List String) (run : Run (World R)) where
    checked-Settles : (path : List String) → Settles id (checked id disk root path run)
    unfolding checked
    checked-Settles path =
        Settles-if id (in_parents root path) _ _
          (Settles-then id _ _ (watch-Settles disk run.ended path run.polls)) (Settles-raise id _)

    task-Settles : (raw : String) → Settles id (task id disk root raw run)
    unfolding task
    task-Settles raw =
        Settles-if id (is_empty raw) _ _ (Settles-raise id _) (Settles-bind id _ _ checked-Settles)

    starting-ok :
        (fs : List Field) (w : World R)
        → run.outside ≡ []
        → (scheduled run.outside (interleave run.others >> write_job id fs) w).0 ≡ ok tt
    unfolding scheduled
    starting-ok fs w e =
        ((then-ReturnsUncut (interleave run.others) (write_job id fs)
            (interleave-ReturnsUncut run.others) (write_job-ReturnsUncut id fs)).at
          (record w { awaits = run.outside }) e).0

    execute-Agrees :
        (raw : String) (w : World R)
        → IsUndisturbed run
        → Agrees id (execute id disk root raw run w).0 (execute id disk root raw run w).1.store
    unfolding execute
    execute-Agrees raw w u = then-Agrees id _ _ w tt (starting-ok _ w u.outside) (
        finally-Agrees id run.stopped _ u.stopped (
          try-Agrees id (scheduled run.handling (close id run.ended))
            (λ e. scheduled run.handling (fail_job id run.ended e)) (closing run.ended)
            (fail_fields run.ended) (close-Writes run.handling run.ended u.handling)
            (λ e. fail_job-Writes run.handling run.ended e u.handling) (closing-Stamps run.ended)
            (fail-Stamps run.ended) (scheduled run.inside (task id disk root raw run))
            (Settles-scheduled id run.inside _ (task-Settles raw))))

module _ {R : Type 0} (disk : Disk) (root : List String) (id : String) (run : Run (World R)) where
  -- A run that finds a payload leaves the record with the status that its result stands for, and
  -- with a final time, whatever the child and the other processes do, whatever the file system
  -- answers and at whichever awaits under the `try` the task is aborted. It asks that the first reads
  -- return and that no abort comes before the `try`, in a handler or in the `finally` block.
  pub delete-Agrees :
      (payload : Option Payload) (p : Payload) (w : World R)
      → IsUndisturbed run
      → chosen payload id w.store ≡ some p
      → Agrees id
          (delete_document_job disk root id run payload w).0
          (delete_document_job disk root id run payload w).1.store
  unfolding delete_document_job with_payload
  delete-Agrees payload p w u found =
      read-Agrees id run.read
        (λ v. with_payload disk root id run (get_job id v.store) (chosen payload id v.store) v) w
        u.read (rw (found, with_payload) (go (unwanted (get_job id w.store))))
    where
      early : Action (World R) (TaskResult Report)
      early = scheduled run.outside (close id run.started) >> pure was_cancelled

      full : Action (World R) (TaskResult Report)
      full = execute id disk root (stripped p.path) run

      go :
          (b : Bool)
          → Agrees id ((if b then early else full) w).0 ((if b then early else full) w).1.store
      go true =
          write-Agrees {R = R} {A = Report} id (closing run.started)
            (scheduled run.outside (close id run.started)) was_cancelled
            (close-Writes id run.outside run.started u.outside)
            (unfold status_of in closing-Stamps run.started) w
      go false = execute-Agrees id disk root run (stripped p.path) w u
