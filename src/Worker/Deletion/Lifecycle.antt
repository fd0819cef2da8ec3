-- ===== src/Worker/Deletion/Lifecycle.antt =====
-- The writes of `delete_document_job` (ingestion_worker.py) to the `jobs` table.
use rag_llm.Prelude.{
  ℕ, String, Bool, true, false, Option, none, some, List, [], ◌∷◌, arith, is_empty,
}
use rag_llm.Failure.{Error, Result, ok, err, Action, ◌>>=◌, ◌>>◌}
use rag_llm.Job.{JobView, Payload, Report, get_job, Field}
use rag_llm.Job.Steps.{Write, Reach}
use rag_llm.World.{World, stripped, lift, write_job}
use rag_llm.World.Follows.{
  Follows, Behaves, Follows-look, Follows-bind, Follows-scheduled, Follows-finally,
  Follows-write_job, Follows-then, Follows-try, Follows-if, Follows-raise, Follows-lift,
  Follows-interleave, follows_rules,
}
use rag_llm.Worker.Task.{Exit, Poll, Run, TaskResult, is_flagged, unwanted, chosen}
use rag_llm.Worker.Behaviour.{BehavesExit, BehavesPolls, BehavesRun}
use rag_llm.Worker.Deletion.{
  Disk, in_parents, close, fail_job, unlink, complete, exited, after_round, decide, watch, checked,
  task, execute, with_payload, delete_document_job,
}

ruleset writes = (Write.start, Write.complete, Write.fail, Write.cancel)

module _ {R : Type 0} (id : String) where
  close-Follows : (t : ℕ) → Follows {R = R} (close id t)
  unfolding close
  close-Follows t = search (follows_rules, writes)

  fail_job-Follows : (t : ℕ) (e : Error) → Follows {R = R} (fail_job id t e)
  unfolding fail_job
  fail_job-Follows t e = search (follows_rules, writes)

  unlink-Follows :
      (unlinks : Result (Unit {0})) (path : List String) → Follows {R = R} (unlink id unlinks path)
  unfolding unlink
  unlink-Follows (ok u) path = record { at = λ w. Reach.here }
  unlink-Follows (err e) path = record { at = λ w. Reach.here }

  complete-Follows :
      (disk : Disk) (t : ℕ) (path : List String) (r : Report)
      → Follows {R = R} (complete id disk t path r)
  unfolding complete
  complete-Follows disk t path r = search (follows_rules, writes, unlink-Follows)

  exited-Follows :
      (disk : Disk) (t : ℕ) (path : List String) (e : Exit (World R))
      → Behaves e.others
      → Follows (exited id disk t path e)
  unfolding exited
  exited-Follows disk t path e b = search (follows_rules, complete-Follows)

  after_round-Follows :
      (disk : Disk) (t : ℕ) (path : List String) (exit : Option (Exit (World R)))
      (rest : Action (World R) (TaskResult Report))
      → BehavesExit exit
      → Follows rest
      → Follows (after_round id disk t path exit rest)
  unfolding after_round
  after_round-Follows disk t path none rest b f = f
  after_round-Follows disk t path (some e) rest b f = exited-Follows disk t path e b

  progress-Follows : Follows {R = R} (write_job id (Field.progress 70 ∷ []))
  progress-Follows = Follows-write_job id (Write.advance 70 (omega arith))

  decide-Follows :
      (disk : Disk) (t : ℕ) (path : List String) (exit : Option (Exit (World R)))
      (rest : Action (World R) (TaskResult Report))
      → BehavesExit exit
      → Follows rest
      → (flagged : Bool) → Follows (decide id disk t path flagged exit rest)
  unfolding decide
  decide-Follows disk t path exit rest b f true = search (follows_rules, close-Follows)
  decide-Follows disk t path exit rest b f false =
      Follows-then _ _ progress-Follows (after_round-Follows disk t path exit rest b f)

  watch-Follows :
      (disk : Disk) (t : ℕ) (path : List String) (ps : List (Poll (World R)))
      → BehavesPolls ps
      → Follows (watch id disk t path ps)
  unfolding watch
  watch-Follows disk t path [] b = search follows_rules
  watch-Follows disk t path (p ∷ ps) (b, be, bs) = Follows-then _ _ (Follows-interleave _ b) (
      Follows-look (λ w. is_flagged id w.store) _
        (decide-Follows disk t path p.exit (watch id disk t path ps) be
          (watch-Follows disk t path ps bs)))

  module _ (disk : Disk) (root : List String) (run : Run (World R)) (b : BehavesRun run) where
    checked-Follows : (path : List String) → Follows (checked id disk root path run)
    unfolding checked
    checked-Follows path =
        Follows-if (in_parents root path)
          (lift run.spawned >> watch id disk run.ended path run.polls) _
          (Follows-then _ _ (Follows-lift run.spawned)
            (watch-Follows disk run.ended path run.polls b.during))
          (Follows-raise _)

    task-Follows : (raw : String) → Follows (task id disk root raw run)
    unfolding task
    task-Follows raw =
        Follows-if (is_empty raw) _
          (lift (disk.resolve raw) >>= λ path. checked id disk root path run) (Follows-raise _)
          (Follows-bind _ _ (Follows-lift (disk.resolve raw)) checked-Follows)

    execute-Follows : (raw : String) → Follows (execute id disk root raw run)
    unfolding execute
    execute-Follows raw =
        Follows-then _ _
          (Follows-scheduled run.outside _
            (Follows-then _ _ (Follows-interleave _ b.before) (search (follows_rules, writes))))
          (Follows-finally run.stopped _ (
            Follows-try _ _ _ (Follows-scheduled run.inside _ (task-Follows raw))
              (Follows-scheduled run.handling _ (close-Follows run.ended))
              (λ e. Follows-scheduled run.handling _ (fail_job-Follows run.ended e))))

module _ {R : Type 0} (disk : Disk) (root : List String) (id : String) (run : Run (World R))
    (b : BehavesRun run) where
  with_payload-Follows :
      (job : Option JobView) (p : Option Payload) → Follows (with_payload disk root id run job p)
  unfolding with_payload
  with_payload-Follows job none = search follows_rules
  with_payload-Follows job (some p) =
      Follows-if (unwanted job) _ _ (search (follows_rules, close-Follows))
        (execute-Follows id disk root run b (stripped p.path))

  -- Whatever the child does and the file system answers, at whichever awaits the task is aborted, and
  -- whatever steps other processes take before its first write and between its polls, a deletion task
  -- changes the table only by steps of the lifecycle.
  pub delete-Follows :
      (payload : Option Payload) → Follows (delete_document_job disk root id run payload)
  unfolding delete_document_job
  delete-Follows payload = Follows-then _ _ (Follows-lift run.read) (record {
    at = λ w. (with_payload-Follows (get_job id w.store) (chosen payload id w.store)).at w;
  })
