-- ===== src/Worker/Ingestion/Lifecycle.antt =====
-- The writes of `ingest_document_job` (ingestion_worker.py) to the `jobs` table.
use rag_llm.Prelude.{
  ℕ, ◌+◌, ◌≤◌, min, String, Bool, true, false, Option, none, some, List, [], ◌∷◌, arith, is_empty,
}
use rag_llm.Failure.{Error, Action, ◌>>◌}
use rag_llm.Job.{JobView, Payload, Report, get_job}
use rag_llm.Job.Steps.{Write}
use rag_llm.Registry.{Registry, DocumentPatch}
use rag_llm.World.{World, stripped, lift}
use rag_llm.World.Follows.{
  Follows, Behaves, Follows-look, Follows-then, Follows-try, Follows-if, Follows-raise,
  Follows-lift, Follows-interleave, Follows-scheduled, Follows-finally, follows_rules,
}
use rag_llm.Worker.Task.{Exit, Poll, Run, TaskResult, is_flagged, unwanted, chosen}
use rag_llm.Worker.Behaviour.{BehavesExit, BehavesPolls, BehavesRun}
use rag_llm.Worker.Ingestion.{
  on_document, cancel_both, fail_both, complete, exited, note_progress, after_round, decide, watch,
  task, execute, skip, with_payload, ingest_document_job,
}

ruleset writes = (Write.start, Write.advance, Write.complete, Write.fail, Write.skip, Write.cancel)

module _ {R : Type 0} (reg : Registry R) (id doc : String) where
  on_document-Follows : (p : DocumentPatch) → Follows (on_document reg id doc p)
  unfolding on_document
  on_document-Follows p = search follows_rules

  cancel_both-Follows : (t : ℕ) → Follows (cancel_both reg id doc t)
  unfolding cancel_both
  cancel_both-Follows t = search (follows_rules, writes, on_document-Follows)

  fail_both-Follows : (t : ℕ) (e : Error) → Follows (fail_both reg id doc t e)
  unfolding fail_both
  fail_both-Follows t e = search (follows_rules, writes, on_document-Follows)

  complete-Follows : (t : ℕ) (r : Report) → Follows (complete reg id doc t r)
  unfolding complete
  complete-Follows t r = search (follows_rules, writes, on_document-Follows)

  exited-Follows : (t : ℕ) (e : Exit (World R)) → Behaves e.others → Follows (exited reg id doc t e)
  unfolding exited
  exited-Follows t e b = search (follows_rules, complete-Follows)

  note_progress-Follows : (n : ℕ) → n ≤ 90 → Follows (note_progress reg id doc n)
  unfolding note_progress
  note_progress-Follows n le = search (follows_rules, writes, on_document-Follows)

  after_round-Follows :
      (t : ℕ) (exit : Option (Exit (World R))) (rest : Action (World R) (TaskResult Report))
      → BehavesExit exit
      → Follows rest
      → Follows (after_round reg id doc t exit rest)
  unfolding after_round
  after_round-Follows t none rest b f = f
  after_round-Follows t (some e) rest b f = exited-Follows t e b

  decide-Follows :
      (t n : ℕ) (exit : Option (Exit (World R))) (rest : Action (World R) (TaskResult Report))
      → n ≤ 90
      → BehavesExit exit
      → Follows rest
      → (flagged : Bool) → Follows (decide reg id doc t n flagged exit rest)
  unfolding decide
  decide-Follows t n exit rest le b f true = search (follows_rules, cancel_both-Follows)
  decide-Follows t n exit rest le b f false =
      search (follows_rules, note_progress-Follows, after_round-Follows)

  watch-Follows :
      (t n : ℕ) (ps : List (Poll (World R))) → BehavesPolls ps → Follows (watch reg id doc t n ps)
  unfolding watch
  watch-Follows t n [] b = search follows_rules
  watch-Follows t n (p ∷ ps) (b, be, bs) = Follows-then _ _ (Follows-interleave _ b) (
      Follows-look (λ w. is_flagged id w.store) _
        (decide-Follows t (min 90 (n + 2)) p.exit (watch reg id doc t (min 90 (n + 2)) ps)
          (omega arith) be (watch-Follows t (min 90 (n + 2)) ps bs)))

  task-Follows :
      (path : String) (run : Run (World R)) → BehavesRun run → Follows (task reg id doc path run)
  unfolding task
  task-Follows path run b =
      Follows-if (is_empty path) _ (lift run.spawned >> watch reg id doc run.ended 20 run.polls)
        (Follows-raise _)
        (Follows-then _ _ (Follows-lift run.spawned)
          (watch-Follows run.ended 20 run.polls b.during))

  execute-Follows :
      (path : String) (run : Run (World R)) → BehavesRun run → Follows (execute reg id doc path run)
  unfolding execute
  execute-Follows path run b =
      Follows-then _ _
        (Follows-scheduled run.outside _ (
          Follows-then _ _
            (Follows-then _ _ (Follows-interleave _ b.before) (search (follows_rules, writes)))
            (on_document-Follows _)))
        (Follows-finally run.stopped _ (
          Follows-try _ _ _ (Follows-scheduled run.inside _ (task-Follows path run b))
            (Follows-scheduled run.handling _ (cancel_both-Follows run.ended))
            (λ e. Follows-scheduled run.handling _ (fail_both-Follows run.ended e))))

  skip-Follows : (run : Run (World R)) → Follows (skip reg id doc run)
  unfolding skip
  skip-Follows run = search (follows_rules, writes, on_document-Follows)

module _ {R : Type 0} (reg : Registry R) (id : String) (run : Run (World R))
    (b : BehavesRun run) where
  with_payload-Follows :
      (job : Option JobView) (p : Option Payload) → Follows (with_payload reg id run job p)
  unfolding with_payload
  with_payload-Follows job none = search follows_rules
  with_payload-Follows job (some p) =
      Follows-if (unwanted job) _ _ (skip-Follows reg id (stripped p.document_id) run)
        (execute-Follows reg id (stripped p.document_id) (stripped p.path) run b)

  -- Whatever the child and the registry do, at whichever awaits the task is aborted, and whatever steps
  -- other processes take before its first write and between its polls, an ingestion task changes the
  -- table only by steps of the lifecycle.
  pub ingest-Follows : (payload : Option Payload) → Follows (ingest_document_job reg id run payload)
  unfolding ingest_document_job
  ingest-Follows payload = Follows-then _ _ (Follows-lift run.read) (record {
    at = λ w. (with_payload-Follows (get_job id w.store) (chosen payload id w.store)).at w;
  })
