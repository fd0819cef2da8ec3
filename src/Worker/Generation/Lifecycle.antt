-- ===== src/Worker/Generation/Lifecycle.antt =====
-- The writes of `generate_answer_job` (generation_worker.py) to the `jobs` table.
use rag_llm.Prelude.{ℕ, String, Option, none, some, is_empty}
use rag_llm.Failure.{Error}
use rag_llm.Job.{JobView, Payload, Answer, get_job}
use rag_llm.Job.Steps.{Write}
use rag_llm.Registry.{Registry, MessagePatch}
use rag_llm.World.{World, stripped}
use rag_llm.World.Follows.{
  Follows-lift, Follows, Behaves, Follows-then, Follows-try, Follows-if, Follows-raise,
  Follows-interleave, Follows-scheduled, follows_rules,
}
use rag_llm.Worker.Task.{unwanted, chosen}
use rag_llm.Worker.Generation.{
  Asking, persist_message, cancel_both, fail_both, complete, answer, execute, with_message,
  with_payload, generate_answer_job,
}

ruleset writes = (Write.start, Write.complete, Write.fail_generation, Write.cancel)

module _ {R : Type 0} (reg : Registry R) (id message_id : String) where
  persist-Follows : (p : MessagePatch) → Follows (persist_message reg id message_id p)
  unfolding persist_message
  persist-Follows p = search follows_rules

  cancel_both-Follows : (t : ℕ) → Follows (cancel_both reg id message_id t)
  unfolding cancel_both
  cancel_both-Follows t = search (follows_rules, writes, persist-Follows)

  fail_both-Follows : (t : ℕ) (e : Error) → Follows (fail_both reg id message_id t e)
  unfolding fail_both
  fail_both-Follows t e = search (follows_rules, writes, persist-Follows)

  complete-Follows : (t : ℕ) (a : Answer) → Follows (complete reg id message_id t a)
  unfolding complete
  complete-Follows t a = search (follows_rules, writes, persist-Follows)

  answer-Follows :
      (run : Asking (World R)) → Behaves run.others → Follows (answer reg id message_id run)
  unfolding answer
  answer-Follows run b = search (follows_rules, complete-Follows)

  execute-Follows :
      (run : Asking (World R))
      → Behaves run.others_before
      → Behaves run.others
      → Follows (execute reg id message_id run)
  unfolding execute
  execute-Follows run bb b =
      Follows-then _ _
        (Follows-scheduled run.outside _
          (Follows-then _ _ (Follows-interleave _ bb) (search (follows_rules, writes))))
        (Follows-try _ _ _ (Follows-scheduled run.inside _ (answer-Follows run b))
          (Follows-scheduled run.handling _ (cancel_both-Follows run.ended))
          (λ e. Follows-scheduled run.handling _ (fail_both-Follows run.ended e)))

module _ {R : Type 0} (reg : Registry R) (id : String) (run : Asking (World R))
    (bb : Behaves run.others_before) (b : Behaves run.others) where
  with_message-Follows :
      (job : Option JobView) (message_id : String) (request : Option String)
      → Follows (with_message reg id run job message_id request)
  unfolding with_message
  with_message-Follows job m none = search follows_rules
  with_message-Follows job m (some request) = Follows-if (is_empty m) _ _ (Follows-raise _) (
      Follows-if (unwanted job) _ _ (search (follows_rules, cancel_both-Follows))
        (execute-Follows reg id m run bb b))

  with_payload-Follows :
      (job : Option JobView) (p : Option Payload) → Follows (with_payload reg id run job p)
  unfolding with_payload
  with_payload-Follows job none = search follows_rules
  with_payload-Follows job (some p) =
      with_message-Follows job (stripped p.assistant_message_id) p.request

  -- Whatever the pipeline and the registry do, at whichever awaits the task is aborted, and whatever
  -- steps other processes take meanwhile, a generation task changes the table only by steps of the
  -- lifecycle.
  pub generate-Follows :
      (payload : Option Payload) → Follows (generate_answer_job reg id run payload)
  unfolding generate_answer_job
  generate-Follows payload = Follows-then _ _ (Follows-lift run.read) (record {
    at = λ w. (with_payload-Follows (get_job id w.store) (chosen payload id w.store)).at w;
  })
