-- ===== src/Worker/Generation.antt =====
-- `generate_answer_job` of generation_worker.py; what `run_ask` answers is handed in.
pub mod Lifecycle
pub mod Ending
use rag_llm.Prelude.{
  ℕ, String, ◌≡◌, Option, none, some, List, [], ◌∷◌, is_empty, take_chars, if◌then◌else◌,
}
use rag_llm.Failure.{
  ok, Error, value_error, message, Result, Action, pure, raise, try_except, ◌>>=◌, ◌>>◌,
}
use rag_llm.Job.{
  closing, JobView, Payload, Answer, Outcome, answered, running, completed, failed, Field, get_job,
}
use rag_llm.Registry.{Registry, MessagePatch, text, message_failed, cancelled_text}
use rag_llm.World.{
  World, Await, awaited, scheduled, write_job, on_registry, interleave, lift, stripped,
}
use rag_llm.Worker.Task.{TaskResult, was_cancelled, finished, unwanted, chosen}

-- What other processes do before the first write and while `run_ask` works, and what it answers.
pub record Asking (W : Type 0) : Type 0 where
  pub started : ℕ
  pub ended : ℕ
  pub others_before : W → W
  pub others : W → W
  pub asked : Result Answer
  -- what the two reads at the start raise
  pub read : Result (Unit {0})
  -- the writing awaits before the `try`, those under it and those of its handlers
  pub outside : List Await
  pub inside : List Await
  pub handling : List Await

-- No abort comes before the `try` or in a handler.
pub record IsUndisturbedAsking {W : Type 0} (run : Asking W) : Type 0 where
  pub read : run.read ≡ ok tt
  pub outside : run.outside ≡ []
  pub handling : run.handling ≡ []

unfoldable pub message_complete : String → Answer → MessagePatch
message_complete id a = record {
  content = some a.answer;
  content_html = some a.html_answer;
  status = some "complete";
  metadata = some (("job_id", text id) ∷ a.details);
}

module _ {R : Type 0} (reg : Registry R) (id message_id : String) where
  persist_message : MessagePatch → Action (World R) (Unit {0})
  persist_message patch = awaited (on_registry (reg.update_message message_id patch))

  cancel_both : ℕ → Action (World R) (Unit {0})
  cancel_both t = write_job id (closing t) >> persist_message (message_failed cancelled_text id)

  fail_both : ℕ → Error → Action (World R) (Unit {0})
  fail_both t e =
      write_job id (
        Field.status failed
        ∷ Field.progress 100
        ∷ Field.error (take_chars 2000 (message e))
        ∷ Field.finished_at t
        ∷ [])
      >> persist_message (message_failed (message e) id)

  complete : ℕ → Answer → Action (World R) (TaskResult Outcome)
  complete t a =
      persist_message (message_complete id a)
      >> write_job id (
          Field.status completed
          ∷ Field.progress 100
          ∷ Field.result (answered a message_id id)
          ∷ Field.finished_at t
          ∷ [])
      >> pure (finished (answered a message_id id))

  answer : Asking (World R) → Action (World R) (TaskResult Outcome)
  answer run = do interleave run.others; a ← lift run.asked; complete run.ended a

  execute : Asking (World R) → Action (World R) (TaskResult Outcome)
  execute run =
      scheduled run.outside (
        interleave run.others_before
        >> write_job id
            (Field.status running ∷ Field.progress 10 ∷ Field.started_at run.started ∷ []))
      >> try_except (scheduled run.inside (answer run))
          (scheduled run.handling (cancel_both run.ended))
          (λ e. scheduled run.handling (fail_both run.ended e))

module _ {R : Type 0} (reg : Registry R) (id : String) (run : Asking (World R)) where
  with_message : Option JobView → String → Option String → Action (World R) (TaskResult Outcome)
  with_message job message_id none =
      raise (value_error "assistant_message_id and request are required")
  with_message job message_id (some request) =
      if is_empty message_id
      then raise (value_error "assistant_message_id and request are required")
      else if unwanted job
      then scheduled run.outside (cancel_both reg id message_id run.started) >> pure was_cancelled
      else execute reg id message_id run

  with_payload : Option JobView → Option Payload → Action (World R) (TaskResult Outcome)
  with_payload job none = raise (value_error "generation job payload not found")
  with_payload job (some p) = with_message job (stripped p.assistant_message_id) p.request

  pub generate_answer_job : Option Payload → Action (World R) (TaskResult Outcome)
  generate_answer_job payload =
      lift run.read >> λ w. with_payload (get_job id w.store) (chosen payload id w.store) w
