-- ===== src/Worker/Generation/Ending.antt =====
-- How `generate_answer_job` (generation_worker.py) ends when the registry accepts its writes and
-- nothing aborts it outside its `try`.
use rag_llm.Prelude.{
  subst, sym, ℕ, String, ◌≡◌, refl, Bool, true, false, Option, some, List, [], ◌∷◌, is_empty,
  if◌then◌else◌, take_chars,
}
use rag_llm.Failure.{Error, Action, ok, message, pure, ◌>>◌}
use rag_llm.Job.{
  closing, JobView, Payload, Answer, Outcome, answered, completed, failed, Field, get_job,
  set_fields,
}
use rag_llm.Registry.{Registry, MessagePatch}
use rag_llm.World.{World, Await, scheduled, write_job, stripped, interleave, on_registry}
use rag_llm.Worker.Task.{TaskResult, unwanted, chosen, was_cancelled, finished}
use rag_llm.Worker.Ending.{
  read-Agrees, Agrees, Settles, Writes, Stamps, Settles-bind, Settles-then, Settles-write,
  try-Agrees, then-Agrees, write-Agrees, closing-Stamps, status_of, Settles-scheduled, WritesIfOk,
  KeepsStore,
}
use rag_llm.Worker.Writes.{
  awaited-KeepsStore, awaited-ReturnsUncut, then-ReturnsUncut, interleave-ReturnsUncut,
  write_job-WritesIfOk, write_job-ReturnsUncut, then-WritesIfOk, before-WritesIfOk,
  scheduled-Writes,
}
use rag_llm.Worker.Generation.{
  Asking, IsUndisturbedAsking, persist_message, cancel_both, fail_both, complete, answer, execute,
  with_message, with_payload, generate_answer_job,
}

-- The registry takes every write to a message.
abbrev pub AcceptsMessages : {R : Type 0} → Registry R → Type 0
AcceptsMessages {R} reg =
    (m : String) (p : MessagePatch) (r : R) → (reg.update_message m p r).0 ≡ ok tt

complete_fields : ℕ → Outcome → List Field
complete_fields t o =
    Field.status completed ∷ Field.progress 100 ∷ Field.result o ∷ Field.finished_at t ∷ []

fail_fields : ℕ → Error → List Field
fail_fields t e =
    Field.status failed
    ∷ Field.progress 100
    ∷ Field.error (take_chars 2000 (message e))
    ∷ Field.finished_at t
    ∷ []

fail-Stamps : (t : ℕ) (e : Error) → Stamps (fail_fields t e) failed
unfolding set_fields fail_fields
fail-Stamps t e i = (refl, refl)

module _ {R : Type 0} (reg : Registry R) (id message_id : String) where
  persist_message-KeepsStore : (p : MessagePatch) → KeepsStore (persist_message reg id message_id p)
  unfolding persist_message
  persist_message-KeepsStore p =
      awaited-KeepsStore (on_registry (reg.update_message message_id p))
        (unfold on_registry in record { kept = λ w. refl })

  set-WritesIfOk :
      (fs : List Field) (p : MessagePatch)
      → WritesIfOk id fs (write_job id fs >> persist_message reg id message_id p)
  set-WritesIfOk fs p =
      then-WritesIfOk id fs (write_job id fs) (persist_message reg id message_id p)
        (write_job-WritesIfOk id fs) (persist_message-KeepsStore p)

  persist-WritesIfOk :
      (fs : List Field) (p : MessagePatch)
      → WritesIfOk id fs (persist_message reg id message_id p >> write_job id fs)
  persist-WritesIfOk fs p =
      before-WritesIfOk id fs (persist_message reg id message_id p) (write_job id fs)
        (persist_message-KeepsStore p) (write_job-WritesIfOk id fs)

  complete-Settles : (t : ℕ) (a : Answer) → Settles id (complete reg id message_id t a)
  unfolding complete
  complete-Settles t a =
      Settles-write id (complete_fields t (answered a message_id id)) _
        (finished (answered a message_id id))
        (unfold complete_fields in
          persist-WritesIfOk (complete_fields t (answered a message_id id)) _)
        (unfold complete_fields set_fields status_of in λ i. (refl, refl))

  answer-Settles : (run : Asking (World R)) → Settles id (answer reg id message_id run)
  unfolding answer
  answer-Settles run = Settles-then id _ _ (Settles-bind id _ _ λ a. complete-Settles run.ended a)

  -- What follows asks that the registry takes the writes and that no abort comes outside the `try`.
  module _ (accepts : AcceptsMessages reg) where
    set-Writes :
        (awaits : List Await) (fs : List Field) (p : MessagePatch)
        → awaits ≡ []
        → Writes id fs (scheduled awaits (write_job id fs >> persist_message reg id message_id p))
    unfolding persist_message
    set-Writes awaits fs p e =
        scheduled-Writes id fs awaits (write_job id fs >> persist_message reg id message_id p) e
          (then-ReturnsUncut (write_job id fs) (persist_message reg id message_id p)
            (write_job-ReturnsUncut id fs)
            (awaited-ReturnsUncut (on_registry (reg.update_message message_id p))
              (unfold on_registry in record { at = λ v q. (accepts message_id p v.registry, q) })))
          (set-WritesIfOk fs p)

    starting-ok :
        (run : Asking (World R)) (fs : List Field) (w : World R)
        → run.outside ≡ []
        → (scheduled run.outside (interleave run.others_before >> write_job id fs) w).0 ≡ ok tt
    unfolding scheduled
    starting-ok run fs w e =
        ((then-ReturnsUncut (interleave run.others_before) (write_job id fs)
            (interleave-ReturnsUncut run.others_before) (write_job-ReturnsUncut id fs)).at
          (record w { awaits = run.outside }) e).0

    execute-Agrees :
        (run : Asking (World R)) (w : World R)
        → IsUndisturbedAsking run
        → Agrees id (execute reg id message_id run w).0 (execute reg id message_id run w).1.store
    unfolding execute
    execute-Agrees run w u = then-Agrees id _ _ w tt (starting-ok run _ w u.outside) (
        try-Agrees id (scheduled run.handling (cancel_both reg id message_id run.ended))
          (λ e. scheduled run.handling (fail_both reg id message_id run.ended e))
          (closing run.ended) (fail_fields run.ended)
          (unfold cancel_both in set-Writes run.handling _ _ u.handling)
          (λ e. unfold fail_both fail_fields in set-Writes run.handling _ _ u.handling)
          (closing-Stamps run.ended) (fail-Stamps run.ended)
          (scheduled run.inside (answer reg id message_id run))
          (Settles-scheduled id run.inside _ (answer-Settles run)))

module _ {R : Type 0} (reg : Registry R) (id : String) (run : Asking (World R)) where
  with_message-Agrees :
      (job : Option JobView) (m request : String) (w : World R)
      → AcceptsMessages reg
      → IsUndisturbedAsking run
      → is_empty m ≡ false
      → Agrees id
          (with_message reg id run job m (some request) w).0
          (with_message reg id run job m (some request) w).1.store
  unfolding with_message
  with_message-Agrees job m request w accepts u given = rw given (go (unwanted job))
    where
      early : Action (World R) (TaskResult Outcome)
      early = scheduled run.outside (cancel_both reg id m run.started) >> pure was_cancelled

      full : Action (World R) (TaskResult Outcome)
      full = execute reg id m run

      go :
          (b : Bool)
          → Agrees id ((if b then early else full) w).0 ((if b then early else full) w).1.store
      go true =
          write-Agrees {R = R} {A = Outcome} id (closing run.started)
            (scheduled run.outside (cancel_both reg id m run.started)) was_cancelled
            (unfold cancel_both in set-Writes reg id m accepts run.outside _ _ u.outside)
            (unfold status_of in closing-Stamps run.started) w
      go false = execute-Agrees reg id m accepts run w u

  -- A run that finds a payload with a request and a message leaves the record with the status that
  -- its result stands for, and with a final time, whatever `run_ask` and other processes do and at
  -- whichever awaits under the `try` the task is aborted. It asks that the first reads return,
  -- that no abort comes before the `try` or in a handler, and that the registry takes the writes to the message.
  pub generate-Agrees :
      (payload : Option Payload) (p : Payload) (request : String) (w : World R)
      → AcceptsMessages reg
      → IsUndisturbedAsking run
      → chosen payload id w.store ≡ some p
      → p.request ≡ some request
      → is_empty (stripped p.assistant_message_id) ≡ false
      → Agrees id
          (generate_answer_job reg id run payload w).0
          (generate_answer_job reg id run payload w).1.store
  unfolding generate_answer_job with_payload
  generate-Agrees payload p request w accepts u found asked given =
      read-Agrees id run.read
        (λ v. with_payload reg id run (get_job id v.store) (chosen payload id v.store) v) w u.read
        (subst
          (λ (c : Option Payload).
            Agrees id (with_payload reg id run job c w).0 (with_payload reg id run job c w).1.store)
          (sym found)
          (subst
            (λ (r : Option String).
              Agrees id (with_message reg id run job m r w).0
                (with_message reg id run job m r w).1.store)
            (sym asked) (with_message-Agrees job m request w accepts u given)))
    where
      job : Option JobView
      job = get_job id w.store

      m : String
      m = stripped p.assistant_message_id
