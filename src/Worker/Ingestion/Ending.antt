-- ===== src/Worker/Ingestion/Ending.antt =====
-- How `ingest_document_job` (ingestion_worker.py) ends when the registry accepts its writes and
-- nothing aborts it outside its `try`.
use rag_llm.Prelude.{
  Bool-cases, inl, inr, ℕ, ◌+◌, min, String, ◌≡◌, refl, Bool, true, false, Option, none, some, List,
  [], ◌∷◌, is_empty, if◌then◌else◌,
}
use rag_llm.Failure.{Error, Action, ok, message, ◌>>◌}
use rag_llm.Job.{closing, Payload, Report, failed, cancelled, Field, get_job, set_fields}
use rag_llm.Registry.{Registry, DocumentPatch}
use rag_llm.World.{
  World, Await, scheduled, write_job, stripped, interleave, on_registry, when_given,
}
use rag_llm.Worker.Task.{
  Exit, Poll, Run, IsUndisturbed, TaskResult, is_flagged, unwanted, chosen, was_cancelled, finished,
}
use rag_llm.Worker.Ending.{
  then-Agrees, write-Agrees, closing-Stamps, Agrees, Settles, Writes, Stamps, Settles-raise,
  Settles-if, Settles-bind, Settles-then, Settles-write, Settles-scheduled, finally-Agrees,
  try-Agrees, read-Agrees, status_of, WritesIfOk, KeepsStore, ReturnsUncut,
}
use rag_llm.Worker.Writes.{
  awaited-KeepsStore, awaited-ReturnsUncut, then-ReturnsUncut, interleave-ReturnsUncut,
  write_job-WritesIfOk, write_job-ReturnsUncut, then-WritesIfOk, scheduled-Writes,
}
use rag_llm.Worker.Ingestion.{
  on_document, cancel_both, fail_both, complete, exited, after_round, decide, watch, task, execute,
  skip, with_payload, ingest_document_job,
}

-- The registry takes every write to a document.
abbrev pub AcceptsDocuments : {R : Type 0} → Registry R → Type 0
AcceptsDocuments {R} reg =
    (doc : String) (p : DocumentPatch) (r : R) → (reg.update_document doc p r).0 ≡ ok tt

module _ {R : Type 0} (reg : Registry R) (id doc : String) where
  on_document-KeepsStore : (p : DocumentPatch) → KeepsStore (on_document reg id doc p)
  unfolding on_document when_given
  on_document-KeepsStore p = record {
    kept = λ w. elim (Bool-cases (is_empty doc)) [
      | inl e ↦ rw e refl
      | inr e ↦ rw e (
          (awaited-KeepsStore (on_registry (reg.update_document doc p))
              (unfold on_registry in record { kept = λ v. refl })).kept
            w)
    ];
  }

  set-WritesIfOk :
      (fs : List Field) (p : DocumentPatch)
      → WritesIfOk id fs (write_job id fs >> on_document reg id doc p)
  set-WritesIfOk fs p =
      then-WritesIfOk id fs (write_job id fs) (on_document reg id doc p)
        (write_job-WritesIfOk id fs) (on_document-KeepsStore p)

  complete-Settles : (t : ℕ) (r : Report) → Settles id (complete reg id doc t r)
  unfolding complete
  complete-Settles t r =
      Settles-write id _ _ (finished r) (set-WritesIfOk _ _)
        (unfold set_fields status_of in λ i. (refl, refl))

  exited-Settles : (t : ℕ) (e : Exit (World R)) → Settles id (exited reg id doc t e)
  unfolding exited
  exited-Settles t e = Settles-then id _ _ (
      Settles-bind id _ _
        λ r. Settles-if id e.success _ _ (complete-Settles t r) (Settles-raise id _))

  after_round-Settles :
      (t : ℕ) (exit : Option (Exit (World R))) (rest : Action (World R) (TaskResult Report))
      → Settles id rest
      → Settles id (after_round reg id doc t exit rest)
  unfolding after_round
  after_round-Settles t none rest s = s
  after_round-Settles t (some e) rest s = exited-Settles t e

  decide-Settles :
      (t n : ℕ) (exit : Option (Exit (World R))) (rest : Action (World R) (TaskResult Report))
      → Settles id rest
      → (flagged : Bool) → Settles id (decide reg id doc t n flagged exit rest)
  unfolding decide
  decide-Settles t n exit rest s true =
      Settles-write id (closing t) (cancel_both reg id doc t) was_cancelled
        (unfold cancel_both in set-WritesIfOk _ _) (unfold status_of in closing-Stamps t)
  decide-Settles t n exit rest s false = Settles-then id _ _ (after_round-Settles t exit rest s)

  watch-Settles : (t n : ℕ) (ps : List (Poll (World R))) → Settles id (watch reg id doc t n ps)
  unfolding watch
  watch-Settles t n [] = Settles-raise id _
  watch-Settles t n (p ∷ ps) = Settles-then id _ _ (record {
    at = λ w.
        (decide-Settles t (min 90 (n + 2)) p.exit (watch reg id doc t (min 90 (n + 2)) ps)
            (watch-Settles t (min 90 (n + 2)) ps) (is_flagged id w.store)).at
          w;
  })

  task-Settles : (path : String) (run : Run (World R)) → Settles id (task reg id doc path run)
  unfolding task
  task-Settles path run =
      Settles-if id (is_empty path) _ _ (Settles-raise id _)
        (Settles-then id _ _ (watch-Settles run.ended 20 run.polls))

  fail_fields : ℕ → Error → List Field
  fail_fields t e = Field.status failed ∷ Field.error (message e) ∷ Field.finished_at t ∷ []

  fail-Stamps : (t : ℕ) (e : Error) → Stamps (fail_fields t e) failed
  unfolding set_fields fail_fields
  fail-Stamps t e i = (refl, refl)

  -- What follows asks that the registry takes the writes and that no abort comes outside the `try`.
  module _ (accepts : AcceptsDocuments reg) where
    on_document-ReturnsUncut : (p : DocumentPatch) → ReturnsUncut (on_document reg id doc p)
    unfolding on_document when_given
    on_document-ReturnsUncut p = record {
      at = λ w e. elim (Bool-cases (is_empty doc)) [
        | inl b ↦ rw b (refl, e)
        | inr b ↦ rw b (
            (awaited-ReturnsUncut (on_registry (reg.update_document doc p))
                (unfold on_registry in record { at = λ v q. (accepts doc p v.registry, q) })).at
              w e)
      ];
    }

    set-ReturnsUncut :
        (fs : List Field) (p : DocumentPatch)
        → ReturnsUncut (write_job id fs >> on_document reg id doc p)
    set-ReturnsUncut fs p =
        then-ReturnsUncut (write_job id fs) (on_document reg id doc p)
          (write_job-ReturnsUncut id fs) (on_document-ReturnsUncut p)

    set-Writes :
        (awaits : List Await) (fs : List Field) (p : DocumentPatch)
        → awaits ≡ []
        → Writes id fs (scheduled awaits (write_job id fs >> on_document reg id doc p))
    set-Writes awaits fs p e =
        scheduled-Writes id fs awaits (write_job id fs >> on_document reg id doc p) e
          (set-ReturnsUncut fs p) (set-WritesIfOk fs p)

    starting-ok :
        (awaits : List Await) (others : World R → World R) (fs : List Field) (p : DocumentPatch)
        → awaits ≡ []
        → (w : World R)
        → (scheduled awaits (interleave others >> write_job id fs >> on_document reg id doc p) w).0
          ≡ ok tt
    unfolding scheduled
    starting-ok awaits others fs p e w =
        ((then-ReturnsUncut (interleave others >> write_job id fs) (on_document reg id doc p)
            (then-ReturnsUncut (interleave others) (write_job id fs)
              (interleave-ReturnsUncut others) (write_job-ReturnsUncut id fs))
            (on_document-ReturnsUncut p)).at
          (record w { awaits = awaits }) e).0

    execute-Agrees :
        (path : String) (run : Run (World R)) (w : World R)
        → IsUndisturbed run
        → Agrees id (execute reg id doc path run w).0 (execute reg id doc path run w).1.store
    unfolding execute
    execute-Agrees path run w u =
        then-Agrees id _ _ w tt (starting-ok run.outside run.others _ _ u.outside w) (
          finally-Agrees id run.stopped _ u.stopped (
            try-Agrees id (scheduled run.handling (cancel_both reg id doc run.ended))
              (λ e. scheduled run.handling (fail_both reg id doc run.ended e)) (closing run.ended)
              (fail_fields run.ended) (unfold cancel_both in set-Writes run.handling _ _ u.handling)
              (λ e. unfold fail_both fail_fields in set-Writes run.handling _ _ u.handling)
              (closing-Stamps run.ended) (fail-Stamps run.ended)
              (scheduled run.inside (task reg id doc path run))
              (Settles-scheduled id run.inside _ (task-Settles path run))))

    skip-Agrees :
        (run : Run (World R)) (w : World R)
        → IsUndisturbed run
        → Agrees id (skip reg id doc run w).0 (skip reg id doc run w).1.store
    unfolding skip
    skip-Agrees run w u =
        write-Agrees {A = Report} id (Field.status cancelled ∷ Field.finished_at run.started ∷ []) _
          was_cancelled (set-Writes run.outside _ _ u.outside)
          (unfold set_fields status_of in λ i. (refl, refl)) w

module _ {R : Type 0} (reg : Registry R) (id : String) (run : Run (World R)) where
  -- A run that finds a payload leaves the record with the status that its result stands for, and
  -- with a final time: completed for a result, cancelled for a seen flag or an abort, failed for
  -- any other exception. This is so whatever the child and the other processes do and at whichever
  -- awaits under the `try` the task is aborted. It asks that the first reads return, that no
  -- abort comes before the `try`, in a handler or in the `finally` block, and that the registry
  -- takes the writes to the document.
  pub ingest-Agrees :
      (payload : Option Payload) (p : Payload) (w : World R)
      → AcceptsDocuments reg
      → IsUndisturbed run
      → chosen payload id w.store ≡ some p
      → Agrees id
          (ingest_document_job reg id run payload w).0
          (ingest_document_job reg id run payload w).1.store
  unfolding ingest_document_job with_payload
  ingest-Agrees payload p w accepts u found =
      read-Agrees id run.read
        (λ v. with_payload reg id run (get_job id v.store) (chosen payload id v.store) v) w u.read
        (rw (found, with_payload) (go (unwanted (get_job id w.store))))
    where
      early : Action (World R) (TaskResult Report)
      early = skip reg id (stripped p.document_id) run

      full : Action (World R) (TaskResult Report)
      full = execute reg id (stripped p.document_id) (stripped p.path) run

      go :
          (b : Bool)
          → Agrees id ((if b then early else full) w).0 ((if b then early else full) w).1.store
      go true = skip-Agrees reg id (stripped p.document_id) accepts run w u
      go false = execute-Agrees reg id (stripped p.document_id) accepts (stripped p.path) run w u
