-- ===== src/Examples.antt =====
-- Concrete inputs for the theorems of the job queue and the workers.
use rag_llm.Prelude.{
  ◌+◌, String, ◌≡◌, refl, true, false, none, some, List, [], ◌∷◌, ◌++◌, ◌⊎◌, string_eq,
}
use rag_llm.Failure.{runtime_error, value_error, other_error, ok, err, is_exception, message, ◌>>◌}
use rag_llm.Job.{
  closing, Job, Payload, Report, running, Store, find, fetch, get_job_payload, new_job, create_job,
  update_job, Field, set_fields, flag, is_terminal, request_cancel,
}
use rag_llm.Job.Steps.{Reach, here, next, one, create, write, start}
use rag_llm.Job.Invariant.{IsValid, Extends, Reach-IsValid, Reach-Extends}
use rag_llm.Registry.{Registry}
use rag_llm.World.{World, stripped, when_given, on_registry, set_job}
use rag_llm.World.Follows.{Follows, Behaves}
use rag_llm.Queue.{
  Redis, route, submit, cancel, wait, submit_routed, connect, enqueue_job, abort_job,
  mark_payload_cancelled,
}
use rag_llm.Queue.Submit.{
  submit_ok, submit_err, submit-Reach, IsSubmitted, IsWaiting, IsHandedOver, IsLeftBy,
  IsUnsupported,
}
use rag_llm.Queue.Cancel.{cancel_accepted, cancel_refused, cancel-Reach}
use rag_llm.Queue.Wait.{Stops, wait-Stops}
use rag_llm.Worker.{Run, Exit, IsUndisturbed, chosen}
use rag_llm.Worker.Ending.{Agrees}
use rag_llm.Worker.Behaviour.{BehavesRun}
use rag_llm.Worker.Ingestion.{ingest_document_job}
use rag_llm.Worker.Ingestion.Ending.{ingest-Agrees}
use rag_llm.Worker.Ingestion.Lifecycle.{ingest-Follows}
use rag_llm.Worker.Deletion.{Disk, delete_document_job}
use rag_llm.Worker.Deletion.Ending.{delete-Agrees}
use rag_llm.Worker.Deletion.Lifecycle.{delete-Follows}
use rag_llm.Worker.Generation.{Asking, IsUndisturbedAsking, generate_answer_job}
use rag_llm.Worker.Generation.Ending.{generate-Agrees}
use rag_llm.Worker.Generation.Lifecycle.{generate-Follows}

-- A registry that only notes which records were written.
abbrev noting : Registry (List String)
noting = record {
  update_message = λ m p r. (ok tt, m ∷ r);
  update_document = λ d p r. (ok tt, d ∷ r);
}

abbrev empty_store : Store
empty_store = record { enabled = true; jobs = [] }

abbrev empty_world : World (List String)
empty_world = record {
  store = empty_store;
  registry = [];
  connected = true;
  delivered = [];
  aborted = [];
  unlinked = [];
  awaits = [];
}

abbrev payload : Payload
payload = record {
  document_id = some "d1";
  assistant_message_id = some "m1";
  path = some "/uploads/a.pdf";
  owner_subject = some "alice";
  request = some "{}";
}

abbrev queued_world : World (List String)
queued_world = record empty_world {
  store = record { enabled = true; jobs = new_job "j1" "ingestion" (some payload) 5 ∷ [] };
}

abbrev report : Report
report = record { error = none; chunks = 3; parsing_backend = "docx"; warnings = [] }

abbrev exit : Exit (World (List String))
exit = record { success = true; report = some (ok report); stderr = ""; others = λ w. w }

abbrev run : Run (World (List String))
run = record {
  started = 6;
  ended = 9;
  read = ok tt;
  outside = [];
  inside = [];
  handling = [];
  stopped = ok tt;
  others = λ w. w;
  spawned = ok tt;
  polls =
      record { others = λ w. w; exit = none } ∷ record { others = λ w. w; exit = some exit } ∷ [];
}

abbrev asking : Asking (World (List String))
asking = record {
  started = 6;
  ended = 9;
  read = ok tt;
  outside = [];
  inside = [];
  handling = [];
  others_before = λ w. w;
  others = λ w. w;
  asked = ok (record { answer = "42"; html_answer = ""; details = [] });
}

abbrev disk : Disk
disk = record { resolve = λ s. ok ("uploads" ∷ "a.pdf" ∷ []); unlinks = ok tt }

abbrev undisturbed : IsUndisturbed run
undisturbed = record { read = refl; outside = refl; handling = refl; stopped = refl }

abbrev undisturbed_asking : IsUndisturbedAsking asking
undisturbed_asking = record { read = refl; outside = refl; handling = refl }

idle : Behaves {R = List String} (λ w. w)
idle = record { at = λ w. here }

run-BehavesRun : BehavesRun run
run-BehavesRun = record { before = idle; during = (idle, tt, (idle, idle, tt)) }

ingest-Agrees_example :
    Agrees "j1"
      (ingest_document_job noting "j1" run none queued_world).0
      (ingest_document_job noting "j1" run none queued_world).1.store
unfolding chosen get_job_payload find new_job
ingest-Agrees_example =
    ingest-Agrees noting "j1" run none payload queued_world (λ d p r. refl) undisturbed refl

delete-Agrees_example :
    Agrees "j1"
      (delete_document_job disk ("uploads" ∷ []) "j1" run none queued_world).0
      (delete_document_job disk ("uploads" ∷ []) "j1" run none queued_world).1.store
unfolding chosen get_job_payload find new_job
delete-Agrees_example =
    delete-Agrees disk ("uploads" ∷ []) "j1" run none payload queued_world undisturbed refl

generate-Agrees_example :
    Agrees "j1"
      (generate_answer_job noting "j1" asking none queued_world).0
      (generate_answer_job noting "j1" asking none queued_world).1.store
unfolding chosen get_job_payload find new_job stripped
generate-Agrees_example =
    generate-Agrees noting "j1" asking none payload "{}" queued_world (λ d p r. refl)
      undisturbed_asking refl refl refl

ingest-Follows_example : Follows (ingest_document_job noting "j1" run none)
ingest-Follows_example = ingest-Follows noting "j1" run run-BehavesRun none

delete-Follows_example : Follows (delete_document_job disk ("uploads" ∷ []) "j1" run none)
delete-Follows_example = delete-Follows disk ("uploads" ∷ []) "j1" run run-BehavesRun none

generate-Follows_example : Follows (generate_answer_job noting "j1" asking none)
generate-Follows_example = generate-Follows noting "j1" asking idle idle none

empty_store-IsValid : IsValid empty_store
unfolding find
empty_store-IsValid = record { at_id = λ id j h. cc }

abbrev started_store : Store
started_store =
    update_job "j1" (Field.status running ∷ Field.progress 10 ∷ Field.started_at 6 ∷ [])
      (create_job "j1" "ingestion" (some payload) 5 empty_store).1

started : Reach empty_store started_store
unfolding find
started =
    next (one (create empty_store "j1" "ingestion" (some payload) 5 refl))
      (write (create_job "j1" "ingestion" (some payload) 5 empty_store).1 "j1" (start 6))

Reach-IsValid_example : IsValid started_store
Reach-IsValid_example = Reach-IsValid empty_store-IsValid started

Reach-Extends_example : Extends empty_store started_store
Reach-Extends_example = Reach-Extends started

abbrev redis_up : Redis
redis_up = record { create_pool = ok tt; enqueue = ok tt; taken = true; abort = ok tt }

abbrev redis_down : Redis
redis_down = record redis_up { enqueue = err (other_error "connection refused"); taken = false }

submit_ok_example :
    let w' = (submit redis_up "j1" "ingestion" (some payload) 5 empty_world).1 in
    let j = new_job "j1" "ingestion" (some payload) 5 in
    (find "j1" w'.store.jobs ≡ some j)
    × IsSubmitted "j1" "ingestion" (some payload) 5 j
    × IsWaiting j
    × IsHandedOver redis_up "j1" "ingestion" [] w'.delivered
unfolding submit submit_routed connect enqueue_job route ◌>>◌
submit_ok_example = submit_ok redis_up "j1" "ingestion" (some payload) 5 empty_world refl

submit_err_example :
    let w' = (submit redis_down "j1" "ingestion" (some payload) 5 empty_world).1 in
    let e = other_error "connection refused" in
    ((w' ≡ empty_world)
      × (((true ≡ false) × (e ≡ runtime_error "RAG_DATABASE_URL is required for persistent jobs"))
          ⊎ (IsUnsupported "ingestion" × (e ≡ value_error "unsupported job kind: ingestion"))))
    ⊎ ((j : Job) × (find "j1" w'.store.jobs ≡ some j)
        × IsSubmitted "j1" "ingestion" (some payload) 5 j
        × IsLeftBy e 5 j
        × ((w'.delivered ≡ []) ⊎ IsHandedOver redis_down "j1" "ingestion" [] w'.delivered))
unfolding submit submit_routed connect enqueue_job route is_exception message ◌>>◌
submit_err_example =
    submit_err redis_down "j1" "ingestion" (some payload) 5 empty_world
      {e = other_error "connection refused"} refl

submit-Reach_example :
    Reach empty_store (submit redis_down "j1" "ingestion" (some payload) 5 empty_world).1.store
unfolding find
submit-Reach_example = submit-Reach redis_down "j1" "ingestion" (some payload) 5 empty_world refl

cancel_accepted_example :
    let w' = (cancel noting redis_up "j1" 8 queued_world).1 in
    (j : Job) × (fetch "j1" queued_world.store ≡ some j)
    × (is_terminal j.status ≡ false)
    × (fetch "j1" w'.store ≡ some (set_fields (closing 8) (flag j)))
    × (w'.aborted ≡ [] ++ "j1" ∷ [])
unfolding cancel ◌>>◌ abort_job connect request_cancel fetch find get_job_payload new_job
    mark_payload_cancelled when_given on_registry stripped set_job
cancel_accepted_example = cancel_accepted noting redis_up "j1" 8 queued_world refl

cancel_refused_example : (cancel noting redis_up "j2" 8 queued_world).1 ≡ queued_world
unfolding cancel request_cancel fetch find get_job_payload new_job
cancel_refused_example = cancel_refused noting redis_up "j2" 8 queued_world refl

cancel-Reach_example : Reach queued_world.store (cancel noting redis_up "j1" 8 queued_world).1.store
cancel-Reach_example = cancel-Reach noting redis_up "j1" 8 queued_world

wait-Stops_example :
    Stops
      (λ t. queued_world.store)
      "j1"
      (10 + 200)
      10
      (wait (λ t. queued_world.store) "j1" 200 250 10)
wait-Stops_example = wait-Stops (λ t. queued_world.store) "j1" 200 250 10
