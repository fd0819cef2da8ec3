-- ===== src/Queue.antt =====
-- `JobQueue` of jobs.py. What Redis answers is handed in as `Redis`; the polling clock of `wait`
-- and the store that each poll sees too.
pub mod Submit
pub mod Cancel
pub mod Wait
use rag_llm.Prelude.{
  ℕ, zero, suc, ◌+◌, String, Bool, true, false, Option, none, some, List, [], ◌∷◌, ◌++◌, max, leb,
  ◌==◌, string_eq, option_eq, if◌then◌else◌,
}
use Prim.Native.String
use rag_llm.Failure.{
  Error, runtime_error, value_error, message, is_exception, Result, ok, err, Action, pure, raise,
  rethrow, ◌>>=◌, ◌>>◌,
}
use rag_llm.Job.{
  Job, JobView, Payload, failed, cancelled, is_terminal, Store, Field, create_job, update_job,
  get_job, get_job_payload, request_cancel,
}
use rag_llm.Registry.{Registry, message_failed, cancelled_text, document_at}
use rag_llm.World.{World, Delivery, set_job, on_registry, when_given, stripped}

-- What Redis answers to the calls of one request.
pub record Redis : Type 0 where
  pub create_pool : Result (Unit {0})
  pub enqueue : Result (Unit {0})
  -- whether Redis took the job in that call, which is so or not with either answer
  pub taken : Bool
  pub abort : Result (Unit {0})

-- Queue names come from the environment; these are the defaults.
abbrev pub ingestion_queue_name : String
ingestion_queue_name = "arq:queue:ingestion"

abbrev pub generation_queue_name : String
generation_queue_name = "arq:queue:generation"

unfoldable pub route : String → Option (String × String)
route kind =
    if kind == "ingestion"
    then some ("ingest_document_job", ingestion_queue_name)
    else if kind == "deletion"
    then some ("delete_document_job", ingestion_queue_name)
    else if kind == "generation"
    then some ("generate_answer_job", generation_queue_name)
    else none

module _ {R : Type 0} where
  unfoldable pub connect : Redis → Action (World R) (Unit {0})
  connect redis w = if w.connected then (ok tt, w) else elim redis.create_pool [
    | ok u ↦ (ok tt, record w { connected = true })
    | err e ↦ (err e, w)
  ]

  unfoldable pub close : World R → World R
  close w = record w { connected = false }

  unfoldable pub enqueue_job : Redis → Delivery → Action (World R) (Unit {0})
  enqueue_job redis d w =
      (redis.enqueue, if redis.taken then record w { delivered = w.delivered ++ d ∷ [] } else w)

  unfoldable pub abort_job : Redis → String → Action (World R) (Unit {0})
  abort_job redis id w = elim redis.abort [
    | ok u ↦ (ok tt, record w { aborted = w.aborted ++ id ∷ [] })
    | err e ↦ (err e, w)
  ]

  -- `try: connect; enqueue  except Exception as exc: update_job(failed); raise`
  delivered_or_failed : String → ℕ → Job → Result (Unit {0}) × World R → Result Job × World R
  unfolding set_job
  delivered_or_failed id now job (ok u, w) = (ok job, w)
  delivered_or_failed id now job (err e, w) =
      if is_exception e
      then rethrow e (
          set_job id (Field.status failed ∷ Field.error (message e) ∷ Field.finished_at now ∷ []) w)
      else (err e, w)

  unfoldable pub submit_routed :
      Redis → String → String → Option Payload → ℕ → Option (String × String) → Action (World R) Job
  unfolding create_job connect enqueue_job delivered_or_failed ◌>>◌
  submit_routed redis fresh kind payload now none w =
      raise (value_error (String.◌++◌ "unsupported job kind: " kind)) w
  submit_routed redis fresh kind payload now (some (function, queue)) w =
      let (job, store) = create_job fresh kind payload now w.store in
      delivered_or_failed fresh now job (
        (connect redis
            >> enqueue_job redis (record { function = function; job_id = fresh; queue = queue }))
          (record w { store = store }))

  unfoldable pub submit : Redis → String → String → Option Payload → ℕ → Action (World R) Job
  submit redis fresh kind payload now w =
      if w.store.enabled
      then submit_routed redis fresh kind payload now (route kind) w
      else raise (runtime_error "RAG_DATABASE_URL is required for persistent jobs") w

  unfoldable pub can_access : String → String → Bool → World R → Bool
  can_access id subject privileged w =
      if privileged then true else elim (get_job_payload id w.store) [
        | none ↦ false
        | some p ↦ p.owner_subject == some subject
      ]

module _ {R : Type 0} (reg : Registry R) where
  unfoldable pub mark_payload_cancelled : String → Payload → Action (World R) (Unit {0})
  unfolding stripped when_given on_registry ◌>>◌
  mark_payload_cancelled id payload =
      when_given (stripped payload.assistant_message_id) (
        on_registry (
          reg.update_message (stripped payload.assistant_message_id)
            (message_failed cancelled_text id)))
      >> when_given (stripped payload.document_id) (
          on_registry (
            reg.update_document (stripped payload.document_id)
              (document_at (some "cancelled") id 100)))

  mark_if_payload : String → Option Payload → Action (World R) (Unit {0})
  unfolding mark_payload_cancelled
  mark_if_payload id none = pure tt
  mark_if_payload id (some p) = mark_payload_cancelled id p

  close_cancelled : Redis → String → ℕ → Option Payload → Action (World R) Bool
  unfolding connect abort_job set_job mark_if_payload ◌>>◌
  close_cancelled redis id now payload =
      connect redis
      >> abort_job redis id
      >> set_job id (Field.status cancelled ∷ Field.progress 100 ∷ Field.finished_at now ∷ [])
      >> mark_if_payload id payload
      >> pure true

  after_request : Redis → String → ℕ → Option Payload → Bool × Store → Action (World R) Bool
  unfolding close_cancelled
  after_request redis id now payload (true, store) w =
      close_cancelled redis id now payload (record w { store = store })
  after_request redis id now payload (false, store) w = (ok false, record w { store = store })

  unfoldable pub cancel : Redis → String → ℕ → Action (World R) Bool
  unfolding request_cancel get_job_payload after_request
  cancel redis id now w =
      after_request redis id now (get_job_payload id w.store) (request_cancel id w.store) w

-- `wait`: at each round the record that `seen now` holds; the sleep takes `max(0.05, poll_interval)`
-- seconds, in milliseconds here. The outer `none` is fuel that ran out.
unfoldable pub round : ℕ → ℕ → Option JobView → Option (Option JobView) → Option (Option JobView)
unfolding is_terminal
round deadline now none rest = some none
round deadline now (some j) rest =
    if is_terminal j.status then some (some j) else if leb deadline now then some (some j) else rest

unfoldable pub wait_from : (ℕ → Store) → String → ℕ → ℕ → ℕ → ℕ → Option (Option JobView)
unfolding round
wait_from seen id deadline interval zero now = none
wait_from seen id deadline interval (suc fuel) now =
    let rest = wait_from seen id deadline interval fuel (now + max 50 interval) in
    round deadline now (get_job id (seen now)) rest

-- The deadline is `now + max(0, timeout)`; a round each millisecond is more than are made.
unfoldable pub wait : (ℕ → Store) → String → ℕ → ℕ → ℕ → Option (Option JobView)
unfolding wait_from
wait seen id timeout interval now = wait_from seen id (now + timeout) interval (suc timeout) now
