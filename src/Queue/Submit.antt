-- ===== src/Queue/Submit.antt =====
-- What `JobQueue.submit` (jobs.py) leaves in the `jobs` table and hands to Redis.
use rag_llm.Prelude.{
  ℕ, String, ◌≡◌, refl, true, false, Option, none, some, [], ◌∷◌, ◌++◌, arith, string_eq, eq_refl,
  Bool-cases, ◌⊎◌, inl, inr, ◌==◌, eq_iff, List, if◌then◌else◌, ◌∙◌, ap,
}
use Prim.Native.String
use rag_llm.Failure.{
  Error, cancelled_error, message, is_exception, Result, ok, err, runtime_error, value_error,
  permission_error, other_error, ◌>>◌,
}
use rag_llm.Job.{Job, Payload, Store, Field, queued, failed, find, new_job, create_job, update_job}
use rag_llm.Job.Steps.{Reach, here, create, fail, one, then_write}
use rag_llm.World.{World, Delivery, set_job}
use rag_llm.Queue.{Redis, route, submit, submit_routed, delivered_or_failed, connect, enqueue_job}

-- Redis is told the function of the kind, on the kind's queue.
abbrev pub Handles : String → String → String → Type 0
Handles kind function queue =
    ((kind ≡ "ingestion") × (function ≡ "ingest_document_job") × (queue ≡ "arq:queue:ingestion"))
    ⊎ ((kind ≡ "deletion") × (function ≡ "delete_document_job") × (queue ≡ "arq:queue:ingestion"))
    ⊎ ((kind ≡ "generation")
        × (function ≡ "generate_answer_job")
        × (queue ≡ "arq:queue:generation"))

abbrev pub IsUnsupported : String → Type 0
IsUnsupported kind = ¬ (kind ≡ "ingestion") × ¬ (kind ≡ "deletion") × ¬ (kind ≡ "generation")

-- The row of a submitted job that waits for a worker.
abbrev pub IsWaiting : Job → Type 0
IsWaiting j =
    (j.status ≡ queued)
    × (j.progress ≡ 0)
    × (j.cancel_requested ≡ false)
    × (j.started_at ≡ none)
    × (j.finished_at ≡ none)
    × (j.error ≡ none)

-- The row that the submission has written, before any failure of the delivery.
pub record IsSubmitted (id kind : String) (payload : Option Payload) (now : ℕ) (j : Job)
    : Type 0 where
  pub same_id : j.id ≡ id
  pub same_kind : j.kind ≡ kind
  pub same_payload : j.payload ≡ payload
  pub created : j.created_at ≡ now

-- Redis has got the job if it took it.
abbrev pub IsHandedOver : Redis → String → String → List Delivery → List Delivery → Type 0
IsHandedOver redis id kind before after =
    (function : String) × (queue : String) × Handles kind function queue
    × (after ≡ (
        if redis.taken
        then before ++ record { function = function; job_id = id; queue = queue } ∷ []
        else before))

-- What an error of the delivery makes of the row: an `Exception` fails it, an abort leaves it.
abbrev pub IsLeftBy : Error → ℕ → Job → Type 0
IsLeftBy e now j =
    ((is_exception e ≡ true)
      × (j.status ≡ failed)
      × (j.error ≡ some (message e))
      × (j.finished_at ≡ some now))
    ⊎ ((e ≡ cancelled_error) × IsWaiting j)

route_cases :
    (kind : String)
    → ((t : String × String) × (route kind ≡ some t) × Handles kind t.0 t.1)
      ⊎ ((route kind ≡ none) × IsUnsupported kind)
unfolding route
route_cases kind = elim (Bool-cases (kind == "ingestion")) [
  | inl i ↦ inl (
    ("ingest_document_job", "arq:queue:ingestion"),
    rw i,
    inl ((eq_iff kind "ingestion").0 i, refl, refl),
  )
  | inr ni ↦ elim (Bool-cases (kind == "deletion")) [
    | inl d ↦ inl (
      ("delete_document_job", "arq:queue:ingestion"),
      rw ni (rw d),
      inr (inl ((eq_iff kind "deletion").0 d, refl, refl)),
    )
    | inr nd ↦ elim (Bool-cases (kind == "generation")) [
      | inl g ↦ inl (
        ("generate_answer_job", "arq:queue:generation"),
        rw ni (rw nd (rw g)),
        inr (inr ((eq_iff kind "generation").0 g, refl, refl)),
      )
      | inr ng ↦ inr (
        rw ni (rw nd (rw ng)),
        (is_other "ingestion" ni, is_other "deletion" nd, is_other "generation" ng),
      )
    ]
  ]
]
  where
    is_other : (other : String) → (kind == other) ≡ false → ¬ (kind ≡ other)
    is_other other n e = cc ((eq_iff kind other).1 e)

Result-cases : (r : Result (Unit {0})) → (r ≡ ok tt) ⊎ ((e : Error) × (r ≡ err e))
Result-cases (ok u) = inl refl
Result-cases (err e) = inr (e, refl)

is_abort : (e : Error) → is_exception e ≡ false → e ≡ cancelled_error
unfolding is_exception
is_abort cancelled_error x = refl
is_abort (runtime_error m) x = absurd (cc)
is_abort (value_error m) x = absurd (cc)
is_abort (permission_error m) x = absurd (cc)
is_abort (other_error m) x = absurd (cc)

module _ {R : Type 0} where
  handoff_result : Redis → Delivery → World R → Result (Unit {0}) × World R
  handoff_result redis d = connect redis >> enqueue_job redis d

  handoff-store :
      (redis : Redis) (d : Delivery) (w : World R) → (handoff_result redis d w).1.store ≡ w.store
  unfolding handoff_result connect enqueue_job ◌>>◌
  handoff-store redis d w = ground arith

  failure-store :
      (id : String) (now : ℕ) (job : Job) (s : Store) (m : Result (Unit {0}) × World R)
      → m.1.store ≡ s
      → ((delivered_or_failed id now job m).1.store ≡ s)
        ⊎ ((e : Error) × ((delivered_or_failed id now job m).1.store
              ≡ update_job id
                  (Field.status failed ∷ Field.error (message e) ∷ Field.finished_at now ∷ [])
                  s))
  unfolding delivered_or_failed set_job
  failure-store id now job s (ok u, w) h = inl h
  failure-store id now job s (err e, w) h = elim (Bool-cases (is_exception e)) [
    | inl x ↦ inr (e, ground arith)
    | inr x ↦ inl (ground arith)
  ]

module _ {R : Type 0} (redis : Redis) (fresh kind : String) (payload : Option Payload) (now : ℕ)
    (w : World R) where
  IsReturned : World R → Job → Type 0
  IsReturned w' j =
      (find fresh w'.store.jobs ≡ some j)
      × IsSubmitted fresh kind payload now j
      × IsWaiting j
      × IsHandedOver redis fresh kind w.delivered w'.delivered

  IsFailed : World R → Error → Type 0
  IsFailed w' e =
      (j : Job) × (find fresh w'.store.jobs ≡ some j)
      × IsSubmitted fresh kind payload now j
      × IsLeftBy e now j
      × ((w'.delivered ≡ w.delivered) ⊎ IsHandedOver redis fresh kind w.delivered w'.delivered)

  delivery : String × String → Delivery
  delivery t = record { function = t.0; job_id = fresh; queue = t.1 }

  routed_ok :
      (t : String × String) {j : Job}
      → w.store.enabled ≡ true
      → Handles kind t.0 t.1
      → (submit_routed redis fresh kind payload now (some t) w).0 ≡ ok j
      → IsReturned (submit_routed redis fresh kind payload now (some t) w).1 j
  unfolding submit_routed find IsReturned
  routed_ok t {j} on handles h = (
    ground (arith, eq_refl fresh),
    record {
      same_id = ground arith;
      same_kind = ground arith;
      same_payload = ground arith;
      created = ground arith;
    },
    (ground arith, ground arith, ground arith, ground arith, ground arith, ground arith),
    (t.0, t.1, handles, ground arith),
  )

  routed-delivered :
      (t : String × String)
      → Handles kind t.0 t.1
      → let after = (submit_routed redis fresh kind payload now (some t) w).1.delivered in
        (after ≡ w.delivered) ⊎ IsHandedOver redis fresh kind w.delivered after
  unfolding submit_routed
  routed-delivered t handles = elim (Bool-cases w.connected) [
    | inl c ↦ inr (t.0, t.1, handles, ground arith)
    | inr c ↦ elim (Result-cases redis.create_pool) [
      | inl u ↦ inr (t.0, t.1, handles, ground arith)
      | inr (x, u) ↦ inl (ground arith)
    ]
  ]

  routed_err :
      (t : String × String) {e : Error}
      → w.store.enabled ≡ true
      → Handles kind t.0 t.1
      → (submit_routed redis fresh kind payload now (some t) w).0 ≡ err e
      → IsFailed (submit_routed redis fresh kind payload now (some t) w).1 e
  unfolding submit_routed find update_job IsFailed
  routed_err t {e} on handles h = elim (Bool-cases (is_exception e)) [
    | inl x ↦ (
      record (new_job fresh kind payload now) {
        status = failed;
        error = some (message e);
        finished_at = some now;
      },
      ground (arith, eq_refl fresh),
      record { same_id = refl; same_kind = refl; same_payload = refl; created = refl },
      inl (x, refl, refl, refl),
      routed-delivered t handles,
    )
    | inr x ↦ (
      new_job fresh kind payload now,
      ground (arith, eq_refl fresh),
      record { same_id = refl; same_kind = refl; same_payload = refl; created = refl },
      inr (is_abort e x, (refl, refl, refl, refl, refl, refl)),
      routed-delivered t handles,
    )
  ]

  submit_on :
      w.store.enabled ≡ true
      → submit redis fresh kind payload now w
        ≡ submit_routed redis fresh kind payload now (route kind) w
  unfolding submit
  submit_on on = ground arith

  submit_off :
      w.store.enabled ≡ false
      → submit redis fresh kind payload now w
        ≡ (err (runtime_error "RAG_DATABASE_URL is required for persistent jobs"), w)
  unfolding submit
  submit_off off = ground arith

  submit_to :
      (t : String × String)
      → w.store.enabled ≡ true
      → route kind ≡ some t
      → submit redis fresh kind payload now w
        ≡ submit_routed redis fresh kind payload now (some t) w
  submit_to t on e =
      submit_on on
      ∙ ap (λ (to : Option (String × String)). submit_routed redis fresh kind payload now to w) e

  submit_nowhere :
      w.store.enabled ≡ true
      → route kind ≡ none
      → submit redis fresh kind payload now w
        ≡ (err (value_error (String.◌++◌ "unsupported job kind: " kind)), w)
  unfolding submit_routed
  submit_nowhere on e =
      submit_on on
      ∙ ap (λ (to : Option (String × String)). submit_routed redis fresh kind payload now to w) e

  -- A returned job is stored under the fresh identifier with its kind, its payload and its time, and
  -- it waits for a worker: queued, not started, not ended. Redis was told the function of the kind
  -- on the kind's queue with this identifier, once if it took the job, and nothing else.
  pub submit_ok :
      {j : Job}
      → (submit redis fresh kind payload now w).0 ≡ ok j
      → let w' = (submit redis fresh kind payload now w).1 in
        (find fresh w'.store.jobs ≡ some j)
        × IsSubmitted fresh kind payload now j
        × IsWaiting j
        × IsHandedOver redis fresh kind w.delivered w'.delivered
  unfolding IsReturned
  submit_ok {j} h = elim (Bool-cases w.store.enabled) [
    | inl on ↦ elim (route_cases kind) [
      | inl (t, e, handles) ↦
          rw (submit_to t on e) (routed_ok t on handles (rw (submit_to t on e) at h))
      | inr (e, other) ↦ absurd (cc (submit_nowhere on e))
    ]
    | inr off ↦ absurd (cc (submit_off off))
  ]

  -- A submission that raises has either changed nothing, and then persistence is disabled or the
  -- kind is none of the three, with the message that says so; or the job is stored, failed with the
  -- error's message and a final time, or still waiting if the error is an abort, and Redis was told
  -- at most once, of the kind's function on the kind's queue.
  pub submit_err :
      {e : Error}
      → (submit redis fresh kind payload now w).0 ≡ err e
      → let w' = (submit redis fresh kind payload now w).1 in
        ((w' ≡ w)
          × (((w.store.enabled ≡ false)
                × (e ≡ runtime_error "RAG_DATABASE_URL is required for persistent jobs"))
              ⊎ (IsUnsupported kind
                  × (e ≡ value_error (String.◌++◌ "unsupported job kind: " kind)))))
        ⊎ ((j : Job) × (find fresh w'.store.jobs ≡ some j)
            × IsSubmitted fresh kind payload now j
            × IsLeftBy e now j
            × ((w'.delivered ≡ w.delivered)
                ⊎ IsHandedOver redis fresh kind w.delivered w'.delivered))
  unfolding IsFailed
  submit_err {e} h = elim (Bool-cases w.store.enabled) [
    | inl on ↦ elim (route_cases kind) [
      | inl (t, to, handles) ↦
          inr (rw (submit_to t on to) (routed_err t on handles (rw (submit_to t on to) at h)))
      | inr (to, other) ↦ inl (
        ap (λ (p : Result Job × World R). p.1) (submit_nowhere on to),
        inr (other, cc (submit_nowhere on to)),
      )
    ]
    | inr off ↦
        inl
          (ap (λ (p : Result Job × World R). p.1) (submit_off off), inl (off, cc (submit_off off)))
  ]

  created_store : Store
  created_store = (create_job fresh kind payload now w.store).1

  routed-store :
      (to : Option (String × String))
      → let store = (submit_routed redis fresh kind payload now to w).1.store in
        (store ≡ w.store)
        ⊎ (store ≡ created_store)
        ⊎ ((e : Error) × (store
              ≡ update_job fresh
                  (Field.status failed ∷ Field.error (message e) ∷ Field.finished_at now ∷ [])
                  created_store))
  unfolding submit_routed created_store handoff_result
  routed-store none = inl refl
  routed-store (some t) = inr (
      failure-store fresh now (new_job fresh kind payload now) created_store
        (handoff_result redis (delivery t) (record w { store = created_store }))
        (handoff-store redis (delivery t) (record w { store = created_store })))
    where
      delivery : String × String → Delivery
      delivery t = record { function = t.0; job_id = fresh; queue = t.1 }

  -- With a fresh identifier the table takes only steps of the lifecycle, whatever Redis answers.
  pub submit-Reach :
      find fresh w.store.jobs ≡ none → Reach w.store (submit redis fresh kind payload now w).1.store
  unfolding created_store
  submit-Reach fresh_id = elim (Bool-cases w.store.enabled) [
    | inr off ↦ rw (submit_off off) here
    | inl on ↦ rw (submit_on on) (elim (routed-store (route kind)) [
      | inl e ↦ rw e here
      | inr (inl e) ↦ rw e create_step
      | inr (inr (x, e)) ↦ rw e (then_write fresh create_step (fail (message x) now))
    ])
  ]
    where
      create_step : Reach w.store created_store
      create_step = one (create w.store fresh kind payload now fresh_id)
