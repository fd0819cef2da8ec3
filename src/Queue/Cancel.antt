-- ===== src/Queue/Cancel.antt =====
-- What `JobQueue.cancel` (jobs.py) does to an accepted and to a refused request.
use rag_llm.Prelude.{
  ℕ, String, ◌≡◌, refl, Bool, true, false, Option, none, some, [], ◌∷◌, ◌++◌, arith, string_eq,
  eq_refl, Option-cases, Bool-cases, inl, inr, ◌⊎◌, subst, ap,
}
use rag_llm.Failure.{ok, ◌>>◌}
use rag_llm.Job.{
  closing, Job, Payload, Store, is_terminal, modify, flag, set_fields, fetch, update_job,
  get_job_payload, request_cancel,
}
use rag_llm.Job.Steps.{Write, Reach, here, Reach-trans, request, one}
use rag_llm.Job.Laws.{find-modify, flag-KeepsId, set_fields-KeepsId}
use rag_llm.Registry.{Registry}
use rag_llm.World.Follows.{Follows, follows_rules}
use rag_llm.World.{World, set_job, on_registry, when_given}
use rag_llm.Queue.{
  after_request, Redis, cancel, close_cancelled, mark_if_payload, mark_payload_cancelled, connect,
  abort_job,
}

module _ {R : Type 0} (reg : Registry R) where
  mark-rest :
      (id : String) (p : Option Payload) (w : World R)
      → let w' = (mark_if_payload reg id p w).1 in (w'.store ≡ w.store) × (w'.aborted ≡ w.aborted)
  unfolding mark_if_payload mark_payload_cancelled on_registry when_given ◌>>◌
  mark-rest id none w = (refl, refl)
  mark-rest id (some p) w = ground arith

  close-ok :
      (redis : Redis) (id : String) (now : ℕ) (p : Option Payload) (w : World R) {b : Bool}
      → (close_cancelled reg redis id now p w).0 ≡ ok b
      → let w' = (close_cancelled reg redis id now p w).1 in
        (b ≡ true)
        × (w'.store ≡ update_job id (closing now) w.store)
        × (w'.aborted ≡ w.aborted ++ id ∷ [])
  unfolding close_cancelled connect abort_job set_job ◌>>◌
  close-ok redis id now p w h = ground (
    arith,
    mark-rest id p (record w {
      connected = true;
      store = update_job id (closing now) w.store;
      aborted = w.aborted ++ id ∷ [];
    }),
  )

  mark-Follows : (id : String) (p : Option Payload) → Follows (mark_if_payload reg id p)
  unfolding mark_if_payload mark_payload_cancelled
  mark-Follows id none = search follows_rules
  mark-Follows id (some p) = search follows_rules

  connect-Follows : (redis : Redis) → Follows {R = R} (connect redis)
  unfolding connect
  connect-Follows redis = record { at = λ w. rw (kept w) here }
    where
      kept : (w : World R) → (connect redis w).1.store ≡ w.store
      kept w = ground arith

  abort-Follows : (redis : Redis) (id : String) → Follows {R = R} (abort_job redis id)
  unfolding abort_job
  abort-Follows redis id = record { at = λ w. rw (kept w) here }
    where
      kept : (w : World R) → (abort_job redis id w).1.store ≡ w.store
      kept w = ground arith

  close-Follows :
      (redis : Redis) (id : String) (now : ℕ) (p : Option Payload)
      → Follows (close_cancelled reg redis id now p)
  unfolding close_cancelled
  close-Follows redis id now p =
      search (follows_rules, mark-Follows, connect-Follows, abort-Follows, Write.cancel)

request_cases :
    (id : String) (s : Store)
    → (request_cancel id s ≡ (false, s))
      ⊎ ((j : Job) × (fetch id s ≡ some j)
          × (is_terminal j.status ≡ false)
          × (request_cancel id s ≡ (true, record s { jobs = modify id flag s.jobs })))
unfolding request_cancel
request_cases id s = elim (Option-cases (fetch id s)) [
  | inl e ↦ inl (rw (e, request_cancel))
  | inr (j, e) ↦ elim (Bool-cases (is_terminal j.status)) [
    | inl ended ↦ inl (rw (e, request_cancel) (rw ended))
    | inr live ↦ inr (j, e, live, rw (e, request_cancel) (rw live))
  ]
]

-- The row after the flag and the closing write.
fetch-closed :
    (id : String) (now : ℕ) (s : Store) (j : Job)
    → fetch id s ≡ some j
    → fetch id (update_job id (closing now) (record s { jobs = modify id flag s.jobs }))
      ≡ some (set_fields (closing now) (flag j))
unfolding fetch update_job
fetch-closed id now s j found = ground (
  arith,
  eq_refl id,
  find-modify id id flag s.jobs flag-KeepsId,
  find-modify id id (set_fields (closing now)) (modify id flag s.jobs)
      (set_fields-KeepsId (closing now)),
)

module _ {R : Type 0} (reg : Registry R) (redis : Redis) (id : String) (now : ℕ) (w : World R) where
  abbrev flagged : World R
  flagged = record w { store = record w.store { jobs = modify id flag w.store.jobs } }

  payload : Option Payload
  payload = get_job_payload id w.store

  cancel-refused :
      request_cancel id w.store ≡ (false, w.store) → cancel reg redis id now w ≡ (ok false, w)
  unfolding cancel payload
  cancel-refused e = ap (λ (p : Bool × Store). after_request reg redis id now payload p w) e

  cancel-accepted :
      request_cancel id w.store ≡ (true, flagged.store)
      → cancel reg redis id now w ≡ close_cancelled reg redis id now payload flagged
  unfolding cancel payload
  cancel-accepted e = ap (λ (p : Bool × Store). after_request reg redis id now payload p w) e

  -- Whatever Redis and the registry answer, a cancellation takes only steps of the lifecycle.
  pub cancel-Reach : Reach w.store (cancel reg redis id now w).1.store
  cancel-Reach = elim (request_cases id w.store) [
    | inl e ↦ rw (cancel-refused e) here
    | inr (j, found, live, e) ↦ rw (cancel-accepted e) (
        Reach-trans (subst (λ (p : Bool × Store). Reach w.store p.1) e (one (request w.store id)))
          ((close-Follows reg redis id now payload).at flagged))
  ]

  -- A refused request has changed nothing at all.
  pub cancel_refused : (cancel reg redis id now w).0 ≡ ok false → (cancel reg redis id now w).1 ≡ w
  cancel_refused h = elim (request_cases id w.store) [
    | inl e ↦ rw (cancel-refused e)
    | inr (j, found, live, e) ↦
        cc ((close-ok reg redis id now payload flagged (rw (cancel-accepted e) at h)).0)
  ]

  -- An accepted request was for a job that had not ended. Afterwards the row has the flag, the
  -- cancelled status and the final time, and Redis was asked once to abort exactly this job.
  pub cancel_accepted :
      (cancel reg redis id now w).0 ≡ ok true
      → let w' = (cancel reg redis id now w).1 in
        (j : Job) × (fetch id w.store ≡ some j)
        × (is_terminal j.status ≡ false)
        × (fetch id w'.store ≡ some (set_fields (closing now) (flag j)))
        × (w'.aborted ≡ w.aborted ++ id ∷ [])
  cancel_accepted h = elim (request_cases id w.store) [
    | inl e ↦ cc (cancel-refused e)
    | inr (j, found, live, e) ↦
        let (b, stored, aborted) =
          close-ok reg redis id now payload flagged (rw (cancel-accepted e) at h) in
        (
          j,
          found,
          live,
          rw (cancel-accepted e) (rw stored (fetch-closed id now w.store j found)),
          rw (cancel-accepted e) aborted,
        )
  ]
