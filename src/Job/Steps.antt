-- ===== src/Job/Steps.antt =====
-- The lifecycle of the job records as a step relation: the writes to the `jobs` table that jobs.py,
-- generation_worker.py and ingestion_worker.py make, in any order and by any process.
use rag_llm.Prelude.{ℕ, ◌≤◌, String, ◌≡◌, Option, none, List, [], ◌∷◌}
use rag_llm.Job.{
  Payload, Outcome, running, completed, failed, cancelled, Store, Field, find, create_job,
  update_job, request_cancel,
}

-- The keyword arguments that the callers of `update_job` pass.
pub data Write : List Field → Type 0 where
  start : (t : ℕ) → Write (Field.status running ∷ Field.progress 10 ∷ Field.started_at t ∷ [])
  advance : (n : ℕ) → n ≤ 90 → Write (Field.progress n ∷ [])
  complete :
      (r : Outcome) (t : ℕ)
      → Write
          (Field.status completed ∷ Field.progress 100 ∷ Field.result r ∷ Field.finished_at t ∷ [])
  -- a failed delivery or task
  fail :
      (e : String) (t : ℕ) → Write (Field.status failed ∷ Field.error e ∷ Field.finished_at t ∷ [])
  -- a failed generation
  fail_generation :
      (e : String) (t : ℕ)
      → Write (Field.status failed ∷ Field.progress 100 ∷ Field.error e ∷ Field.finished_at t ∷ [])
  -- an ingestion that is cancelled before it starts
  skip : (t : ℕ) → Write (Field.status cancelled ∷ Field.finished_at t ∷ [])
  cancel : (t : ℕ) → Write (Field.status cancelled ∷ Field.progress 100 ∷ Field.finished_at t ∷ [])

pub data Step : Store → Store → Type 0 where
  create :
      (s : Store) (id kind : String) (payload : Option Payload) (t : ℕ)
      → find id s.jobs ≡ none
      → Step s (create_job id kind payload t s).1
  write : (s : Store) (id : String) {fs : List Field} → Write fs → Step s (update_job id fs s)
  request : (s : Store) (id : String) → Step s (request_cancel id s).1

pub data Reach (s : Store) : Store → Type 0 where
  here : Reach s s
  next : {t u : Store} → Reach s t → Step t u → Reach s u

pub Reach-trans : {s t u : Store} → Reach s t → Reach t u → Reach s u
Reach-trans r here = r
Reach-trans r (next q st) = next (Reach-trans r q) st

pub one : {s t : Store} → Step s t → Reach s t
one st = next here st

-- One more `update_job` at the end of a run.
pub then_write :
    {s t : Store} (id : String) {fs : List Field}
    → Reach s t
    → Write fs
    → Reach s (update_job id fs t)
then_write {t = t} id r w = next r (write t id w)
