-- ===== src/Job.antt =====
-- The persistent job records: the job methods of `Persistence` (persistence.py). Time stamps are
-- ticks of one clock and are handed in, as is a fresh identifier.
mod Row
pub mod Laws
pub mod Steps
pub mod Invariant
pub use Row.{
  Status, queued, running, completed, failed, cancelled, Payload, Report, Answer, Outcome, reported,
  answered, Job,
}
unfoldable pub use Row.{is_terminal}
use rag_llm.Prelude.{
  ℕ, String, Bool, true, false, Option, none, some, List, [], ◌∷◌, ◌==◌, string_eq, if◌then◌else◌,
}

-- The `jobs` table; `enabled` says that an engine was configured.
pub record Store : Type 0 where
  pub enabled : Bool
  pub jobs : List Job

-- `session.get(JobRow, job_id)`: the identifier is the primary key.
unfoldable pub find : String → List Job → Option Job
find id [] = none
find id (j ∷ js) = if j.id == id then some j else find id js

-- The row of the identifier, changed by `f`; no row, no change.
unfoldable pub modify : String → (Job → Job) → List Job → List Job
modify id f [] = []
modify id f (j ∷ js) = if j.id == id then f j ∷ js else j ∷ modify id f js

-- One keyword argument of `update_job`.
pub data Field : Type 0 where
  status : Status → Field
  progress : ℕ → Field
  started_at finished_at : ℕ → Field
  result : Outcome → Field
  error : String → Field

-- `setattr(row, key, value)`
unfoldable pub set_field : Job → Field → Job
set_field j (status s) = record j { status = s }
set_field j (progress n) = record j { progress = n }
set_field j (started_at t) = record j { started_at = some t }
set_field j (finished_at t) = record j { finished_at = some t }
set_field j (result r) = record j { result = some r }
set_field j (error e) = record j { error = some e }

unfoldable pub set_fields : List Field → Job → Job
unfolding set_field
set_fields [] j = j
set_fields (f ∷ fs) j = set_fields fs (set_field j f)

unfoldable pub new_job : String → String → Option Payload → ℕ → Job
new_job id kind payload now = record {
  id = id;
  kind = kind;
  status = queued;
  progress = 0;
  cancel_requested = false;
  created_at = now;
  started_at = none;
  finished_at = none;
  payload = payload;
  result = none;
  error = none;
}

-- The row is returned also when persistence is disabled and nothing is written.
unfoldable pub create_job : String → String → Option Payload → ℕ → Store → Job × Store
unfolding new_job
create_job id kind payload now s =
    let job = new_job id kind payload now in
    (job, if s.enabled then record s { jobs = job ∷ s.jobs } else s)

unfoldable pub update_job : String → List Field → Store → Store
unfolding modify set_fields
update_job id fields s =
    if s.enabled then record s { jobs = modify id (set_fields fields) s.jobs } else s

-- What `session.get` finds when persistence is enabled.
unfoldable pub fetch : String → Store → Option Job
fetch id s = if s.enabled then find id s.jobs else none

-- The public projection of a record: all fields but the payload.
pub record JobView : Type 0 where
  pub id : String
  pub kind : String
  pub status : Status
  pub progress : ℕ
  pub cancel_requested : Bool
  pub created_at : ℕ
  pub started_at : Option ℕ
  pub finished_at : Option ℕ
  pub result : Option Outcome
  pub error : Option String

unfoldable pub job_dict : Job → JobView
job_dict j = record {
  id = j.id;
  kind = j.kind;
  status = j.status;
  progress = j.progress;
  cancel_requested = j.cancel_requested;
  created_at = j.created_at;
  started_at = j.started_at;
  finished_at = j.finished_at;
  result = j.result;
  error = j.error;
}

unfoldable pub get_job : String → Store → Option JobView
unfolding fetch job_dict
get_job id s = elim (fetch id s) [ none ↦ none | some j ↦ some (job_dict j) ]

unfoldable pub get_job_payload : String → Store → Option Payload
unfolding fetch
get_job_payload id s = elim (fetch id s) [ none ↦ none | some j ↦ j.payload ]

unfoldable pub flag : Job → Job
flag j = record j { cancel_requested = true }

-- The flag is set only on a job that has not ended.
unfoldable pub request_cancel : String → Store → Bool × Store
unfolding fetch modify flag is_terminal
request_cancel id s = elim (fetch id s) [
  | none ↦ (false, s)
  | some j ↦
      if is_terminal j.status then (false, s) else (true, record s { jobs = modify id flag s.jobs })
]

-- `status="cancelled", progress=100, finished_at=time.time()`
abbrev pub closing : ℕ → List Field
closing now = status cancelled ∷ progress 100 ∷ finished_at now ∷ []
