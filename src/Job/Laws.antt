-- ===== src/Job/Laws.antt =====
-- How the job methods of `Persistence` (persistence.py) read back what they write.
use rag_llm.Prelude.{
  eq_refl, Option-cases, inl, inr, String, ◌≡◌, refl, ◌∙◌, Option, none, some, List, [], ◌∷◌, arith,
  ◌==◌, string_eq, eq_iff, if◌then◌else◌,
}
use rag_llm.Job.{Job, Store, fetch, update_job, Field, find, modify, set_field, set_fields, flag}

abbrev map_some : (Job → Job) → Option Job → Option Job
map_some f none = none
map_some f (some j) = some (f j)

abbrev pub KeepsId : (Job → Job) → Type 0
KeepsId f = (j : Job) → (f j).id ≡ j.id

pub set_field-KeepsId : (f : Field) → KeepsId (λ j. set_field j f)
unfolding set_field
set_field-KeepsId (Field.status s) j = refl
set_field-KeepsId (Field.progress n) j = refl
set_field-KeepsId (Field.started_at t) j = refl
set_field-KeepsId (Field.finished_at t) j = refl
set_field-KeepsId (Field.result r) j = refl
set_field-KeepsId (Field.error e) j = refl

pub set_fields-KeepsId : (fs : List Field) → KeepsId (set_fields fs)
unfolding set_fields
set_fields-KeepsId [] j = refl
set_fields-KeepsId (f ∷ fs) j = set_fields-KeepsId fs (set_field j f) ∙ set_field-KeepsId f j

pub flag-KeepsId : KeepsId flag
unfolding flag
flag-KeepsId j = refl

-- A read after a write sees the written row, and every other row as it was.
pub find-modify :
    (k id : String) (f : Job → Job) (js : List Job)
    → KeepsId f
    → find k (modify id f js) ≡ (if id == k then map_some f (find k js) else find k js)
unfolding find modify
find-modify k id f [] keeps = ground arith
find-modify k id f (j ∷ js) keeps =
    ground (arith, keeps j, find-modify k id f js keeps, eq_iff j.id id, eq_iff j.id k, eq_iff id k)

-- A row that is read after a write of the same row is the written form of the row before it.
pub fetch-update_job_self :
    (id : String) (fs : List Field) (s : Store) (j : Job)
    → fetch id (update_job id fs s) ≡ some j
    → (i : Job) × (fetch id s ≡ some i) × (j ≡ set_fields fs i)
unfolding fetch update_job
fetch-update_job_self id fs s j h = elim (Option-cases (fetch id s)) [
  | inl e ↦
      absurd (ground (arith, find-modify id id (set_fields fs) s.jobs (set_fields-KeepsId fs)))
  | inr (i, e) ↦ (
    i,
    e,
    ground (arith, eq_refl id, find-modify id id (set_fields fs) s.jobs (set_fields-KeepsId fs)),
  )
]
