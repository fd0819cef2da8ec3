-- ===== src/Job/Invariant.antt =====
-- What holds of every job record between two writes, whatever the processes and their order.
use rag_llm.Prelude.{
  ℕ, ◌≤◌, String, ◌≡◌, refl, true, Option, none, some, List, arith, ◌==◌, string_eq, eq_iff,
  is_some, Option-cases, Bool-cases, inl, inr, ◌⊎◌, ◌∙◌,
}
use rag_llm.Job.{
  Job, Payload, running, completed, failed, Store, Field, is_terminal, find, modify, set_fields,
  flag, new_job, create_job, update_job, fetch, request_cancel,
}
use rag_llm.Job.Laws.{KeepsId, set_fields-KeepsId, flag-KeepsId, find-modify}
use rag_llm.Job.Steps.{
  Write, start, advance, complete, fail, fail_generation, skip, cancel, Step, create, write,
  request, Reach, here, next,
}

pub record IsSound (j : Job) : Type 0 where
  pub progress_capped : j.progress ≤ 100
  pub running_started : j.status ≡ running → is_some j.started_at ≡ true
  pub ended_stamped : is_terminal j.status ≡ true → is_some j.finished_at ≡ true
  pub completed_result : j.status ≡ completed → is_some j.result ≡ true
  pub failed_reason : j.status ≡ failed → is_some j.error ≡ true

-- What no write changes, and the flag that no write takes back.
pub record IsLater (j k : Job) : Type 0 where
  pub same_id : k.id ≡ j.id
  pub same_kind : k.kind ≡ j.kind
  pub same_payload : k.payload ≡ j.payload
  pub same_created_at : k.created_at ≡ j.created_at
  pub still_flagged : j.cancel_requested ≡ true → k.cancel_requested ≡ true

Write-IsSound : {fs : List Field} → Write fs → (j : Job) → IsSound j → IsSound (set_fields fs j)
unfolding set_fields is_terminal
Write-IsSound (start t) j h = ground arith
Write-IsSound (advance n le) j h = ground arith
Write-IsSound (complete r t) j h = ground arith
Write-IsSound (fail e t) j h = ground arith
Write-IsSound (fail_generation e t) j h = ground arith
Write-IsSound (skip t) j h = ground arith
Write-IsSound (cancel t) j h = ground arith

Write-IsLater : {fs : List Field} → Write fs → (j : Job) → IsLater j (set_fields fs j)
unfolding set_fields
Write-IsLater (start t) j = ground arith
Write-IsLater (advance n le) j = ground arith
Write-IsLater (complete r t) j = ground arith
Write-IsLater (fail e t) j = ground arith
Write-IsLater (fail_generation e t) j = ground arith
Write-IsLater (skip t) j = ground arith
Write-IsLater (cancel t) j = ground arith

flag-IsSound : (j : Job) → IsSound j → IsSound (flag j)
unfolding flag
flag-IsSound j h = ground arith

flag-IsLater : (j : Job) → IsLater j (flag j)
unfolding flag
flag-IsLater j = ground arith

IsLater-trans : {j k l : Job} → IsLater j k → IsLater k l → IsLater j l
IsLater-trans p q = ground arith

-- Every record that a read can return is sound.
pub record IsValid (s : Store) : Type 0 where
  pub at_id : (id : String) (j : Job) → find id s.jobs ≡ some j → IsSound j

-- Each record of `s` is still in `t`, with its identity.
pub record Extends (s t : Store) : Type 0 where
  pub same_enabled : t.enabled ≡ s.enabled
  pub kept :
      (id : String) (j : Job)
      → find id s.jobs ≡ some j
      → (k : Job) × (find id t.jobs ≡ some k) × IsLater j k

modify-IsSound :
    (id k : String) (f : Job → Job) (js : List Job) (j : Job)
    → KeepsId f
    → ((i : Job) → IsSound i → IsSound (f i))
    → ((i : Job) → find k js ≡ some i → IsSound i)
    → find k (modify id f js) ≡ some j
    → IsSound j
modify-IsSound id k f js j keeps sound h found = elim (Option-cases (find k js)) [
  | inl e ↦ ground (arith, find-modify k id f js keeps)
  | inr (i, e) ↦ ground (arith, find-modify k id f js keeps, h i e, sound i (h i e))
]

modify-kept :
    (id k : String) (f : Job → Job) (js : List Job) (j : Job)
    → KeepsId f
    → ((i : Job) → IsLater i (f i))
    → IsLater j j
    → find k js ≡ some j
    → (l : Job) × (find k (modify id f js) ≡ some l) × IsLater j l
modify-kept id k f js j keeps later same found = elim (Bool-cases (id == k)) [
  | inl e ↦ (f j, ground (arith, find-modify k id f js keeps), later j)
  | inr e ↦ (j, ground (arith, find-modify k id f js keeps), same)
]

IsLater-refl : (j : Job) → IsLater j j
IsLater-refl j = ground arith

pub Step-IsValid : {s t : Store} → Step s t → IsValid s → IsValid t
unfolding create_job update_job request_cancel fetch find new_job is_terminal
Step-IsValid (create s id kind payload t fresh) v = record {
  at_id = λ k j found. ground (arith, v.at_id k j);
}
Step-IsValid (write s id {fs = fs} w) v = record {
  at_id = λ k j found. ground (
    arith,
    v.at_id k j,
    modify-IsSound id k (set_fields fs) s.jobs j (set_fields-KeepsId fs) (Write-IsSound w)
        (v.at_id k),
  );
}
Step-IsValid (request s id) v = record {
  at_id = λ k j found.
      ground (
        arith,
        v.at_id k j,
        modify-IsSound id k flag s.jobs j flag-KeepsId flag-IsSound (v.at_id k),
      );
}

store_kept :
    (id k : String) (f : Job → Job) (s t : Store) (j : Job)
    → (t.jobs ≡ s.jobs) ⊎ (t.jobs ≡ modify id f s.jobs)
    → KeepsId f
    → ((i : Job) → IsLater i (f i))
    → find k s.jobs ≡ some j
    → (l : Job) × (find k t.jobs ≡ some l) × IsLater j l
store_kept id k f s t j (inl e) keeps later found = (j, rw e found, IsLater-refl j)
store_kept id k f s t j (inr e) keeps later found =
    let (l, p, q) = modify-kept id k f s.jobs j keeps later (IsLater-refl j) found in (l, rw e p, q)

update_job-jobs :
    (id : String) (fs : List Field) (s : Store)
    → ((update_job id fs s).jobs ≡ s.jobs)
      ⊎ ((update_job id fs s).jobs ≡ modify id (set_fields fs) s.jobs)
unfolding update_job
update_job-jobs id fs s = ground arith

request_cancel-jobs :
    (id : String) (s : Store)
    → ((request_cancel id s).1.jobs ≡ s.jobs)
      ⊎ ((request_cancel id s).1.jobs ≡ modify id flag s.jobs)
unfolding request_cancel
request_cancel-jobs id s = ground arith

create_job-kept :
    (s : Store) (id kind : String) (payload : Option Payload) (t : ℕ) (k : String) (j : Job)
    → find id s.jobs ≡ none
    → find k s.jobs ≡ some j
    → find k (create_job id kind payload t s).1.jobs ≡ some j
unfolding create_job find new_job
create_job-kept s id kind payload t k j fresh found = ground (arith, eq_iff id k)

pub Step-Extends : {s t : Store} → Step s t → Extends s t
unfolding create_job update_job request_cancel fetch
Step-Extends (create s id kind payload t fresh) = record {
  same_enabled = ground arith;
  kept = λ k j found. (j, create_job-kept s id kind payload t k j fresh found, IsLater-refl j);
}
Step-Extends (write s id {fs = fs} w) = record {
  same_enabled = ground arith;
  kept = λ k j found.
      store_kept id k (set_fields fs) s (update_job id fs s) j (update_job-jobs id fs s)
        (set_fields-KeepsId fs) (Write-IsLater w) found;
}
Step-Extends (request s id) = record {
  same_enabled = ground arith;
  kept = λ k j found.
      store_kept id k flag s (request_cancel id s).1 j (request_cancel-jobs id s) flag-KeepsId
        flag-IsLater found;
}

-- From a store whose records are sound, every run of any processes leads to one.
pub Reach-IsValid : {s t : Store} → IsValid s → Reach s t → IsValid t
Reach-IsValid v here = v
Reach-IsValid v (next r st) = Step-IsValid st (Reach-IsValid v r)

Extends-trans : {s t u : Store} → Extends s t → Extends t u → Extends s u
Extends-trans p q = record {
  same_enabled = q.same_enabled ∙ p.same_enabled;
  kept = λ id j found.
      let (k, e, later) = p.kept id j found in
      let (l, e', later') = q.kept id k e in (l, e', IsLater-trans later later');
}

Extends-refl : (s : Store) → Extends s s
Extends-refl s = record { same_enabled = refl; kept = λ id j found. (j, found, IsLater-refl j) }

-- No run removes a job or changes its kind, payload, creation time or a set cancel flag.
pub Reach-Extends : {s t : Store} → Reach s t → Extends s t
Reach-Extends {s} here = Extends-refl s
Reach-Extends (next r st) = Extends-trans (Reach-Extends r) (Step-Extends st)
