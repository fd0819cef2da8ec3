-- ===== src/Queue/Wait.antt =====
-- `JobQueue.wait` (jobs.py) returns, with the record of the round at which it ends.
use rag_llm.Prelude.{
  ℕ, zero, suc, ◌+◌, ◌≤◌, ◌<◌, String, ◌≡◌, refl, true, Option, none, some, arith, max, leb,
  Bool-cases, inl, inr, ◌⊎◌,
}
use rag_llm.Job.{JobView, Store, is_terminal, get_job}
use rag_llm.Queue.{round, wait_from, wait}

-- Why `wait` may hand back what it saw at `t`.
abbrev pub MayStop : ℕ → ℕ → Option JobView → Type 0
MayStop deadline t none = Unit
MayStop deadline t (some j) = (is_terminal j.status ≡ true) ⊎ (deadline ≤ t)

pub record Stops (seen : ℕ → Store) (id : String) (deadline now : ℕ) (r : Option (Option JobView))
    : Type 0 where
  pub at : ℕ
  pub view : Option JobView
  pub result : r ≡ some view
  pub seen_then : view ≡ get_job id (seen at)
  pub not_before : now ≤ at
  pub reason : MayStop deadline at view

stop_now :
    (seen : ℕ → Store) (id : String) (deadline now : ℕ) (v : Option JobView)
    → v ≡ get_job id (seen now)
    → MayStop deadline now v
    → Stops seen id deadline now (some v)
stop_now seen id deadline now v e why = record {
  at = now;
  view = v;
  result = refl;
  seen_then = e;
  not_before = omega arith;
  reason = why;
}

module _ (seen : ℕ → Store) (id : String) (deadline interval : ℕ) where
  later-Stops :
      (now t : ℕ) {r : Option (Option JobView)}
      → now ≤ t
      → Stops seen id deadline t r
      → Stops seen id deadline now r
  later-Stops now t le s = record {
    at = s.at;
    view = s.view;
    result = s.result;
    seen_then = s.seen_then;
    not_before = omega arith;
    reason = s.reason;
  }

  round-Stops :
      (now : ℕ) (v : Option JobView) (rest : Option (Option JobView))
      → v ≡ get_job id (seen now)
      → (now < deadline → Stops seen id deadline now rest)
      → Stops seen id deadline now (round deadline now v rest)
  unfolding round
  round-Stops now none rest e more = stop_now seen id deadline now none e tt
  round-Stops now (some j) rest e more = elim (Bool-cases (is_terminal j.status)) [
    | inl ended ↦ rw ended (stop_now seen id deadline now (some j) e (inl ended))
    | inr live ↦ rw live (elim (Bool-cases (leb deadline now)) [
      | inl late ↦ rw late (stop_now seen id deadline now (some j) e (inr (ground arith)))
      | inr early ↦ rw early (more (ground arith))
    ])
  ]

  wait_from-Stops :
      (fuel now : ℕ)
      → 0 < fuel
      → deadline < now + fuel
      → Stops seen id deadline now (wait_from seen id deadline interval fuel now)
  unfolding wait_from
  wait_from-Stops zero now pos h = absurd (omega arith)
  wait_from-Stops (suc zero) now pos h =
      round-Stops now (get_job id (seen now)) none refl (λ lt. absurd (omega arith))
  wait_from-Stops (suc (suc fuel)) now pos h =
      round-Stops now (get_job id (seen now))
        (wait_from seen id deadline interval (suc fuel) (now + max 50 interval)) refl
        λ lt.
          later-Stops now (now + max 50 interval) (omega arith)
            (wait_from-Stops (suc fuel) (now + max 50 interval) (omega arith) (omega arith))

-- `wait` returns, whatever other processes do to the table: with nothing if the record is gone,
-- else with the record as it stood at a time no earlier than the call, at which it was terminal or
-- the deadline had come.
pub wait-Stops :
    (seen : ℕ → Store) (id : String) (timeout interval now : ℕ)
    → Stops seen id (now + timeout) now (wait seen id timeout interval now)
unfolding wait
wait-Stops seen id timeout interval now =
    wait_from-Stops seen id (now + timeout) interval (suc timeout) now (omega arith) (omega arith)
