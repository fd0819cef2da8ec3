-- ===== src/Worker/Task.antt =====
-- The parts that the two child-process workers of ingestion_worker.py share.
use rag_llm.World.{Await}
use rag_llm.Prelude.{
  ℕ, String, ◌≡◌, Bool, true, false, Option, none, some, List, [], take_last_chars,
}
use rag_llm.Failure.{Result, ok}
use rag_llm.Job.{JobView, Payload, Report, Store, get_job, get_job_payload}

-- The child's exit: whether its return code is 0, what `json.loads` makes of the last line of its
-- output (`none` if it printed nothing), its error output, and what happens elsewhere before the
-- worker's next write.
pub record Exit (W : Type 0) : Type 0 where
  pub success : Bool
  pub report : Option (Result Report)
  pub stderr : String
  pub others : W → W

-- One round of the polling loop: what happens elsewhere while it waits, and the child's exit if it
-- comes in this round.
pub record Poll (W : Type 0) : Type 0 where
  pub others : W → W
  pub exit : Option (Exit W)

-- One run of a worker function. The rounds end with `asyncio.CancelledError` if no round sees an
-- exit: ARQ aborts the task, or its timeout does. It may do so at every await, too.
pub record Run (W : Type 0) : Type 0 where
  pub started : ℕ
  pub ended : ℕ
  pub others : W → W
  pub spawned : Result (Unit {0})
  pub polls : List (Poll W)
  -- what the two reads at the start raise
  pub read : Result (Unit {0})
  -- the writing awaits before the `try`, those under it and those of its handlers
  pub outside : List Await
  pub inside : List Await
  pub handling : List Await
  -- what the `finally` block raises
  pub stopped : Result (Unit {0})

-- No abort comes before the `try`, in a handler or in the `finally` block.
pub record IsUndisturbed {W : Type 0} (run : Run W) : Type 0 where
  pub read : run.read ≡ ok tt
  pub outside : run.outside ≡ []
  pub handling : run.handling ≡ []
  pub stopped : run.stopped ≡ ok tt

pub data TaskResult (A : Type 0) : Type 0 where
  -- `{"cancelled": True}`
  was_cancelled : TaskResult A
  finished : A → TaskResult A

-- `not job or job["cancel_requested"]`
unfoldable pub unwanted : Option JobView → Bool
unwanted none = true
unwanted (some j) = j.cancel_requested

-- `latest and latest["cancel_requested"]`
unfoldable pub is_flagged : String → Store → Bool
is_flagged id s = elim (get_job id s) [ none ↦ false | some j ↦ j.cancel_requested ]

-- The `payload` argument, or the persisted payload where it is `None`.
unfoldable pub chosen : Option Payload → String → Store → Option Payload
chosen none id s = get_job_payload id s
chosen (some p) id s = some p

-- `json.loads(lines[-1]) if lines else {"error": stderr[-1000:]}`
unfoldable pub report_of : Option (Result Report) → String → Result Report
report_of none stderr = ok (record {
  error = some (take_last_chars 1000 stderr);
  chunks = 0;
  parsing_backend = "";
  warnings = [];
})
report_of (some r) stderr = r

-- `str(result.get("error", default))`
unfoldable pub failure : Report → String → String
failure r default = elim r.error [ none ↦ default | some e ↦ e ]
