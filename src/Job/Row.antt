-- ===== src/Job/Row.antt =====
-- `JobRow` of persistence.py, and the payloads and results that the workers store in it.
use rag_llm.Registry.{Metadata}
use rag_llm.Prelude.{ℕ, String, Bool, true, false, Option, List}

-- The texts that `status` takes: "queued", "running", "completed", "failed", "cancelled".
pub data Status : Type 0 where
  queued running completed failed cancelled : Status

-- `status in {"completed", "failed", "cancelled"}`
unfoldable pub is_terminal : Status → Bool
is_terminal completed = true
is_terminal failed = true
is_terminal cancelled = true
is_terminal _ = false

-- The keys of `payload` that the queue and the workers read. `request` is the text of the nested
-- object, `none` where the key is missing or holds no object.
pub record Payload : Type 0 where
  pub document_id : Option String
  pub assistant_message_id : Option String
  pub path : Option String
  pub owner_subject : Option String
  pub request : Option String

-- The last line that the child process of an ingestion or a deletion prints, decoded.
pub record Report : Type 0 where
  pub error : Option String
  pub chunks : ℕ
  pub parsing_backend : String
  pub warnings : List String

-- What `run_ask` returns: the two texts, and the keys from `flow_mode` to `retrieval_trace` that the
-- worker copies into the message's metadata.
pub record Answer : Type 0 where
  pub answer : String
  pub html_answer : String
  pub details : Metadata

pub data Outcome : Type 0 where
  reported : Report → Outcome
  -- the result with `message_id`, `job_id` and `status = "complete"` added
  answered : Answer → String → String → Outcome

pub record Job : Type 0 where
  pub id : String
  pub kind : String
  pub status : Status
  pub progress : ℕ
  pub cancel_requested : Bool
  pub created_at : ℕ
  pub started_at : Option ℕ
  pub finished_at : Option ℕ
  pub payload : Option Payload
  pub result : Option Outcome
  pub error : Option String
