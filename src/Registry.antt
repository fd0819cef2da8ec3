-- ===== src/Registry.antt =====
-- The registry of messages and documents as the queue and the workers see it: `update_message`
-- and `update_document` of db_store.py, with the payloads that are passed to them.
use rag_llm.Prelude.{ℕ, String, Option, none, some, List, [], ◌∷◌}
use rag_llm.Failure.{Action}

-- A JSON value that these modules write into a `metadata` object.
pub data Meta : Type 0 where
  text : String → Meta
  number : ℕ → Meta
  texts : List String → Meta

abbrev pub Metadata : Type 0
Metadata = List (String × Meta)

-- The keys of `processing_state` that are written.
pub record ProcessingState : Type 0 where
  pub job_id : Option String
  pub progress : Option ℕ
  pub error : Option String

-- `none` is a key that the payload does not have.
pub record MessagePatch : Type 0 where
  pub content : Option String
  pub content_html : Option String
  pub status : Option String
  pub metadata : Option Metadata

pub record DocumentPatch : Type 0 where
  pub file_name : Option String
  pub source_path : Option String
  pub mime_type : Option String
  pub status : Option String
  pub processing_state : Option ProcessingState
  pub metadata : Option Metadata

pub record Registry (R : Type 0) : Type 0 where
  pub update_message : String → MessagePatch → Action R (Unit {0})
  pub update_document : String → DocumentPatch → Action R (Unit {0})

-- The payloads that the queue and the workers write.
unfoldable pub message_failed : String → String → MessagePatch
message_failed content job_id = record {
  content = some content;
  content_html = none;
  status = some "error";
  metadata = some (("job_id", text job_id) ∷ []);
}

abbrev pub cancelled_text : String
cancelled_text = "Генерация отменена."

unfoldable pub document_at : Option String → String → ℕ → DocumentPatch
document_at status job_id progress = record {
  file_name = none;
  source_path = none;
  mime_type = none;
  status = status;
  processing_state = some (record { job_id = some job_id; progress = some progress; error = none });
  metadata = none;
}
