-- ===== src/Access/Audit.antt =====
-- The audit log: Persistence.record_audit and purge_audit of persistence.py, for a configured engine.
-- A time is a number of seconds. The reading of a number is a parameter.
use rag_llm.Prelude.{ℕ, ◌+◌, ◌*◌, String, Bool, not, Option, none, some, List, ◌∷◌, ltb, length}
use rag_llm.Failure.{Result, ok, err, Action, other_error}
use rag_llm.Access.Json.{Json, Fields, lookup, get}
use rag_llm.Access.Condition.{text_of}
use rag_llm.Workspace.Table.{select}

pub record AuditEvent : Type 0 where
  pub id : String
  pub created_at : ℕ
  pub event : String
  pub outcome : String
  pub subject : Json
  pub request_id : Json
  pub payload : Fields

module _ (str_of : Json → String) (float_of : Json → Result ℕ) where
  abbrev pub insert_event :
      String → Fields → Result ℕ → Option Json → Option Json → Action (List AuditEvent) (Unit {0})
  insert_event id payload (err e) event outcome rows = (err e, rows)
  insert_event id payload (ok time) none outcome rows = (err (other_error "'event'"), rows)
  insert_event id payload (ok time) (some e) none rows = (err (other_error "'outcome'"), rows)
  insert_event id payload (ok time) (some e) (some o) rows = (
    ok tt,
    record {
      id = id;
      created_at = time;
      event = text_of str_of e;
      outcome = text_of str_of o;
      subject = get "subject" payload;
      request_id = get "request_id" payload;
      payload = payload;
    }
        ∷ rows,
  )

  -- `float(payload["timestamp"])`
  abbrev pub timestamp : Option Json → Result ℕ
  timestamp none = err (other_error "'timestamp'")
  timestamp (some v) = float_of v

  unfoldable pub record_audit : String → Fields → Action (List AuditEvent) (Unit {0})
  record_audit id payload rows =
      insert_event id payload (timestamp (lookup "timestamp" payload)) (lookup "event" payload)
        (lookup "outcome" payload) rows

-- `created_at < time.time() - retention_days * 86400`
unfoldable pub is_expired : ℕ → ℕ → AuditEvent → Bool
is_expired days now e = ltb (e.created_at + days * 86400) now

-- The number of deleted rows, and the table without them.
unfoldable pub purge_audit : ℕ → ℕ → List AuditEvent → ℕ × List AuditEvent
purge_audit days now rows =
    (length (select (is_expired days now) rows), select (λ e. not (is_expired days now e)) rows)
