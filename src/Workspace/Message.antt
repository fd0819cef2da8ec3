-- ===== src/Workspace/Message.antt =====
-- The operations on messages of db_store.py.
use rag_llm.Prelude.{
  ℕ, String, Bool, true, false, not, ◌&&◌, Option, none, some, List, [], ◌∷◌, ◌==◌, string_eq,
  is_some, is_empty, if◌then◌else◌,
}
use rag_llm.Failure.{ok, err, Action, value_error}
use rag_llm.Access.Json.{Json, str, Fields, get}
use rag_llm.Access.Condition.{text_of}
use rag_llm.Workspace.Table.{select, find, modify, order_by}
use rag_llm.Workspace.Scope.{Scope}
use rag_llm.Workspace.Payload.{get_or, or_object, update_values}
use rag_llm.Workspace.Row.{Chat, Message, Tables, MessageColumn, update_message_row}
use rag_llm.Workspace.Chat.{get_chat}

unfoldable pub is_live_message : Message → Bool
is_live_message m = not (is_some m.deleted_at)

unfoldable pub list_messages : Scope → String → Tables → List Message
list_messages scope chat_id s =
    if is_some (get_chat scope chat_id s)
    then order_by (λ m. m.created_at)
        (select (λ m. m.chat_id == chat_id && is_live_message m) s.messages)
    else []

-- With a subject the query joins the chat and asks it to be live and the subject's own.
unfoldable pub is_reachable : Option String → Option Chat → Bool
is_reachable none c = true
is_reachable (some subject) c = if is_empty subject then true else is_some c

unfoldable pub reachable : Scope → Message → Tables → Bool
unfolding is_reachable
reachable scope m s = is_reachable scope.subject (get_chat scope m.chat_id s)

unfoldable pub get_message : Scope → String → Tables → Option Message
unfolding reachable
get_message scope id s = elim (find (λ m. m.id) id s.messages) [
  | none ↦ none
  | some m ↦ if is_live_message m && reachable scope m s then some m else none
]

-- `_update_entity("messages", …)`
unfoldable pub update_message_entity :
    String → List MessageColumn → ℕ → Tables → Option Message × Tables
update_message_entity id columns now s = elim (find (λ m. m.id) id s.messages) [
  | none ↦ (none, s)
  | some m ↦
      if is_live_message m
      then (
        some (update_message_row columns now m),
        record s { messages = modify (λ n. n.id) id (update_message_row columns now) s.messages },
      )
      else (none, s)
]

unfoldable pub close_message : ℕ → Message → Message
close_message now m = record m { deleted_at = some now; updated_at = now }

unfoldable pub delete_message : Scope → String → ℕ → Tables → Bool × Tables
delete_message scope id now s = elim (get_message scope id s) [
  | none ↦ (false, s)
  | some m ↦ (true, record s { messages = modify (λ n. n.id) id (close_message now) s.messages })
]

module _ (str_of : Json → String) where
  unfoldable pub new_message : String → String → Fields → ℕ → Message
  new_message id chat_id payload now = record {
    id = id;
    chat_id = chat_id;
    role = text_of str_of (get_or "role" (str "user") payload);
    content = text_of str_of (get_or "content" (str "") payload);
    content_html = text_of str_of (get_or "content_html" (str "") payload);
    status = text_of str_of (get_or "status" (str "complete") payload);
    metadata = or_object (get "metadata" payload);
    created_at = now;
    updated_at = now;
    deleted_at = none;
  }

  unfoldable pub create_message : Scope → String → String → Fields → ℕ → Action Tables Message
  unfolding new_message
  create_message scope id chat_id payload now s =
      let m = new_message id chat_id payload now in
      if is_some (get_chat scope chat_id s)
      then (ok m, record s { messages = m ∷ s.messages })
      else (err (value_error "chat not found"), s)

  -- The text of a message keeps its spaces.
  unfoldable pub message_columns : Fields → List MessageColumn
  message_columns payload =
      update_values str_of false
        (("content", MessageColumn.content)
          ∷ ("content_html", MessageColumn.content_html)
          ∷ ("status", MessageColumn.status)
          ∷ [])
        (("metadata", MessageColumn.metadata) ∷ []) payload

  unfoldable pub update_message_with :
      Scope → String → List MessageColumn → ℕ → Tables → Option Message × Tables
  update_message_with scope id [] now s = (get_message scope id s, s)
  update_message_with scope id (c ∷ cs) now s = update_message_entity id (c ∷ cs) now s

  unfoldable pub update_message : Scope → String → Fields → ℕ → Tables → Option Message × Tables
  unfolding update_message_with message_columns
  update_message scope id payload now s = elim (get_message scope id s) [
    | none ↦ (none, s)
    | some m ↦ update_message_with scope id (message_columns payload) now s
  ]
