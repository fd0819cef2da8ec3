-- ===== src/Workspace/Conversation.antt =====
-- `get_project_conversation` of db_store.py: the history that a question is asked in.
pub mod History
use rag_llm.Prelude.{
  ℕ, ◌+◌, String, Bool, true, false, not, ◌&&◌, Option, none, some, List, [], ◌∷◌, ◌==◌, string_eq,
  option_eq, is_some, if◌then◌else◌, map, length, take, ltb, max, min,
}
use mathlib.Core.List.{reverse}
use rag_llm.Access.Json.{Json}
use rag_llm.Workspace.Table.{select, find, order_by_desc, order_with}
use rag_llm.Workspace.Scope.{Scope}
use rag_llm.Workspace.Payload.{KnowledgeScope}
use rag_llm.Workspace.Row.{Project, Chat, Message, Tables}
use rag_llm.Workspace.Project.{is_live_project}
use rag_llm.Workspace.Chat.{chat_visible, get_chat}
use rag_llm.Workspace.Message.{is_live_message}
use rag_llm.Workspace.Chain.{lt_text}

-- The columns that the first query selects; the last three are of the live project, if any.
pub record ConversationScope : Type 0 where
  pub project_id : Option String
  pub owner_subject : Option String
  pub project_name : Option String
  pub memory : Option Json
  pub knowledge_scope : Option KnowledgeScope

-- A message with the title of its chat.
pub record Turn : Type 0 where
  pub message : Message
  pub chat_title : String

pub record Conversation : Type 0 where
  pub scope : ConversationScope
  pub messages : List Turn
  pub active_user_messages : List Turn
  pub active_user_history_limit : ℕ
  pub active_user_history_truncated : Bool

-- `LEFT JOIN projects p ON p.id = c.project_id AND p.deleted_at IS NULL`
unfoldable pub joined_project : Option String → Tables → Option Project
joined_project none s = none
joined_project (some id) s = elim (find (λ p. p.id) id s.projects) [
  | none ↦ none
  | some p ↦ if is_live_project p then some p else none
]

unfoldable pub scope_row : Chat → Option Project → ConversationScope
scope_row c none = record {
  project_id = c.project_id;
  owner_subject = c.owner_subject;
  project_name = none;
  memory = none;
  knowledge_scope = none;
}
scope_row c (some p) = record {
  project_id = c.project_id;
  owner_subject = c.owner_subject;
  project_name = some p.name;
  memory = some p.memory;
  knowledge_scope = some p.knowledge_scope;
}

-- `JOIN chats c ON c.id = m.chat_id`, with a condition on the chat.
unfoldable pub in_chat : (Chat → Bool) → Tables → Message → Bool
in_chat f s m = elim (find (λ c. c.id) m.chat_id s.chats) [ none ↦ false | some c ↦ f c ]

-- `m.deleted_at IS NULL AND m.status = 'complete'`
unfoldable pub is_complete : Message → Bool
is_complete m = is_live_message m && m.status == "complete"

unfoldable pub turn : Tables → Message → Turn
turn s m = record {
  message = m;
  chat_title = elim (find (λ c. c.id) m.chat_id s.chats) [ none ↦ "" | some c ↦ c.title ];
}

-- The chats whose messages are the history: one chat, or all of a project.
unfoldable pub history_chat : Scope → String → Option String → Chat → Bool
history_chat scope chat_id none c = c.id == chat_id && chat_visible scope c
history_chat scope chat_id (some p) c = c.project_id == some p && chat_visible scope c

unfoldable pub history_message : Scope → String → Option String → Tables → Message → Bool
history_message scope chat_id project_id s m =
    in_chat (history_chat scope chat_id project_id) s m && is_complete m

-- `ORDER BY m.created_at DESC LIMIT n`, reversed.
unfoldable pub history : Scope → String → Option String → ℕ → Tables → List Message
history scope chat_id project_id n s = reverse (
    take n (
      order_by_desc (λ m. m.created_at)
        (select (history_message scope chat_id project_id s) s.messages)))

-- `ORDER BY m.created_at DESC, m.id DESC`
unfoldable pub is_later : Message → Message → Bool
is_later m n =
    if ltb n.created_at m.created_at
    then true
    else if ltb m.created_at n.created_at
    then false
    else not (lt_text m.id n.id)

unfoldable pub user_message : Scope → String → Tables → Message → Bool
user_message scope chat_id s m =
    in_chat (history_chat scope chat_id none) s m && is_complete m && m.role == "user"

unfoldable pub active_rows : Scope → String → ℕ → Tables → List Message
active_rows scope chat_id n s =
    take n (order_with is_later (select (user_message scope chat_id s) s.messages))

-- `max(1, min(limit, 100))`
abbrev pub bounded_limit : ℕ → ℕ
bounded_limit limit = max 1 (min limit 100)

unfoldable pub conversation_of : Scope → Chat → ℕ → Tables → Conversation
unfolding joined_project scope_row turn history active_rows
conversation_of scope c limit s =
    let rows = active_rows scope c.id (bounded_limit limit + 1) s in
    record {
      scope = scope_row c (joined_project c.project_id s);
      messages = map (turn s) (history scope c.id c.project_id (bounded_limit limit) s);
      active_user_messages = map (turn s) (reverse (take (bounded_limit limit) rows));
      active_user_history_limit = bounded_limit limit;
      active_user_history_truncated = ltb (bounded_limit limit) (length rows);
    }

unfoldable pub get_project_conversation : Scope → String → ℕ → Tables → Option Conversation
get_project_conversation scope chat_id limit s = elim (get_chat scope chat_id s) [
  | none ↦ none
  | some c ↦ some (conversation_of scope c limit s)
]
