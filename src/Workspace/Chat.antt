-- ===== src/Workspace/Chat.antt =====
-- The operations on chats of db_store.py.
use rag_llm.Prelude.{
  ℕ, String, Bool, true, false, ◌&&◌, Option, none, some, List, [], ◌∷◌, ◌++◌, ◌==◌, string_eq,
  option_eq, is_some, is_empty, strip, or_default, non_empty, if◌then◌else◌,
}
use rag_llm.Failure.{ok, err, Action, value_error}
use rag_llm.Access.Json.{Json, str, Fields, lookup, get}
use rag_llm.Access.Condition.{text_of}
use rag_llm.Workspace.Table.{select, find, modify, order_by}
use rag_llm.Workspace.Scope.{Scope, owns}
use rag_llm.Workspace.Payload.{get_or, or_object, update_values}
use rag_llm.Workspace.Row.{Chat, Tables, ChatColumn, update_chat_row}
use rag_llm.Workspace.Project.{is_live_chat, get_project}

unfoldable pub chat_visible : Scope → Chat → Bool
chat_visible scope c = owns scope c.owner_subject && is_live_chat c

unfoldable pub get_chat : Scope → String → Tables → Option Chat
get_chat scope id s = elim (find (λ c. c.id) id s.chats) [
  | none ↦ none
  | some c ↦ if chat_visible scope c then some c else none
]

-- `" AND project_id = %s"` is added `if project_id`.
unfoldable pub in_project : Option String → Chat → Bool
in_project none c = true
in_project (some p) c = if is_empty p then true else c.project_id == some p

unfoldable pub list_chats : Scope → Option String → Tables → List Chat
list_chats scope project_id s =
    order_by (λ c. c.created_at)
      (select (λ c. chat_visible scope c && in_project project_id c) s.chats)

-- `_update_entity("chats", …)`
unfoldable pub update_chat_entity : String → List ChatColumn → ℕ → Tables → Option Chat × Tables
update_chat_entity id columns now s = elim (find (λ c. c.id) id s.chats) [
  | none ↦ (none, s)
  | some c ↦
      if is_live_chat c
      then (
        some (update_chat_row columns now c),
        record s { chats = modify (λ d. d.id) id (update_chat_row columns now) s.chats },
      )
      else (none, s)
]

unfoldable pub close_chat : ℕ → Chat → Chat
close_chat now c = record c { deleted_at = some now; updated_at = now }

unfoldable pub delete_chat : Scope → String → ℕ → Tables → Bool × Tables
delete_chat scope id now s = elim (get_chat scope id s) [
  | none ↦ (false, s)
  | some c ↦ (true, record s { chats = modify (λ d. d.id) id (close_chat now) s.chats })
]

-- The project a chat is asked to stand in is there for the caller.
unfoldable pub may_stand_in : Scope → Option String → Tables → Bool
may_stand_in scope none s = true
may_stand_in scope (some p) s = is_some (get_project scope p s)

-- `str(project_id or "").strip() or None`
unfoldable pub normalized : Option String → Option String
normalized none = none
normalized (some p) = non_empty (strip p)

module _ (str_of : Json → String) where
  -- `str(payload.get(key, default)).strip() or default`
  unfoldable pub setting : String → String → Fields → String
  setting key d payload = or_default (strip (text_of str_of (get_or key (str d) payload))) d

  unfoldable pub new_chat :
      Scope → String → Option String → Fields → String → String → String → ℕ → Chat
  unfolding setting
  new_chat scope id project_id payload mode provider model now = record {
    id = id;
    owner_subject = scope.subject;
    project_id = project_id;
    title = or_default (strip (text_of str_of (get_or "title" (str "") payload))) "Новый чат";
    mode = setting "mode" mode payload;
    provider = setting "provider" provider payload;
    model_name = setting "model_name" model payload;
    metadata = or_object (get "metadata" payload);
    created_at = now;
    updated_at = now;
    deleted_at = none;
  }

  unfoldable pub create_chat :
      Scope → String → Option String → Fields → String → String → String → ℕ → Action Tables Chat
  unfolding new_chat may_stand_in normalized
  create_chat scope id project_id payload mode provider model now s =
      let parent = normalized project_id in
      let c = new_chat scope id parent payload mode provider model now in
      if may_stand_in scope parent s
      then (ok c, record s { chats = c ∷ s.chats })
      else (err (value_error "project not found"), s)

  -- `none` where the asked project is not there for the caller.
  unfoldable pub parent_column : Scope → Fields → Tables → Option (List ChatColumn)
  parent_column scope payload s = elim (lookup "project_id" payload) [
    | none ↦ some []
    | some v ↦
        let p = strip (text_of str_of v) in
        if is_empty p
        then none
        else if is_some (get_project scope p s)
        then some (ChatColumn.project_id p ∷ [])
        else none
  ]

  unfoldable pub chat_columns : Fields → List ChatColumn
  chat_columns payload =
      update_values str_of true
        (("title", ChatColumn.title)
          ∷ ("mode", ChatColumn.mode)
          ∷ ("provider", ChatColumn.provider)
          ∷ ("model_name", ChatColumn.model_name)
          ∷ [])
        (("metadata", ChatColumn.metadata) ∷ []) payload

  unfoldable pub update_chat_with :
      Scope → String → Option (List ChatColumn) → ℕ → Tables → Option Chat × Tables
  update_chat_with scope id none now s = (none, s)
  update_chat_with scope id (some []) now s = (get_chat scope id s, s)
  update_chat_with scope id (some (c ∷ cs)) now s = update_chat_entity id (c ∷ cs) now s

  unfoldable pub all_columns : Scope → Fields → Tables → Option (List ChatColumn)
  all_columns scope payload s = elim (parent_column scope payload s) [
    | none ↦ none
    | some parent ↦ some (chat_columns payload ++ parent)
  ]

  unfoldable pub update_chat : Scope → String → Fields → ℕ → Tables → Option Chat × Tables
  update_chat scope id payload now s = elim (get_chat scope id s) [
    | none ↦ (none, s)
    | some c ↦ update_chat_with scope id (all_columns scope payload s) now s
  ]
