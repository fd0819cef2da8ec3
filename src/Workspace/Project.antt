-- ===== src/Workspace/Project.antt =====
-- The operations on projects of db_store.py.
use rag_llm.Prelude.{
  ℕ, String, Bool, true, false, not, ◌&&◌, ◌||◌, Option, none, some, List, [], ◌∷◌, ◌++◌, ◌==◌,
  string_eq, option_eq, is_some, strip, or_default, if◌then◌else◌, map,
}
use rag_llm.Access.Json.{Json, str, Fields, lookup, get}
use rag_llm.Access.Condition.{text_of}
use rag_llm.Workspace.Table.{select, update_where, find, modify, order_by}
use rag_llm.Workspace.Scope.{Scope, owns}
use rag_llm.Workspace.Payload.{get_or, or_object, knowledge_scope_of, update_values}
use rag_llm.Workspace.Row.{Project, Chat, Tables, ProjectColumn, update_project_row}

unfoldable pub is_live_project : Project → Bool
is_live_project p = not (is_some p.deleted_at)

unfoldable pub is_live_chat : Chat → Bool
is_live_chat c = not (is_some c.deleted_at)

unfoldable pub project_visible : Scope → Project → Bool
project_visible scope p = owns scope p.owner_subject && is_live_project p

unfoldable pub get_project : Scope → String → Tables → Option Project
get_project scope id s = elim (find (λ p. p.id) id s.projects) [
  | none ↦ none
  | some p ↦ if project_visible scope p then some p else none
]

-- A chat in the aggregate of a project. SQL drops a chat without an owner from an owned project.
unfoldable pub is_listed_in : Project → Chat → Bool
is_listed_in p c =
    c.project_id == some p.id
    && is_live_chat c
    && (not (is_some p.owner_subject) || c.owner_subject == p.owner_subject)

unfoldable pub list_projects : Scope → Tables → List (Project × List Chat)
list_projects scope s =
    map (λ (p : Project). (p, order_by (λ c. c.created_at) (select (is_listed_in p) s.chats)))
      (order_by (λ p. p.created_at) (select (project_visible scope) s.projects))

-- `_update_entity("projects", …)`: the row as it is afterwards, if a live row was updated.
unfoldable pub update_project_entity :
    String → List ProjectColumn → ℕ → Tables → Option Project × Tables
update_project_entity id columns now s = elim (find (λ p. p.id) id s.projects) [
  | none ↦ (none, s)
  | some p ↦
      if is_live_project p
      then (
        some (update_project_row columns now p),
        record s { projects = modify (λ q. q.id) id (update_project_row columns now) s.projects },
      )
      else (none, s)
]

unfoldable pub close_project : ℕ → Project → Project
close_project now p = record p { deleted_at = some now; updated_at = now }

unfoldable pub detach : ℕ → Chat → Chat
detach now c = record c { project_id = none; updated_at = now }

unfoldable pub is_attached : String → Chat → Bool
is_attached id c = c.project_id == some id && is_live_chat c

unfoldable pub delete_project : Scope → String → ℕ → Tables → Bool × Tables
delete_project scope id now s = elim (get_project scope id s) [
  | none ↦ (false, s)
  | some p ↦ (
    true,
    record s {
      chats = update_where (is_attached id) (detach now) s.chats;
      projects = modify (λ q. q.id) id (close_project now) s.projects;
    },
  )
]

module _ (str_of : Json → String) where
  unfoldable pub new_project : Scope → String → Fields → ℕ → Project
  new_project scope id payload now = record {
    id = id;
    owner_subject = scope.subject;
    name = or_default (strip (text_of str_of (get_or "name" (str "") payload))) "Новый проект";
    description = strip (text_of str_of (get_or "description" (str "") payload));
    settings = or_object (get "settings" payload);
    memory = or_object (get "memory" payload);
    knowledge_scope = knowledge_scope_of str_of (get "knowledge_scope" payload);
    created_at = now;
    updated_at = now;
    deleted_at = none;
  }

  -- The database draws the identifier.
  unfoldable pub create_project : Scope → String → Fields → ℕ → Tables → Project × Tables
  unfolding new_project
  create_project scope id payload now s =
      let p = new_project scope id payload now in (p, record s { projects = p ∷ s.projects })

  unfoldable pub scope_column : Fields → List ProjectColumn
  scope_column payload = elim (lookup "knowledge_scope" payload) [
    | none ↦ []
    | some v ↦ ProjectColumn.knowledge_scope (knowledge_scope_of str_of v) ∷ []
  ]

  unfoldable pub project_columns : Fields → List ProjectColumn
  unfolding scope_column
  project_columns payload =
      update_values str_of true
        (("name", ProjectColumn.name) ∷ ("description", ProjectColumn.description) ∷ [])
        (("settings", ProjectColumn.settings) ∷ ("memory", ProjectColumn.memory) ∷ []) payload
      ++ scope_column payload

  unfoldable pub update_project_with :
      Scope → String → List ProjectColumn → ℕ → Tables → Option Project × Tables
  update_project_with scope id [] now s = (get_project scope id s, s)
  update_project_with scope id (c ∷ cs) now s = elim (get_project scope id s) [
    | none ↦ (none, s)
    | some p ↦ update_project_entity id (c ∷ cs) now s
  ]

  unfoldable pub update_project : Scope → String → Fields → ℕ → Tables → Option Project × Tables
  unfolding update_project_with project_columns
  update_project scope id payload now s =
      update_project_with scope id (project_columns payload) now s
