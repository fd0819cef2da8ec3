-- ===== src/Workspace/Settings.antt =====
-- The workspace settings of db_store.py: `ensure_default_workspace`, `get_workspace` and
-- `update_workspace`. The database draws the identifiers of the three rows that are inserted.
use rag_llm.Prelude.{
  ℕ, String, Bool, true, not, ◌&&◌, Option, none, some, List, [], ◌∷◌, ◌++◌, string_eq, option_eq,
  is_some, strip, non_empty, if◌then◌else◌,
}
use rag_llm.Failure.{Result, ok, err, Action, value_error}
use rag_llm.Access.Json.{Json, str, obj, Fields, end, field, lookup}
use rag_llm.Workspace.Table.{select, find, modify, order_by, first}
use rag_llm.Workspace.Scope.{Scope, owns}
use rag_llm.Workspace.Payload.{update_values, text_or_empty, project_and_global}
use rag_llm.Workspace.Row.{
  Project, Chat, WorkspaceSettings, Tables, SettingsColumn, update_settings_row,
}
use rag_llm.Workspace.Document.{given}
use rag_llm.Workspace.Upload.{is_reachable_project, is_reachable_chat}

unfoldable pub is_live_workspace : WorkspaceSettings → Bool
is_live_workspace w = not (is_some w.deleted_at)

-- With a subject there is one row at most; the internal context takes the oldest.
unfoldable pub find_workspace : Scope → Tables → Option WorkspaceSettings
find_workspace scope s =
    if given scope.subject
    then first (select (λ w. owns scope w.owner_subject && is_live_workspace w) s.workspaces)
    else first (order_by (λ w. w.created_at) (select is_live_workspace s.workspaces))

unfoldable pub default_project : Scope → String → ℕ → Project
default_project scope id now = record {
  id = id;
  owner_subject = scope.subject;
  name = if given scope.subject then "Мой проект" else "Default project";
  description =
      if given scope.subject then "Личная рабочая область" else "Auto-created workspace project";
  settings = obj (field "llm" (obj end) (field "ui" (obj end) end));
  memory = obj end;
  knowledge_scope = project_and_global;
  created_at = now;
  updated_at = now;
  deleted_at = none;
}

-- The configured mode, provider and model.
pub record Defaults : Type 0 where
  pub mode : String
  pub provider : String
  pub model : String

unfoldable pub default_chat : Scope → String → String → Defaults → ℕ → Chat
default_chat scope id project_id d now = record {
  id = id;
  owner_subject = scope.subject;
  project_id = some project_id;
  title = "Новый чат";
  mode = d.mode;
  provider = d.provider;
  model_name = d.model;
  metadata = obj end;
  created_at = now;
  updated_at = now;
  deleted_at = none;
}

unfoldable pub default_workspace : Scope → String → String → String → ℕ → WorkspaceSettings
default_workspace scope id project_id chat_id now = record {
  id = id;
  owner_subject = scope.subject;
  active_project_id = some project_id;
  active_chat_id = some chat_id;
  settings = obj (field "theme" (str "light") end);
  created_at = now;
  updated_at = now;
  deleted_at = none;
}

-- The identifiers that the database draws.
pub record Drawn : Type 0 where
  pub project_id : String
  pub chat_id : String
  pub workspace_id : String

unfoldable pub ensure_default_workspace :
    Scope → Defaults → Drawn → ℕ → Tables → WorkspaceSettings × Tables
unfolding default_project default_chat default_workspace
ensure_default_workspace scope d ids now s = elim (find_workspace scope s) [
  | some w ↦ (w, s)
  | none ↦
      let w = default_workspace scope ids.workspace_id ids.project_id ids.chat_id now in
      (
        w,
        record s {
          projects = default_project scope ids.project_id now ∷ s.projects;
          chats = default_chat scope ids.chat_id ids.project_id d now ∷ s.chats;
          workspaces = w ∷ s.workspaces;
        },
      )
]

-- `_update_entity("workspace_settings", …) or workspace`
unfoldable pub update_settings_entity :
    WorkspaceSettings → List SettingsColumn → ℕ → Tables → WorkspaceSettings × Tables
update_settings_entity w columns now s = elim (find (λ v. v.id) w.id s.workspaces) [
  | none ↦ (w, s)
  | some v ↦
      if is_live_workspace v
      then (
        update_settings_row columns now v,
        record s {
          workspaces = modify (λ u. u.id) w.id (update_settings_row columns now) s.workspaces;
        },
      )
      else (w, s)
]

unfoldable pub write_settings :
    WorkspaceSettings × Tables → List SettingsColumn → ℕ → WorkspaceSettings × Tables
write_settings (w, s) [] now = (w, s)
write_settings (w, s) (c ∷ cs) now = update_settings_entity w (c ∷ cs) now s

module _ (str_of : Json → String) where
  -- `str(value or "").strip() or None`
  unfoldable pub selection : Json → Option String
  selection v = non_empty (strip (text_or_empty str_of v))

  -- The selections of a payload; an error where one is not there for the caller.
  unfoldable pub project_selection : Scope → Fields → Tables → Result (List SettingsColumn)
  project_selection scope payload s = elim (lookup "active_project_id" payload) [
    | none ↦ ok []
    | some v ↦
        if is_reachable_project scope (selection v) s
        then ok (SettingsColumn.active_project_id (selection v) ∷ [])
        else err (value_error "project not found")
  ]

  unfoldable pub chat_selection : Scope → Fields → Tables → Result (List SettingsColumn)
  chat_selection scope payload s = elim (lookup "active_chat_id" payload) [
    | none ↦ ok []
    | some v ↦
        if is_reachable_chat scope (selection v) s
        then ok (SettingsColumn.active_chat_id (selection v) ∷ [])
        else err (value_error "chat not found")
  ]

  unfoldable pub settings_columns : Scope → Fields → Tables → Result (List SettingsColumn)
  unfolding project_selection chat_selection
  settings_columns scope payload s =
      let settings =
        update_values str_of true [] (("settings", SettingsColumn.settings) ∷ []) payload in
      elim (project_selection scope payload s) [
        | err e ↦ err e
        | ok p ↦ elim (chat_selection scope payload s) [
          | err e ↦ err e
          | ok c ↦ ok (settings ++ p ++ c)
        ]
      ]

  unfoldable pub update_workspace :
      Scope → Fields → Defaults → Drawn → ℕ → Action Tables WorkspaceSettings
  update_workspace scope payload d ids now s = elim (settings_columns scope payload s) [
    | err e ↦ (err e, s)
    | ok columns ↦
        let (w, s') = write_settings (ensure_default_workspace scope d ids now s) columns now in
        (ok w, s')
  ]
