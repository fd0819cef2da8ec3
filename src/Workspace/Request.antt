-- ===== src/Workspace/Request.antt =====
-- The calls of db_store.py that write, as one type, and what each does to the tables. A raised
-- exception leaves the tables as they stand at the raise.
pub mod Refinement
use rag_llm.Prelude.{ℕ, String, Option, none, ◌≡◌}
use rag_llm.Failure.{Result}
use rag_llm.Access.Json.{Json, Fields}
use rag_llm.Workspace.Table.{find}
use rag_llm.Workspace.Scope.{Scope}
use rag_llm.Workspace.Row.{Version, Tables}
use rag_llm.Workspace.Project
use rag_llm.Workspace.Chat
use rag_llm.Workspace.Message
use rag_llm.Workspace.Document
use rag_llm.Workspace.Upload
use rag_llm.Workspace.Settings
use rag_llm.Workspace.Settings.{Defaults, Drawn}

-- The first text of a creation is the identifier that the database draws.
pub data Request : Type 0 where
  create_project update_project : String → Fields → Request
  delete_project delete_chat delete_message tombstone_document : String → Request
  create_chat : String → Option String → Fields → Defaults → Request
  update_chat update_message update_document : String → Fields → Request
  create_message : String → String → Fields → Request
  create_document : String → Option String → Option String → Fields → Request
  get_workspace : Defaults → Drawn → Request
  update_workspace : Fields → Defaults → Drawn → Request

-- The identifiers that a call draws are new.
abbrev pub IsFresh : Request → Tables → Type 0
IsFresh (create_project id payload) s = find (λ p. p.id) id s.projects ≡ none
IsFresh (create_chat id project payload d) s = find (λ c. c.id) id s.chats ≡ none
IsFresh (create_message id chat payload) s = find (λ m. m.id) id s.messages ≡ none
IsFresh (create_document id project chat payload) s = find (λ d. d.id) id s.documents ≡ none
IsFresh (get_workspace d ids) s =
    (find (λ p. p.id) ids.project_id s.projects ≡ none)
    × (find (λ c. c.id) ids.chat_id s.chats ≡ none)
    × (find (λ w. w.id) ids.workspace_id s.workspaces ≡ none)
IsFresh (update_workspace payload d ids) s =
    (find (λ p. p.id) ids.project_id s.projects ≡ none)
    × (find (λ c. c.id) ids.chat_id s.chats ≡ none)
    × (find (λ w. w.id) ids.workspace_id s.workspaces ≡ none)
IsFresh _ s = Unit

module _ (str_of : Json → String) (version_of : String → Fields → Version) where
  unfoldable pub perform : Scope → Request → ℕ → Tables → Tables
  perform scope (create_project id payload) now s =
      (Project.create_project str_of scope id payload now s).1
  perform scope (update_project id payload) now s =
      (Project.update_project str_of scope id payload now s).1
  perform scope (delete_project id) now s = (Project.delete_project scope id now s).1
  perform scope (create_chat id project payload d) now s =
      (Chat.create_chat str_of scope id project payload d.mode d.provider d.model now s).1
  perform scope (update_chat id payload) now s = (Chat.update_chat str_of scope id payload now s).1
  perform scope (delete_chat id) now s = (Chat.delete_chat scope id now s).1
  perform scope (create_message id chat payload) now s =
      (Message.create_message str_of scope id chat payload now s).1
  perform scope (update_message id payload) now s =
      (Message.update_message str_of scope id payload now s).1
  perform scope (delete_message id) now s = (Message.delete_message scope id now s).1
  perform scope (create_document id project chat payload) now s =
      (Upload.create_document str_of version_of scope id project chat payload now s).1
  perform scope (update_document id payload) now s =
      (Upload.update_document str_of version_of scope id payload now s).1
  perform scope (tombstone_document id) now s = (Document.tombstone_document scope id now s).1
  perform scope (get_workspace d ids) now s =
      (Settings.ensure_default_workspace scope d ids now s).1
  perform scope (update_workspace payload d ids) now s =
      (Settings.update_workspace str_of scope payload d ids now s).1
