-- ===== src/Workspace/Request/Refinement.antt =====
-- Every call of db_store.py that writes is made of the writes of Workspace/Step; so a caller's calls
-- keep the tables in order and leave the rows of others alone.
mod Columns
mod Projects
mod Chats
mod Messages
mod Settings
mod Documents
use rag_llm.Prelude.{ℕ, String, ◌≡◌, true}
use rag_llm.Access.Json.{Json, Fields}
use rag_llm.Workspace.Scope.{Scope}
use rag_llm.Workspace.Row.{Version, Tables}
use rag_llm.Workspace.Document.{given}
use rag_llm.Workspace.Request.{
  Request, IsFresh, perform, create_project, update_project, delete_project, create_chat,
  update_chat, delete_chat, create_message, update_message, delete_message, create_document,
  update_document, tombstone_document, get_workspace, update_workspace,
}
use rag_llm.Workspace.Step.{Steps}
use rag_llm.Workspace.Step.Integrity.{IsSound}
use rag_llm.Workspace.Step.Sound.{Steps-IsSound}
use rag_llm.Workspace.Step.Isolation.{Isolates}
use rag_llm.Workspace.Step.Isolation.Sequence.{Steps-Isolates}
use Projects.{create_project-Steps, update_project-Steps, delete_project-Steps}
use Chats.{create_chat-Steps, update_chat-Steps, delete_chat-Steps}
use Messages.{create_message-Steps, update_message-Steps, delete_message-Steps}
use Settings.{ensure_default_workspace-Steps, update_workspace-Steps}
use Documents.{create_document-Steps, update_document-Steps, tombstone_document-Steps}

module _ (str_of : Json → String) (version_of : String → Fields → Version) (scope : Scope) (now : ℕ)
    (s : Tables) (subject : given scope.subject ≡ true) (sound : IsSound s) where
  perform-Steps :
      (r : Request) → IsFresh r s → Steps scope s (perform str_of version_of scope r now s)
  unfolding perform
  perform-Steps (create_project id payload) fresh =
      create_project-Steps str_of scope s id payload now fresh
  perform-Steps (update_project id payload) fresh =
      update_project-Steps str_of scope s id payload now
  perform-Steps (delete_project id) fresh = delete_project-Steps str_of scope s id now
  perform-Steps (create_chat id project payload d) fresh =
      create_chat-Steps str_of scope s id project payload d.mode d.provider d.model now fresh
  perform-Steps (update_chat id payload) fresh = update_chat-Steps str_of scope s id payload now
  perform-Steps (delete_chat id) fresh = delete_chat-Steps str_of scope s id now
  perform-Steps (create_message id chat payload) fresh =
      create_message-Steps str_of scope s id chat payload now fresh
  perform-Steps (update_message id payload) fresh =
      update_message-Steps str_of scope s id payload now
  perform-Steps (delete_message id) fresh = delete_message-Steps str_of scope s id now
  perform-Steps (create_document id project chat payload) fresh =
      create_document-Steps scope str_of version_of s id project chat payload now fresh
  perform-Steps (update_document id payload) fresh =
      update_document-Steps scope str_of version_of s id payload now
  perform-Steps (tombstone_document id) fresh = tombstone_document-Steps scope id now s
  perform-Steps (get_workspace d ids) (p, c, w) =
      ensure_default_workspace-Steps scope subject s d ids now sound p c w
  perform-Steps (update_workspace payload d ids) (p, c, w) =
      update_workspace-Steps scope subject str_of s payload d ids now sound p c w

  -- Any call on behalf of a caller with a subject that draws new identifiers keeps the tables in
  -- order: a live chat that names a project stands in a live project of the same owner, and the
  -- identifiers of documents and of workspaces are distinct.
  pub perform-IsSound :
      (r : Request) → IsFresh r s → IsSound (perform str_of version_of scope r now s)
  perform-IsSound r fresh = Steps-IsSound subject (perform-Steps r fresh) sound

  -- Any call on behalf of a caller with a subject that draws new identifiers, from tables in order,
  -- leaves every project, chat and workspace of another owner as it stands, and every message of
  -- another owner's chat. Of the documents it leaves those that the caller may not write: another
  -- subject's unless the caller is an administrator, and those of the shared library unless the
  -- caller may manage it. Closed projects, chats, messages and documents stay as they are, too.
  pub perform-Isolates :
      (r : Request) → IsFresh r s → Isolates scope s (perform str_of version_of scope r now s)
  perform-Isolates r fresh =
      Steps-Isolates scope s (perform str_of version_of scope r now s) subject sound
        (perform-Steps r fresh)
