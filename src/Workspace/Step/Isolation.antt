-- ===== src/Workspace/Step/Isolation.antt =====
-- What a write of db_store.py on behalf of a caller with a subject leaves alone: the rows of others
-- and the rows that are closed.
pub mod Writes
pub mod Sequence
use rag_llm.Prelude.{String, ◌≡◌, Bool, true, false, Option, some, ◌⊎◌}
use rag_llm.Workspace.Table.{find}
use rag_llm.Workspace.Scope.{Scope, owns}
use rag_llm.Workspace.Row.{Project, Chat, Message, Document, WorkspaceSettings, Tables}
use rag_llm.Workspace.Project.{is_live_project, is_live_chat}
use rag_llm.Workspace.Message.{is_live_message}
use rag_llm.Workspace.Document.{is_live_document}
use rag_llm.Workspace.Step.{MayWrite}

-- A row that the caller does not own, or that is closed.
abbrev pub IsSettled : Scope → Option String → Bool → Type 0
IsSettled scope owner live = (owns scope owner ≡ false) ⊎ (live ≡ false)

abbrev pub IsSettledMessage : Scope → Tables → Message → Type 0
IsSettledMessage scope s m =
    ((c : Chat) × (find (λ d. d.id) m.chat_id s.chats ≡ some c)
      × IsSettled scope c.owner_subject (is_live_chat c))
    ⊎ (is_live_message m ≡ false)

abbrev pub IsSettledDocument : Scope → Document → Type 0
IsSettledDocument scope d = (MayWrite scope d.owner_subject → ⊥) ⊎ (is_live_document d ≡ false)

-- `t` comes from `s` by writes that leave every settled row as it stands.
pub record Isolates (scope : Scope) (s t : Tables) : Type 0 where
  pub projects :
      (id : String) (p : Project)
      → find (λ q. q.id) id s.projects ≡ some p
      → IsSettled scope p.owner_subject (is_live_project p)
      → find (λ q. q.id) id t.projects ≡ some p
  pub chats :
      (id : String) (c : Chat)
      → find (λ d. d.id) id s.chats ≡ some c
      → IsSettled scope c.owner_subject (is_live_chat c)
      → find (λ d. d.id) id t.chats ≡ some c
  pub messages :
      (id : String) (m : Message)
      → find (λ n. n.id) id s.messages ≡ some m
      → IsSettledMessage scope s m
      → find (λ n. n.id) id t.messages ≡ some m
  pub documents :
      (id : String) (d : Document)
      → find (λ e. e.id) id s.documents ≡ some d
      → IsSettledDocument scope d
      → find (λ e. e.id) id t.documents ≡ some d
  pub workspaces :
      (id : String) (w : WorkspaceSettings)
      → find (λ v. v.id) id s.workspaces ≡ some w
      → owns scope w.owner_subject ≡ false
      → find (λ v. v.id) id t.workspaces ≡ some w

abbrev pub untouched : (scope : Scope) (s : Tables) → Isolates scope s s
untouched scope s = record {
  projects = λ id r f h. f;
  chats = λ id r f h. f;
  messages = λ id r f h. f;
  documents = λ id r f h. f;
  workspaces = λ id r f h. f;
}
