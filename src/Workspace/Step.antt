-- ===== src/Workspace/Step.antt =====
-- The writes that db_store.py makes on behalf of a caller, as a step relation: what may be added,
-- changed and closed, and which guard each write stands behind.
pub mod Rows
pub mod Integrity
pub mod Filing
pub mod Sound
pub mod Isolation
use rag_llm.Prelude.{
  ℕ, String, ◌≡◌, Bool, true, false, Option, none, some, List, [], ◌∷◌, ◌⊎◌, Member,
}
use rag_llm.Workspace.Table.{find, modify, update_where}
use rag_llm.Workspace.Scope.{Scope, owns}
use rag_llm.Workspace.Row.{
  Project, Chat, Message, Document, WorkspaceSettings, Tables, ProjectColumn, ChatColumn,
  MessageColumn, SettingsColumn, update_project_row, update_chat_row, update_message_row,
  update_settings_row,
}
use rag_llm.Workspace.Project.{get_project, is_attached, detach, close_project}
use rag_llm.Workspace.Chat.{get_chat, close_chat}
use rag_llm.Workspace.Message.{get_message, close_message}
use rag_llm.Workspace.Chain.{Group, rebuild_document_version_chain}
use rag_llm.Workspace.Document.{given}

-- The project that a row names, if it names one, is there for the caller.
abbrev pub MayStand : Scope → Tables → Option String → Type 0
MayStand scope s none = Unit
MayStand scope s (some p) = (q : Project) × (get_project scope p s ≡ some q)

-- The caller may write documents of this owner: without a subject all; with one, only an
-- administrator writes those of another subject, and only a manager those of the shared library.
pub record MayWrite (scope : Scope) (owner : Option String) : Type 0 where
  pub own :
      given scope.subject ≡ true → scope.is_admin ≡ false → (owner ≡ scope.subject) ⊎ (owner ≡ none)
  pub shared :
      given scope.subject ≡ true → scope.can_manage_global_documents ≡ false → given owner ≡ true

-- A change of a document that leaves its identifier and its owner.
pub record KeepsOwner (u : Document → Document) : Type 0 where
  pub id : (d : Document) → (u d).id ≡ d.id
  pub owner_subject : (d : Document) → (u d).owner_subject ≡ d.owner_subject

pub data Step (scope : Scope) : Tables → Tables → Type 0 where
  add_project :
      {s : Tables} (p : Project)
      → find (λ q. q.id) p.id s.projects ≡ none
      → p.owner_subject ≡ scope.subject
      → p.deleted_at ≡ none
      → Step scope s (record s { projects = p ∷ s.projects })
  set_project :
      {s : Tables} (id : String) (p : Project) (columns : List ProjectColumn) (now : ℕ)
      → get_project scope id s ≡ some p
      → Step scope s (record s {
        projects = modify (λ q. q.id) id (update_project_row columns now) s.projects;
      })
  end_project :
      {s : Tables} (id : String) (p : Project) (now : ℕ)
      → get_project scope id s ≡ some p
      → Step scope s (record s {
        chats = update_where (is_attached id) (detach now) s.chats;
        projects = modify (λ q. q.id) id (close_project now) s.projects;
      })
  add_chat :
      {s : Tables} (c : Chat)
      → find (λ d. d.id) c.id s.chats ≡ none
      → c.owner_subject ≡ scope.subject
      → c.deleted_at ≡ none
      → MayStand scope s c.project_id
      → Step scope s (record s { chats = c ∷ s.chats })
  set_chat :
      {s : Tables} (id : String) (c : Chat) (columns : List ChatColumn) (now : ℕ)
      → get_chat scope id s ≡ some c
      → ((p : String) → Member (ChatColumn.project_id p) columns → MayStand scope s (some p))
      → Step scope s
          (record s { chats = modify (λ d. d.id) id (update_chat_row columns now) s.chats })
  end_chat :
      {s : Tables} (id : String) (c : Chat) (now : ℕ)
      → get_chat scope id s ≡ some c
      → Step scope s (record s { chats = modify (λ d. d.id) id (close_chat now) s.chats })
  add_message :
      {s : Tables} (m : Message) (c : Chat)
      → find (λ n. n.id) m.id s.messages ≡ none
      → get_chat scope m.chat_id s ≡ some c
      → Step scope s (record s { messages = m ∷ s.messages })
  set_message :
      {s : Tables} (id : String) (m : Message) (columns : List MessageColumn) (now : ℕ)
      → get_message scope id s ≡ some m
      → Step scope s (record s {
        messages = modify (λ n. n.id) id (update_message_row columns now) s.messages;
      })
  end_message :
      {s : Tables} (id : String) (m : Message) (now : ℕ)
      → get_message scope id s ≡ some m
      → Step scope s (record s { messages = modify (λ n. n.id) id (close_message now) s.messages })
  add_document :
      {s : Tables} (d : Document)
      → find (λ e. e.id) d.id s.documents ≡ none
      → MayWrite scope d.owner_subject
      → Step scope s (record s { documents = d ∷ s.documents })
  set_document :
      {s : Tables} (d : Document) (u : Document → Document)
      → find (λ e. e.id) d.id s.documents ≡ some d
      → d.deleted_at ≡ none
      → MayWrite scope d.owner_subject
      → KeepsOwner u
      → Step scope s (record s { documents = modify (λ e. e.id) d.id u s.documents })
  relink :
      {s : Tables} (g : Group)
      → MayWrite scope g.owner_subject
      → Step scope s (record s { documents = rebuild_document_version_chain g s.documents })
  add_workspace :
      {s : Tables} (w : WorkspaceSettings)
      → find (λ v. v.id) w.id s.workspaces ≡ none
      → Step scope s (record s { workspaces = w ∷ s.workspaces })
  set_workspace :
      {s : Tables} (w : WorkspaceSettings) (columns : List SettingsColumn) (now : ℕ)
      → find (λ v. v.id) w.id s.workspaces ≡ some w
      → owns scope w.owner_subject ≡ true
      → w.deleted_at ≡ none
      → Step scope s (record s {
        workspaces = modify (λ v. v.id) w.id (update_settings_row columns now) s.workspaces;
      })

-- Any number of steps of one caller.
pub data Steps (scope : Scope) (s : Tables) : Tables → Type 0 where
  here : Steps scope s s
  next : {t u : Tables} → Steps scope s t → Step scope t u → Steps scope s u

pub Steps-trans :
    {scope : Scope} {s t u : Tables} → Steps scope s t → Steps scope t u → Steps scope s u
Steps-trans h here = h
Steps-trans h (next k step) = next (Steps-trans h k) step
