-- ===== src/Workspace/Document.antt =====
-- The document registry of db_store.py: who sees a document, who may write it, and the upkeep of
-- its family's chain of versions. `version_of` stands for `document_version_fields`.
use rag_llm.Prelude.{
  ℕ, String, Bool, false, not, ◌&&◌, ◌||◌, Option, none, some, List, [], ◌==◌, string_eq, option_eq,
  is_some, is_empty, if◌then◌else◌, map,
}
use rag_llm.Failure.{ok, err, Action, permission_error}
use rag_llm.Workspace.Table.{select, find, modify, order_by_desc}
use rag_llm.Workspace.Scope.{Scope}
use rag_llm.Workspace.Payload.{KnowledgeScope}
use rag_llm.Workspace.Row.{Project, Document, Tables}
use rag_llm.Workspace.Project.{get_project}
use rag_llm.Workspace.Chat.{get_chat}
use rag_llm.Workspace.Chain.{Group, version_group, rebuild_document_version_chain}

-- `if text`, for a text that may be None.
abbrev pub given : Option String → Bool
given none = false
given (some s) = not (is_empty s)

-- `text or None`
abbrev pub or_none : Option String → Option String
or_none o = if given o then o else none

-- `_document_record`: the row with the scope that the interface shows.
pub record DocumentRecord : Type 0 where
  pub row : Document
  pub scope : String

unfoldable pub document_record : Document → DocumentRecord
document_record d = record {
  row = d;
  scope = if given d.owner_subject then "project" else "global";
}

unfoldable pub is_live_document : Document → Bool
is_live_document d = not (is_some d.deleted_at)

-- `owner_subject = %s OR owner_subject IS NULL`
unfoldable pub is_shared_or_own : Scope → Document → Bool
is_shared_or_own scope d = d.owner_subject == scope.subject || not (is_some d.owner_subject)

unfoldable pub document_visible : Scope → Document → Bool
unfolding is_live_document is_shared_or_own
document_visible scope d =
    is_live_document d && (not (given scope.subject) || scope.is_admin || is_shared_or_own scope d)

unfoldable pub get_document_row : Scope → String → Tables → Option Document
get_document_row scope id s = elim (find (λ d. d.id) id s.documents) [
  | none ↦ none
  | some d ↦ if document_visible scope d then some d else none
]

unfoldable pub get_document : Scope → String → Tables → Option DocumentRecord
unfolding get_document_row document_record
get_document scope id s = elim (get_document_row scope id s) [
  | none ↦ none
  | some d ↦ some (document_record d)
]

-- The conditions that `list_documents` adds; `none` is the early `return []`.
unfoldable pub in_project_library : Scope → String → Project → Document → Bool
in_project_library scope project_id p d =
    let own = d.project_id == some project_id && d.owner_subject == scope.subject in
    elim p.knowledge_scope [
      | KnowledgeScope.project_only ↦ own
      | KnowledgeScope.project_and_global ↦ own || not (is_some d.owner_subject)
    ]

unfoldable pub in_chat_library : Scope → String → Document → Bool
in_chat_library scope chat_id d =
    (d.chat_id == some chat_id && d.owner_subject == scope.subject) || not (is_some d.owner_subject)

unfoldable pub is_filed_under : Option String → Option String → Document → Bool
is_filed_under project_id chat_id d =
    (not (given project_id) || d.project_id == project_id)
    && (not (given chat_id) || d.chat_id == chat_id)

unfoldable pub library_of_chat : Scope → Option String → Tables → Option (Document → Bool)
library_of_chat scope none s = some (λ d. not (is_some d.owner_subject))
library_of_chat scope (some c) s = elim (get_chat scope c s) [
  | none ↦ none
  | some _ ↦ some (in_chat_library scope c)
]

unfoldable pub library_filter :
    Scope → Option String → Option String → Tables → Option (Document → Bool)
library_filter scope none chat s = library_of_chat scope chat s
library_filter scope (some p) chat s = elim (get_project scope p s) [
  | none ↦ none
  | some project ↦ some (in_project_library scope p project)
]

unfoldable pub listing : Option (Document → Bool) → Tables → List DocumentRecord
listing none s = []
listing (some f) s =
    map document_record
      (order_by_desc (λ d. d.created_at) (select (λ d. is_live_document d && f d) s.documents))

unfoldable pub list_documents : Scope → Option String → Option String → Tables → List DocumentRecord
unfolding listing library_filter library_of_chat
list_documents scope project_id chat_id s =
    if given scope.subject
    then listing (library_filter scope (or_none project_id) (or_none chat_id) s) s
    else listing (some (is_filed_under project_id chat_id)) s

-- Deleted documents, too.
unfoldable pub list_all_documents_for_retrieval : Tables → List DocumentRecord
list_all_documents_for_retrieval s =
    map document_record (order_by_desc (λ d. d.created_at) s.documents)

-- `_rebuild_document_version_chain` for a group, if there is one.
unfoldable pub rebuild : Option Group → Tables → Tables
rebuild none s = s
rebuild (some g) s = record s { documents = rebuild_document_version_chain g s.documents }

-- `SELECT * FROM documents WHERE id = %s`, for a row that is there.
unfoldable pub reread : Document → Tables → Document
reread d s = elim (find (λ e. e.id) d.id s.documents) [ none ↦ d | some e ↦ e ]

-- Writing a document of the shared library asks for the right to.
unfoldable pub is_refused : Scope → Document → Bool
is_refused scope d =
    given scope.subject && not scope.can_manage_global_documents && not (given d.owner_subject)

unfoldable pub tombstone : ℕ → Document → Document
tombstone now d = record d { status = "deleting"; deleted_at = some now; updated_at = now }

unfoldable pub tombstone_row : Document → ℕ → Tables → Option DocumentRecord × Tables
tombstone_row d now s = (
  some (document_record (tombstone now d)),
  rebuild (version_group d)
      (record s { documents = modify (λ e. e.id) d.id (tombstone now) s.documents }),
)

unfoldable pub tombstone_document : Scope → String → ℕ → Action Tables (Option DocumentRecord)
tombstone_document scope id now s = elim (get_document_row scope id s) [
  | none ↦ (ok none, s)
  | some d ↦
      if is_refused scope d
      then (err (permission_error "shared document deletion is not permitted for this account"), s)
      else let (r, s') = tombstone_row d now s in (ok r, s')
]
