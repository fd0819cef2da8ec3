-- ===== src/Workspace/Upload.antt =====
-- `create_document` and `update_document` of db_store.py. `version_of` stands for
-- `document_version_fields`; a payload's `metadata` is an object or an empty value.
use rag_llm.Prelude.{
  ℕ, String, Bool, true, not, ◌&&◌, ◌||◌, Option, none, some, List, [], ◌∷◌, ◌++◌, ◌==◌, string_eq,
  option_eq, is_some, strip, or_default, if◌then◌else◌,
}
use rag_llm.Failure.{ok, err, Error, Action, value_error, permission_error, other_error}
use rag_llm.Access.Json.{Json, str, obj, Fields, lookup, get, truthy}
use rag_llm.Access.Condition.{text_of}
use rag_llm.Access.Policy.{put, merge, dict_of}
use rag_llm.Workspace.Table.{find, modify}
use rag_llm.Workspace.Scope.{Scope}
use rag_llm.Workspace.Payload.{get_or, or_object, update_values}
use rag_llm.Workspace.Row.{
  Document, Version, Tables, DocumentColumn, update_document_row, fields_of,
}
use rag_llm.Workspace.Project.{get_project}
use rag_llm.Workspace.Chat.{get_chat}
use rag_llm.Workspace.Chain.{Group, version_group}
use rag_llm.Workspace.Document.{
  given, or_none, DocumentRecord, document_record, is_live_document, get_document_row, rebuild,
  reread, is_refused,
}

-- A place that a payload names is there for the caller.
unfoldable pub is_reachable_project : Scope → Option String → Tables → Bool
is_reachable_project scope none s = true
is_reachable_project scope (some p) s = is_some (get_project scope p s)

unfoldable pub is_reachable_chat : Scope → Option String → Tables → Bool
is_reachable_chat scope none s = true
is_reachable_chat scope (some c) s = is_some (get_chat scope c s)

-- The checks before an upload, in their order.
unfoldable pub upload_error : Scope → Option String → Option String → Tables → Option Error
upload_error scope project_id chat_id s =
    if not (is_reachable_project scope project_id s)
    then some (value_error "project not found")
    else if not (is_reachable_chat scope chat_id s)
    then some (value_error "chat not found")
    else if given scope.subject
        && not (is_some project_id)
        && not (is_some chat_id)
        && not scope.can_manage_global_documents
    then some (permission_error "global document upload is not permitted for this account")
    else none

-- `subject if project_id or chat_id else None`
unfoldable pub document_owner : Scope → Option String → Option String → Option String
document_owner scope project_id chat_id =
    if is_some project_id || is_some chat_id then scope.subject else none

-- The exception of `dict(value)`.
abbrev pub not_a_dict : Error
not_a_dict = other_error "dict"

-- `_update_entity("documents", …)`
unfoldable pub update_document_entity :
    String → List DocumentColumn → ℕ → Tables → Option Document × Tables
update_document_entity id columns now s = elim (find (λ d. d.id) id s.documents) [
  | none ↦ (none, s)
  | some d ↦
      if is_live_document d
      then (
        some (update_document_row columns now d),
        record s {
          documents = modify (λ e. e.id) id (update_document_row columns now) s.documents;
        },
      )
      else (none, s)
]

abbrev pub same_group : Group → Group → Bool
same_group g h =
    g.owner_subject == h.owner_subject
    && g.project_id == h.project_id
    && g.chat_id == h.chat_id
    && g.family == h.family
    && g.kind == h.kind

-- The set of the two groups: a group that stands twice is rebuilt once.
unfoldable pub rebuild_both : Option Group → Option Group → Tables → Tables
unfolding rebuild
rebuild_both none h s = rebuild h s
rebuild_both (some g) none s = rebuild (some g) s
rebuild_both (some g) (some h) s =
    if same_group g h then rebuild (some g) s else rebuild (some h) (rebuild (some g) s)

-- What is done with the outcome of the update of the row.
unfoldable pub relink_updated :
    Option Group → Option Document × Tables → Option DocumentRecord × Tables
relink_updated old (none, s) = (none, s)
relink_updated old (some d, s) =
    let s' = rebuild_both old (version_group d) s in (some (document_record (reread d s')), s')

module _ (str_of : Json → String) (version_of : String → Fields → Version) where
  unfoldable pub new_document :
      Option String → String → Option String → Option String → Fields → Fields → ℕ → Document
  new_document owner id project_id chat_id payload metadata now =
      let file_name = strip (text_of str_of (get_or "file_name" (str "") payload)) in
      record {
        id = id;
        owner_subject = owner;
        project_id = project_id;
        chat_id = chat_id;
        file_name = file_name;
        source_path = strip (text_of str_of (get_or "source_path" (str "") payload));
        mime_type = strip (text_of str_of (get_or "mime_type" (str "") payload));
        status =
            or_default (strip (text_of str_of (get_or "status" (str "queued") payload))) "queued";
        processing_state = or_object (get "processing_state" payload);
        metadata = metadata;
        version = version_of file_name metadata;
        supersedes_document_id = none;
        created_at = now;
        updated_at = now;
        deleted_at = none;
      }

  -- The insertion, and the rebuild of the family that the row has come into.
  unfoldable pub insert_document : Document → Tables → DocumentRecord × Tables
  insert_document d s =
      let s' = rebuild (version_group d) (record s { documents = d ∷ s.documents }) in
      (document_record (reread d s'), s')

  -- `metadata["scope"] = "global" if not document_owner else "project"`
  unfoldable pub scoped : Option String → Fields → Fields
  scoped owner metadata = put "scope" (str (if given owner then "project" else "global")) metadata

  unfoldable pub store_document :
      Scope
      → String
      → Option String
      → Option String
      → Fields
      → Option Fields
      → ℕ
      → Action Tables DocumentRecord
  store_document scope id project_id chat_id payload none now s = (err not_a_dict, s)
  store_document scope id project_id chat_id payload (some metadata) now s =
      let owner = document_owner scope project_id chat_id in
      let d = new_document owner id project_id chat_id payload (scoped owner metadata) now in
      let (r, s') = insert_document d s in (ok r, s')

  unfoldable pub create_document :
      Scope → String → Option String → Option String → Fields → ℕ → Action Tables DocumentRecord
  create_document scope id project_id chat_id payload now s =
      let project = or_none project_id in
      let chat = or_none chat_id in
      elim (upload_error scope project chat s) [
        | none ↦
            store_document scope id project chat payload
              (dict_of (or_object (get "metadata" payload))) now s
        | some e ↦ (err e, s)
      ]

  -- `effective_payload`; `none` where the given metadata are no object.
  unfoldable pub effective_payload : Document → Fields → Option Fields
  effective_payload d payload = elim (lookup "metadata" payload) [
    | none ↦ some payload
    | some v ↦ elim (dict_of (or_object v)) [
      | none ↦ none
      | some fs ↦ some (put "metadata" (obj (merge d.metadata fs)) payload)
    ]
  ]

  -- The columns of the version, set if the name or the metadata are.
  unfoldable pub version_columns : Document → Fields → List DocumentColumn
  version_columns d payload =
      let name = strip (text_of str_of (get_or "file_name" (str d.file_name) payload)) in
      let metadata =
        if truthy (get "metadata" payload)
        then fields_of (get "metadata" payload)
        else d.metadata in
      if is_some (lookup "file_name" payload) || is_some (lookup "metadata" payload)
      then DocumentColumn.version (version_of name metadata)
        ∷ DocumentColumn.supersedes_document_id none
        ∷ []
      else []

  unfoldable pub document_columns : Document → Fields → List DocumentColumn
  unfolding version_columns
  document_columns d payload =
      update_values str_of true
        (("file_name", DocumentColumn.file_name)
          ∷ ("source_path", DocumentColumn.source_path)
          ∷ ("mime_type", DocumentColumn.mime_type)
          ∷ ("status", DocumentColumn.status)
          ∷ [])
        (("processing_state", DocumentColumn.processing_state)
          ∷ ("metadata", DocumentColumn.metadata)
          ∷ [])
        payload
      ++ version_columns d payload

  unfoldable pub write_columns :
      Document → List DocumentColumn → ℕ → Tables → Option DocumentRecord × Tables
  write_columns d [] now s = (some (document_record d), s)
  write_columns d (c ∷ cs) now s =
      relink_updated (version_group d) (update_document_entity d.id (c ∷ cs) now s)

  unfoldable pub update_found : Document → Option Fields → ℕ → Action Tables (Option DocumentRecord)
  update_found d none now s = (err not_a_dict, s)
  update_found d (some payload) now s =
      let (r, s') = write_columns d (document_columns d payload) now s in (ok r, s')

  unfoldable pub update_document :
      Scope → String → Fields → ℕ → Action Tables (Option DocumentRecord)
  update_document scope id payload now s = elim (get_document_row scope id s) [
    | none ↦ (ok none, s)
    | some d ↦
        if is_refused scope d
        then (err (permission_error "shared document update is not permitted for this account"), s)
        else update_found d (effective_payload d payload) now s
  ]
