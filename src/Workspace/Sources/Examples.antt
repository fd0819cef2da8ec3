-- ===== src/Workspace/Sources/Examples.antt =====
-- Concrete inputs for the theorems of `document_sources`.
use rag_llm.Prelude.{String, ◌≡◌, refl, false, none, some, [], ◌∷◌, inl, strip, length_chars}
use rag_llm.Access.Json.{obj, end}
use rag_llm.Workspace.Table.{select}
use rag_llm.Workspace.Scope.{Scope}
use rag_llm.Workspace.Row.{Document, Tables}
use rag_llm.Workspace.Document.{document_record, is_live_document, is_shared_or_own}
use rag_llm.Workspace.Sources.{
  is_source, after_prefix, is_hex, is_lower_hex, shed, bare_name, only, link, names_of, lookup_key,
  candidate_name, is_upload, refers, resolve, document_sources,
}
use rag_llm.Workspace.Sources.Bare.{bare_name-IsBare}
use rag_llm.Workspace.Sources.Lookup.{IsLink, document_sources_lem}

abbrev alice : Scope
alice = record { subject = some "alice"; is_admin = false; can_manage_global_documents = false }

abbrev document_of : String → String → Document
document_of id owner = record {
  id = id;
  owner_subject = some owner;
  project_id = none;
  chat_id = none;
  file_name = "statute.docx";
  source_path = "0123456789abcdef0123456789abcdef_statute.docx";
  mime_type = "";
  status = "ready";
  processing_state = obj end;
  metadata = end;
  version = record {
    document_family = none;
    version_label = none;
    version_kind = none;
    version_sort_key = none;
    version_source = none;
    effective_on = none;
  };
  supersedes_document_id = none;
  created_at = 1;
  updated_at = 1;
  deleted_at = none;
}

abbrev tables : Tables
tables = record {
  projects = [];
  chats = [];
  messages = [];
  documents = document_of "d1" "alice" ∷ document_of "d2" "bob" ∷ [];
  workspaces = [];
}

bare_name-IsBare_example :
    after_prefix is_hex 32 (bare_name "0123456789abcdef0123456789abcdef_statute.docx") ≡ none
bare_name-IsBare_example = bare_name-IsBare "0123456789abcdef0123456789abcdef_statute.docx"

document_sources_lem_example :
    IsLink
      (λ s. s)
      (λ s. s)
      alice
      (" statute.docx" ∷ [])
      tables
      "statute.docx"
      (document_record (document_of "d1" "alice"))
unfolding document_sources resolve link only refers is_upload candidate_name lookup_key bare_name
    shed after_prefix is_hex is_lower_hex is_source is_live_document is_shared_or_own names_of
    select strip length_chars document_record
document_sources_lem_example =
    document_sources_lem (λ s. s) (λ s. s) alice (" statute.docx" ∷ []) tables "statute.docx"
      (document_record (document_of "d1" "alice")) (inl refl)
