-- ===== src/Workspace/Row.antt =====
-- The rows of the workspace tables, and the columns that db_store.py updates.
use rag_llm.Prelude.{ℕ, String, Option, some, List, [], ◌∷◌}
use rag_llm.Access.Json.{Json, obj, Fields, end}
use rag_llm.Workspace.Payload.{KnowledgeScope}

pub record Project : Type 0 where
  pub id : String
  pub owner_subject : Option String
  pub name : String
  pub description : String
  pub settings : Json
  pub memory : Json
  pub knowledge_scope : KnowledgeScope
  pub created_at : ℕ
  pub updated_at : ℕ
  pub deleted_at : Option ℕ

pub record Chat : Type 0 where
  pub id : String
  pub owner_subject : Option String
  pub project_id : Option String
  pub title : String
  pub mode : String
  pub provider : String
  pub model_name : String
  pub metadata : Json
  pub created_at : ℕ
  pub updated_at : ℕ
  pub deleted_at : Option ℕ

pub record Message : Type 0 where
  pub id : String
  pub chat_id : String
  pub role : String
  pub content : String
  pub content_html : String
  pub status : String
  pub metadata : Json
  pub created_at : ℕ
  pub updated_at : ℕ
  pub deleted_at : Option ℕ

-- The columns that `_document_version_fields` fills.
pub record Version : Type 0 where
  pub document_family : Option String
  pub version_label : Option String
  pub version_kind : Option String
  pub version_sort_key : Option (List ℕ)
  pub version_source : Option String
  pub effective_on : Option String

pub record Document : Type 0 where
  pub id : String
  pub owner_subject : Option String
  pub project_id : Option String
  pub chat_id : Option String
  pub file_name : String
  pub source_path : String
  pub mime_type : String
  pub status : String
  pub processing_state : Json
  pub metadata : Fields
  pub version : Version
  pub supersedes_document_id : Option String
  pub created_at : ℕ
  pub updated_at : ℕ
  pub deleted_at : Option ℕ

pub record WorkspaceSettings : Type 0 where
  pub id : String
  pub owner_subject : Option String
  pub active_project_id : Option String
  pub active_chat_id : Option String
  pub settings : Json
  pub created_at : ℕ
  pub updated_at : ℕ
  pub deleted_at : Option ℕ

pub record Tables : Type 0 where
  pub projects : List Project
  pub chats : List Chat
  pub messages : List Message
  pub documents : List Document
  pub workspaces : List WorkspaceSettings

pub data ProjectColumn : Type 0 where
  name description : String → ProjectColumn
  settings memory : Json → ProjectColumn
  knowledge_scope : KnowledgeScope → ProjectColumn

pub data ChatColumn : Type 0 where
  title mode provider model_name project_id : String → ChatColumn
  metadata : Json → ChatColumn

pub data MessageColumn : Type 0 where
  content content_html status : String → MessageColumn
  metadata : Json → MessageColumn

-- `version` stands for the six columns of `_document_version_fields`.
pub data DocumentColumn : Type 0 where
  file_name source_path mime_type status : String → DocumentColumn
  processing_state metadata : Json → DocumentColumn
  version : Version → DocumentColumn
  supersedes_document_id : Option String → DocumentColumn

pub data SettingsColumn : Type 0 where
  settings : Json → SettingsColumn
  active_project_id active_chat_id : Option String → SettingsColumn

-- A JSON column that holds an object.
unfoldable pub fields_of : Json → Fields
fields_of (obj fs) = fs
fields_of _ = end

unfoldable pub set_document_column : Document → DocumentColumn → Document
unfolding fields_of
set_document_column d (file_name v) = record d { file_name = v }
set_document_column d (source_path v) = record d { source_path = v }
set_document_column d (mime_type v) = record d { mime_type = v }
set_document_column d (status v) = record d { status = v }
set_document_column d (processing_state v) = record d { processing_state = v }
set_document_column d (metadata v) = record d { metadata = fields_of v }
set_document_column d (version v) = record d { version = v }
set_document_column d (supersedes_document_id v) = record d { supersedes_document_id = v }

unfoldable pub set_settings_column : WorkspaceSettings → SettingsColumn → WorkspaceSettings
set_settings_column w (settings v) = record w { settings = v }
set_settings_column w (active_project_id v) = record w { active_project_id = v }
set_settings_column w (active_chat_id v) = record w { active_chat_id = v }

unfoldable pub set_project_column : Project → ProjectColumn → Project
set_project_column p (name v) = record p { name = v }
set_project_column p (description v) = record p { description = v }
set_project_column p (settings v) = record p { settings = v }
set_project_column p (memory v) = record p { memory = v }
set_project_column p (knowledge_scope v) = record p { knowledge_scope = v }

unfoldable pub set_chat_column : Chat → ChatColumn → Chat
set_chat_column c (title v) = record c { title = v }
set_chat_column c (mode v) = record c { mode = v }
set_chat_column c (provider v) = record c { provider = v }
set_chat_column c (model_name v) = record c { model_name = v }
set_chat_column c (project_id v) = record c { project_id = some v }
set_chat_column c (metadata v) = record c { metadata = v }

unfoldable pub set_message_column : Message → MessageColumn → Message
set_message_column m (content v) = record m { content = v }
set_message_column m (content_html v) = record m { content_html = v }
set_message_column m (status v) = record m { status = v }
set_message_column m (metadata v) = record m { metadata = v }

-- `SET ..., updated_at = now()`
unfoldable pub update_project_row : List ProjectColumn → ℕ → Project → Project
update_project_row [] now p = record p { updated_at = now }
update_project_row (c ∷ cs) now p = update_project_row cs now (set_project_column p c)

unfoldable pub update_chat_row : List ChatColumn → ℕ → Chat → Chat
update_chat_row [] now r = record r { updated_at = now }
update_chat_row (c ∷ cs) now r = update_chat_row cs now (set_chat_column r c)

unfoldable pub update_message_row : List MessageColumn → ℕ → Message → Message
update_message_row [] now m = record m { updated_at = now }
update_message_row (c ∷ cs) now m = update_message_row cs now (set_message_column m c)

unfoldable pub update_document_row : List DocumentColumn → ℕ → Document → Document
update_document_row [] now d = record d { updated_at = now }
update_document_row (c ∷ cs) now d = update_document_row cs now (set_document_column d c)

unfoldable pub update_settings_row : List SettingsColumn → ℕ → WorkspaceSettings → WorkspaceSettings
update_settings_row [] now w = record w { updated_at = now }
update_settings_row (c ∷ cs) now w = update_settings_row cs now (set_settings_column w c)
