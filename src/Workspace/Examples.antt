-- ===== src/Workspace/Examples.antt =====
-- Concrete inputs for the theorems of the workspaces.
use rag_llm.Prelude.{
  ℕ, String, ◌≡◌, refl, true, false, Option, none, some, List, [], ◌∷◌, ◌==◌, string_eq, eq_iff, ap,
  sym, ◌∙◌, inl, inr, Member, Bool-cases, take, subst,
}
use rag_llm.Access.Json.{Json, obj, str, end, field, Fields}
use rag_llm.Workspace.Table.{find, select, IsKeyed, order_by_desc, order_with}
use rag_llm.Workspace.Scope.{Scope, owns, is_owned}
use rag_llm.Workspace.Payload.{project_and_global}
use rag_llm.Workspace.Row.{Project, Chat, Message, Version, Document, Tables}
use rag_llm.Workspace.Chain.{Group, in_group, set_link, rebuild_document_version_chain}
use rag_llm.Workspace.Chain.Predecessor.{IsPredecessor, rebuild_links}
use rag_llm.Workspace.Conversation.{
  Conversation, Turn, get_project_conversation, conversation_of, history_message, user_message,
  in_chat, history_chat, is_complete, is_later,
}
use rag_llm.Workspace.Conversation.History.{
  IsConversation, InView, conversation_lem, conversation-InView,
}
use rag_llm.Workspace.Step.Integrity.{IsSound, IsFiled}
use rag_llm.Workspace.Step.Isolation.{Isolates}
use rag_llm.Workspace.Request.{perform, delete_project, create_document}
use rag_llm.Workspace.Request.Refinement.{perform-IsSound, perform-Isolates}
use rag_llm.Workspace.Project.{is_live_chat, is_live_project}
use rag_llm.Workspace.Chat.{chat_visible, get_chat}
use rag_llm.Workspace.Message.{is_live_message}

abbrev alice : Scope
alice = record { subject = some "alice"; is_admin = false; can_manage_global_documents = false }

abbrev contracts : Project
contracts = record {
  id = "p1";
  owner_subject = some "alice";
  name = "Contracts";
  description = "";
  settings = obj end;
  memory = obj end;
  knowledge_scope = project_and_global;
  created_at = 1;
  updated_at = 1;
  deleted_at = none;
}

abbrev questions : Chat
questions = record {
  id = "c1";
  owner_subject = some "alice";
  project_id = some "p1";
  title = "Questions";
  mode = "rag";
  provider = "local";
  model_name = "small";
  metadata = obj end;
  created_at = 2;
  updated_at = 2;
  deleted_at = none;
}

abbrev message_at : String → String → String → ℕ → Message
message_at id role content time = record {
  id = id;
  chat_id = "c1";
  role = role;
  content = content;
  content_html = "";
  status = "complete";
  metadata = obj end;
  created_at = time;
  updated_at = time;
  deleted_at = none;
}

abbrev version_at : List ℕ → Version
version_at key = record {
  document_family = some "statute";
  version_label = none;
  version_kind = some "number";
  version_sort_key = some key;
  version_source = none;
  effective_on = none;
}

abbrev document_at : String → Option String → List ℕ → ℕ → Document
document_at id owner key time = record {
  id = id;
  owner_subject = owner;
  project_id = some "p1";
  chat_id = none;
  file_name = "statute.docx";
  source_path = "";
  mime_type = "";
  status = "ready";
  processing_state = obj end;
  metadata = end;
  version = version_at key;
  supersedes_document_id = none;
  created_at = time;
  updated_at = time;
  deleted_at = none;
}

abbrev first_version : Document
first_version = document_at "d1" (some "alice") (1 ∷ []) 3

abbrev second_version : Document
second_version = document_at "d2" (some "alice") (1 ∷ 2 ∷ []) 4

abbrev bobs : Document
bobs = document_at "d3" (some "bob") (1 ∷ 1 ∷ []) 5

abbrev documents : List Document
documents = second_version ∷ bobs ∷ first_version ∷ []

abbrev tables : Tables
tables = record {
  projects = contracts ∷ [];
  chats = questions ∷ [];
  messages =
      message_at "m3" "assistant" "b" 9
      ∷ message_at "m2" "user" "a" 8
      ∷ message_at "m1" "user" "?" 7
      ∷ [];
  documents = documents;
  workspaces = [];
}

abbrev statutes : Group
statutes = record {
  owner_subject = some "alice";
  project_id = some "p1";
  chat_id = none;
  family = "statute";
  kind = "number";
}

abbrev document_id : Document → String
document_id d = d.id

-- Rows with other identifiers are other rows.
apart : (r q : Document) (id : String) → (r.id == id) ≡ false → q ≡ r → q.id ≡ id → ⊥
apart r q id h same e = absurd (cc (h, (eq_iff r.id id).1 (ap (λ d. d.id) (sym same) ∙ e)))

documents-IsKeyed : IsKeyed document_id documents
documents-IsKeyed = (
  (λ q m. elim m [
    | inl e ↦ apart bobs q "d2" refl e
    | inr n ↦ elim n [ inl e ↦ apart first_version q "d2" refl e | inr w ↦ absurd w ]
  ]),
  (
    (λ q m. elim m [ inl e ↦ apart first_version q "d3" refl e | inr w ↦ absurd w ]),
    ((λ q m. absurd m), _),
  ),
)

rebuild_links_example :
    (s : Option String) × (find document_id "d2" (rebuild_document_version_chain statutes documents)
      ≡ some (set_link s second_version))
    × IsPredecessor (second_version ∷ first_version ∷ []) (1 ∷ 2 ∷ []) s
unfolding find in_group select
rebuild_links_example = rebuild_links statutes documents second_version documents-IsKeyed refl refl

abbrev conversation : Conversation
conversation = record {
  scope = record {
    project_id = some "p1";
    owner_subject = some "alice";
    project_name = some "Contracts";
    memory = some (obj end);
    knowledge_scope = some project_and_global;
  };
  messages = record { message = message_at "m3" "assistant" "b" 9; chat_title = "Questions" } ∷ [];
  active_user_messages =
      record { message = message_at "m2" "user" "a" 8; chat_title = "Questions" } ∷ [];
  active_user_history_limit = 1;
  active_user_history_truncated = true;
}

conversation_found : get_project_conversation alice "c1" 1 tables ≡ some conversation
unfolding get_project_conversation get_chat find chat_visible owns is_owned is_live_chat
    conversation_of is_live_project take order_by_desc order_with select history_message
    user_message in_chat history_chat is_complete is_live_message is_later
conversation_found = refl

conversation_lem_example :
    (c : Chat) × (get_chat alice "c1" tables ≡ some c)
    × IsConversation alice c 1 tables conversation
conversation_lem_example = conversation_lem alice "c1" 1 tables conversation conversation_found

conversation-InView_example :
    ((t : Turn) → Member t conversation.messages → InView alice tables t.message)
    × ((t : Turn)
        → Member t conversation.active_user_messages
        → InView alice tables t.message × (t.message.role ≡ "user"))
conversation-InView_example =
    conversation-InView alice "c1" 1 tables conversation conversation_found

questions-IsFiled : (c : Chat) → questions ≡ c → IsFiled tables c
unfolding find is_live_project
questions-IsFiled c same live j e =
    let name : some "p1" ≡ some j = ap (λ d. d.project_id) same ∙ e in
    let owner : some "alice" ≡ c.owner_subject = ap (λ d. d.owner_subject) same in
    let id : "p1" ≡ j = cc in
    (
      contracts,
      subst (λ i. find (λ (p : Project). p.id) i (contracts ∷ []) ≡ some contracts) id refl,
      refl,
      owner,
    )

tables-IsSound : IsSound tables
unfolding find
tables-IsSound = record {
  documents = documents-IsKeyed;
  workspaces = _;
  filed = λ id c found. elim (Bool-cases ("c1" == id)) [
    | inl t ↦ questions-IsFiled c (cc (rw t at found))
    | inr f ↦ absurd (cc (rw f at found))
  ];
}

abbrev str_of : Json → String
str_of v = "1"

abbrev version_of : String → Fields → Version
version_of name metadata = version_at (2 ∷ [])

perform-IsSound_example : IsSound (perform str_of version_of alice (delete_project "p1") 10 tables)
perform-IsSound_example =
    perform-IsSound str_of version_of alice 10 tables refl tables-IsSound (delete_project "p1") _

perform-Isolates_example : Isolates alice tables (
    perform str_of version_of alice
      (create_document "d4" (some "p1") none (field "file_name" (str "new.docx") end))
      10
      tables)
unfolding find
perform-Isolates_example =
    perform-Isolates str_of version_of alice 10 tables refl tables-IsSound
      (create_document "d4" (some "p1") none (field "file_name" (str "new.docx") end)) refl
