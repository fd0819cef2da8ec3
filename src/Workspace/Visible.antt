-- ===== src/Workspace/Visible.antt =====
-- What a lookup of db_store.py finds: the row of the identifier, if the scope's caller may see it.
use rag_llm.Prelude.{
  String, ◌≡◌, Bool, true, ◌&&◌, and_true, Option, none, some, arith, if◌then◌else◌,
}
use rag_llm.Workspace.Table.{find}
use rag_llm.Workspace.Scope.{Scope}
use rag_llm.Workspace.Row.{Project, Chat, Message, Document, Tables}
use rag_llm.Workspace.Project.{project_visible, get_project}
use rag_llm.Workspace.Chat.{chat_visible, get_chat}
use rag_llm.Workspace.Message.{is_live_message, reachable, get_message}
use rag_llm.Workspace.Document.{document_visible, get_document_row}

filtered_some :
    {Row : Type 0} (f : Row → Bool) (o : Option Row) (r : Row)
    → ◌≡◌ {A = Option Row} (elim o [ none ↦ none | some q ↦ if f q then some q else none ]) (some r)
    → (o ≡ some r) × (f r ≡ true)
filtered_some f none r h = cc
filtered_some f (some q) r h = ground arith

module _ (scope : Scope) (id : String) (s : Tables) where
  pub get_project-some :
      (p : Project)
      → get_project scope id s ≡ some p
      → (find (λ q. q.id) id s.projects ≡ some p) × (project_visible scope p ≡ true)
  unfolding get_project
  get_project-some p h = filtered_some (project_visible scope) (find (λ q. q.id) id s.projects) p h

  pub get_chat-some :
      (c : Chat)
      → get_chat scope id s ≡ some c
      → (find (λ d. d.id) id s.chats ≡ some c) × (chat_visible scope c ≡ true)
  unfolding get_chat
  get_chat-some c h = filtered_some (chat_visible scope) (find (λ d. d.id) id s.chats) c h

  pub get_document_row-some :
      (d : Document)
      → get_document_row scope id s ≡ some d
      → (find (λ e. e.id) id s.documents ≡ some d) × (document_visible scope d ≡ true)
  unfolding get_document_row
  get_document_row-some d h =
      filtered_some (document_visible scope) (find (λ e. e.id) id s.documents) d h

  pub get_message-some :
      (m : Message)
      → get_message scope id s ≡ some m
      → (find (λ n. n.id) id s.messages ≡ some m)
        × ((is_live_message m ≡ true) × (reachable scope m s ≡ true))
  unfolding get_message
  get_message-some m h =
      let (e, p) =
        filtered_some (λ n. is_live_message n && reachable scope n s)
          (find (λ n. n.id) id s.messages) m h in
      (e, and_true (is_live_message m) (reachable scope m s) p)
