-- ===== src/Workspace/Step/Sound.antt =====
-- The invariant of the workspace tables under every write of db_store.py.
use rag_llm.Prelude.{◌≡◌, refl, true, List, [], ◌∷◌}
use rag_llm.Workspace.Table.{modify, IsKeyed}
use rag_llm.Workspace.Table.Keyed.{cons-IsKeyed, modify-IsKeyed}
use rag_llm.Workspace.Scope.{Scope}
use rag_llm.Workspace.Row.{Document, Tables, update_settings_row}
use rag_llm.Workspace.Chain.{
  Group, Chain, start, link_of, advance, set_link, link_versions, in_group, order_versions,
  rebuild_document_version_chain,
}
use rag_llm.Workspace.Table.{select}
use rag_llm.Workspace.Document.{given}
use rag_llm.Workspace.Step.{
  Step, Steps, here, next, add_project, set_project, end_project, add_chat, set_chat, end_chat,
  add_message, set_message, end_message, add_document, set_document, relink, add_workspace,
  set_workspace,
}
use rag_llm.Workspace.Step.Rows.{update_settings_row-keeps}
use rag_llm.Workspace.Step.Integrity.{IsSound}
use rag_llm.Workspace.Step.Filing.{
  add_project-Filed, set_project-Filed, end_project-Filed, add_chat-Filed, set_chat-Filed,
  end_chat-Filed,
}

link_versions-IsKeyed :
    (c : Chain) (ds table : List Document)
    → IsKeyed (λ d. d.id) table
    → IsKeyed (λ d. d.id) (link_versions c ds table)
unfolding link_versions set_link
link_versions-IsKeyed c [] table k = k
link_versions-IsKeyed c (d ∷ ds) table k =
    link_versions-IsKeyed (advance d c) ds (modify (λ e. e.id) d.id (set_link (link_of d c)) table)
      (modify-IsKeyed (λ (e : Document). e.id) d.id (set_link (link_of d c)) (λ e. refl) table k)

pub rebuild-IsKeyed :
    (g : Group) (table : List Document)
    → IsKeyed (λ d. d.id) table
    → IsKeyed (λ d. d.id) (rebuild_document_version_chain g table)
unfolding rebuild_document_version_chain
rebuild-IsKeyed g table k =
    link_versions-IsKeyed start (order_versions (select (in_group g) table)) table k

-- One write of a caller with a subject.
Step-IsSound :
    {scope : Scope} {s t : Tables}
    → given scope.subject ≡ true
    → Step scope s t
    → IsSound s
    → IsSound t
Step-IsSound {scope} {s} g (add_project p fresh own live) h = record {
  documents = h.documents;
  workspaces = h.workspaces;
  filed = add_project-Filed scope s h.filed p fresh;
}
Step-IsSound {scope} {s} g (set_project id p columns now seen) h = record {
  documents = h.documents;
  workspaces = h.workspaces;
  filed = set_project-Filed scope s h.filed id columns now;
}
Step-IsSound {scope} {s} g (end_project id p now seen) h = record {
  documents = h.documents;
  workspaces = h.workspaces;
  filed = end_project-Filed scope s h.filed id now;
}
Step-IsSound {scope} {s} g (add_chat c fresh own live stands) h = record {
  documents = h.documents;
  workspaces = h.workspaces;
  filed = add_chat-Filed scope s h.filed c g own stands;
}
Step-IsSound {scope} {s} g (set_chat id c columns now seen stands) h = record {
  documents = h.documents;
  workspaces = h.workspaces;
  filed = set_chat-Filed scope s h.filed id c columns now g seen stands;
}
Step-IsSound {scope} {s} g (end_chat id c now seen) h = record {
  documents = h.documents;
  workspaces = h.workspaces;
  filed = end_chat-Filed scope s h.filed id now;
}
Step-IsSound g (add_message m c fresh seen) h = record {
  documents = h.documents;
  workspaces = h.workspaces;
  filed = h.filed;
}
Step-IsSound g (set_message id m columns now seen) h = record {
  documents = h.documents;
  workspaces = h.workspaces;
  filed = h.filed;
}
Step-IsSound g (end_message id m now seen) h = record {
  documents = h.documents;
  workspaces = h.workspaces;
  filed = h.filed;
}
Step-IsSound {scope} {s} g (add_document d fresh may) h = record {
  documents = cons-IsKeyed (λ e. e.id) d s.documents fresh h.documents;
  workspaces = h.workspaces;
  filed = h.filed;
}
Step-IsSound {scope} {s} g (set_document d u found live may keeps) h = record {
  documents = modify-IsKeyed (λ e. e.id) d.id u keeps.id s.documents h.documents;
  workspaces = h.workspaces;
  filed = h.filed;
}
Step-IsSound {scope} {s} g (relink group may) h = record {
  documents = rebuild-IsKeyed group s.documents h.documents;
  workspaces = h.workspaces;
  filed = h.filed;
}
Step-IsSound {scope} {s} g (add_workspace w fresh) h = record {
  documents = h.documents;
  workspaces = cons-IsKeyed (λ v. v.id) w s.workspaces fresh h.workspaces;
  filed = h.filed;
}
Step-IsSound {scope} {s} g (set_workspace w columns now found own live) h = record {
  documents = h.documents;
  workspaces =
      modify-IsKeyed (λ v. v.id) w.id (update_settings_row columns now)
        (λ v. (update_settings_row-keeps columns now v).0) s.workspaces h.workspaces;
  filed = h.filed;
}

pub Steps-IsSound :
    {scope : Scope} {s t : Tables}
    → given scope.subject ≡ true
    → Steps scope s t
    → IsSound s
    → IsSound t
Steps-IsSound g here h = h
Steps-IsSound g (next steps step) h = Step-IsSound g step (Steps-IsSound g steps h)
