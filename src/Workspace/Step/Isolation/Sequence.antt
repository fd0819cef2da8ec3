-- ===== src/Workspace/Step/Isolation/Sequence.antt =====
-- Any sequence of writes of db_store.py leaves the rows of others and the closed rows alone.
use rag_llm.Prelude.{◌≡◌, refl, true, inl, inr, string_eq, option_eq}
use rag_llm.Workspace.Scope.{Scope}
use rag_llm.Workspace.Row.{
  Message, Tables, update_project_row, update_chat_row, update_message_row, update_settings_row,
}
use rag_llm.Workspace.Chat.{close_chat}
use rag_llm.Workspace.Message.{close_message}
use rag_llm.Workspace.Document.{given}
use rag_llm.Workspace.Step.{
  Step, Steps, here, next, add_project, set_project, end_project, add_chat, set_chat, end_chat,
  add_message, set_message, end_message, add_document, set_document, relink, add_workspace,
  set_workspace,
}
use rag_llm.Workspace.Step.Rows.{
  find-cons_fresh, update_project_row-keeps, update_chat_row-keeps, update_message_row-keeps,
  update_settings_row-keeps,
}
use rag_llm.Workspace.Step.Integrity.{IsSound}
use rag_llm.Workspace.Step.Sound.{Steps-IsSound}
use rag_llm.Workspace.Step.Isolation.{Isolates, IsSettledMessage, untouched}
use rag_llm.Workspace.Step.Isolation.Writes.{
  other_row, set_project-Isolates, set_chat-Isolates, set_message-Isolates, set_document-Isolates,
  relink-Isolates, end_project-Isolates,
}

module _ (scope : Scope) (s : Tables) (g : given scope.subject ≡ true) where
  -- One write.
  Step-Isolates : {t : Tables} → IsSound s → Step scope s t → Isolates scope s t
  unfolding close_chat close_message
  Step-Isolates sound (add_project p fresh own live) = record {
    projects = λ j q f h. find-cons_fresh (λ r. r.id) p s.projects j q fresh f;
    chats = λ j r f h. f;
    messages = λ j r f h. f;
    documents = λ j r f h. f;
    workspaces = λ j r f h. f;
  }
  Step-Isolates sound (set_project id p columns now seen) =
      set_project-Isolates scope s g id p (update_project_row columns now) seen
        (λ r. (update_project_row-keeps columns now r).0)
  Step-Isolates sound (end_project id p now seen) =
      end_project-Isolates scope s g id p now sound seen
  Step-Isolates sound (add_chat c fresh own live stands) = record {
    projects = λ j r f h. f;
    chats = λ j d f h. find-cons_fresh (λ r. r.id) c s.chats j d fresh f;
    messages = λ j r f h. f;
    documents = λ j r f h. f;
    workspaces = λ j r f h. f;
  }
  Step-Isolates sound (set_chat id c columns now seen stands) =
      set_chat-Isolates scope s g id c (update_chat_row columns now) seen
        (λ r. (update_chat_row-keeps columns now r).0)
  Step-Isolates sound (end_chat id c now seen) =
      set_chat-Isolates scope s g id c (close_chat now) seen (λ r. refl)
  Step-Isolates sound (add_message m c fresh seen) = record {
    projects = λ j r f h. f;
    chats = λ j r f h. f;
    messages = λ j n f h. find-cons_fresh (λ r. r.id) m s.messages j n fresh f;
    documents = λ j r f h. f;
    workspaces = λ j r f h. f;
  }
  Step-Isolates sound (set_message id m columns now seen) =
      set_message-Isolates scope s g id m (update_message_row columns now) seen
        (λ r. (update_message_row-keeps columns now r).0)
  Step-Isolates sound (end_message id m now seen) =
      set_message-Isolates scope s g id m (close_message now) seen (λ r. refl)
  Step-Isolates sound (add_document d fresh may) = record {
    projects = λ j r f h. f;
    chats = λ j r f h. f;
    messages = λ j r f h. f;
    documents = λ j e f h. find-cons_fresh (λ r. r.id) d s.documents j e fresh f;
    workspaces = λ j r f h. f;
  }
  Step-Isolates sound (set_document d u found live may keeps) =
      set_document-Isolates scope s g d u found live may keeps.id
  Step-Isolates sound (relink group may) = relink-Isolates scope s g group may sound
  Step-Isolates sound (add_workspace w fresh) = record {
    projects = λ j r f h. f;
    chats = λ j r f h. f;
    messages = λ j r f h. f;
    documents = λ j r f h. f;
    workspaces = λ j v f h. find-cons_fresh (λ r. r.id) w s.workspaces j v fresh f;
  }
  Step-Isolates sound (set_workspace w columns now found own live) = record {
    projects = λ j r f h. f;
    chats = λ j r f h. f;
    messages = λ j r f h. f;
    documents = λ j r f h. f;
    workspaces = λ j v f h.
        other_row (λ r. r.id) (update_settings_row columns now)
          (λ r. (update_settings_row-keeps columns now r).0) s.workspaces w.id j w v found f
          (λ e. cc (rw (← e) at h, own));
  }

Isolates-trans :
    (scope : Scope) (s t u : Tables) → Isolates scope s t → Isolates scope t u → Isolates scope s u
Isolates-trans scope s t u h k = record {
  projects = λ j r f settled. k.projects j r (h.projects j r f settled) settled;
  chats = λ j r f settled. k.chats j r (h.chats j r f settled) settled;
  messages = λ j r f settled. k.messages j r (h.messages j r f settled) (later r settled);
  documents = λ j r f settled. k.documents j r (h.documents j r f settled) settled;
  workspaces = λ j r f foreign. k.workspaces j r (h.workspaces j r f foreign) foreign;
}
  where
    later : (m : Message) → IsSettledMessage scope s m → IsSettledMessage scope t m
    later m (inl (c, f, settled)) = inl (c, h.chats m.chat_id c f settled, settled)
    later m (inr closed) = inr closed

-- Any number of writes of a caller with a subject, from tables in order, leave the rows of others
-- and the closed rows as they stand: projects, chats, the messages in them, documents and
-- workspace settings. Of the documents, an administrator's writes leave the closed ones and, unless
-- they may be managed, those of the shared library.
pub Steps-Isolates :
    (scope : Scope) (s t : Tables)
    → given scope.subject ≡ true
    → IsSound s
    → Steps scope s t
    → Isolates scope s t
Steps-Isolates scope s t g sound here = untouched scope s
Steps-Isolates scope s t g sound (next {t = m} steps step) =
    Isolates-trans scope s m t (Steps-Isolates scope s m g sound steps)
      (Step-Isolates scope m g (Steps-IsSound g steps sound) step)
