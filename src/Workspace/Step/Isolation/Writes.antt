-- ===== src/Workspace/Step/Isolation/Writes.antt =====
-- Each kind of write of db_store.py leaves the rows of others and the closed rows alone.
use rag_llm.Prelude.{
  ℕ, String, ◌≡◌, ◌≢◌, refl, sym, subst, ◌∙◌, true, false, Option, none, some, List, arith, inl,
  inr, and_true, ◌==◌, string_eq, option_eq, eq_iff, Bool-cases,
}
use rag_llm.Workspace.Table.{
  find, modify, update_where, find-key, find-modify_ne, find-update_where,
}
use rag_llm.Workspace.Scope.{Scope}
use rag_llm.Workspace.Row.{Project, Chat, Message, Document, Tables}
use rag_llm.Workspace.Project.{
  is_live_project, is_live_chat, get_project, is_attached, detach, close_project,
}
use rag_llm.Workspace.Chat.{get_chat}
use rag_llm.Workspace.Message.{get_message, is_reachable, reachable}
use rag_llm.Workspace.Chain.{Group, in_group, rebuild_document_version_chain}
use rag_llm.Workspace.Chain.Predecessor.{rebuild_other}
use rag_llm.Workspace.Document.{given, is_live_document}
use rag_llm.Workspace.Visible.{get_message-some}
use rag_llm.Workspace.Step.{MayWrite}
use rag_llm.Workspace.Step.Integrity.{IsSound, visible_project, visible_chat, owns_iff}
use rag_llm.Workspace.Step.Isolation.{Isolates, IsSettled, IsSettledMessage, IsSettledDocument}

-- A row that is settled is not the one that the caller may see.
module _ {Row : Type 0} (key : Row → String) (u : Row → Row) (same : (r : Row) → key (u r) ≡ key r)
    (rs : List Row) where
  pub other_row :
      (id j : String) (p q : Row)
      → find key id rs ≡ some p
      → find key j rs ≡ some q
      → p ≢ q
      → find key j (modify key id u rs) ≡ some q
  other_row id j p q f g ne = find-modify_ne key id j u rs same (λ e. ne (cc (rw e at f))) ∙ g

module _ (scope : Scope) (s : Tables) (g : given scope.subject ≡ true) where
  project_apart :
      (id : String) (p q : Project)
      → get_project scope id s ≡ some p
      → IsSettled scope q.owner_subject (is_live_project q)
      → p ≢ q
  project_apart id p q seen settled e =
      let (f, live, own) = visible_project scope id s p g seen in
      ground (arith, (owns_iff scope p.owner_subject g).1 own)

  chat_apart :
      (id : String) (c d : Chat)
      → get_chat scope id s ≡ some c
      → IsSettled scope d.owner_subject (is_live_chat d)
      → c ≢ d
  chat_apart id c d seen settled e =
      let (f, live, own) = visible_chat scope id s c g seen in
      ground (arith, (owns_iff scope c.owner_subject g).1 own)

  pub set_project-Isolates :
      (id : String) (p : Project) (u : Project → Project)
      → get_project scope id s ≡ some p
      → ((r : Project) → (u r).id ≡ r.id)
      → Isolates scope s (record s { projects = modify (λ q. q.id) id u s.projects })
  set_project-Isolates id p u seen same = record {
    projects = λ j q f h.
        other_row (λ r. r.id) u same s.projects id j p q (visible_project scope id s p g seen).0 f
          (project_apart id p q seen h);
    chats = λ j r f h. f;
    messages = λ j r f h. f;
    documents = λ j r f h. f;
    workspaces = λ j r f h. f;
  }

  pub set_chat-Isolates :
      (id : String) (c : Chat) (u : Chat → Chat)
      → get_chat scope id s ≡ some c
      → ((r : Chat) → (u r).id ≡ r.id)
      → Isolates scope s (record s { chats = modify (λ d. d.id) id u s.chats })
  set_chat-Isolates id c u seen same = record {
    projects = λ j r f h. f;
    chats = λ j d f h.
        other_row (λ r. r.id) u same s.chats id j c d (visible_chat scope id s c g seen).0 f
          (chat_apart id c d seen h);
    messages = λ j r f h. f;
    documents = λ j r f h. f;
    workspaces = λ j r f h. f;
  }

  is_reachable_chat :
      (subject : Option String) (o : Option Chat)
      → given subject ≡ true
      → is_reachable subject o ≡ true
      → (c : Chat) × (o ≡ some c)
  unfolding is_reachable
  is_reachable_chat none o h k = absurd (cc)
  is_reachable_chat (some t) (some c) h k = (c, refl)
  is_reachable_chat (some t) none h k = absurd (ground arith)

  message_apart :
      (id : String) (m n : Message)
      → get_message scope id s ≡ some m
      → IsSettledMessage scope s n
      → m ≢ n
  unfolding reachable
  message_apart id m n seen (inr closed) e =
      let (f, (live, reach)) = get_message-some scope id s m seen in cc (rw (← e) at closed, live)
  message_apart id m n seen (inl (d, f, settled)) e =
      let (_, (live, reach)) = get_message-some scope id s m seen in
      let (c, k) = is_reachable_chat scope.subject (get_chat scope m.chat_id s) g reach in
      chat_apart m.chat_id c d k settled
        (cc ((visible_chat scope m.chat_id s c g k).0, rw (← e) at f))

  pub set_message-Isolates :
      (id : String) (m : Message) (u : Message → Message)
      → get_message scope id s ≡ some m
      → ((r : Message) → (u r).id ≡ r.id)
      → Isolates scope s (record s { messages = modify (λ n. n.id) id u s.messages })
  set_message-Isolates id m u seen same = record {
    projects = λ j r f h. f;
    chats = λ j r f h. f;
    messages = λ j n f h.
        other_row (λ r. r.id) u same s.messages id j m n (get_message-some scope id s m seen).0 f
          (message_apart id m n seen h);
    documents = λ j r f h. f;
    workspaces = λ j r f h. f;
  }

  document_apart :
      (d e : Document)
      → MayWrite scope d.owner_subject
      → d.deleted_at ≡ none
      → IsSettledDocument scope e
      → d ≢ e
  unfolding is_live_document
  document_apart d e may live (inl barred) same =
      barred (subst (λ (r : Document). MayWrite scope r.owner_subject) same may)
  document_apart d e may live (inr closed) same = cc (rw (← same, live) at closed)

  pub set_document-Isolates :
      (d : Document) (u : Document → Document)
      → find (λ e. e.id) d.id s.documents ≡ some d
      → d.deleted_at ≡ none
      → MayWrite scope d.owner_subject
      → ((r : Document) → (u r).id ≡ r.id)
      → Isolates scope s (record s { documents = modify (λ e. e.id) d.id u s.documents })
  set_document-Isolates d u found live may same = record {
    projects = λ j r f h. f;
    chats = λ j r f h. f;
    messages = λ j r f h. f;
    documents = λ j e f h.
        other_row (λ r. r.id) u same s.documents d.id j d e found f (document_apart d e may live h);
    workspaces = λ j r f h. f;
  }

  in_group_owner :
      (group : Group) (e : Document)
      → in_group group e ≡ true
      → (e.owner_subject ≡ group.owner_subject) × (is_live_document e ≡ true)
  unfolding in_group is_live_document
  in_group_owner group e h = ground (arith, eq_iff e.owner_subject group.owner_subject)

  pub relink-Isolates :
      (group : Group)
      → MayWrite scope group.owner_subject
      → IsSound s
      → Isolates scope s (record s { documents = rebuild_document_version_chain group s.documents })
  relink-Isolates group may sound = record {
    projects = λ j r f h. f;
    chats = λ j r f h. f;
    messages = λ j r f h. f;
    documents = λ j e f h. elim (Bool-cases (in_group group e)) [
      | inl inside ↦ absurd (barred e h inside)
      | inr outside ↦
          subst
            (λ i. find (λ r. r.id) i (rebuild_document_version_chain group s.documents) ≡ some e)
            (find-key (λ r. r.id) j s.documents e f)
            (rebuild_other group s.documents e sound.documents
              (subst (λ i. find (λ r. r.id) i s.documents ≡ some e)
                (sym (find-key (λ r. r.id) j s.documents e f)) f)
              outside)
    ];
    workspaces = λ j r f h. f;
  }
    where
      barred : (e : Document) → IsSettledDocument scope e → in_group group e ≡ true → ⊥
      barred e (inl foreign) inside =
          foreign (subst (MayWrite scope) (sym (in_group_owner group e inside).0) may)
      barred e (inr closed) inside = cc ((in_group_owner group e inside).1, closed)

  -- A settled chat does not stand in a project that the caller ends.
  not_attached :
      (id : String) (p : Project) (j : String) (c : Chat)
      → IsSound s
      → get_project scope id s ≡ some p
      → find (λ d. d.id) j s.chats ≡ some c
      → IsSettled scope c.owner_subject (is_live_chat c)
      → is_attached id c ≡ false
  unfolding is_attached
  not_attached id p j c sound seen f settled = elim (Bool-cases (is_attached id c)) [
    | inr out ↦ out
    | inl e ↦ absurd (owned (and_true (c.project_id == some id) (is_live_chat c) e))
  ]
    where
      owned : ((c.project_id == some id) ≡ true) × (is_live_chat c ≡ true) → ⊥
      owned (named, live) =
          let (q, k, l, own) =
            sound.filed j c f live id ((eq_iff c.project_id (some id)).0 named) in
          let (k', _, mine) = visible_project scope id s p g seen in
          let same : q ≡ p = cc in
          elim settled [
            | inl foreign ↦
                cc (foreign, (owns_iff scope c.owner_subject g).1 (sym own ∙ (rw same mine)))
            | inr closed ↦ cc
          ]

  pub end_project-Isolates :
      (id : String) (p : Project) (now : ℕ)
      → IsSound s
      → get_project scope id s ≡ some p
      → Isolates scope s (record s {
        chats = update_where (is_attached id) (detach now) s.chats;
        projects = modify (λ q. q.id) id (close_project now) s.projects;
      })
  unfolding close_project detach
  end_project-Isolates id p now sound seen = record {
    projects = λ j q f h.
        other_row (λ r. r.id) (close_project now) (λ r. closed_id r) s.projects id j p q
          (visible_project scope id s p g seen).0 f (project_apart id p q seen h);
    chats = λ j c f h. kept j c f (not_attached id p j c sound seen f h);
    messages = λ j r f h. f;
    documents = λ j r f h. f;
    workspaces = λ j r f h. f;
  }
    where
      closed_id : (r : Project) → (close_project now r).id ≡ r.id
      closed_id r = refl

      kept :
          (j : String) (c : Chat)
          → find (λ d. d.id) j s.chats ≡ some c
          → is_attached id c ≡ false
          → find (λ d. d.id) j (update_where (is_attached id) (detach now) s.chats) ≡ some c
      kept j c f out =
          find-update_where (λ d. d.id) j (is_attached id) (detach now) s.chats (λ d. refl)
          ∙ rw (f, out)
