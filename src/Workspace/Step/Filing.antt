-- ===== src/Workspace/Step/Filing.antt =====
-- Each write of db_store.py on projects and chats keeps the chats filed under live projects of their
-- owners.
use rag_llm.Prelude.{
  ℕ, String, ◌≡◌, ◌≢◌, refl, sym, ap, subst, ◌∙◌, true, false, none, some, List, ◌∷◌, inl, inr,
  Member, ◌==◌, string_eq, option_eq, eq_iff, Bool-cases,
}
use rag_llm.Workspace.Table.{find, modify, update_where, map_row, find-modify_self, find-modify_ne}
use rag_llm.Workspace.Scope.{Scope}
use rag_llm.Workspace.Row.{
  Project, Chat, Tables, ProjectColumn, ChatColumn, update_project_row, update_chat_row,
}
use rag_llm.Workspace.Project.{is_live_project, is_live_chat, is_attached, detach, close_project}
use rag_llm.Workspace.Chat.{get_chat, close_chat}
use rag_llm.Workspace.Document.{given}
use rag_llm.Workspace.Step.{MayStand}
use rag_llm.Workspace.Step.Rows.{
  String-cases, find-modify_cases, find-update_where_cases, find-cons_fresh,
  update_project_row-keeps, update_chat_row-keeps, update_chat_row-project_id,
}
use rag_llm.Workspace.Step.Integrity.{
  project_of, IsFiled, Filed, KeepsProjects, IsFiled-keeps, IsFiled-of_MayStand, visible_chat,
  visible_project,
}

module _ (scope : Scope) (s : Tables) (filed : Filed s) where
  pub add_project-Filed :
      (p : Project)
      → find (λ q. q.id) p.id s.projects ≡ none
      → Filed (record s { projects = p ∷ s.projects })
  add_project-Filed p fresh id c h =
      IsFiled-keeps s (record s { projects = p ∷ s.projects }) c
        (λ j q f l. (q, find-cons_fresh (λ q. q.id) p s.projects j q fresh f, l, refl))
        (filed id c h)

  set_project-KeepsProjects :
      (id : String) (columns : List ProjectColumn) (now : ℕ)
      → KeepsProjects s (record s {
        projects = modify (λ q. q.id) id (update_project_row columns now) s.projects;
      })
  unfolding is_live_project
  set_project-KeepsProjects id columns now j p f live = elim (String-cases id j) [
    | inl e ↦ (
      update_project_row columns now p,
      rw (← e) (
          find-modify_self (λ q. q.id) id (update_project_row columns now) s.projects keep
          ∙ ap (map_row (update_project_row columns now)) (rw (← e) at f)),
      rw (update_project_row-keeps columns now p).2 live,
      (update_project_row-keeps columns now p).1,
    )
    | inr e ↦ (
      p,
      find-modify_ne (λ q. q.id) id j (update_project_row columns now) s.projects keep e ∙ f,
      live,
      refl,
    )
  ]
    where
      keep : (q : Project) → (update_project_row columns now q).id ≡ q.id
      keep q = (update_project_row-keeps columns now q).0

  pub set_project-Filed :
      (id : String) (columns : List ProjectColumn) (now : ℕ)
      → Filed (record s {
        projects = modify (λ q. q.id) id (update_project_row columns now) s.projects;
      })
  set_project-Filed id columns now j c h =
      IsFiled-keeps s
        (record s { projects = modify (λ q. q.id) id (update_project_row columns now) s.projects })
        c (set_project-KeepsProjects id columns now) (filed j c h)

  elsewhere :
      {id : String} (r : Chat)
      → is_attached id r ≡ false
      → is_live_chat r ≡ true
      → r.project_id ≢ some id
  unfolding is_attached
  elsewhere {id} r a live e = absurd (cc (rw (live, (eq_iff r.project_id (some id)).1 e) at a))

  -- A chat that stays filed after its project has ended stood in another one.
  pub end_project-Filed :
      (id : String) (now : ℕ)
      → Filed (record s {
        chats = update_where (is_attached id) (detach now) s.chats;
        projects = modify (λ q. q.id) id (close_project now) s.projects;
      })
  unfolding is_attached detach close_project
  end_project-Filed id now j c h live p e =
      let (r, k, q) =
        find-update_where_cases (λ (d : Chat). d.id) j (is_attached id) (detach now) s.chats c
          (λ d. refl) h in
      elim (Bool-cases (is_attached id r)) [
        | inl a ↦ absurd (cc (rw a at q))
        | inr a ↦ stays r k a (rw a at q)
      ]
    where
      stays :
          (r : Chat)
          → find (λ d. d.id) j s.chats ≡ some r
          → is_attached id r ≡ false
          → c ≡ r
          → (x : Project) × (find
                (λ q. q.id)
                p
                (modify (λ q. q.id) id (close_project now) s.projects)
              ≡ some x)
            × (is_live_project x ≡ true)
            × (x.owner_subject ≡ c.owner_subject)
      stays r k a same =
          let (x, f, l, o) = filed j r k (rw same at live) p (rw same at e) in
          (
            x,
            find-modify_ne (λ q. q.id) id p (close_project now) s.projects (λ q. refl)
                  (λ t. elsewhere r a (rw same at live) (rw (same, ← t) at e))
                ∙ f,
            l,
            o ∙ ap (λ (d : Chat). d.owner_subject) (sym same),
          )

  pub add_chat-Filed :
      (c : Chat)
      → given scope.subject ≡ true
      → c.owner_subject ≡ scope.subject
      → MayStand scope s c.project_id
      → Filed (record s { chats = c ∷ s.chats })
  unfolding find
  add_chat-Filed c g own stands id d h = elim (Bool-cases (c.id == id)) [
    | inl e ↦
        subst (IsFiled s) (cc (rw (e, find) at h)) (IsFiled-of_MayStand scope s c g own stands)
    | inr e ↦ filed id d (rw (e, find) at h)
  ]

  set_chat-IsFiled :
      (columns : List ChatColumn) (now : ℕ) (c : Chat)
      → given scope.subject ≡ true
      → c.owner_subject ≡ scope.subject
      → IsFiled s c
      → ((p : String) → Member (ChatColumn.project_id p) columns → MayStand scope s (some p))
      → IsFiled s (update_chat_row columns now c)
  unfolding is_live_chat
  set_chat-IsFiled columns now c g own h stands = elim (update_chat_row-project_id columns now c) [
    | inl e ↦ λ live id k.
        let (p, f, l, o) = h (rw (← (update_chat_row-keeps columns now c).2) live) id (sym e ∙ k) in
        (p, f, l, o ∙ sym (update_chat_row-keeps columns now c).1)
    | inr (p, m, e) ↦ λ live id k.
        let (q, found) = stands p m in
        let (f, l, o) = visible_project scope p s q g found in
        (
          q,
          subst (λ t. project_of t s ≡ some q) (cc) f,
          l,
          o ∙ sym own ∙ sym (update_chat_row-keeps columns now c).1,
        )
  ]

  pub set_chat-Filed :
      (id : String) (c : Chat) (columns : List ChatColumn) (now : ℕ)
      → given scope.subject ≡ true
      → get_chat scope id s ≡ some c
      → ((p : String) → Member (ChatColumn.project_id p) columns → MayStand scope s (some p))
      → Filed (record s { chats = modify (λ d. d.id) id (update_chat_row columns now) s.chats })
  set_chat-Filed id c columns now g found stands j d h =
      let (f, live, own) = visible_chat scope id s c g found in
      elim (find-modify_cases (λ e. e.id) id j (update_chat_row columns now) s.chats d
        (λ r. (update_chat_row-keeps columns now r).0) h) [
          | inl (e, (r, k, p)) ↦
              let same : r ≡ c = cc (e, k, f) in
              rw (p, same) (set_chat-IsFiled columns now c g own (rw same at (filed j r k)) stands)
          | inr (e, k) ↦ filed j d k
        ]

  pub end_chat-Filed :
      (id : String) (now : ℕ)
      → Filed (record s { chats = modify (λ d. d.id) id (close_chat now) s.chats })
  unfolding close_chat is_live_chat
  end_chat-Filed id now j c h =
      elim (find-modify_cases (λ d. d.id) id j (close_chat now) s.chats c (λ r. refl) h) [
        | inl (e, (r, k, p)) ↦ λ live. absurd (cc (rw p at live))
        | inr (e, k) ↦ filed j c k
      ]
