-- ===== src/Workspace/Step/Integrity.antt =====
-- The invariant of the workspace tables: a live chat that names a project stands in a live project
-- of the same owner, and the primary keys of documents and of workspaces are one.
use rag_llm.Prelude.{
  String, ◌≡◌, sym, subst, ◌↔◌, ◌∙◌, true, Option, none, some, inl, inr, and_true, string_eq,
  option_eq, eq_iff, is_empty, Bool-cases,
}
use rag_llm.Workspace.Table.{find, IsKeyed}
use rag_llm.Workspace.Scope.{Scope, owns, is_owned}
use rag_llm.Workspace.Row.{Project, Chat, Document, WorkspaceSettings, Tables}
use rag_llm.Workspace.Project.{is_live_project, is_live_chat, project_visible, get_project}
use rag_llm.Workspace.Chat.{chat_visible, get_chat}
use rag_llm.Workspace.Document.{given}
use rag_llm.Workspace.Visible.{get_project-some, get_chat-some}
use rag_llm.Workspace.Step.{MayStand}

abbrev pub project_of : String → Tables → Option Project
project_of id s = find (λ p. p.id) id s.projects

-- What a chat asks of the projects.
abbrev pub IsFiled : Tables → Chat → Type 0
IsFiled s c =
    is_live_chat c ≡ true
    → (id : String) → c.project_id ≡ some id
    → (p : Project) × (project_of id s ≡ some p)
      × (is_live_project p ≡ true)
      × (p.owner_subject ≡ c.owner_subject)

pub record IsSound (s : Tables) : Type 0 where
  pub documents : IsKeyed (λ (d : Document). d.id) s.documents
  pub workspaces : IsKeyed (λ (w : WorkspaceSettings). w.id) s.workspaces
  pub filed : (id : String) (c : Chat) → find (λ d. d.id) id s.chats ≡ some c → IsFiled s c

is_owned_iff :
    (subject owner : Option String)
    → given subject ≡ true
    → (is_owned subject owner ≡ true) ↔ (owner ≡ subject)
unfolding is_owned
is_owned_iff none owner g = absurd (cc)
is_owned_iff (some t) owner g = elim (Bool-cases (is_empty t)) [
  | inl e ↦ absurd (cc (rw e at g))
  | inr e ↦ rw e (eq_iff owner (some t))
]

-- What a caller with a subject owns is the subject's.
pub owns_iff :
    (scope : Scope) (owner : Option String)
    → given scope.subject ≡ true
    → (owns scope owner ≡ true) ↔ (owner ≡ scope.subject)
unfolding owns
owns_iff scope owner g = is_owned_iff scope.subject owner g

pub visible_project :
    (scope : Scope) (id : String) (s : Tables) (p : Project)
    → given scope.subject ≡ true
    → get_project scope id s ≡ some p
    → (project_of id s ≡ some p) × (is_live_project p ≡ true) × (p.owner_subject ≡ scope.subject)
unfolding project_visible
visible_project scope id s p g h =
    let (e, v) = get_project-some scope id s p h in
    let (own, live) = and_true (owns scope p.owner_subject) (is_live_project p) v in
    (e, live, (owns_iff scope p.owner_subject g).0 own)

pub visible_chat :
    (scope : Scope) (id : String) (s : Tables) (c : Chat)
    → given scope.subject ≡ true
    → get_chat scope id s ≡ some c
    → (find (λ d. d.id) id s.chats ≡ some c)
      × (is_live_chat c ≡ true)
      × (c.owner_subject ≡ scope.subject)
unfolding chat_visible
visible_chat scope id s c g h =
    let (e, v) = get_chat-some scope id s c h in
    let (own, live) = and_true (owns scope c.owner_subject) (is_live_chat c) v in
    (e, live, (owns_iff scope c.owner_subject g).0 own)

-- Tables in which every project that a chat may stand in is still there, and no chat is new.
abbrev pub Filed : Tables → Type 0
Filed s = (id : String) (c : Chat) → find (λ d. d.id) id s.chats ≡ some c → IsFiled s c

abbrev pub KeepsProjects : Tables → Tables → Type 0
KeepsProjects s t =
    (id : String) (p : Project)
    → project_of id s ≡ some p
    → is_live_project p ≡ true
    → (q : Project) × (project_of id t ≡ some q)
      × (is_live_project q ≡ true)
      × (q.owner_subject ≡ p.owner_subject)

pub IsFiled-keeps : (s t : Tables) (c : Chat) → KeepsProjects s t → IsFiled s c → IsFiled t c
IsFiled-keeps s t c keep h live id e =
    let (p, f, l, o) = h live id e in let (q, g, m, r) = keep id p f l in (q, g, m, r ∙ o)

pub IsFiled-of_MayStand :
    (scope : Scope) (s : Tables) (c : Chat)
    → given scope.subject ≡ true
    → c.owner_subject ≡ scope.subject
    → MayStand scope s c.project_id
    → IsFiled s c
IsFiled-of_MayStand scope s c g own stands live id e =
    let (q, h) = subst (MayStand scope s) e stands in
    let (f, l, o) = visible_project scope id s q g h in (q, f, l, o ∙ sym own)
