-- ===== src/Workspace/Request/Refinement/Settings.antt =====
-- The calls on workspace settings.
use rag_llm.Prelude.{
  ℕ, String, ◌≡◌, refl, true, not, Option, none, some, List, [], ◌∷◌, inl, inr, Member, eq_refl,
  string_eq, and_true, ◌&&◌, is_some, Option-cases,
}
use rag_llm.Failure.{Result, ok, err}
use rag_llm.Access.Json.{Json, Fields}
use rag_llm.Workspace.Table.{find, first, Member-select, find-of_Member}
use rag_llm.Workspace.Scope.{Scope, owns}
use rag_llm.Workspace.Row.{WorkspaceSettings, Tables, SettingsColumn}
use rag_llm.Workspace.Document.{given}
use rag_llm.Workspace.Settings.{
  Defaults, Drawn, find_workspace, is_live_workspace, ensure_default_workspace, default_project,
  default_chat, default_workspace, update_settings_entity, write_settings, settings_columns,
  update_workspace,
}
use rag_llm.Workspace.Project.{get_project, project_visible, is_live_project}
use rag_llm.Workspace.Step.Integrity.{IsSound, owns_iff}
use rag_llm.Workspace.Step.{
  Steps, Steps-trans, here, next, add_project, add_chat, add_workspace, set_workspace,
}

first-some : {Row : Type 0} (rs : List Row) (r : Row) → first rs ≡ some r → Member r rs
first-some [] r h = cc
first-some (q ∷ rs) r h = inl (cc)

not_some : {A : Type 0} (o : Option A) → not (is_some o) ≡ true → o ≡ none
not_some none h = refl
not_some (some a) h = absurd (cc)

module _ (scope : Scope) (g : given scope.subject ≡ true) where
  -- The workspace that a caller with a subject gets is the subject's, and is in the table.
  find_workspace-some :
      (s : Tables) (w : WorkspaceSettings)
      → IsSound s
      → find_workspace scope s ≡ some w
      → (find (λ v. v.id) w.id s.workspaces ≡ some w)
        × ((owns scope w.owner_subject ≡ true) × (is_live_workspace w ≡ true))
  unfolding find_workspace
  find_workspace-some s w sound h =
      let (m, p) =
        Member-select (λ v. owns scope v.owner_subject && is_live_workspace v) w s.workspaces
          (first-some _ w (rw (g, find_workspace) at h)) in
      (
        find-of_Member (λ v. v.id) s.workspaces w sound.workspaces m,
        and_true (owns scope w.owner_subject) (is_live_workspace w) p,
      )

  -- What the caller's workspace is once it is there.
  abbrev IsMine : WorkspaceSettings × Tables → Type 0
  IsMine (w, t) =
      (find (λ v. v.id) w.id t.workspaces ≡ some w)
      × ((owns scope w.owner_subject ≡ true) × (is_live_workspace w ≡ true))

  module _ (s : Tables) (d : Defaults) (ids : Drawn) (now : ℕ) (sound : IsSound s) where
    ensure_default_workspace-IsMine : IsMine (ensure_default_workspace scope d ids now s)
    unfolding ensure_default_workspace default_workspace find is_live_workspace
    ensure_default_workspace-IsMine = elim (Option-cases (find_workspace scope s)) [
      | inl e ↦
          rw (e, ensure_default_workspace)
            (rw (eq_refl ids.workspace_id), ((owns_iff scope scope.subject g).1 refl, refl))
      | inr (w, e) ↦ rw (e, ensure_default_workspace) (find_workspace-some s w sound e)
    ]

    there :
        find (λ p. p.id) ids.project_id (default_project scope ids.project_id now ∷ s.projects)
        ≡ some (default_project scope ids.project_id now)
    unfolding find default_project
    there = rw (eq_refl ids.project_id)

    new_project_visible :
        get_project scope ids.project_id
          (record s { projects = default_project scope ids.project_id now ∷ s.projects })
        ≡ some (default_project scope ids.project_id now)
    unfolding get_project default_project project_visible is_live_project
    new_project_visible = rw (there, get_project) (rw ((owns_iff scope scope.subject g).1 refl))

    pub ensure_default_workspace-Steps :
        find (λ p. p.id) ids.project_id s.projects ≡ none
        → find (λ c. c.id) ids.chat_id s.chats ≡ none
        → find (λ w. w.id) ids.workspace_id s.workspaces ≡ none
        → Steps scope s (ensure_default_workspace scope d ids now s).1
    unfolding ensure_default_workspace default_project default_chat default_workspace
    ensure_default_workspace-Steps p c w = elim (Option-cases (find_workspace scope s)) [
      | inr (v, e) ↦ rw (e, ensure_default_workspace) here
      | inl e ↦
          rw (e, ensure_default_workspace)
            (next
              (next (next here (add_project (default_project scope ids.project_id now) p refl refl))
                (add_chat (default_chat scope ids.chat_id ids.project_id d now) c refl refl
                  (default_project scope ids.project_id now, new_project_visible)))
              (add_workspace
                (default_workspace scope ids.workspace_id ids.project_id ids.chat_id now) w))
    ]

  update_settings_entity-Steps :
      (w : WorkspaceSettings) (columns : List SettingsColumn) (now : ℕ) (t : Tables)
      → IsMine (w, t)
      → Steps scope t (update_settings_entity w columns now t).1
  unfolding update_settings_entity is_live_workspace
  update_settings_entity-Steps w columns now t (f, (own, live)) =
      rw (f, update_settings_entity, live)
        (next here (set_workspace w columns now f own (not_some w.deleted_at live)))

  write_settings-Steps :
      (r : WorkspaceSettings × Tables) (columns : List SettingsColumn) (now : ℕ) (s : Tables)
      → IsMine r
      → Steps scope s r.1
      → Steps scope s (write_settings r columns now).1
  unfolding write_settings
  write_settings-Steps (w, t) [] now s mine steps = steps
  write_settings-Steps (w, t) (c ∷ cs) now s mine steps =
      Steps-trans steps (update_settings_entity-Steps w (c ∷ cs) now t mine)

  pub update_workspace-Steps :
      (str_of : Json → String) (s : Tables) (payload : Fields) (d : Defaults) (ids : Drawn)
      (now : ℕ)
      → IsSound s
      → find (λ p. p.id) ids.project_id s.projects ≡ none
      → find (λ c. c.id) ids.chat_id s.chats ≡ none
      → find (λ w. w.id) ids.workspace_id s.workspaces ≡ none
      → Steps scope s (update_workspace str_of scope payload d ids now s).1
  unfolding update_workspace
  update_workspace-Steps str_of s payload d ids now sound p c w =
      of_columns (settings_columns str_of scope payload s) refl
    where
      of_columns :
          (r : Result (List SettingsColumn))
          → settings_columns str_of scope payload s ≡ r
          → Steps scope s (update_workspace str_of scope payload d ids now s).1
      of_columns (err e) h = rw (h, update_workspace) here
      of_columns (ok columns) h =
          rw (h, update_workspace)
            (write_settings-Steps (ensure_default_workspace scope d ids now s) columns now s
              (ensure_default_workspace-IsMine s d ids now sound)
              (ensure_default_workspace-Steps s d ids now sound p c w))
