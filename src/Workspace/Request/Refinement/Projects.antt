-- ===== src/Workspace/Request/Refinement/Projects.antt =====
-- The calls on projects.
use rag_llm.Prelude.{
  ℕ, String, ◌≡◌, refl, none, some, List, [], ◌∷◌, inl, inr, and_true, Option-cases,
}
use rag_llm.Access.Json.{Json, Fields}
use rag_llm.Workspace.Table.{find}
use rag_llm.Workspace.Scope.{Scope}
use rag_llm.Workspace.Row.{Project, Tables, ProjectColumn}
use rag_llm.Workspace.Project.{
  get_project, create_project, new_project, update_project, update_project_with,
  update_project_entity, project_columns, delete_project, is_live_project, project_visible,
}
use rag_llm.Workspace.Visible.{get_project-some}
use rag_llm.Workspace.Step.{Steps, here, next, add_project, set_project, end_project}

module _ (str_of : Json → String) (scope : Scope) (s : Tables) where
  pub create_project-Steps :
      (id : String) (payload : Fields) (now : ℕ)
      → find (λ p. p.id) id s.projects ≡ none
      → Steps scope s (create_project str_of scope id payload now s).1
  unfolding create_project
  create_project-Steps id payload now fresh =
      next here (add_project (new_project str_of scope id payload now) fresh refl refl)

  update_project_entity-Steps :
      (id : String) (columns : List ProjectColumn) (now : ℕ) (p : Project)
      → get_project scope id s ≡ some p
      → Steps scope s (update_project_entity id columns now s).1
  unfolding project_visible update_project_entity
  update_project_entity-Steps id columns now p seen =
      let (f, v) = get_project-some scope id s p seen in
      let (_, live) = and_true _ (is_live_project p) v in
      rw (f, update_project_entity, live) (next here (set_project id p columns now seen))

  update_project_with-Steps :
      (id : String) (columns : List ProjectColumn) (now : ℕ)
      → Steps scope s (update_project_with str_of scope id columns now s).1
  unfolding update_project_with
  update_project_with-Steps id [] now = here
  update_project_with-Steps id (c ∷ cs) now = elim (Option-cases (get_project scope id s)) [
    | inl e ↦ rw (e, update_project_with) here
    | inr (p, e) ↦ rw (e, update_project_with) (update_project_entity-Steps id (c ∷ cs) now p e)
  ]

  pub delete_project-Steps :
      (id : String) (now : ℕ) → Steps scope s (delete_project scope id now s).1
  unfolding delete_project
  delete_project-Steps id now = elim (Option-cases (get_project scope id s)) [
    | inl e ↦ rw (e, delete_project) here
    | inr (p, e) ↦ rw (e, delete_project) (next here (end_project id p now e))
  ]

  pub update_project-Steps :
      (id : String) (payload : Fields) (now : ℕ)
      → Steps scope s (update_project str_of scope id payload now s).1
  unfolding update_project
  update_project-Steps id payload now =
      update_project_with-Steps id (project_columns str_of payload) now
