-- ===== src/Workspace/Request/Refinement/Chats.antt =====
-- The calls on chats.
use rag_llm.Prelude.{
  ℕ, String, ◌≡◌, refl, true, Option, none, some, List, [], ◌∷◌, ◌++◌, inl, inr, Member,
  Member-split, and_true, is_some, is_empty, strip, Bool-cases, Option-cases, if◌then◌else◌,
}
use rag_llm.Access.Json.{Json, Fields, lookup}
use rag_llm.Access.Condition.{text_of}
use rag_llm.Workspace.Table.{find}
use rag_llm.Workspace.Scope.{Scope}
use rag_llm.Workspace.Row.{Chat, Tables, ChatColumn}
use rag_llm.Workspace.Project.{is_live_chat, get_project}
use rag_llm.Workspace.Chat.{
  get_chat, create_chat, new_chat, may_stand_in, normalized, update_chat, update_chat_with,
  update_chat_entity, all_columns, parent_column, chat_columns, delete_chat, chat_visible,
}
use rag_llm.Workspace.Visible.{get_chat-some}
use rag_llm.Workspace.Request.Refinement.Columns.{Member-update_values, Member-of_some}
use rag_llm.Workspace.Step.{Steps, here, next, MayStand, add_chat, set_chat, end_chat}

module _ (str_of : Json → String) (scope : Scope) (s : Tables) where
  may_stand_in-MayStand :
      (parent : Option String) → may_stand_in scope parent s ≡ true → MayStand scope s parent
  unfolding may_stand_in
  may_stand_in-MayStand none h = tt
  may_stand_in-MayStand (some p) h = elim (Option-cases (get_project scope p s)) [
    | inl e ↦ absurd (cc (rw e at h))
    | inr q ↦ q
  ]

  pub create_chat-Steps :
      (id : String) (project_id : Option String) (payload : Fields) (mode provider model : String)
      (now : ℕ)
      → find (λ c. c.id) id s.chats ≡ none
      → Steps scope s (create_chat str_of scope id project_id payload mode provider model now s).1
  unfolding create_chat
  create_chat-Steps id project_id payload mode provider model now fresh =
      elim (Bool-cases (may_stand_in scope (normalized project_id) s)) [
        | inl e ↦
            rw (e, create_chat)
              (next here (
                add_chat
                  (new_chat str_of scope id (normalized project_id) payload mode provider model now)
                  fresh refl refl (may_stand_in-MayStand (normalized project_id) e)))
        | inr e ↦ rw (e, create_chat) here
      ]

  update_chat_entity-Steps :
      (id : String) (columns : List ChatColumn) (now : ℕ) (c : Chat)
      → get_chat scope id s ≡ some c
      → ((p : String) → Member (ChatColumn.project_id p) columns → MayStand scope s (some p))
      → Steps scope s (update_chat_entity id columns now s).1
  unfolding chat_visible update_chat_entity
  update_chat_entity-Steps id columns now c seen stands =
      let (f, v) = get_chat-some scope id s c seen in
      let (_, live) = and_true _ (is_live_chat c) v in
      rw (f, update_chat_entity, live) (next here (set_chat id c columns now seen stands))

  pub delete_chat-Steps : (id : String) (now : ℕ) → Steps scope s (delete_chat scope id now s).1
  unfolding delete_chat
  delete_chat-Steps id now = elim (Option-cases (get_chat scope id s)) [
    | inl e ↦ rw (e, delete_chat) here
    | inr (c, e) ↦ rw (e, delete_chat) (next here (end_chat id c now e))
  ]

  -- Only the check of the project adds the column of the project.
  chat_columns_apart :
      (payload : Fields) (p : String)
      → Member (ChatColumn.project_id p) (chat_columns str_of payload)
      → ⊥
  unfolding chat_columns
  chat_columns_apart payload p m =
      elim (Member-update_values str_of true _ _ payload (ChatColumn.project_id p) m) [
        | inl (f, place, (v, e)) ↦ elim place [
          | inl q ↦ cc (rw q at e)
          | inr (inl q) ↦ cc (rw q at e)
          | inr (inr (inl q)) ↦ cc (rw q at e)
          | inr (inr (inr (inl q))) ↦ cc (rw q at e)
          | inr (inr (inr (inr q))) ↦ q
        ]
        | inr (f, place, (v, e)) ↦ elim place [ inl q ↦ cc (rw q at e) | inr q ↦ q ]
      ]

  parent_column-MayStand :
      (payload : Fields) (columns : List ChatColumn) (p : String)
      → parent_column str_of scope payload s ≡ some columns
      → Member (ChatColumn.project_id p) columns
      → MayStand scope s (some p)
  unfolding parent_column
  parent_column-MayStand payload columns p h m = elim (Option-cases (lookup "project_id" payload)) [
    | inl e ↦
        absurd (Member-of_some (ChatColumn.project_id p) [] columns (rw (e, parent_column) at h) m)
    | inr (v, e) ↦ of_value v (rw (e, parent_column) at h)
  ]
    where
      of_value :
          (v : Json)
          → ◌≡◌ {A = Option (List ChatColumn)}
              (let q = strip (text_of str_of v) in
                if is_empty q
                then none
                else if is_some (get_project scope q s)
                then some (ChatColumn.project_id q ∷ [])
                else none)
              (some columns)
          → MayStand scope s (some p)
      of_value v k = elim (Bool-cases (is_empty (strip (text_of str_of v)))) [
        | inl x ↦ absurd (cc (rw x at k))
        | inr x ↦ elim (Option-cases (get_project scope (strip (text_of str_of v)) s)) [
          | inl y ↦ absurd (cc (rw (x, y) at k))
          | inr (r, y) ↦
              elim (Member-of_some (ChatColumn.project_id p)
                (ChatColumn.project_id (strip (text_of str_of v)) ∷ []) columns (rw (x, y) at k)
                m) [
                  | inl same ↦ let e : p ≡ strip (text_of str_of v) = cc in (r, rw e y)
                  | inr n ↦ absurd n
                ]
        ]
      ]

  all_columns-MayStand :
      (payload : Fields) (columns : List ChatColumn) (p : String)
      → all_columns str_of scope payload s ≡ some columns
      → Member (ChatColumn.project_id p) columns
      → MayStand scope s (some p)
  unfolding all_columns
  all_columns-MayStand payload columns p h m =
      elim (Option-cases (parent_column str_of scope payload s)) [
        | inl e ↦ absurd (cc (rw (e, all_columns) at h))
        | inr (parent, e) ↦
            elim (Member-split (ChatColumn.project_id p) (chat_columns str_of payload) parent (
              Member-of_some (ChatColumn.project_id p) (chat_columns str_of payload ++ parent)
                columns (rw (e, all_columns) at h) m)) [
                  | inl n ↦ absurd (chat_columns_apart payload p n)
                  | inr n ↦ parent_column-MayStand payload parent p e n
                ]
      ]

  update_chat_with-Steps :
      (id : String) (columns : Option (List ChatColumn)) (now : ℕ) (c : Chat)
      → get_chat scope id s ≡ some c
      → ((cs : List ChatColumn) (p : String)
          → columns ≡ some cs
          → Member (ChatColumn.project_id p) cs
          → MayStand scope s (some p))
      → Steps scope s (update_chat_with str_of scope id columns now s).1
  unfolding update_chat_with
  update_chat_with-Steps id none now c seen stands = here
  update_chat_with-Steps id (some []) now c seen stands = here
  update_chat_with-Steps id (some (x ∷ xs)) now c seen stands =
      update_chat_entity-Steps id (x ∷ xs) now c seen (λ p. stands (x ∷ xs) p refl)

  pub update_chat-Steps :
      (id : String) (payload : Fields) (now : ℕ)
      → Steps scope s (update_chat str_of scope id payload now s).1
  unfolding update_chat
  update_chat-Steps id payload now = elim (Option-cases (get_chat scope id s)) [
    | inl e ↦ rw (e, update_chat) here
    | inr (c, e) ↦
        rw (e, update_chat)
          (update_chat_with-Steps id (all_columns str_of scope payload s) now c e
            (λ cs p. all_columns-MayStand payload cs p))
  ]
