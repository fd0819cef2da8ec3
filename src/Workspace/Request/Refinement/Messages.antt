-- ===== src/Workspace/Request/Refinement/Messages.antt =====
-- The calls on messages and on workspace settings.
use rag_llm.Prelude.{ℕ, String, ◌≡◌, none, some, List, [], ◌∷◌, inl, inr, Option-cases}
use rag_llm.Access.Json.{Json, Fields}
use rag_llm.Workspace.Table.{find}
use rag_llm.Workspace.Scope.{Scope}
use rag_llm.Workspace.Row.{Message, Tables, MessageColumn}
use rag_llm.Workspace.Chat.{get_chat}
use rag_llm.Workspace.Message.{
  get_message, create_message, new_message, update_message, update_message_with,
  update_message_entity, message_columns, delete_message,
}
use rag_llm.Workspace.Visible.{get_message-some}
use rag_llm.Workspace.Step.{Steps, here, next, add_message, set_message, end_message}

module _ (str_of : Json → String) (scope : Scope) (s : Tables) where
  pub create_message-Steps :
      (id chat_id : String) (payload : Fields) (now : ℕ)
      → find (λ m. m.id) id s.messages ≡ none
      → Steps scope s (create_message str_of scope id chat_id payload now s).1
  unfolding create_message
  create_message-Steps id chat_id payload now fresh =
      elim (Option-cases (get_chat scope chat_id s)) [
        | inl e ↦ rw (e, create_message) here
        | inr (c, e) ↦
            rw (e, create_message)
              (next here (add_message (new_message str_of id chat_id payload now) c fresh e))
      ]

  update_message_entity-Steps :
      (id : String) (columns : List MessageColumn) (now : ℕ) (m : Message)
      → get_message scope id s ≡ some m
      → Steps scope s (update_message_entity id columns now s).1
  unfolding update_message_entity
  update_message_entity-Steps id columns now m seen =
      let (f, (live, _)) = get_message-some scope id s m seen in
      rw (f, update_message_entity, live) (next here (set_message id m columns now seen))

  update_message_with-Steps :
      (id : String) (columns : List MessageColumn) (now : ℕ) (m : Message)
      → get_message scope id s ≡ some m
      → Steps scope s (update_message_with str_of scope id columns now s).1
  unfolding update_message_with
  update_message_with-Steps id [] now m seen = here
  update_message_with-Steps id (c ∷ cs) now m seen =
      update_message_entity-Steps id (c ∷ cs) now m seen

  pub update_message-Steps :
      (id : String) (payload : Fields) (now : ℕ)
      → Steps scope s (update_message str_of scope id payload now s).1
  unfolding update_message
  update_message-Steps id payload now = elim (Option-cases (get_message scope id s)) [
    | inl e ↦ rw (e, update_message) here
    | inr (m, e) ↦
        rw (e, update_message)
          (update_message_with-Steps id (message_columns str_of payload) now m e)
  ]

  pub delete_message-Steps :
      (id : String) (now : ℕ) → Steps scope s (delete_message scope id now s).1
  unfolding delete_message
  delete_message-Steps id now = elim (Option-cases (get_message scope id s)) [
    | inl e ↦ rw (e, delete_message) here
    | inr (m, e) ↦ rw (e, delete_message) (next here (end_message id m now e))
  ]
