-- ===== src/Workspace/Step/Rows.antt =====
-- What the row updates of db_store.py leave alone: identifiers, owners and deletion times.
use rag_llm.Prelude.{
  ℕ, String, ◌≡◌, refl, sym, ◌≢◌, Bool-cases, ◌∙◌, Bool, Option, none, some, List, [], ◌∷◌, ◌⊎◌,
  inl, inr, Member, arith, ◌==◌, string_eq, eq_iff, if◌then◌else◌,
}
use rag_llm.Workspace.Table.{
  find, modify, update_where, map_row, find-modify_self, find-modify_ne, find-update_where,
}
use rag_llm.Workspace.Row.{
  Project, Chat, Message, WorkspaceSettings, ProjectColumn, ChatColumn, MessageColumn,
  SettingsColumn, DocumentColumn, Document, set_project_column, set_chat_column, set_message_column,
  set_settings_column, set_document_column, update_project_row, update_chat_row, update_message_row,
  update_settings_row, update_document_row,
}
use rag_llm.Workspace.Step.{KeepsOwner}

-- A row that is added under a fresh identifier hides no other.
pub find-cons_fresh :
    {Row : Type 0} (key : Row → String) (r : Row) (rs : List Row) (id : String) (q : Row)
    → find key (key r) rs ≡ none
    → find key id rs ≡ some q
    → find key id (r ∷ rs) ≡ some q
unfolding find
find-cons_fresh key r rs id q fresh found = ground (arith, eq_iff (key r) id)

pub String-cases : (a b : String) → (a ≡ b) ⊎ (a ≢ b)
String-cases a b = elim (Bool-cases (a == b)) [
  | inl e ↦ inl ((eq_iff a b).0 e)
  | inr e ↦ inr (λ p. cc (e, (eq_iff a b).1 p))
]

map_row-some :
    {Row : Type 0} (u : Row → Row) (o : Option Row) (q : Row)
    → map_row u o ≡ some q
    → (r : Row) × (o ≡ some r) × (q ≡ u r)
map_row-some u none q h = absurd (cc)
map_row-some u (some r) q h = (r, refl, cc)

-- The row found after one row was changed is that row's change, or was there before.
pub find-modify_cases :
    {Row : Type 0} (key : Row → String) (id j : String) (u : Row → Row) (rs : List Row) (q : Row)
    → ((r : Row) → key (u r) ≡ key r)
    → find key j (modify key id u rs) ≡ some q
    → ((id ≡ j) × ((r : Row) × (find key j rs ≡ some r) × (q ≡ u r)))
      ⊎ ((id ≢ j) × (find key j rs ≡ some q))
find-modify_cases key id j u rs q same h = elim (String-cases id j) [
  | inl e ↦ inl (
    e,
    map_row-some u (find key j rs) q
        (rw (← e) (sym (find-modify_self key id u rs same) ∙ (rw (← e) at h))),
  )
  | inr e ↦ inr (e, sym (find-modify_ne key id j u rs same e) ∙ h)
]

pub find-update_where_cases :
    {Row : Type 0} (key : Row → String) (j : String) (f : Row → Bool) (u : Row → Row)
    (rs : List Row) (q : Row)
    → ((r : Row) → key (u r) ≡ key r)
    → find key j (update_where f u rs) ≡ some q
    → (r : Row) × (find key j rs ≡ some r) × (q ≡ (if f r then u r else r))
find-update_where_cases key j f u rs q same h =
    map_row-some (λ r. if f r then u r else r) (find key j rs) q
      (sym (find-update_where key j f u rs same) ∙ h)

pub update_project_row-keeps :
    (cs : List ProjectColumn) (now : ℕ) (p : Project)
    → ((update_project_row cs now p).id ≡ p.id)
      × ((update_project_row cs now p).owner_subject ≡ p.owner_subject)
      × ((update_project_row cs now p).deleted_at ≡ p.deleted_at)
unfolding update_project_row set_project_column
update_project_row-keeps [] now p = (refl, refl, refl)
update_project_row-keeps (c ∷ cs) now p =
    ground (arith, update_project_row-keeps cs now (set_project_column p c))

pub update_chat_row-keeps :
    (cs : List ChatColumn) (now : ℕ) (c : Chat)
    → ((update_chat_row cs now c).id ≡ c.id)
      × ((update_chat_row cs now c).owner_subject ≡ c.owner_subject)
      × ((update_chat_row cs now c).deleted_at ≡ c.deleted_at)
unfolding update_chat_row set_chat_column
update_chat_row-keeps [] now p = (refl, refl, refl)
update_chat_row-keeps (c ∷ cs) now p =
    ground (arith, update_chat_row-keeps cs now (set_chat_column p c))

-- The project of a chat changes only by the column that says so.
pub update_chat_row-project_id :
    (cs : List ChatColumn) (now : ℕ) (c : Chat)
    → ((update_chat_row cs now c).project_id ≡ c.project_id)
      ⊎ ((p : String) × Member (ChatColumn.project_id p) cs
          × ((update_chat_row cs now c).project_id ≡ some p))
unfolding update_chat_row set_chat_column
update_chat_row-project_id [] now c = inl refl
update_chat_row-project_id (ChatColumn.project_id p ∷ cs) now c =
    elim (update_chat_row-project_id cs now (set_chat_column c (ChatColumn.project_id p))) [
      | inl e ↦ inr (p, inl refl, e)
      | inr (q, m, e) ↦ inr (q, inr m, e)
    ]
update_chat_row-project_id (ChatColumn.title v ∷ cs) now c =
    elim (update_chat_row-project_id cs now (set_chat_column c (ChatColumn.title v))) [
      | inl e ↦ inl e
      | inr (q, m, e) ↦ inr (q, inr m, e)
    ]
update_chat_row-project_id (x ∷ cs) now c =
    elim (update_chat_row-project_id cs now (set_chat_column c x)) [
      | inl e ↦ inl e
      | inr (q, m, e) ↦ inr (q, inr m, e)
    ]

pub update_message_row-keeps :
    (cs : List MessageColumn) (now : ℕ) (m : Message)
    → ((update_message_row cs now m).id ≡ m.id)
      × ((update_message_row cs now m).chat_id ≡ m.chat_id)
      × ((update_message_row cs now m).deleted_at ≡ m.deleted_at)
unfolding update_message_row set_message_column
update_message_row-keeps [] now p = (refl, refl, refl)
update_message_row-keeps (c ∷ cs) now p =
    ground (arith, update_message_row-keeps cs now (set_message_column p c))

pub update_settings_row-keeps :
    (cs : List SettingsColumn) (now : ℕ) (w : WorkspaceSettings)
    → ((update_settings_row cs now w).id ≡ w.id)
      × ((update_settings_row cs now w).owner_subject ≡ w.owner_subject)
unfolding update_settings_row set_settings_column
update_settings_row-keeps [] now p = (refl, refl)
update_settings_row-keeps (c ∷ cs) now p =
    ground (arith, update_settings_row-keeps cs now (set_settings_column p c))

update_document_row-keeps :
    (cs : List DocumentColumn) (now : ℕ) (d : Document)
    → ((update_document_row cs now d).id ≡ d.id)
      × ((update_document_row cs now d).owner_subject ≡ d.owner_subject)
unfolding update_document_row set_document_column
update_document_row-keeps [] now p = (refl, refl)
update_document_row-keeps (c ∷ cs) now p =
    ground (arith, update_document_row-keeps cs now (set_document_column p c))

pub update_document_row-KeepsOwner :
    (cs : List DocumentColumn) (now : ℕ) → KeepsOwner (update_document_row cs now)
update_document_row-KeepsOwner cs now = record {
  id = λ d. (update_document_row-keeps cs now d).0;
  owner_subject = λ d. (update_document_row-keeps cs now d).1;
}
