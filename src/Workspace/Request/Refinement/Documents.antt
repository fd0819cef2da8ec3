-- ===== src/Workspace/Request/Refinement/Documents.antt =====
-- The calls on documents.
use rag_llm.Prelude.{
  ℕ, String, ◌≡◌, refl, sym, subst, true, false, Option, none, some, List, [], ◌∷◌, arith, inl, inr,
  and_true, ◌||◌, is_some, Bool-cases, Option-cases, string_eq, option_eq, eq_iff,
}
use rag_llm.Access.Json.{Json, Fields, get}
use rag_llm.Access.Policy.{dict_of}
use rag_llm.Workspace.Table.{find, modify, find-key}
use rag_llm.Workspace.Scope.{Scope}
use rag_llm.Workspace.Payload.{or_object}
use rag_llm.Workspace.Row.{Document, Version, Tables, DocumentColumn, update_document_row}
use rag_llm.Workspace.Chain.{Group, version_group}
use rag_llm.Workspace.Document.{
  or_none, is_live_document, is_shared_or_own, document_visible, get_document_row, rebuild,
  is_refused, tombstone, tombstone_row, tombstone_document,
}
use rag_llm.Workspace.Upload.{
  upload_error, document_owner, update_document_entity, same_group, rebuild_both, relink_updated,
  new_document, insert_document, scoped, store_document, create_document, effective_payload,
  document_columns, write_columns, update_found, update_document,
}
use rag_llm.Workspace.Visible.{get_document_row-some}
use rag_llm.Workspace.Step.{
  Steps, Steps-trans, here, next, MayWrite, KeepsOwner, add_document, set_document, relink,
}
use rag_llm.Workspace.Step.Rows.{update_document_row-KeepsOwner}

module _ (scope : Scope) where
  visible-MayWrite :
      (d : Document)
      → document_visible scope d ≡ true
      → is_refused scope d ≡ false
      → MayWrite scope d.owner_subject
  unfolding document_visible is_refused is_shared_or_own
  visible-MayWrite d v r = record {
    own = λ g a. elim (Option-cases d.owner_subject) [
      | inl e ↦ inr e
      | inr (o, e) ↦ inl (ground (arith, eq_iff d.owner_subject scope.subject))
    ];
    shared = λ g m. ground arith;
  }

  uploaded-MayWrite :
      (project_id chat_id : Option String) (s : Tables)
      → upload_error scope project_id chat_id s ≡ none
      → MayWrite scope (document_owner scope project_id chat_id)
  unfolding upload_error document_owner
  uploaded-MayWrite project_id chat_id s h = record {
    own = λ g a. elim (Bool-cases (is_some project_id || is_some chat_id)) [
      | inl e ↦ inl (rw (e, document_owner))
      | inr e ↦ inr (rw (e, document_owner))
    ];
    shared = λ g m. ground arith;
  }

  version_group_owner :
      (d : Document) (g : Group) → version_group d ≡ some g → g.owner_subject ≡ d.owner_subject
  unfolding version_group
  version_group_owner d g h = ground arith

  rebuild-Steps :
      (d : Document) (t : Tables)
      → MayWrite scope d.owner_subject
      → Steps scope t (rebuild (version_group d) t)
  unfolding rebuild
  rebuild-Steps d t may = elim (Option-cases (version_group d)) [
    | inl e ↦ rw (e, rebuild) here
    | inr (g, e) ↦
        rw (e, rebuild)
          (next here (relink g (subst (MayWrite scope) (sym (version_group_owner d g e)) may)))
  ]

  rebuild_both-Steps :
      (d e : Document) (t : Tables)
      → MayWrite scope d.owner_subject
      → MayWrite scope e.owner_subject
      → Steps scope t (rebuild_both (version_group d) (version_group e) t)
  unfolding rebuild_both
  rebuild_both-Steps d e t may may' = elim (Option-cases (version_group d)) [
    | inl p ↦ rw (p, rebuild_both) (rebuild-Steps e t may')
    | inr (g, p) ↦ elim (Option-cases (version_group e)) [
      | inl q ↦ rw (p, q, rebuild_both) (rw p at (rebuild-Steps d t may))
      | inr (h, q) ↦ elim (Bool-cases (same_group g h)) [
        | inl x ↦ rw (p, q, rebuild_both, x) (rw p at (rebuild-Steps d t may))
        | inr x ↦
            rw (p, q, rebuild_both, x)
              (Steps-trans (rw p at (rebuild-Steps d t may))
                (rw q at (rebuild-Steps e (rebuild (some g) t) may')))
      ]
    ]
  ]

  -- What the guards of a write have found.
  abbrev IsWritable : Tables → Document → Type 0
  IsWritable s d =
      (find (λ e. e.id) d.id s.documents ≡ some d)
      × (d.deleted_at ≡ none)
      × MayWrite scope d.owner_subject

  not_deleted : (d : Document) → is_live_document d ≡ true → d.deleted_at ≡ none
  unfolding is_live_document
  not_deleted d h = elim (Option-cases d.deleted_at) [
    | inl e ↦ e
    | inr (t, e) ↦ absurd (cc (rw e at h))
  ]

  still_live : (d : Document) → d.deleted_at ≡ none → is_live_document d ≡ true
  unfolding is_live_document
  still_live d h = rw h

  found_IsWritable :
      (id : String) (s : Tables) (d : Document)
      → get_document_row scope id s ≡ some d
      → is_refused scope d ≡ false
      → IsWritable s d
  unfolding document_visible
  found_IsWritable id s d h r =
      let (f, v) = get_document_row-some scope id s d h in
      (
        subst (λ i. find (λ e. e.id) i s.documents ≡ some d)
            (sym (find-key (λ e. e.id) id s.documents d f)) f,
        not_deleted d (and_true (is_live_document d) _ v).0,
        visible-MayWrite d v r,
      )

  tombstone-KeepsOwner : (now : ℕ) → KeepsOwner (tombstone now)
  unfolding tombstone
  tombstone-KeepsOwner now = record { id = λ d. refl; owner_subject = λ d. refl }

  tombstone_row-Steps :
      (d : Document) (now : ℕ) (s : Tables)
      → IsWritable s d
      → Steps scope s (tombstone_row d now s).1
  unfolding tombstone_row
  tombstone_row-Steps d now s (found, live, may) =
      Steps-trans
        (next here (set_document d (tombstone now) found live may (tombstone-KeepsOwner now)))
        (rebuild-Steps d
          (record s { documents = modify (λ e. e.id) d.id (tombstone now) s.documents }) may)

  pub tombstone_document-Steps :
      (id : String) (now : ℕ) (s : Tables) → Steps scope s (tombstone_document scope id now s).1
  unfolding tombstone_document
  tombstone_document-Steps id now s = elim (Option-cases (get_document_row scope id s)) [
    | inl e ↦ rw (e, tombstone_document) here
    | inr (d, e) ↦ elim (Bool-cases (is_refused scope d)) [
      | inl r ↦ rw (e, tombstone_document, r) here
      | inr r ↦
          rw (e, tombstone_document, r) (tombstone_row-Steps d now s (found_IsWritable id s d e r))
    ]
  ]

  module _ (str_of : Json → String) (version_of : String → Fields → Version) (s : Tables) where
    insert_document-Steps :
        (d : Document)
        → find (λ e. e.id) d.id s.documents ≡ none
        → MayWrite scope d.owner_subject
        → Steps scope s (insert_document str_of version_of d s).1
    unfolding insert_document
    insert_document-Steps d fresh may =
        Steps-trans (next here (add_document d fresh may))
          (rebuild-Steps d (record s { documents = d ∷ s.documents }) may)

    store_document-Steps :
        (id : String) (project_id chat_id : Option String) (payload : Fields)
        (metadata : Option Fields) (now : ℕ)
        → find (λ e. e.id) id s.documents ≡ none
        → upload_error scope project_id chat_id s ≡ none
        → Steps scope s
            (store_document str_of version_of scope id project_id chat_id payload metadata now s).1
    unfolding store_document new_document
    store_document-Steps id project_id chat_id payload none now fresh allowed = here
    store_document-Steps id project_id chat_id payload (some metadata) now fresh allowed =
        insert_document-Steps
          (new_document str_of version_of (document_owner scope project_id chat_id) id project_id
            chat_id payload
            (scoped str_of version_of (document_owner scope project_id chat_id) metadata) now)
          fresh (uploaded-MayWrite project_id chat_id s allowed)

    pub create_document-Steps :
        (id : String) (project_id chat_id : Option String) (payload : Fields) (now : ℕ)
        → find (λ e. e.id) id s.documents ≡ none
        → Steps scope s
            (create_document str_of version_of scope id project_id chat_id payload now s).1
    unfolding create_document
    create_document-Steps id project_id chat_id payload now fresh =
        elim (Option-cases (upload_error scope (or_none project_id) (or_none chat_id) s)) [
          | inl e ↦
              rw (e, create_document)
                (store_document-Steps id (or_none project_id) (or_none chat_id) payload
                  (dict_of (or_object (get "metadata" payload))) now fresh e)
          | inr (x, e) ↦ rw (e, create_document) here
        ]

    write_columns-Steps :
        (d : Document) (columns : List DocumentColumn) (now : ℕ)
        → IsWritable s d
        → Steps scope s (write_columns str_of version_of d columns now s).1
    unfolding write_columns relink_updated update_document_entity
    write_columns-Steps d [] now w = here
    write_columns-Steps d (c ∷ cs) now (found, live, may) =
        rw (found, update_document_entity, still_live d live)
          (Steps-trans
            (next here (
              set_document d (update_document_row (c ∷ cs) now) found live may
                (update_document_row-KeepsOwner (c ∷ cs) now)))
            (rebuild_both-Steps d (update_document_row (c ∷ cs) now d)
              (record s {
                documents = modify (λ e. e.id) d.id (update_document_row (c ∷ cs) now) s.documents;
              })
              may
              (subst (MayWrite scope)
                (sym ((update_document_row-KeepsOwner (c ∷ cs) now).owner_subject d)) may)))

    update_found-Steps :
        (d : Document) (payload : Option Fields) (now : ℕ)
        → IsWritable s d
        → Steps scope s (update_found str_of version_of d payload now s).1
    unfolding update_found
    update_found-Steps d none now w = here
    update_found-Steps d (some payload) now w =
        write_columns-Steps d (document_columns str_of version_of d payload) now w

    pub update_document-Steps :
        (id : String) (payload : Fields) (now : ℕ)
        → Steps scope s (update_document str_of version_of scope id payload now s).1
    unfolding update_document
    update_document-Steps id payload now = elim (Option-cases (get_document_row scope id s)) [
      | inl e ↦ rw (e, update_document) here
      | inr (d, e) ↦ elim (Bool-cases (is_refused scope d)) [
        | inl r ↦ rw (e, update_document, r) here
        | inr r ↦
            rw (e, update_document, r)
              (update_found-Steps d (effective_payload str_of version_of d payload) now
                (found_IsWritable id s d e r))
      ]
    ]
