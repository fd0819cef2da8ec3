-- ===== src/Workspace/Chain/Predecessor.antt =====
-- `_rebuild_document_version_chain` of db_store.py links each document to the next older version.
use rag_llm.Prelude.{
  ℕ, String, ◌≡◌, ◌≢◌, refl, sym, ap, ◌∙◌, subst, true, false, Option, none, some, List, [], ◌∷◌,
  ◌⊎◌, inl, inr, Member, Bool-cases,
}
use rag_llm.Workspace.Table.{
  find, select, modify, map_row, find-modify_self, find-modify_ne, IsKeyed, Member-select,
  select-Member, select-IsKeyed, find-Member, find-of_Member,
}
use rag_llm.Workspace.Row.{Document}
use rag_llm.Workspace.Chain.{
  lt_key, key_of, order_versions, Group, in_group, Chain, start, link_of, advance, set_link,
  link_versions, rebuild_document_version_chain,
}
use rag_llm.Workspace.Chain.Order.{
  lt_key_irrefl, lt_key_total, NotBelow, IsAscending, Member-order_versions, order_versions-Member,
  order_versions-IsAscending, key_id, order_versions-IsKeyed,
}

-- What a version is linked to: a greatest among the smaller versions, or nothing if none is smaller.
abbrev pub IsPredecessor : List Document → List ℕ → Option String → Type 0
IsPredecessor ds k none = NotBelow k ds
IsPredecessor ds k (some id) =
    (e : Document) × Member e ds
    × (e.id ≡ id)
    × (lt_key (key_of e) k ≡ true)
    × ((f : Document)
        → Member f ds
        → lt_key (key_of f) k ≡ true
        → lt_key (key_of e) (key_of f) ≡ false)

-- The list may grow by versions that are not smaller.
IsPredecessor-extend :
    (ds es : List Document) (k : List ℕ) (s : Option String)
    → ((f : Document) → Member f ds → Member f es)
    → ((f : Document) → Member f es → Member f ds ⊎ (lt_key (key_of f) k ≡ false))
    → IsPredecessor ds k s
    → IsPredecessor es k s
IsPredecessor-extend ds es k none up down h = λ f m. elim (down f m) [ inl n ↦ h f n | inr p ↦ p ]
IsPredecessor-extend ds es k (some id) up down h =
    (h.0, up h.0 h.1, h.2, h.3, λ f m p. elim (down f m) [ inl n ↦ h.4 f n p | inr q ↦ cc ])

-- What the loop's variables say of the versions that it has passed.
abbrev Follows : List Document → Option String → Option (List ℕ) → Option String → Type 0
Follows seen pred none prev = ((e : Document) → Member e seen → ⊥) × (pred ≡ none)
Follows seen pred (some k) prev =
    IsPredecessor seen k pred
    × ((f : Document) → Member f seen → lt_key k (key_of f) ≡ false)
    × ((e : Document) × Member e seen × (prev ≡ some e.id) × (key_of e ≡ k))

abbrev chain : Option String → Option (List ℕ) → Option String → Chain
chain pred key prev = record {
  predecessor_id = pred;
  predecessor_key = key;
  previous_version_id = prev;
}

module _ (seen : List Document) (d : Document) (pred prev : Option String)
    (below : (f : Document) → Member f seen → lt_key (key_of d) (key_of f) ≡ false) where
  newer-IsPredecessor :
      (k : List ℕ)
      → Follows seen pred (some k) prev
      → lt_key k (key_of d) ≡ true
      → IsPredecessor seen (key_of d) prev
  newer-IsPredecessor k (h, top, (e, m, p, q)) lt =
      rw p (e, m, refl, rw q lt, λ f n _. rw q (top f n))

  same : (k : List ℕ) → Follows seen pred (some k) prev → lt_key k (key_of d) ≡ false → k ≡ key_of d
  same k h p = lt_key_total k (key_of d) p (cc (h.2.3, below h.2.0 h.2.1))

  top : (f : Document) → Member f (d ∷ seen) → lt_key (key_of d) (key_of f) ≡ false
  top f (inl p) = rw p (lt_key_irrefl (key_of d))
  top f (inr n) = below f n

  link_of-IsPredecessor :
      (key : Option (List ℕ))
      → Follows seen pred key prev
      → IsPredecessor seen (key_of d) (link_of d (chain pred key prev))
  unfolding link_of
  link_of-IsPredecessor none h = rw h.1 (λ e m. absurd (h.0 e m))
  link_of-IsPredecessor (some k) h = elim (Bool-cases (lt_key k (key_of d))) [
    | inl p ↦ rw p (newer-IsPredecessor k h p)
    | inr p ↦ rw p (subst (λ t. IsPredecessor seen t pred) (same k h p) h.0)
  ]

  grown :
      (s : Option String) → IsPredecessor seen (key_of d) s → IsPredecessor (d ∷ seen) (key_of d) s
  grown s =
      IsPredecessor-extend seen (d ∷ seen) (key_of d) s (λ f m. inr m)
        λ f m. elim m [ inl p ↦ inr (rw p (lt_key_irrefl (key_of d))) | inr n ↦ inl n ]

  advance-Follows :
      (key : Option (List ℕ))
      → Follows seen pred key prev
      → Follows
          (d ∷ seen)
          (advance d (chain pred key prev)).predecessor_id
          (advance d (chain pred key prev)).predecessor_key
          (advance d (chain pred key prev)).previous_version_id
  unfolding advance
  advance-Follows none h = (
    grown (link_of d (chain pred none prev)) (link_of-IsPredecessor none h),
    top,
    (d, inl refl, refl, refl),
  )
  advance-Follows (some k) h = elim (Bool-cases (lt_key k (key_of d))) [
    | inl p ↦ rw p (
      grown (link_of d (chain pred (some k) prev)) (link_of-IsPredecessor (some k) h),
      top,
      (d, inl refl, refl, refl),
    )
    | inr p ↦ rw p (
      subst (λ t. IsPredecessor (d ∷ seen) t (link_of d (chain pred (some k) prev)))
          (sym (same k h p))
          (grown (link_of d (chain pred (some k) prev)) (link_of-IsPredecessor (some k) h)),
      (λ f m. elim m [ inl q ↦ rw q p | inr n ↦ h.1 f n ]),
      (h.2.0, inr h.2.1, h.2.2, h.2.3),
    )
  ]

-- A row outside the list is left alone.
link_versions_other :
    (c : Chain) (ds table : List Document) (id : String)
    → ((d : Document) → Member d ds → d.id ≢ id)
    → find key_id id (link_versions c ds table) ≡ find key_id id table
unfolding link_versions set_link
link_versions_other c [] table id out = refl
link_versions_other c (d ∷ ds) table id out =
    link_versions_other (advance d c) ds (modify key_id d.id (set_link (link_of d c)) table) id
      (λ e m. out e (inr m))
    ∙ find-modify_ne key_id d.id id (set_link (link_of d c)) table (λ r. refl) (out d (inl refl))

-- The row of a version of `all`, in a table that has it, as the loop leaves it.
abbrev pub IsLinked : List Document → List Document → Document → Option Document → Type 0
IsLinked all table d row =
    (s : Option String) × (row ≡ map_row (set_link s) (find key_id d.id table))
    × IsPredecessor all (key_of d) s

module _ (all : List Document) where
  -- `all` is what is passed and what is ahead.
  record Halfway (seen ds : List Document) (c : Chain) : Type 0 where
    follows : Follows seen c.predecessor_id c.predecessor_key c.previous_version_id
    ascending : IsAscending ds
    keyed : IsKeyed key_id ds
    below : (e f : Document) → Member e seen → Member f ds → lt_key (key_of f) (key_of e) ≡ false
    known : (f : Document) → Member f seen → Member f all
    split : (f : Document) → Member f all → Member f seen ⊎ Member f ds

  Halfway-head :
      {seen ds : List Document} {d : Document} {c : Chain}
      → Halfway seen (d ∷ ds) c
      → IsPredecessor all (key_of d) (link_of d c)
  Halfway-head {seen} {ds} {d} {c} h =
      IsPredecessor-extend seen all (key_of d) (link_of d c) h.known ahead (
        link_of-IsPredecessor seen d c.predecessor_id c.previous_version_id
          (λ f m. h.below f d m (inl refl)) c.predecessor_key h.follows)
    where
      ahead : (f : Document) → Member f all → Member f seen ⊎ (lt_key (key_of f) (key_of d) ≡ false)
      ahead f m = elim (h.split f m) [
        | inl n ↦ inl n
        | inr n ↦ elim n [
          | inl p ↦ inr (rw p (lt_key_irrefl (key_of d)))
          | inr q ↦ inr (h.ascending.0 f q)
        ]
      ]

  Halfway-next :
      {seen ds : List Document} {d : Document} {c : Chain}
      → Member d all
      → Halfway seen (d ∷ ds) c
      → Halfway (d ∷ seen) ds (advance d c)
  Halfway-next {seen} {ds} {d} {c} here h = record {
    follows =
        advance-Follows seen d c.predecessor_id c.previous_version_id
          (λ f m. h.below f d m (inl refl)) c.predecessor_key h.follows;
    ascending = h.ascending.1;
    keyed = h.keyed.1;
    below = λ e f m n. elim m [ inl p ↦ rw p (h.ascending.0 f n) | inr q ↦ h.below e f q (inr n) ];
    known = λ f m. elim m [ inl p ↦ rw p here | inr n ↦ h.known f n ];
    split = λ f m. elim (h.split f m) [
      | inl n ↦ inl (inr n)
      | inr n ↦ elim n [ inl p ↦ inl (inl p) | inr q ↦ inr q ]
    ];
  }

  link_versions-IsLinked :
      (seen ds table : List Document) (c : Chain)
      → ((f : Document) → Member f ds → Member f all)
      → Halfway seen ds c
      → (d : Document) → Member d ds
      → IsLinked all table d (find key_id d.id (link_versions c ds table))
  unfolding link_versions set_link
  link_versions-IsLinked seen [] table c up h d m = absurd m
  link_versions-IsLinked seen (d ∷ ds) table c up h e (inl p) = rw p (
    link_of d c,
    link_versions_other (advance d c) ds (modify key_id d.id (set_link (link_of d c)) table) d.id
          h.keyed.0
        ∙ find-modify_self key_id d.id (set_link (link_of d c)) table (λ r. refl),
    Halfway-head h,
  )
  link_versions-IsLinked seen (d ∷ ds) table c up h e (inr n) =
      let rest : IsLinked all (modify key_id d.id (set_link (link_of d c)) table) e (
          find key_id e.id
            (link_versions (advance d c) ds (modify key_id d.id (set_link (link_of d c)) table))) =
        link_versions-IsLinked (d ∷ seen) ds (modify key_id d.id (set_link (link_of d c)) table)
          (advance d c) (λ f m. up f (inr m)) (Halfway-next (up d (inl refl)) h) e n in
      (
        rest.0,
        rest.1
            ∙ ap (map_row (set_link rest.0)) (
                find-modify_ne key_id d.id e.id (set_link (link_of d c)) table (λ r. refl)
                  (λ q. h.keyed.0 e n (sym q))),
        rest.2,
      )

-- After a rebuild of a family each live document of it is linked to a document of the family with a
-- greatest one among the smaller version keys, or to nothing if no key of the family is smaller; the
-- row is otherwise as it was. This asks that the identifiers of the table are distinct.
pub rebuild_links :
    (g : Group) (table : List Document) (d : Document)
    → IsKeyed key_id table
    → find key_id d.id table ≡ some d
    → in_group g d ≡ true
    → (s : Option String) × (find key_id d.id (rebuild_document_version_chain g table)
        ≡ some (set_link s d))
      × IsPredecessor (select (in_group g) table) (key_of d) s
unfolding rebuild_document_version_chain
rebuild_links g table d keyed found member =
    let family : List Document = select (in_group g) table in
    let linked : IsLinked family table d
        (find key_id d.id (link_versions start (order_versions family) table)) =
      link_versions-IsLinked family [] (order_versions family) table start
        (λ f. Member-order_versions f family)
        (record {
          follows = ((λ e m. m), refl);
          ascending = order_versions-IsAscending family;
          keyed = order_versions-IsKeyed family (select-IsKeyed key_id (in_group g) table keyed);
          below = λ e f m n. absurd m;
          known = λ f m. absurd m;
          split = λ f m. inr (order_versions-Member f family m);
        })
        d
        (order_versions-Member d family
          (select-Member (in_group g) d table (find-Member key_id d.id table d found) member)) in
    (linked.0, linked.1 ∙ ap (map_row (set_link linked.0)) found, linked.2)

-- A rebuild leaves the rows of other families and of deleted documents alone.
pub rebuild_other :
    (g : Group) (table : List Document) (d : Document)
    → IsKeyed key_id table
    → find key_id d.id table ≡ some d
    → in_group g d ≡ false
    → find key_id d.id (rebuild_document_version_chain g table) ≡ some d
unfolding rebuild_document_version_chain
rebuild_other g table d keyed found out =
    link_versions_other start (order_versions (select (in_group g) table)) table d.id apart ∙ found
  where
    apart : (e : Document) → Member e (order_versions (select (in_group g) table)) → e.id ≢ d.id
    apart e m same =
        let n : Member e table × (in_group g e ≡ true) =
          Member-select (in_group g) e table
            (Member-order_versions e (select (in_group g) table) m) in
        let e-found : find key_id e.id table ≡ some e = find-of_Member key_id table e keyed n.0 in
        absurd (cc (rw same at e-found, n.1))
