-- ===== src/Workspace/Sources/Lookup.antt =====
-- What `document_sources` (db_store.py) links a name to.
use rag_llm.Prelude.{
  String, ◌≡◌, refl, sym, ap, subst, true, Option, none, some, List, [], ◌∷◌, map, any, strip,
  is_empty, Member, Member-map, inl, inr, Bool-cases, arith, ◌==◌, string_eq, eq_iff, ◌||◌, ◌⊎◌,
}
use rag_llm.Workspace.Table.{select, Member-select, select-Member}
use rag_llm.Workspace.Scope.{Scope}
use rag_llm.Workspace.Row.{Document, Tables}
use rag_llm.Workspace.Document.{DocumentRecord, document_record, document_visible}
use rag_llm.Workspace.Sources.{
  is_source, only, link, names_of, candidate_name, is_upload, refers, resolve, document_sources,
}

-- The document that a name is linked to.
pub record IsLink (base_name casefold : String → String) (scope : Scope) (names : List String)
    (s : Tables) (n : String) (r : DocumentRecord) : Type 0 where
  pub asked : (k : String) × Member k names × (strip k ≡ n)
  pub stored : Member r.row s.documents
  pub shown : r ≡ document_record r.row
  pub visible : document_visible scope r.row ≡ true
  pub ready : r.row.status ≡ "ready"
  pub fits : refers base_name casefold n r ≡ true
  pub same_upload :
      is_upload base_name casefold n ≡ true
      → candidate_name base_name casefold r.row.source_path ≡ candidate_name base_name casefold n
  pub unique :
      (d : Document)
      → Member d s.documents
      → is_source scope d ≡ true
      → refers base_name casefold n (document_record d) ≡ true
      → d ≡ r.row

only-Member : {A : Type 0} (a b : A) (xs : List A) → only xs ≡ some a → Member b xs → b ≡ a
unfolding only
only-Member a b [] h m = absurd m
only-Member a b (x ∷ []) h (inl e) = cc
only-Member a b (x ∷ []) h (inr m) = absurd m
only-Member a b (x ∷ y ∷ ys) h m = absurd (cc)

Member-only : {A : Type 0} (a : A) (xs : List A) → only xs ≡ some a → Member a xs
unfolding only
Member-only a [] h = absurd (cc)
Member-only a (x ∷ []) h = inl (cc)
Member-only a (x ∷ y ∷ ys) h = absurd (cc)

Member-names_of :
    (n : String) (ns : List String)
    → Member n (names_of ns)
    → (k : String) × Member k ns × (strip k ≡ n)
unfolding names_of
Member-names_of n [] m = absurd m
Member-names_of n (k ∷ ns) m =
    elim (Bool-cases (is_empty (strip k) || any (λ j. j == strip k) (names_of ns))) [
      | inl e ↦ let (j, o, q) = Member-names_of n ns (rw e at m) in (j, inr o, q)
      | inr e ↦ elim (rw e at m) [
        | inl q ↦ (k, inl refl, sym q)
        | inr o ↦ let (j, o', q) = Member-names_of n ns o in (j, inr o', q)
      ]
    ]

map_Member :
    {A B : Type 0} (f : A → B) (x : A) (xs : List A) → Member x xs → Member (f x) (map f xs)
map_Member f x [] m = absurd m
map_Member f x (y ∷ ys) (inl e) = inl (ap f e)
map_Member f x (y ∷ ys) (inr m) = inr (map_Member f x ys m)

is_source-visible :
    (scope : Scope) (d : Document)
    → is_source scope d ≡ true
    → (document_visible scope d ≡ true) × (d.status ≡ "ready")
unfolding is_source document_visible
is_source-visible scope d h = (ground arith, ground (arith, eq_iff d.status "ready"))

Member-link :
    {A : Type 0} (k n : String) (r : A) (o : Option A) (rest : List (String × A))
    → Member (n, r) (link k o rest)
    → ((n ≡ k) × (o ≡ some r)) ⊎ Member (n, r) rest
unfolding link
Member-link k n r none rest m = inr m
Member-link k n r (some x) rest (inl e) = inl (ap (λ p. p.0) e, ap (λ p. some p.1) (sym e))
Member-link k n r (some x) rest (inr m) = inr m

module _ (base_name casefold : String → String) where
  Member-resolve :
      (rows : List DocumentRecord) (ns : List String) (n : String) (r : DocumentRecord)
      → Member (n, r) (resolve base_name casefold rows ns)
      → Member n ns × (only (select (refers base_name casefold n) rows) ≡ some r)
  unfolding resolve
  Member-resolve rows [] n r m = absurd m
  Member-resolve rows (k ∷ ns) n r m =
      elim (Member-link k n r (only (select (refers base_name casefold k) rows))
        (resolve base_name casefold rows ns) m) [
          | inl (e, o) ↦ (
            inl e,
            subst (λ j. only (select (refers base_name casefold j) rows) ≡ some r) (sym e) o,
          )
          | inr o ↦ let (o', q) = Member-resolve rows ns n r o in (inr o', q)
        ]

  upload_fits :
      (n : String) (r : DocumentRecord)
      → refers base_name casefold n r ≡ true
      → is_upload base_name casefold n ≡ true
      → candidate_name base_name casefold r.row.source_path ≡ candidate_name base_name casefold n
  unfolding refers
  upload_fits n r h u =
      (eq_iff (candidate_name base_name casefold r.row.source_path)
          (candidate_name base_name casefold n)).0
        (rw u at h)

  -- Every link is from a name that was asked for to a live, ready document that the caller may see
  -- and that is the only one, of those that the query finds, which the name fits. A name that starts
  -- with an upload's identity is linked to the upload of just this name.
  pub document_sources_lem :
      (scope : Scope) (names : List String) (s : Tables) (n : String) (r : DocumentRecord)
      → Member (n, r) (document_sources base_name casefold scope names s)
      → IsLink base_name casefold scope names s n r
  unfolding document_sources document_record
  document_sources_lem scope names s n r m =
      let rows = map document_record (select (is_source scope) s.documents) in
      let (among, chosen) = Member-resolve rows (names_of names) n r m in
      let (listed, fits) =
        Member-select (refers base_name casefold n) r rows
          (Member-only r (select (refers base_name casefold n) rows) chosen) in
      let (d, found, same) =
        Member-map document_record r (select (is_source scope) s.documents) listed in
      let (stored, source) = Member-select (is_source scope) d s.documents found in
      let row : r.row ≡ d = ap (λ (q : DocumentRecord). q.row) same in
      let (visible, ready) = is_source-visible scope d source in
      record {
        asked = Member-names_of n names among;
        stored = subst (λ x. Member x s.documents) (sym row) stored;
        shown = subst (λ x. r ≡ document_record x) (sym row) same;
        visible = subst (λ x. document_visible scope x ≡ true) (sym row) visible;
        ready = subst (λ (x : Document). x.status ≡ "ready") (sym row) ready;
        fits = fits;
        same_upload = upload_fits n r fits;
        unique = λ q q_stored q_source q_fits.
            ap (λ (x : DocumentRecord). x.row)
              (only-Member r (document_record q) (select (refers base_name casefold n) rows) chosen
                (select-Member (refers base_name casefold n) (document_record q) rows
                  (map_Member document_record q (select (is_source scope) s.documents)
                    (select-Member (is_source scope) q s.documents q_stored q_source))
                  q_fits));
      }
