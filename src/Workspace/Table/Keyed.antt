-- ===== src/Workspace/Table/Keyed.antt =====
-- The primary key of a table stays one under the writes of db_store.py.
use rag_llm.Prelude.{
  String, ◌≡◌, ◌≢◌, refl, sym, ◌∙◌, none, some, subst, eq_refl, List, [], ◌∷◌, arith, inl, inr,
  Member, ◌==◌, string_eq, eq_iff, Bool-cases,
}
use rag_llm.Workspace.Table.{find, modify, IsKeyed, find-Member}

module _ {Row : Type 0} (key : Row → String) where
  pub apart_of_fresh :
      (id : String) (rs : List Row) → find key id rs ≡ none → (q : Row) → Member q rs → key q ≢ id
  unfolding find
  apart_of_fresh id [] h q m = absurd m
  apart_of_fresh id (r ∷ rs) h q (inl p) = ground (arith, eq_iff (key r) id)
  apart_of_fresh id (r ∷ rs) h q (inr m) = apart_of_fresh id rs (ground arith) q m

  pub cons-IsKeyed :
      (r : Row) (rs : List Row) → find key (key r) rs ≡ none → IsKeyed key rs → IsKeyed key (r ∷ rs)
  cons-IsKeyed r rs h k = (apart_of_fresh (key r) rs h, k)

  module _ (id : String) (u : Row → Row) (same : (r : Row) → key (u r) ≡ key r) where
    Member-modify :
        (q : Row) (rs : List Row)
        → Member q (modify key id u rs)
        → (r : Row) × Member r rs × (key q ≡ key r)
    unfolding modify
    Member-modify q [] m = absurd m
    Member-modify q (r ∷ rs) m = elim (Bool-cases (key r == id)) [
      | inl e ↦ elim (rw (e, modify) at m) [
        | inl p ↦ (r, inl refl, rw p (same r))
        | inr n ↦ (q, inr n, refl)
      ]
      | inr e ↦ elim (rw (e, modify) at m) [
        | inl p ↦ (r, inl refl, rw p)
        | inr n ↦ let (x, k, p) = Member-modify q rs n in (x, inr k, p)
      ]
    ]

    pub modify-IsKeyed : (rs : List Row) → IsKeyed key rs → IsKeyed key (modify key id u rs)
    unfolding modify
    modify-IsKeyed [] k = tt
    modify-IsKeyed (r ∷ rs) k = elim (Bool-cases (key r == id)) [
      | inl e ↦ rw e ((λ q m p. k.0 q m (p ∙ same r)), k.1)
      | inr e ↦ rw e (
        (λ q m p. let (x, n, f) = Member-modify q rs m in k.0 x n (sym f ∙ p)),
        modify-IsKeyed rs k.1,
      )
    ]

-- A row that is found by one column and changed at its primary key is found changed.
pub find-modify_key :
    {Row : Type 0} (key column : Row → String) (id : String) (u : Row → Row) (rs : List Row)
    (r : Row)
    → ((q : Row) → column (u q) ≡ column q)
    → IsKeyed key rs
    → find column id rs ≡ some r
    → find column id (modify key (key r) u rs) ≡ some (u r)
unfolding find modify
find-modify_key key column id u [] r same k h = absurd (cc)
find-modify_key key column id u (q ∷ rs) r same k h = elim (Bool-cases (column q == id)) [
  | inl e ↦
      let this : some q ≡ some r = rw (e, find) at h in
      let p : q ≡ r = cc in
      subst (λ x. find column id (modify key (key x) u (q ∷ rs)) ≡ some (u x)) p
        (rw (eq_refl (key q)) (rw (same q) (rw e refl)))
  | inr e ↦
      let rest : find column id rs ≡ some r = rw (e, find) at h in
      ground (
        arith,
        find-modify_key key column id u rs r same k.1 rest,
        k.0 r (find-Member column id rs r rest),
        eq_iff (key q) (key r),
      )
]
