-- ===== src/Workspace/Table/Sorting.antt =====
-- Listings with an order and a limit: what `ORDER BY` and `LIMIT` promise, whatever the columns.
use mathlib.Core.List.{reverse, reverse_aux}
use rag_llm.Prelude.{
  ℕ, zero, suc, ◌+◌, ◌≡◌, refl, Bool, true, false, List, [], ◌∷◌, arith, ◌⊎◌, inl, inr, Member,
  Bool-cases, length, take, min,
}
use rag_llm.Workspace.Table.{insert_with, order_with}

module _ {Row : Type 0} where
  -- Each row stands in the relation to all that follow it.
  abbrev pub IsSorted : (Row → Row → Type 0) → List Row → Type 0
  IsSorted R [] = Unit
  IsSorted R (r ∷ rs) = ((q : Row) → Member q rs → R r q) × IsSorted R rs

  module _ (before : Row → Row → Bool) where
    Member-insert_with :
        (e r : Row) (rs : List Row) → Member e (insert_with before r rs) → (e ≡ r) ⊎ Member e rs
    unfolding insert_with
    Member-insert_with e r [] m = m
    Member-insert_with e r (q ∷ rs) m = ground (arith, Member-insert_with e r rs)

    insert_with-Member :
        (e r : Row) (rs : List Row) → (e ≡ r) ⊎ Member e rs → Member e (insert_with before r rs)
    unfolding insert_with
    insert_with-Member e r [] m = m
    insert_with-Member e r (q ∷ rs) m = ground (arith, insert_with-Member e r rs)

    pub Member-order_with :
        (e : Row) (rs : List Row) → Member e (order_with before rs) → Member e rs
    unfolding order_with
    Member-order_with e [] m = m
    Member-order_with e (r ∷ rs) m = elim (Member-insert_with e r (order_with before rs) m) [
      | inl p ↦ inl p
      | inr n ↦ inr (Member-order_with e rs n)
    ]

    pub order_with-Member :
        (e : Row) (rs : List Row) → Member e rs → Member e (order_with before rs)
    unfolding order_with
    order_with-Member e [] m = m
    order_with-Member e (r ∷ rs) (inl p) = insert_with-Member e r (order_with before rs) (inl p)
    order_with-Member e (r ∷ rs) (inr m) =
        insert_with-Member e r (order_with before rs) (inr (order_with-Member e rs m))

    length-insert_with :
        (r : Row) (rs : List Row) → length (insert_with before r rs) ≡ suc (length rs)
    unfolding insert_with
    length-insert_with r [] = refl
    length-insert_with r (q ∷ rs) = ground (arith, length-insert_with r rs)

    pub length-order_with : (rs : List Row) → length (order_with before rs) ≡ length rs
    unfolding order_with
    length-order_with [] = refl
    length-order_with (r ∷ rs) =
        omega (arith, length-insert_with r (order_with before rs), length-order_with rs)

    module _ (R : Row → Row → Type 0) (trans : (a b c : Row) → R a b → R b c → R a c)
        (first : (a b : Row) → before a b ≡ true → R a b)
        (second : (a b : Row) → before a b ≡ false → R b a) where
      insert_with-IsSorted :
          (r : Row) (rs : List Row) → IsSorted R rs → IsSorted R (insert_with before r rs)
      unfolding insert_with
      insert_with-IsSorted r [] h = ((λ q m. absurd m), tt)
      insert_with-IsSorted r (q ∷ rs) h = elim (Bool-cases (before r q)) [
        | inl p ↦ rw p (ahead p, h)
        | inr p ↦ rw p (behind p, insert_with-IsSorted r rs h.1)
      ]
        where
          ahead : before r q ≡ true → (e : Row) → Member e (q ∷ rs) → R r e
          ahead p e (inl same) = rw same (first r q p)
          ahead p e (inr m) = trans r q e (first r q p) (h.0 e m)

          behind : before r q ≡ false → (e : Row) → Member e (insert_with before r rs) → R q e
          behind p e m = elim (Member-insert_with e r rs m) [
            | inl same ↦ rw same (second r q p)
            | inr n ↦ h.0 e n
          ]

      pub order_with-IsSorted : (rs : List Row) → IsSorted R (order_with before rs)
      unfolding order_with
      order_with-IsSorted [] = tt
      order_with-IsSorted (r ∷ rs) =
          insert_with-IsSorted r (order_with before rs) (order_with-IsSorted rs)

  pub Member-take : (e : Row) (n : ℕ) (rs : List Row) → Member e (take n rs) → Member e rs
  unfolding take
  Member-take e zero rs m = absurd m
  Member-take e (suc n) [] m = m
  Member-take e (suc n) (r ∷ rs) (inl p) = inl p
  Member-take e (suc n) (r ∷ rs) (inr m) = inr (Member-take e n rs m)

  pub length-take : (n : ℕ) (rs : List Row) → length (take n rs) ≡ min n (length rs)
  unfolding take
  length-take zero rs = omega arith
  length-take (suc n) [] = omega arith
  length-take (suc n) (r ∷ rs) = omega (arith, length-take n rs)

  -- What a limit cuts off stands behind what it keeps.
  pub take_first :
      (R : Row → Row → Type 0) (n : ℕ) (rs : List Row)
      → IsSorted R rs
      → (e : Row) → Member e rs
      → Member e (take n rs) ⊎ ((r : Row) → Member r (take n rs) → R r e)
  unfolding take
  take_first R zero rs h e m = inr (λ r n. absurd n)
  take_first R (suc n) [] h e m = inl m
  take_first R (suc n) (r ∷ rs) h e (inl p) = inl (inl p)
  take_first R (suc n) (r ∷ rs) h e (inr m) = elim (take_first R n rs h.1 e m) [
    | inl k ↦ inl (inr k)
    | inr k ↦ inr (λ q l. elim l [ inl p ↦ rw p (h.0 e m) | inr j ↦ k q j ])
  ]

  pub take-IsSorted :
      (R : Row → Row → Type 0) (n : ℕ) (rs : List Row) → IsSorted R rs → IsSorted R (take n rs)
  unfolding take
  take-IsSorted R zero rs h = tt
  take-IsSorted R (suc n) [] h = tt
  take-IsSorted R (suc n) (r ∷ rs) h =
      ((λ q m. h.0 q (Member-take q n rs m)), take-IsSorted R n rs h.1)

  Member-reverse_aux :
      (e : Row) (rs acc : List Row) → Member e (reverse_aux rs acc) → Member e rs ⊎ Member e acc
  Member-reverse_aux e [] acc m = inr m
  Member-reverse_aux e (r ∷ rs) acc m = elim (Member-reverse_aux e rs (r ∷ acc) m) [
    | inl n ↦ inl (inr n)
    | inr n ↦ elim n [ inl p ↦ inl (inl p) | inr k ↦ inr k ]
  ]

  reverse_aux-Member :
      (e : Row) (rs acc : List Row) → Member e rs ⊎ Member e acc → Member e (reverse_aux rs acc)
  reverse_aux-Member e [] acc (inl m) = absurd m
  reverse_aux-Member e [] acc (inr m) = m
  reverse_aux-Member e (r ∷ rs) acc (inl (inl p)) = reverse_aux-Member e rs (r ∷ acc) (inr (inl p))
  reverse_aux-Member e (r ∷ rs) acc (inl (inr m)) = reverse_aux-Member e rs (r ∷ acc) (inl m)
  reverse_aux-Member e (r ∷ rs) acc (inr m) = reverse_aux-Member e rs (r ∷ acc) (inr (inr m))

  pub Member-reverse : (e : Row) (rs : List Row) → Member e (reverse rs) → Member e rs
  Member-reverse e rs m = elim (Member-reverse_aux e rs [] m) [ inl n ↦ n | inr n ↦ absurd n ]

  pub reverse-Member : (e : Row) (rs : List Row) → Member e rs → Member e (reverse rs)
  reverse-Member e rs m = reverse_aux-Member e rs [] (inl m)

  length-reverse_aux : (rs acc : List Row) → length (reverse_aux rs acc) ≡ length rs + length acc
  length-reverse_aux [] acc = omega arith
  length-reverse_aux (r ∷ rs) acc = omega (arith, length-reverse_aux rs (r ∷ acc))

  pub length-reverse : (rs : List Row) → length (reverse rs) ≡ length rs
  length-reverse rs = omega (arith, length-reverse_aux rs [])

  module _ (R : Row → Row → Type 0) where
    reverse_aux-IsSorted :
        (rs acc : List Row)
        → IsSorted (λ a b. R b a) rs
        → IsSorted R acc
        → ((a b : Row) → Member a rs → Member b acc → R a b)
        → IsSorted R (reverse_aux rs acc)
    reverse_aux-IsSorted [] acc h k across = k
    reverse_aux-IsSorted (r ∷ rs) acc h k across =
        reverse_aux-IsSorted rs (r ∷ acc) h.1 ((λ b m. across r b (inl refl) m), k)
          (λ a b m n. elim n [ inl p ↦ rw p (h.0 a m) | inr q ↦ across a b (inr m) q ])

    pub reverse-IsSorted : (rs : List Row) → IsSorted (λ a b. R b a) rs → IsSorted R (reverse rs)
    reverse-IsSorted rs h = reverse_aux-IsSorted rs [] h tt (λ a b m n. absurd n)
