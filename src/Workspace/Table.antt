-- ===== src/Workspace/Table.antt =====
-- What the SQL of db_store.py asks of a table: rows by their primary key, rows by a condition, and
-- the order of a listing. The primary key is a text that `key` reads from a row.
pub mod Sorting
pub mod Keyed
use rag_llm.Prelude.{
  ℕ, String, ◌≡◌, refl, Bool, true, false, Option, none, some, List, [], ◌∷◌, arith, leb, ◌==◌,
  string_eq, eq_iff, eq_refl, Member, ◌≢◌, if◌then◌else◌, Bool-cases, inl, inr,
}

module _ {Row : Type 0} where
  -- `SELECT * FROM table WHERE condition`
  unfoldable pub select : (Row → Bool) → List Row → List Row
  select f [] = []
  select f (r ∷ rs) = let rest = select f rs in if f r then r ∷ rest else rest

  -- `UPDATE table SET ... WHERE condition`
  unfoldable pub update_where : (Row → Bool) → (Row → Row) → List Row → List Row
  update_where f u [] = []
  update_where f u (r ∷ rs) = (if f r then u r else r) ∷ update_where f u rs

  -- `SELECT * FROM table WHERE id = %s`
  unfoldable pub find : (Row → String) → String → List Row → Option Row
  find key id [] = none
  find key id (r ∷ rs) = let rest = find key id rs in if key r == id then some r else rest

  -- `UPDATE table SET ... WHERE id = %s`
  unfoldable pub modify : (Row → String) → String → (Row → Row) → List Row → List Row
  modify key id u [] = []
  modify key id u (r ∷ rs) =
      let rest = modify key id u rs in if key r == id then u r ∷ rs else r ∷ rest

  -- `ORDER BY` several columns, as one test of which row comes first.
  unfoldable pub insert_with : (Row → Row → Bool) → Row → List Row → List Row
  insert_with before r [] = r ∷ []
  insert_with before r (q ∷ qs) =
      let rest = insert_with before r qs in if before r q then r ∷ q ∷ qs else q ∷ rest

  unfoldable pub order_with : (Row → Row → Bool) → List Row → List Row
  unfolding insert_with
  order_with before [] = []
  order_with before (r ∷ rs) = insert_with before r (order_with before rs)

  abbrev pub earlier : (Row → ℕ) → Row → Row → Bool
  earlier time r q = leb (time r) (time q)

  abbrev pub later : (Row → ℕ) → Row → Row → Bool
  later time r q = leb (time q) (time r)

  -- `ORDER BY created_at ASC`
  unfoldable pub order_by : (Row → ℕ) → List Row → List Row
  unfolding order_with
  order_by time = order_with (earlier time)

  -- `ORDER BY created_at DESC`
  unfoldable pub order_by_desc : (Row → ℕ) → List Row → List Row
  unfolding order_with
  order_by_desc time = order_with (later time)

  -- `next(iter(rows), None)`
  abbrev pub first : List Row → Option Row
  first [] = none
  first (r ∷ rs) = some r

  pub find-key :
      (key : Row → String) (id : String) (rs : List Row) (r : Row)
      → find key id rs ≡ some r
      → key r ≡ id
  unfolding find
  find-key key id [] r h = cc
  find-key key id (q ∷ rs) r h = ground (arith, find-key key id rs r, eq_iff (key q) id)

  -- A change of one row that a condition leaves out before and after.
  pub select-modify :
      (f : Row → Bool) (key : Row → String) (id : String) (u : Row → Row) (rs : List Row)
      → ((r : Row) → find key id rs ≡ some r → f r ≡ false)
      → ((r : Row) → f r ≡ false → f (u r) ≡ false)
      → select f (modify key id u rs) ≡ select f rs
  unfolding select modify find
  select-modify f key id u [] out keeps = refl
  select-modify f key id u (r ∷ rs) out keeps = elim (Bool-cases (key r == id)) [
    | inl e ↦ ground (arith, out r, keeps r)
    | inr e ↦ ground (arith, select-modify f key id u rs (λ q found. out q (rw e found)) keeps)
  ]

  -- A change of rows that a condition leaves out before and after.
  pub select-update_where :
      (f g : Row → Bool) (u : Row → Row) (rs : List Row)
      → ((r : Row) → g r ≡ true → f r ≡ false)
      → ((r : Row) → f r ≡ false → f (u r) ≡ false)
      → select f (update_where g u rs) ≡ select f rs
  unfolding select update_where
  select-update_where f g u [] same keeps = refl
  select-update_where f g u (r ∷ rs) same keeps =
      ground (arith, select-update_where f g u rs same keeps, same r, keeps r)

  abbrev pub map_row : (Row → Row) → Option Row → Option Row
  map_row u none = none
  map_row u (some r) = some (u r)

  -- The row of an identifier after a change of the row of an identifier.
  pub find-modify_self :
      (key : Row → String) (id : String) (u : Row → Row) (rs : List Row)
      → ((r : Row) → key (u r) ≡ key r)
      → find key id (modify key id u rs) ≡ map_row u (find key id rs)
  unfolding find modify
  find-modify_self key id u [] same = refl
  find-modify_self key id u (r ∷ rs) same =
      ground
        (arith, find-modify_self key id u rs same, same r, eq_iff (key r) id, eq_iff (key (u r)) id)

  pub find-modify_ne :
      (key : Row → String) (id j : String) (u : Row → Row) (rs : List Row)
      → ((r : Row) → key (u r) ≡ key r)
      → id ≢ j
      → find key j (modify key id u rs) ≡ find key j rs
  unfolding find modify
  find-modify_ne key id j u [] same ne = refl
  find-modify_ne key id j u (r ∷ rs) same ne = ground (
    arith,
    find-modify_ne key id j u rs same ne,
    same r,
    eq_iff (key r) id,
    eq_iff (key r) j,
    eq_iff (key (u r)) j,
  )

  pub find-update_where :
      (key : Row → String) (id : String) (f : Row → Bool) (u : Row → Row) (rs : List Row)
      → ((r : Row) → key (u r) ≡ key r)
      → find key id (update_where f u rs) ≡ map_row (λ r. if f r then u r else r) (find key id rs)
  unfolding find update_where
  find-update_where key id f u [] same = refl
  find-update_where key id f u (r ∷ rs) same = ground (
    arith,
    find-update_where key id f u rs same,
    same r,
    eq_iff (key r) id,
    eq_iff (key (u r)) id,
  )

  -- The primary key is one.
  abbrev pub IsKeyed : (Row → String) → List Row → Type 0
  IsKeyed key [] = Unit
  IsKeyed key (r ∷ rs) = ((q : Row) → Member q rs → key q ≢ key r) × IsKeyed key rs

  pub Member-select :
      (f : Row → Bool) (r : Row) (rs : List Row)
      → Member r (select f rs)
      → Member r rs × (f r ≡ true)
  unfolding select
  Member-select f r [] m = absurd m
  Member-select f r (q ∷ rs) m = ground (arith, Member-select f r rs)

  pub select-Member :
      (f : Row → Bool) (r : Row) (rs : List Row) → Member r rs → f r ≡ true → Member r (select f rs)
  unfolding select
  select-Member f r [] m h = absurd m
  select-Member f r (q ∷ rs) m h = ground (arith, select-Member f r rs)

  pub select-IsKeyed :
      (key : Row → String) (f : Row → Bool) (rs : List Row)
      → IsKeyed key rs
      → IsKeyed key (select f rs)
  unfolding select
  select-IsKeyed key f [] k = tt
  select-IsKeyed key f (r ∷ rs) k = elim (Bool-cases (f r)) [
    | inl p ↦ rw p ((λ q m. k.0 q (Member-select f q rs m).0), select-IsKeyed key f rs k.1)
    | inr p ↦ rw p (select-IsKeyed key f rs k.1)
  ]

  pub find-Member :
      (key : Row → String) (id : String) (rs : List Row) (r : Row)
      → find key id rs ≡ some r
      → Member r rs
  unfolding find
  find-Member key id [] r h = cc
  find-Member key id (q ∷ rs) r h = ground (arith, find-Member key id rs r)

  pub find-of_Member :
      (key : Row → String) (rs : List Row) (r : Row)
      → IsKeyed key rs
      → Member r rs
      → find key (key r) rs ≡ some r
  unfolding find
  find-of_Member key [] r k m = absurd m
  find-of_Member key (q ∷ rs) r k (inl p) = rw p (rw (eq_refl (key q)))
  find-of_Member key (q ∷ rs) r k (inr m) =
      ground (arith, find-of_Member key rs r k.1 m, k.0 r m, eq_iff (key q) (key r))

  pub Member-update_where :
      (f : Row → Bool) (u : Row → Row) (q : Row) (rs : List Row)
      → Member q (update_where f u rs)
      → (r : Row) × Member r rs × (q ≡ (if f r then u r else r))
  unfolding update_where
  Member-update_where f u q [] m = absurd m
  Member-update_where f u q (r ∷ rs) (inl p) = (r, inl refl, p)
  Member-update_where f u q (r ∷ rs) (inr m) =
      let (x, n, p) = Member-update_where f u q rs m in (x, inr n, p)
