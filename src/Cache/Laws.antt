-- ===== src/Cache/Laws.antt =====
-- What ResponseCache of response_cache.py answers after an invalidation.
use rag_llm.Prelude.{
  ℕ, String, ◌≡◌, refl, sym, Bool, ◌||◌, none, List, [], ◌∷◌, ◌++◌, any, ◌==◌, string_eq,
  if◌then◌else◌, Bool-cases, inl, inr, arith,
}
use rag_llm.Failure.{Result, ok}
use rag_llm.Access.Json.{Json}
use rag_llm.Cache.{Client, key_of, get, clear, clear_from, is_full, after_delete}

abbrev pub is_among : String → List String → Bool
is_among k keys = any (λ j. j == k) keys

any-append :
    (k : String) (xs ys : List String) → is_among k (xs ++ ys) ≡ (is_among k xs || is_among k ys)
any-append k [] ys = refl
any-append k (x ∷ xs) ys = ground (arith, any-append k xs ys)

among_split :
    (k : String) (xs : List String) (y : String) (ys : List String)
    → is_among k (xs ++ y ∷ ys) ≡ (is_among k (xs ++ y ∷ []) || is_among k ys)
among_split k [] y ys = ground arith
among_split k (x ∷ xs) y ys = ground (arith, among_split k xs y ys)

module _ {R : Type 0} (client : Client R) (loads : String → Result Json)
    (dumps : Json → Result String) (ttl_seconds : ℕ) where
  -- A client that deletes what it is told to and nothing else.
  abbrev pub Deletes : Type 0
  Deletes =
      (keys : List String) (r : R)
      → (s : R) × (client.delete keys r ≡ (ok tt, s))
        × ((k : String) → client.get k s ≡ (if is_among k keys then ok none else client.get k r))

  deleted_lem :
      (deletes : Deletes) (k : String) (keys : List String) (r : R)
      → client.get k (client.delete keys r).1
        ≡ (if is_among k keys then ok none else client.get k r)
  deleted_lem deletes k keys r = let (s, e, law) = deletes keys r in rw e (law k)

  flushed_lem :
      (deletes : Deletes) (k : String) (batch : List String) (next : R → R) (r : R) (rest : Bool)
      → ((s : R) → client.get k (next s) ≡ (if rest then ok none else client.get k s))
      → client.get k (after_delete client loads dumps ttl_seconds (client.delete batch r) next)
        ≡ (if is_among k batch || rest then ok none else client.get k r)
  flushed_lem deletes k batch next r rest h =
      let (s, e, law) = deletes batch r in rw e (ground (arith, h s, law k))

  clear_from_lem :
      (deletes : Deletes) (k : String) (batch keys : List String) (r : R)
      → client.get k (clear_from client loads dumps ttl_seconds batch keys r)
        ≡ (if is_among k (batch ++ keys) then ok none else client.get k r)
  unfolding clear_from
  clear_from_lem deletes k [] [] r = refl
  clear_from_lem deletes k (b ∷ batch) [] r =
      rw (any-append k (b ∷ batch) []) (ground (arith, deleted_lem deletes k (b ∷ batch) r))
  clear_from_lem deletes k batch (j ∷ keys) r =
      let split : is_among k (batch ++ j ∷ keys)
          ≡ (is_among k (batch ++ j ∷ []) || is_among k keys) =
        among_split k batch j keys in
      elim (Bool-cases (is_full client loads dumps ttl_seconds (batch ++ j ∷ []))) [
        | inl e ↦ rw e (
            rw split (
              flushed_lem deletes k (batch ++ j ∷ [])
                (clear_from client loads dumps ttl_seconds [] keys) r (is_among k keys)
                (clear_from_lem deletes k [] keys)))
        | inr e ↦ rw e (
            rw split (
              rw (sym (any-append k (batch ++ j ∷ []) keys))
                (clear_from_lem deletes k (batch ++ j ∷ []) keys r)))
      ]

  -- An invalidation makes every key that the scan has found a miss and leaves all others, whatever
  -- their number, if the client deletes what it is told to and nothing else.
  pub clear_lem :
      (deletes : Deletes) (keys : List String) (k : String) (r : R)
      → get client loads dumps ttl_seconds k (clear client loads dumps ttl_seconds keys r)
        ≡ (if is_among (key_of k) keys then none else get client loads dumps ttl_seconds k r)
  unfolding get clear
  clear_lem deletes keys k r =
      rw (clear_from_lem deletes (key_of k) [] keys r)
        (elim (Bool-cases (is_among (key_of k) keys)) [ inl e ↦ rw e refl | inr e ↦ rw e refl ])
