-- ===== src/Prelude/Lists.antt =====
-- Membership as a type by recursion, which the tactics take apart, and two predicates over lists.
use Prim.Native.Nat.{ℕ, zero, suc}
use mathlib.Core.Path.{◌≡◌, refl}
use mathlib.Core.Logic.{◌⊎◌, inl, inr}
use mathlib.Core.Bool.{Bool, false, ◌||◌}
use mathlib.Core.List.{List, [], ◌∷◌, ◌++◌, map}

module _ {A : Type 0} where
  abbrev pub Member : A → List A → Type 0
  Member x [] = ⊥
  Member x (y ∷ ys) = (x ≡ y) ⊎ Member x ys

  abbrev pub length : List A → ℕ
  length [] = 0
  length (x ∷ xs) = suc (length xs)

  unfoldable pub take : ℕ → List A → List A
  take zero xs = []
  take (suc n) [] = []
  take (suc n) (x ∷ xs) = x ∷ take n xs

  abbrev pub any : (A → Bool) → List A → Bool
  any f [] = false
  any f (x ∷ xs) = f x || any f xs

  pub Member-append : (x : A) (xs ys : List A) → Member x xs ⊎ Member x ys → Member x (xs ++ ys)
  Member-append x [] ys (inl h) = elim h [ ]
  Member-append x [] ys (inr h) = h
  Member-append x (y ∷ xs) ys (inl (inl e)) = inl e
  Member-append x (y ∷ xs) ys (inl (inr h)) = inr (Member-append x xs ys (inl h))
  Member-append x (y ∷ xs) ys (inr h) = inr (Member-append x xs ys (inr h))

  pub Member-split : (x : A) (xs ys : List A) → Member x (xs ++ ys) → Member x xs ⊎ Member x ys
  Member-split x [] ys h = inr h
  Member-split x (y ∷ xs) ys (inl e) = inl (inl e)
  Member-split x (y ∷ xs) ys (inr h) = elim (Member-split x xs ys h) [
    | inl m ↦ inl (inr m)
    | inr m ↦ inr m
  ]

pub Member-map :
    {A B : Type 0} (f : A → B) (y : B) (xs : List A)
    → Member y (map f xs)
    → (x : A) × Member x xs × (y ≡ f x)
Member-map f y [] m = absurd m
Member-map f y (x ∷ xs) (inl e) = (x, inl refl, e)
Member-map f y (x ∷ xs) (inr m) = let (z, n, e) = Member-map f y xs m in (z, inr n, e)
