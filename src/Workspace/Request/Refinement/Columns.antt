-- ===== src/Workspace/Request/Refinement/Columns.antt =====
-- Which columns `_update_values` sets.
use rag_llm.Prelude.{
  subst, some, Option, String, ◌≡◌, refl, Bool, List, [], ◌∷◌, ◌⊎◌, inl, inr, Member, Member-split,
  Option-cases,
}
use rag_llm.Access.Json.{Json, Fields, lookup}
use rag_llm.Workspace.Payload.{text_values, json_values, update_values}

-- The columns that are found are those that were named.
pub Member-of_some :
    {Column : Type 0} (c : Column) (xs ys : List Column)
    → ◌≡◌ {A = Option (List Column)} (some xs) (some ys)
    → Member c ys
    → Member c xs
Member-of_some c xs ys e m = let same : ys ≡ xs = cc in subst (Member c) same m

-- A column that a payload sets is one of those asked for.
module _ (str_of : Json → String) {Column : Type 0} where
  abbrev pub IsSetBy : {V : Type 0} → List (String × (V → Column)) → Column → Type 0
  IsSetBy {V} fields c = (f : String × (V → Column)) × Member f fields × ((v : V) × (c ≡ f.1 v))

  IsSetBy-cons :
      {V : Type 0} (f : String × (V → Column)) (fields : List (String × (V → Column))) (c : Column)
      → IsSetBy fields c
      → IsSetBy (f ∷ fields) c
  IsSetBy-cons f fields c (g, m, e) = (g, inr m, e)

  Member-text_values :
      (strip_text : Bool) (fields : List (String × (String → Column))) (payload : Fields)
      (c : Column)
      → Member c (text_values str_of strip_text fields payload)
      → IsSetBy fields c
  unfolding text_values
  Member-text_values st [] payload c m = absurd m
  Member-text_values st ((key, column) ∷ fields) payload c m =
      elim (Option-cases (lookup key payload)) [
        | inl e ↦
            IsSetBy-cons (key, column) fields c
              (Member-text_values st fields payload c (rw (e, text_values) at m))
        | inr (v, e) ↦ elim (rw (e, text_values) at m) [
          | inl p ↦ ((key, column), inl refl, (_, p))
          | inr n ↦ IsSetBy-cons (key, column) fields c (Member-text_values st fields payload c n)
        ]
      ]

  Member-json_values :
      (fields : List (String × (Json → Column))) (payload : Fields) (c : Column)
      → Member c (json_values str_of fields payload)
      → IsSetBy fields c
  unfolding json_values
  Member-json_values [] payload c m = absurd m
  Member-json_values ((key, column) ∷ fields) payload c m =
      elim (Option-cases (lookup key payload)) [
        | inl e ↦
            IsSetBy-cons (key, column) fields c
              (Member-json_values fields payload c (rw (e, json_values) at m))
        | inr (v, e) ↦ elim (rw (e, json_values) at m) [
          | inl p ↦ ((key, column), inl refl, (_, p))
          | inr n ↦ IsSetBy-cons (key, column) fields c (Member-json_values fields payload c n)
        ]
      ]

  pub Member-update_values :
      (strip_text : Bool) (texts : List (String × (String → Column)))
      (jsons : List (String × (Json → Column))) (payload : Fields) (c : Column)
      → Member c (update_values str_of strip_text texts jsons payload)
      → IsSetBy texts c ⊎ IsSetBy jsons c
  unfolding update_values
  Member-update_values st texts jsons payload c m =
      elim (Member-split c (text_values str_of st texts payload) (json_values str_of jsons payload)
        m) [
          | inl n ↦ inl (Member-text_values st texts payload c n)
          | inr n ↦ inr (Member-json_values jsons payload c n)
        ]
