-- ===== src/Workspace/Payload.antt =====
-- The payloads of db_store.py: objects as `json.loads` gives them, and `_update_values`.
use rag_llm.Prelude.{
  String, Bool, none, some, List, [], ◌∷◌, ◌++◌, ◌==◌, string_eq, strip, if◌then◌else◌,
}
use rag_llm.Access.Json.{Json, obj, end, Fields, lookup, truthy}
use rag_llm.Access.Condition.{text_of}

-- `payload.get(key, default)`
unfoldable pub get_or : String → Json → Fields → Json
get_or key d payload = elim (lookup key payload) [ none ↦ d | some v ↦ v ]

-- `value or {}`
unfoldable pub or_object : Json → Json
or_object v = if truthy v then v else obj end

pub data KnowledgeScope : Type 0 where
  project_only project_and_global : KnowledgeScope

-- `str` of a value that is neither a text nor None is a parameter.
module _ (str_of : Json → String) where
  -- `str(value or "")`
  unfoldable pub text_or_empty : Json → String
  text_or_empty v = if truthy v then text_of str_of v else ""

  unfoldable pub knowledge_scope_of : Json → KnowledgeScope
  unfolding text_or_empty
  knowledge_scope_of v =
      if strip (text_or_empty v) == "project_only" then project_only else project_and_global

  module _ {Column : Type 0} where
    unfoldable pub text_values : Bool → List (String × (String → Column)) → Fields → List Column
    text_values strip_text [] payload = []
    text_values strip_text ((key, column) ∷ fields) payload =
        let rest = text_values strip_text fields payload in
        elim (lookup key payload) [
          | none ↦ rest
          | some v ↦
              column (if strip_text then strip (text_of str_of v) else text_of str_of v) ∷ rest
        ]

    unfoldable pub json_values : List (String × (Json → Column)) → Fields → List Column
    json_values [] payload = []
    json_values ((key, column) ∷ fields) payload =
        let rest = json_values fields payload in
        elim (lookup key payload) [ none ↦ rest | some v ↦ column (or_object v) ∷ rest ]

    -- The columns that a payload sets, in the order of the two tuples.
    unfoldable pub update_values :
        Bool
        → List (String × (String → Column))
        → List (String × (Json → Column))
        → Fields
        → List Column
    unfolding text_values json_values
    update_values strip_text texts jsons payload =
        text_values strip_text texts payload ++ json_values jsons payload
