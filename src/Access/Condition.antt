-- ===== src/Access/Condition.antt =====
-- `_value` and `evaluate_condition` of policy.py. `none` is a `TypeError` or an `AttributeError` of
-- the interpreter; `str_of` is `str(value)` for a value that is neither a text nor `None`.
use text.Mathlib.Text.{find?}
use rag_llm.Prelude.{
  String, Bool, true, false, not, Option, none, some, List, [], ◌∷◌, ◌==◌, string_eq, is_empty,
  is_some, split_at, if◌then◌else◌,
}
use rag_llm.Access.Json.{
  Json, Items, Fields, null, str, arr, obj, nil, item, end, field, lookup, get, truthy, equal,
  mem_items,
}

unfoldable pub text_of : (Json → String) → Json → String
text_of str_of null = "None"
text_of str_of (str s) = s
text_of str_of v = str_of v

-- `value = value[part]` while `value` is an object that has the part, else `None`.
unfoldable pub walk : List String → Json → Json
walk [] v = v
walk (p ∷ ps) (obj fs) = elim (lookup p fs) [ none ↦ null | some w ↦ walk ps w ]
walk (p ∷ ps) _ = null

unfoldable pub at_ref : (Json → String) → Json → Json → Json
at_ref str_of ref data' = walk (split_at b'.' (text_of str_of ref)) data'

-- `_value(spec, data)`
unfoldable pub value_of : (Json → String) → Json → Json → Json
unfolding at_ref
value_of str_of (obj fs) data' = elim (lookup "ref" fs) [
  | none ↦ obj fs
  | some ref ↦ at_ref str_of ref data'
]
value_of str_of v data' = v

-- A value that is not hashable cannot be looked up as a key.
unfoldable pub has_key : Json → Fields → Option Bool
has_key (str k) fs = some (is_some (lookup k fs))
has_key (arr vs) fs = none
has_key (obj gs) fs = none
has_key _ fs = some false

unfoldable pub is_part : Json → String → Option Bool
is_part (str part) s = some (is_some (find? s part))
is_part _ s = none

-- `left in (right or [])`
unfoldable pub in_value : Json → Json → Option Bool
unfolding has_key is_part
in_value v (arr ws) = some (mem_items v ws)
in_value v (str s) = if is_empty s then some false else is_part v s
in_value v (obj end) = some false
in_value v (obj (field k w fs)) = has_key v (field k w fs)
in_value v w = if truthy w then none else some false

is_text : Json → String → Bool
is_text (str s) t = s == t
is_text _ t = false

-- `(left is not None) is bool(right)`
unfoldable pub exists_as : Json → Json → Bool
exists_as null right = not (truthy right)
exists_as left right = truthy right

unfoldable pub compare_values : Json → Json → Json → Option Bool
unfolding is_text exists_as
compare_values operator left right =
    if is_text operator "eq"
    then some (equal left right)
    else if is_text operator "ne"
    then some (not (equal left right))
    else if is_text operator "in"
    then in_value left right
    else if is_text operator "contains"
    then in_value right left
    else if is_text operator "exists"
    then some (exists_as left right)
    else some false

-- The end of `evaluate_condition`, for a condition without "all", "any" and "not".
unfoldable pub compare_at : (Json → String) → Fields → Json → Option Bool
unfolding compare_values value_of
compare_at str_of fs data' =
    compare_values (elim (lookup "operator" fs) [ none ↦ str "eq" | some op ↦ op ])
      (at_ref str_of (get "attribute" fs) data') (value_of str_of (get "value" fs) data')

-- `all(…)` and `any(…)` stop at the first item that decides; an error before that is raised.
abbrev pub and_then : Option Bool → Option Bool → Option Bool
and_then none rest = none
and_then (some false) rest = some false
and_then (some true) rest = rest

abbrev pub or_else : Option Bool → Option Bool → Option Bool
or_else none rest = none
or_else (some true) rest = some true
or_else (some false) rest = rest

abbrev pub negate : Option Bool → Option Bool
negate none = none
negate (some b) = some (not b)

-- Iterating an object or a text yields texts: an empty one is a condition that holds, and the
-- first other one is an error.
abbrev pub over_key : String → Option Bool → Option Bool
over_key k rest = if is_empty k then rest else none

all_keys : Fields → Option Bool
all_keys end = some true
all_keys (field k v fs) = over_key k (all_keys fs)

any_keys : Fields → Option Bool
any_keys end = some false
any_keys (field k v fs) = over_key k (some true)

-- The first of three optional branches, `if "all" in condition … if "any" … if "not" …`.
abbrev pub first_given : Option (Option Bool) → Option Bool → Option Bool
first_given none rest = rest
first_given (some r) rest = r

module _ (str_of : Json → String) (data' : Json) where
  unfoldable mutual
    unfolding all_keys any_keys

    pub evaluate_condition : Json → Option Bool
    evaluate_condition (obj end) = some true
    evaluate_condition (obj (field k v fs)) = first_given (all_of (field k v fs)) (
        first_given (any_of (field k v fs))
          (first_given (not_of (field k v fs)) (compare_at str_of (field k v fs) data')))
    evaluate_condition (arr (item v vs)) = none
    evaluate_condition v = if truthy v then none else some true

    -- `all(evaluate_condition(item, data) for item in condition["all"])`, if there is that key
    pub all_of : Fields → Option (Option Bool)
    all_of end = none
    all_of (field k v fs) = if k == "all" then some (all_in v) else all_of fs

    pub any_of : Fields → Option (Option Bool)
    any_of end = none
    any_of (field k v fs) = if k == "any" then some (any_in v) else any_of fs

    pub not_of : Fields → Option (Option Bool)
    not_of end = none
    not_of (field k v fs) = if k == "not" then some (negate (evaluate_condition v)) else not_of fs

    pub all_in : Json → Option Bool
    all_in (arr vs) = all_items vs
    all_in (obj fs) = all_keys fs
    all_in (str s) = over_key s (some true)
    all_in _ = none

    pub any_in : Json → Option Bool
    any_in (arr vs) = any_items vs
    any_in (obj fs) = any_keys fs
    any_in (str s) = over_key s (some false)
    any_in _ = none

    pub all_items : Items → Option Bool
    all_items nil = some true
    all_items (item v vs) = and_then (evaluate_condition v) (all_items vs)

    pub any_items : Items → Option Bool
    any_items nil = some false
    any_items (item v vs) = or_else (evaluate_condition v) (any_items vs)
