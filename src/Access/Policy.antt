-- ===== src/Access/Policy.antt =====
-- `active_policies` of persistence.py, `PolicyProvider.decide` of policy.py, and `Principal` and
-- `authorize` of security.py. `fnmatch` stands for the standard library's pattern match.
use rag_llm.Prelude.{
  ℕ, String, Bool, true, false, ◌&&◌, ◌||◌, Option, none, some, List, [], ◌∷◌, ◌==◌, string_eq, leb,
  is_empty, if◌then◌else◌,
}
use rag_llm.Access.Json.{Json, Items, Fields, lookup, str, arr, obj, nil, item, end, field}
use rag_llm.Access.Condition.{evaluate_condition}

-- The public fields of `PolicyRow`; a lower `priority` comes later.
pub record PolicyRow : Type 0 where
  pub name : String
  pub effect : String
  pub action : String
  pub resource : String
  pub condition : Json
  pub priority : ℕ
  pub active : Bool

-- `row.active and row.action in [action, "*"]`
unfoldable pub is_candidate : String → PolicyRow → Bool
is_candidate action row = row.active && (row.action == action || row.action == "*")

unfoldable pub candidates : String → List PolicyRow → List PolicyRow
candidates action [] = []
candidates action (row ∷ rows) =
    let rest = candidates action rows in if is_candidate action row then row ∷ rest else rest

-- `ORDER BY priority DESC`, as a stable insertion.
unfoldable pub insert_row : PolicyRow → List PolicyRow → List PolicyRow
insert_row row [] = row ∷ []
insert_row row (r ∷ rows) =
    if leb r.priority row.priority then row ∷ r ∷ rows else r ∷ insert_row row rows

unfoldable pub order_rows : List PolicyRow → List PolicyRow
order_rows [] = []
order_rows (row ∷ rows) = insert_row row (order_rows rows)

-- Without an engine there are no policies.
unfoldable pub active_policies : Bool → String → List PolicyRow → List PolicyRow
active_policies enabled action rows = if enabled then order_rows (candidates action rows) else []

pub record Principal : Type 0 where
  pub subject : String
  pub roles : List String
  pub permissions : List String
  pub attributes : Fields
  pub provider : String

unfoldable pub contains : String → List String → Bool
contains a [] = false
contains a (x ∷ xs) = a == x || contains a xs

unfoldable pub texts : List String → Items
texts [] = nil
texts (x ∷ xs) = item (str x) (texts xs)

-- `{**fields, **others}`: a later key replaces the value of an earlier one in its place.
unfoldable pub put : String → Json → Fields → Fields
put k v end = field k v end
put k v (field j w fs) = if j == k then field j v fs else field j w (put k v fs)

unfoldable pub merge : Fields → Fields → Fields
merge fs end = fs
merge fs (field k v gs) = merge (put k v fs) gs

-- `dict(value)`; `none` is its exception. A list of pairs is not a value that is passed here.
unfoldable pub dict_of : Json → Option Fields
dict_of (obj fs) = some fs
dict_of (arr nil) = some end
dict_of (str s) = if is_empty s then some end else none
dict_of _ = none

-- `dict((context or {}).get("resource", {}))`
unfoldable pub resource_of : Fields → Option Fields
unfolding lookup dict_of
resource_of context = elim (lookup "resource" context) [ none ↦ some end | some v ↦ dict_of v ]

-- The object that conditions look into.
unfoldable pub facts : Principal → String → Fields → Fields → Json
facts p resource context attributes = obj (
    field "principal"
      (obj (
        merge
          (field "subject" (str p.subject) (
            field "roles" (arr (texts p.roles))
              (field "permissions" (arr (texts p.permissions)) end)))
          p.attributes))
      (field "resource" (obj (merge (field "id" (str resource) end) attributes))
        (field "context" (obj context) end)))

-- `some false` denies, `some true` allows, `none` decides nothing.
unfoldable pub combine : List String → Option Bool
combine es =
    if contains "deny" es then some false else if contains "allow" es then some true else none

pub data Verdict : Type 0 where
  authorized : Verdict
  policy_denied : String → Verdict
  permission_required : String → Verdict
  raised : Verdict

unfoldable pub is_superuser : Principal → Bool
is_superuser p = contains "superadmin" p.roles || contains "*" p.permissions

unfoldable pub judge : Bool → String → Option (Option Bool) → Verdict
judge granted action none = raised
judge granted action (some (some false)) = policy_denied action
judge granted action (some (some true)) = authorized
judge granted action (some none) = if granted then authorized else permission_required action

module _ (str_of : Json → String) (fnmatch : String → String → Bool) where
  -- Whether the row's effect is in the list of effects; `none` is an exception of its condition.
  unfoldable pub row_applies : Json → String → PolicyRow → Option Bool
  row_applies data' resource row =
      if fnmatch resource row.resource
      then evaluate_condition str_of data' row.condition
      else some false

  unfoldable pub add_effect : Option Bool → String → Option (List String) → Option (List String)
  add_effect none effect rest = none
  add_effect (some b) effect none = none
  add_effect (some true) effect (some es) = some (effect ∷ es)
  add_effect (some false) effect (some es) = some es

  unfoldable pub effects : Json → String → List PolicyRow → Option (List String)
  effects data' resource [] = some []
  effects data' resource (row ∷ rows) =
      add_effect (row_applies data' resource row) row.effect (effects data' resource rows)

  unfoldable pub decide_on : Json → String → List PolicyRow → Option (Option Bool)
  decide_on data' resource rows = elim (effects data' resource rows) [
    | none ↦ none
    | some es ↦ some (combine es)
  ]

  -- The outer `none` is a raised exception.
  unfoldable pub decide :
      Bool → List PolicyRow → Principal → String → String → Fields → Option (Option Bool)
  unfolding resource_of
  decide enabled rows p action resource context = elim (resource_of context) [
    | none ↦ none
    | some attributes ↦
        decide_on (facts p resource context attributes) resource
          (active_policies enabled action rows)
  ]

  unfoldable pub authorize : Bool → List PolicyRow → Principal → String → String → Fields → Verdict
  authorize enabled rows p action resource context =
      if is_superuser p
      then authorized
      else judge (contains action p.permissions) action
          (decide enabled rows p action resource context)
