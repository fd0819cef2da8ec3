-- ===== src/Access/Upsert.antt =====
-- `Persistence.upsert_policy` of persistence.py. The payload is the body of a request that
-- `save_policy` of asgi_app.py lets through: it has a name, an action and an effect, and the values
-- have the types of the columns. The drawn identifier is an argument and is taken to be new.
pub mod Laws
use rag_llm.Prelude.{ℕ, String, Bool, true, Option, none, some, List, [], ◌∷◌, map, if◌then◌else◌}
use rag_llm.Failure.{Result, ok, err, Action, runtime_error, raise}
use rag_llm.Access.Json.{Json, obj, end}
use rag_llm.Access.Policy.{PolicyRow}
use rag_llm.Workspace.Table.{find, modify}

pub record PolicyPayload : Type 0 where
  pub name : String
  pub effect : String
  pub action : String
  pub resource : Option String
  pub condition : Option Json
  pub priority : Option ℕ
  pub active : Option Bool

-- A row of the table: its key, and the columns that decide.
pub record StoredPolicy : Type 0 where
  pub id : String
  pub policy : PolicyRow

unfoldable pub name_of : StoredPolicy → String
name_of r = r.policy.name

-- `payload.get(key, default)`
unfoldable pub get_or : {A : Type 0} → A → Option A → A
get_or default none = default
get_or default (some a) = a

-- The columns that the call assigns, and the name that selects the row.
unfoldable pub policy_of : PolicyPayload → PolicyRow
unfolding get_or
policy_of b = record {
  name = b.name;
  effect = b.effect;
  action = b.action;
  resource = get_or "*" b.resource;
  condition = get_or (obj end) b.condition;
  priority = get_or 0 b.priority;
  active = get_or true b.active;
}

unfoldable pub assign : PolicyPayload → StoredPolicy → StoredPolicy
assign b r = record r { policy = policy_of b }

unfoldable pub upsert_row :
    String → PolicyPayload → Option StoredPolicy → Action (List StoredPolicy) StoredPolicy
unfolding assign
upsert_row fresh b none rows =
    let row : StoredPolicy = record { id = fresh; policy = policy_of b } in (ok row, row ∷ rows)
upsert_row fresh b (some q) rows = (ok (assign b q), modify name_of b.name (assign b) rows)

unfoldable pub upsert_policy :
    Bool → String → PolicyPayload → Action (List StoredPolicy) StoredPolicy
unfolding upsert_row
upsert_policy enabled fresh b rows =
    if enabled
    then upsert_row fresh b (find name_of b.name rows) rows
    else raise (runtime_error "RAG_DATABASE_URL is required") rows

-- The rows that the decisions are made on.
unfoldable pub policies : List StoredPolicy → List PolicyRow
policies rows = map (λ r. r.policy) rows
