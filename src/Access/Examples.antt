-- ===== src/Access/Examples.antt =====
-- Concrete inputs for the theorems of access control.
use rag_llm.Prelude.{none, some, ◌≡◌, refl, true, List, [], ◌∷◌, ◌||◌, if◌then◌else◌, split_at}
use rag_llm.Access.Json.{Json, equal, get, str, obj, end, field}
use rag_llm.Access.Condition.{walk, text_of, compare_at, evaluate_condition}
use rag_llm.Access.Policy.{
  decide, decide_on, effects, row_applies, add_effect, combine, active_policies, order_rows,
  insert_row, candidates, is_candidate, facts, merge, put, texts, judge, PolicyRow, Principal,
  authorized, policy_denied, permission_required, raised, authorize, is_superuser, contains,
  resource_of,
}
use rag_llm.Access.Upsert.{
  PolicyPayload, StoredPolicy, upsert_policy, upsert_row, assign, policies, policy_of, get_or,
  name_of,
}
use rag_llm.Access.Upsert.Laws.{upsert_policy-authorize}
use rag_llm.Workspace.Table.{find, modify}
use rag_llm.Access.Decision.{any_row, stumbles, applies, authorize_lem}

abbrev department_is_law : Json
department_is_law =
    obj (field "attribute" (str "principal.department") (field "value" (str "law") end))

abbrev rows : List PolicyRow
rows =
    record {
      name = "open";
      effect = "allow";
      action = "rag.access";
      resource = "*";
      condition = obj end;
      priority = 9;
      active = true;
    }
    ∷ record {
      name = "law";
      effect = "deny";
      action = "*";
      resource = "*";
      condition = department_is_law;
      priority = 1;
      active = true;
    }
    ∷ []

abbrev alice : Principal
alice = record {
  subject = "alice";
  roles = [];
  permissions = "rag.access" ∷ [];
  attributes = field "department" (str "law") end;
  provider = "oidc";
}

authorize_lem_example : authorize (λ j. "") (λ s p. true) true rows alice "rag.access" "rag" end ≡ (
    if is_superuser alice
    then authorized
    else if any_row (stumbles (λ j. "") (λ s p. true) rows alice "rag.access" "rag" end end) rows
    then raised
    else if any_row
        (applies (λ j. "") (λ s p. true) rows alice "rag.access" "rag" end end "deny")
        rows
    then policy_denied "rag.access"
    else if contains "rag.access" alice.permissions
        || any_row
            (applies (λ j. "") (λ s p. true) rows alice "rag.access" "rag" end end "allow")
            rows
    then authorized
    else permission_required "rag.access")
unfolding resource_of
authorize_lem_example =
    authorize_lem (λ j. "") (λ s p. true) rows alice "rag.access" "rag" end end refl

-- The denying row wins over the allowing one and over the subject's own permission.
law_is_denied :
    authorize (λ j. "") (λ s p. true) true rows alice "rag.access" "rag" end
    ≡ policy_denied "rag.access"
unfolding authorize decide decide_on effects row_applies add_effect combine active_policies
    order_rows insert_row candidates is_candidate facts merge put texts is_superuser contains judge
    evaluate_condition compare_at resource_of equal get walk text_of split_at
law_is_denied = refl

abbrev closing_time : PolicyPayload
closing_time = record {
  name = "open";
  effect = "deny";
  action = "rag.access";
  resource = none;
  condition = some department_is_law;
  priority = none;
  active = none;
}

abbrev stored : List StoredPolicy
stored =
    record {
      id = "p1";
      policy = record {
        name = "open";
        effect = "allow";
        action = "rag.access";
        resource = "*";
        condition = obj end;
        priority = 9;
        active = true;
      };
    }
    ∷ []

upsert_policy-authorize_example :
    authorize
      (λ j. "")
      (λ s p. true)
      true
      (policies (upsert_policy true "p2" closing_time stored).1)
      alice
      "rag.access"
      "rag"
      end
    ≡ policy_denied "rag.access"
unfolding row_applies is_candidate facts merge put texts is_superuser contains evaluate_condition
    compare_at resource_of equal get walk text_of split_at upsert_policy upsert_row assign policies
    policy_of get_or name_of find modify
upsert_policy-authorize_example =
    upsert_policy-authorize (λ j. "") (λ s p. true) "p2" closing_time stored alice "rag.access"
      "rag" end end refl refl refl refl refl refl
