-- ===== src/Access/Grants/Examples.antt =====
-- Concrete inputs for the theorems of the grants.
use rag_llm.Prelude.{String, ◌≡◌, refl, sym, ap, true, some, List, [], ◌∷◌, Member}
use rag_llm.Access.Json.{end}
use rag_llm.Access.Policy.{Principal, is_superuser}
use rag_llm.Failure.{ok}
use rag_llm.Workspace.Table.{find}
use rag_llm.Access.Grants.{
  Grants, PrincipalRow, subject_of, grant_role, bootstrap_superadmin, enrich_principal,
}
use rag_llm.Access.Grants.Laws.{grant_role-enrich_principal, bootstrap_superadmin-is_superuser}

abbrev alice : PrincipalRow
alice = record { id = "p1"; subject = "alice"; provider = "oidc"; attributes = end; active = true }

abbrev grants : Grants
grants = record {
  principals = alice ∷ [];
  roles = [];
  permissions = [];
  principal_roles = [];
  role_permissions = [];
}

abbrev request : Principal
request = record {
  subject = "alice";
  roles = [];
  permissions = [];
  attributes = end;
  provider = "oidc";
}

abbrev read_and_write : List (String × String)
read_and_write = ("read", "m1") ∷ ("write", "m2") ∷ []

only : (x y : PrincipalRow) → some x ≡ some y → x ≡ y
only x y h = cc

alice-active :
    (row : PrincipalRow) → find subject_of "alice" grants.principals ≡ some row → row.active ≡ true
unfolding find
alice-active row h = sym (ap (λ r. r.active) (only alice row h))

grant_role-enrich_principal_example :
    (e : Principal) × ((enrich_principal "d" request
        (grant_role "p9" "alice" ("editor", "r1") read_and_write grants)).0
      ≡ ok e)
    × Member "editor" e.roles
    × ((name name_id : String) → Member (name, name_id) read_and_write → Member name e.permissions)
grant_role-enrich_principal_example =
    grant_role-enrich_principal "p9" "alice" "editor" "r1" "d" read_and_write grants request
      alice-active refl

bootstrap_superadmin-is_superuser_example :
    (e : Principal) × ((enrich_principal "d" request
        (bootstrap_superadmin "p9" "alice" "r1" "m1" grants)).0
      ≡ ok e)
    × (is_superuser e ≡ true)
    × Member "*" e.permissions
bootstrap_superadmin-is_superuser_example =
    bootstrap_superadmin-is_superuser "p9" "alice" "r1" "m1" "d" grants request alice-active refl
