-- ===== src/Access/Grants.antt =====
-- The persisted grants: Persistence.bootstrap_superadmin, grant_role and enrich_principal of
-- persistence.py, for a configured engine. The drawn identifiers are arguments and are taken to be new.
pub mod Permissions
pub mod Laws
mod Examples
use rag_llm.Prelude.{
  String, Bool, true, false, ◌&&◌, Option, none, some, List, [], ◌∷◌, ◌++◌, map, any, ◌==◌,
  string_eq, if◌then◌else◌,
}
use rag_llm.Access.Json.{Fields, end}
use rag_llm.Access.Policy.{Principal, merge}
use rag_llm.Failure.{Result, ok, err, Action, other_error}
use rag_llm.Workspace.Table.{find, select}

pub record PrincipalRow : Type 0 where
  pub id : String
  pub subject : String
  pub provider : String
  pub attributes : Fields
  pub active : Bool

-- RoleRow and PermissionRow
pub record Named : Type 0 where
  pub id : String
  pub name : String

-- The five tables; the links are pairs of identifiers.
pub record Grants : Type 0 where
  pub principals : List PrincipalRow
  pub roles : List Named
  pub permissions : List Named
  pub principal_roles : List (String × String)
  pub role_permissions : List (String × String)

abbrev pub subject_of : PrincipalRow → String
subject_of r = r.subject

abbrev pub name_of : Named → String
name_of r = r.name

unfoldable pub is_link : String → String → String × String → Bool
is_link a b l = l.0 == a && l.1 == b

unfoldable pub linked : String → String → List (String × String) → Bool
unfolding is_link
linked a b links = any (is_link a b) links

-- `if session.get(...) is None: session.add(...)`
unfoldable pub link : String → String → List (String × String) → List (String × String)
link a b links = if linked a b links then links else (a, b) ∷ links

abbrev pub or_new : {A : Type 0} → A → Option A → A
or_new new none = new
or_new new (some r) = r

abbrev pub add_missing : {A : Type 0} → A → Option A → List A → List A
add_missing new none rows = new ∷ rows
add_missing new (some r) rows = rows

abbrev pub new_principal : String → String → String → PrincipalRow
new_principal id subject provider = record {
  id = id;
  subject = subject;
  provider = provider;
  attributes = end;
  active = true;
}

-- The role of a name and the table with it.
unfoldable pub ensure : String → String → List Named → Named × List Named
ensure id name rows =
    let new : Named = record { id = id; name = name } in
    (or_new new (find name_of name rows), add_missing new (find name_of name rows) rows)

-- One round of the loop over the permissions, with the identifier that it may draw.
unfoldable pub grant_permission : String → String × String → Grants → Grants
grant_permission role_id (name, id) g =
    let (permission, permissions) = ensure id name g.permissions in
    record g {
      permissions = permissions;
      role_permissions = link role_id permission.id g.role_permissions;
    }

unfoldable pub grant_permissions : String → List (String × String) → Grants → Grants
unfolding grant_permission
grant_permissions role_id [] g = g
grant_permissions role_id (p ∷ ps) g = grant_permissions role_id ps (grant_permission role_id p g)

-- The principal of a subject with a role.
unfoldable pub assign_role : String → String → String → String × String → Grants → Named × Grants
assign_role id subject provider (role_name, role_id) g =
    let new : PrincipalRow = new_principal id subject provider in
    let principal : PrincipalRow = or_new new (find subject_of subject g.principals) in
    let (role, roles) = ensure role_id role_name g.roles in
    (
      role,
      record g {
        principals = add_missing new (find subject_of subject g.principals) g.principals;
        roles = roles;
        principal_roles = link principal.id role.id g.principal_roles;
      },
    )

unfoldable pub grant_role :
    String → String → String × String → List (String × String) → Grants → Grants
unfolding assign_role grant_permissions
grant_role id subject role permissions g =
    let (r, assigned) = assign_role id subject "external" role g in
    grant_permissions r.id permissions assigned

unfoldable pub bootstrap_superadmin : String → String → String → String → Grants → Grants
unfolding assign_role grant_permission
bootstrap_superadmin id subject role_id permission_id g =
    let (r, assigned) = assign_role id subject "bootstrap" ("superadmin", role_id) g in
    grant_permission r.id ("*", permission_id) assigned

-- `session.scalar(select(PrincipalRow).where(subject, active))`
unfoldable pub active_principal : String → Grants → Option PrincipalRow
active_principal subject g = elim (find subject_of subject g.principals) [
  | none ↦ none
  | some r ↦ if r.active then some r else none
]

unfoldable pub roles_of : String → Grants → List String
unfolding linked
roles_of id g = map name_of (select (λ r. linked id r.id g.principal_roles) g.roles)

-- A permission of a role of the principal.
unfoldable pub is_granted : String → Grants → Named → Bool
unfolding linked
is_granted id g p = any (λ l. l.1 == p.id && linked id l.0 g.principal_roles) g.role_permissions

unfoldable pub permissions_of : String → Grants → List String
unfolding is_granted
permissions_of id g = map name_of (select (is_granted id g) g.permissions)

unfoldable pub with_grants : Principal → PrincipalRow → Grants → Principal
with_grants p row g = record {
  subject = p.subject;
  roles = roles_of row.id g ++ p.roles;
  permissions = permissions_of row.id g ++ p.permissions;
  attributes = merge row.attributes p.attributes;
  provider = p.provider;
}

-- The INSERT does nothing for a subject that is there, also if another request inserted it.
unfoldable pub insert_principal : String → Principal → Grants → Grants
insert_principal id p g =
    let new : PrincipalRow = record (new_principal id p.subject p.provider) {
      attributes = p.attributes;
    } in
    record g { principals = add_missing new (find subject_of p.subject g.principals) g.principals }

abbrev pub reread : Principal → Option PrincipalRow → Action Grants Principal
reread p none g = (err (other_error "principal is inactive"), g)
reread p (some row) g = (ok (with_grants p row g), g)

abbrev pub enrich_row : String → Principal → Option PrincipalRow → Action Grants Principal
enrich_row id p none g =
    let h : Grants = insert_principal id p g in reread p (active_principal p.subject h) h
enrich_row id p (some row) g = (ok (with_grants p row g), g)

unfoldable pub enrich_principal : String → Principal → Action Grants Principal
enrich_principal id p g = enrich_row id p (active_principal p.subject g) g
