-- ===== src/Access/Grants/Laws.antt =====
-- What a grant of persistence.py gives to its subject.
use rag_llm.Prelude.{
  String, ◌≡◌, refl, sym, subst, Bool, true, ◌&&◌, some, List, [], ◌∷◌, map, any, ◌==◌, string_eq,
  eq_iff, Member, inl, inr, Option-cases, arith, Member-append, and_true,
}
use rag_llm.Access.Policy.{Principal, contains, is_superuser}
use rag_llm.Failure.{ok}
use rag_llm.Workspace.Table.{find, select, select-Member}
use rag_llm.Access.Grants.{
  PrincipalRow, Named, Grants, subject_of, name_of, is_link, linked, ensure, or_new, add_missing,
  grant_permission, grant_permissions, assign_role, grant_role, active_principal, roles_of,
  is_granted, permissions_of, with_grants, enrich_principal, bootstrap_superadmin, new_principal,
}
use rag_llm.Access.Grants.Permissions.{
  map-Member, linked_self, ensure_lem, IsGranted, grant_permissions-IsGranted,
  grant_permission-IsGranted, grant_permissions_rest,
}

any_mono :
    {A : Type 0} (f h : A → Bool) (xs : List A)
    → ((x : A) → f x ≡ true → h x ≡ true)
    → any f xs ≡ true
    → any h xs ≡ true
any_mono f h [] imp e = e
any_mono f h (x ∷ xs) imp e = ground (arith, any_mono f h xs imp, imp x)

-- The subject has the role.
record IsAssigned (subject : String) (r : Named) (g : Grants) : Type 0 where
  row : PrincipalRow
  found : active_principal subject g ≡ some row
  member : Member r g.roles
  held : linked row.id r.id g.principal_roles ≡ true

active_found :
    (subject : String) (new : PrincipalRow) (g h : Grants)
    → new.subject ≡ subject
    → new.active ≡ true
    → h.principals ≡ add_missing new (find subject_of subject g.principals) g.principals
    → ((row : PrincipalRow) → find subject_of subject g.principals ≡ some row → row.active ≡ true)
    → active_principal subject h ≡ some (or_new new (find subject_of subject g.principals))
unfolding active_principal find
active_found subject new g h own on after active =
    elim (Option-cases (find subject_of subject g.principals)) [
      | inl e ↦
          let first : h.principals ≡ new ∷ g.principals = rw e at after in
          let mine : (new.subject == subject) ≡ true = (eq_iff new.subject subject).1 own in
          rw e (rw (first, active_principal, find) (rw mine (rw on refl)))
      | inr (old, e) ↦
          let same : h.principals ≡ g.principals = rw e at after in
          rw (e) (rw (same, active_principal) (rw e (rw (active old e) refl)))
    ]

active_principal_same :
    (subject : String) (s t : Grants)
    → t.principals ≡ s.principals
    → active_principal subject s ≡ active_principal subject t
unfolding active_principal
active_principal_same subject s t same = rw same refl

assign_role-IsAssigned :
    (id subject provider name role_id : String) (g : Grants)
    → ((row : PrincipalRow) → find subject_of subject g.principals ≡ some row → row.active ≡ true)
    → IsAssigned subject
        (assign_role id subject provider (name, role_id) g).0
        (assign_role id subject provider (name, role_id) g).1
      × ((assign_role id subject provider (name, role_id) g).0.name ≡ name)
unfolding assign_role
assign_role-IsAssigned id subject provider name role_id g active =
    let (m, e) = ensure_lem role_id name g.roles in
    let new : PrincipalRow = new_principal id subject provider in
    let row : PrincipalRow = or_new new (find subject_of subject g.principals) in
    (
      record {
        row = row;
        found =
            active_found subject new g (assign_role id subject provider (name, role_id) g).1 refl
              refl refl active;
        member = m;
        held = linked_self row.id (ensure role_id name g.roles).0.id g.principal_roles;
      },
      e,
    )

assigned_role :
    (subject : String) (r : Named) (p : Principal) (g : Grants) (a : IsAssigned subject r g)
    → Member r.name (with_grants p a.row g).roles
unfolding with_grants roles_of
assigned_role subject r p g a =
    Member-append r.name
      (map name_of (select (λ q. linked a.row.id q.id g.principal_roles) g.roles)) p.roles
      (inl (
        map-Member name_of r (select (λ q. linked a.row.id q.id g.principal_roles) g.roles)
          (select-Member (λ q. linked a.row.id q.id g.principal_roles) r g.roles a.member a.held)))

role_of_link :
    (row_id role_id permission_id : String) (g : Grants)
    → linked row_id role_id g.principal_roles ≡ true
    → (l : String × String) → is_link role_id permission_id l ≡ true
    → (l.1 == permission_id && linked row_id l.0 g.principal_roles) ≡ true
unfolding is_link
role_of_link row_id role_id permission_id g held l h =
    let (p, q) = and_true (l.0 == role_id) (l.1 == permission_id) h in
    let same : l.0 ≡ role_id = (eq_iff l.0 role_id).0 p in
    let mine : linked row_id l.0 g.principal_roles ≡ true =
      subst (λ x. linked row_id x g.principal_roles ≡ true) (sym same) held in
    rw (q, mine) refl

role_is_granted :
    (row_id role_id : String) (p : Named) (g : Grants)
    → linked row_id role_id g.principal_roles ≡ true
    → linked role_id p.id g.role_permissions ≡ true
    → is_granted row_id g p ≡ true
unfolding is_granted linked
role_is_granted row_id role_id p g held h =
    any_mono (is_link role_id p.id) (λ l. l.1 == p.id && linked row_id l.0 g.principal_roles)
      g.role_permissions (role_of_link row_id role_id p.id g held) h

assigned_permission :
    (subject name : String) (r : Named) (p : Principal) (g : Grants) (a : IsAssigned subject r g)
    → IsGranted r.id name g
    → Member name (with_grants p a.row g).permissions
unfolding with_grants permissions_of
assigned_permission subject name r p g a (q, m, e, h) =
    subst (λ n. Member n (with_grants p a.row g).permissions) e
      (Member-append q.name (map name_of (select (is_granted a.row.id g) g.permissions))
        p.permissions
        (inl (
          map-Member name_of q (select (is_granted a.row.id g) g.permissions) (
            select-Member (is_granted a.row.id g) q g.permissions m
              (role_is_granted a.row.id r.id q g a.held h)))))

-- After a grant the subject's next authenticated request has the role and every permission that was
-- named, unless the subject is inactive.
pub grant_role-enrich_principal :
    (id subject role role_id drawn : String) (permissions : List (String × String)) (g : Grants)
    (p : Principal)
    → ((row : PrincipalRow) → find subject_of subject g.principals ≡ some row → row.active ≡ true)
    → p.subject ≡ subject
    → (e : Principal) × ((enrich_principal drawn p
          (grant_role id subject (role, role_id) permissions g)).0
        ≡ ok e)
      × Member role e.roles
      × ((name name_id : String) → Member (name, name_id) permissions → Member name e.permissions)
unfolding grant_role enrich_principal
grant_role-enrich_principal id subject role role_id drawn permissions g p active same =
    let r : Named = (assign_role id subject "external" (role, role_id) g).0 in
    let s : Grants = (assign_role id subject "external" (role, role_id) g).1 in
    let t : Grants = grant_permissions r.id permissions s in
    let (a, e) = assign_role-IsAssigned id subject "external" role role_id g active in
    let (principals, roles, held) = grant_permissions_rest r.id permissions s in
    let found : active_principal p.subject t ≡ some a.row =
      rw same
        (subst (λ x. x ≡ some a.row) (active_principal_same subject s t principals) a.found) in
    let b : IsAssigned subject r t = record {
      row = a.row;
      found = rw same at found;
      member = rw roles a.member;
      held = rw held a.held;
    } in
    (
      with_grants p a.row t,
      rw found refl,
      subst (λ n. Member n (with_grants p a.row t).roles) e (assigned_role subject r p t b),
      (λ name name_id m.
          assigned_permission subject name r p t b
            (grant_permissions-IsGranted r.id permissions s name name_id m)),
    )

contains-Member : (a : String) (xs : List String) → Member a xs → contains a xs ≡ true
unfolding contains
contains-Member a [] m = absurd m
contains-Member a (x ∷ xs) m = ground (arith, contains-Member a xs, eq_iff a x)

-- The bootstrap makes its subject a superuser who has the permission `*`, unless the subject is
-- inactive.
pub bootstrap_superadmin-is_superuser :
    (id subject role_id permission_id drawn : String) (g : Grants) (p : Principal)
    → ((row : PrincipalRow) → find subject_of subject g.principals ≡ some row → row.active ≡ true)
    → p.subject ≡ subject
    → (e : Principal) × ((enrich_principal drawn p
          (bootstrap_superadmin id subject role_id permission_id g)).0
        ≡ ok e)
      × (is_superuser e ≡ true)
      × Member "*" e.permissions
unfolding bootstrap_superadmin enrich_principal grant_permission is_superuser
bootstrap_superadmin-is_superuser id subject role_id permission_id drawn g p active same =
    let r : Named = (assign_role id subject "bootstrap" ("superadmin", role_id) g).0 in
    let s : Grants = (assign_role id subject "bootstrap" ("superadmin", role_id) g).1 in
    let t : Grants = grant_permission r.id ("*", permission_id) s in
    let (a, e) = assign_role-IsAssigned id subject "bootstrap" "superadmin" role_id g active in
    let found : active_principal p.subject t ≡ some a.row =
      rw same (subst (λ x. x ≡ some a.row) (active_principal_same subject s t refl) a.found) in
    let b : IsAssigned subject r t = record {
      row = a.row;
      found = rw same at found;
      member = a.member;
      held = a.held;
    } in
    let mine : Member "superadmin" (with_grants p a.row t).roles =
      subst (λ n. Member n (with_grants p a.row t).roles) e (assigned_role subject r p t b) in
    (
      with_grants p a.row t,
      rw found refl,
      rw (contains-Member "superadmin" (with_grants p a.row t).roles mine) refl,
      assigned_permission subject "*" r p t b (grant_permission-IsGranted r.id "*" permission_id s),
    )
