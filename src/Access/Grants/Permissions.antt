-- ===== src/Access/Grants/Permissions.antt =====
-- The permissions that a grant of persistence.py adds to a role.
use rag_llm.Prelude.{
  String, ◌≡◌, refl, ap, subst, true, List, [], ◌∷◌, map, any, string_eq, eq_refl, Member, inl, inr,
  Bool-cases, Option-cases, arith,
}
use rag_llm.Workspace.Table.{find, find-Member, find-key}
use rag_llm.Access.Grants.{
  Named, Grants, name_of, is_link, linked, link, ensure, grant_permission, grant_permissions,
}

pub map-Member :
    {A : Type 0} (f : A → String) (x : A) (xs : List A) → Member x xs → Member (f x) (map f xs)
map-Member f x [] m = absurd m
map-Member f x (y ∷ ys) (inl e) = inl (ap f e)
map-Member f x (y ∷ ys) (inr m) = inr (map-Member f x ys m)

pub linked_self :
    (a b : String) (links : List (String × String)) → linked a b (link a b links) ≡ true
unfolding link linked is_link
linked_self a b links = elim (Bool-cases (any (is_link a b) links)) [
  | inl e ↦ rw e e
  | inr e ↦ rw e (rw (eq_refl a, eq_refl b) refl)
]

linked-link :
    (a b c d : String) (links : List (String × String))
    → linked a b links ≡ true
    → linked a b (link c d links) ≡ true
unfolding link linked
linked-link a b c d links h = elim (Bool-cases (any (is_link c d) links)) [
  | inl e ↦ rw e h
  | inr e ↦ rw e (ground arith)
]

pub ensure_lem :
    (id name : String) (rows : List Named)
    → Member (ensure id name rows).0 (ensure id name rows).1 × ((ensure id name rows).0.name ≡ name)
unfolding ensure
ensure_lem id name rows = elim (Option-cases (find name_of name rows)) [
  | inl e ↦ rw e (inl refl, refl)
  | inr (r, e) ↦ rw e (find-Member name_of name rows r e, find-key name_of name rows r e)
]

ensure_keeps :
    (id name : String) (rows : List Named) (r : Named)
    → Member r rows
    → Member r (ensure id name rows).1
unfolding ensure
ensure_keeps id name rows r m = elim (Option-cases (find name_of name rows)) [
  | inl e ↦ rw e (inr m)
  | inr (q, e) ↦ rw e m
]

-- A role has a permission of this name.
abbrev pub IsGranted : String → String → Grants → Type 0
IsGranted role_id name g =
    (p : Named) × Member p g.permissions
    × (p.name ≡ name)
    × (linked role_id p.id g.role_permissions ≡ true)

pub grant_permission-IsGranted :
    (role_id name id : String) (g : Grants)
    → IsGranted role_id name (grant_permission role_id (name, id) g)
unfolding grant_permission
grant_permission-IsGranted role_id name id g =
    let (m, e) = ensure_lem id name g.permissions in
    (
      (ensure id name g.permissions).0,
      m,
      e,
      linked_self role_id (ensure id name g.permissions).0.id g.role_permissions,
    )

grant_permission_keeps :
    (role_id name : String) (p : String × String) (g : Grants)
    → IsGranted role_id name g
    → IsGranted role_id name (grant_permission role_id p g)
unfolding grant_permission
grant_permission_keeps role_id name (other, id) g (q, m, e, h) = (
  q,
  ensure_keeps id other g.permissions q m,
  e,
  linked-link role_id q.id role_id (ensure id other g.permissions).0.id g.role_permissions h,
)

grant_permissions_keeps :
    (role_id name : String) (ps : List (String × String)) (g : Grants)
    → IsGranted role_id name g
    → IsGranted role_id name (grant_permissions role_id ps g)
unfolding grant_permissions
grant_permissions_keeps role_id name [] g h = h
grant_permissions_keeps role_id name (p ∷ ps) g h =
    grant_permissions_keeps role_id name ps (grant_permission role_id p g)
      (grant_permission_keeps role_id name p g h)

pub grant_permissions-IsGranted :
    (role_id : String) (ps : List (String × String)) (g : Grants) (name id : String)
    → Member (name, id) ps
    → IsGranted role_id name (grant_permissions role_id ps g)
unfolding grant_permissions
grant_permissions-IsGranted role_id [] g name id m = absurd m
grant_permissions-IsGranted role_id (p ∷ ps) g name id (inl e) =
    grant_permissions_keeps role_id name ps (grant_permission role_id p g) (
      subst (λ q. IsGranted role_id name (grant_permission role_id q g)) e
        (grant_permission-IsGranted role_id name id g))
grant_permissions-IsGranted role_id (p ∷ ps) g name id (inr m) =
    grant_permissions-IsGranted role_id ps (grant_permission role_id p g) name id m

-- The loop leaves the rest.
pub grant_permissions_rest :
    (role_id : String) (ps : List (String × String)) (g : Grants)
    → ((grant_permissions role_id ps g).principals ≡ g.principals)
      × ((grant_permissions role_id ps g).roles ≡ g.roles)
      × ((grant_permissions role_id ps g).principal_roles ≡ g.principal_roles)
unfolding grant_permissions grant_permission
grant_permissions_rest role_id [] g = (refl, refl, refl)
grant_permissions_rest role_id (p ∷ ps) g =
    grant_permissions_rest role_id ps (grant_permission role_id p g)
