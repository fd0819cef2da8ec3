-- ===== src/Workspace/Scope.antt =====
-- `request_scope` of db_store.py: on whose behalf the persistence calls of a task are made.
use rag_llm.Prelude.{
  String, Bool, ◌||◌, Option, none, some, ◌==◌, option_eq, string_eq, is_empty, strip, true,
  if◌then◌else◌,
}

-- The three context variables. `none` is the internal context without an owner.
pub record Scope : Type 0 where
  pub subject : Option String
  pub is_admin : Bool
  pub can_manage_global_documents : Bool

-- `subject.strip() if subject else None`
unfoldable pub subject_of : Option String → Option String
subject_of none = none
subject_of (some s) = if is_empty s then none else some (strip s)

-- What `request_scope` installs for the calls within it.
unfoldable pub request_scope : Option String → Bool → Bool → Scope
unfolding subject_of
request_scope subject is_admin can_manage = record {
  subject = subject_of subject;
  is_admin = is_admin;
  can_manage_global_documents = can_manage || is_admin;
}

-- The condition `owner_subject = %s` that a query has `if subject`. An empty subject is false.
unfoldable pub is_owned : Option String → Option String → Bool
is_owned none owner = true
is_owned (some s) owner = if is_empty s then true else owner == some s

unfoldable pub owns : Scope → Option String → Bool
unfolding is_owned
owns scope owner = is_owned scope.subject owner
