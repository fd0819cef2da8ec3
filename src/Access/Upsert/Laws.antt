-- ===== src/Access/Upsert/Laws.antt =====
-- What `upsert_policy` leaves in the table of the policies, and what is decided from it.
use rag_llm.Prelude.{
  String, ◌≡◌, refl, Bool, true, false, Option, none, some, List, [], ◌∷◌, string_eq, ◌≢◌, inl, inr,
  Option-cases, arith, ◌∙◌,
}
use rag_llm.Failure.{Result, ok}
use rag_llm.Access.Json.{Json, Fields}
use rag_llm.Access.Policy.{
  PolicyRow, Principal, is_candidate, is_superuser, resource_of, facts, row_applies, authorize,
  policy_denied,
}
use rag_llm.Access.Decision.{any_row, applies, stumbles, authorize_lem}
use rag_llm.Access.Upsert.{
  PolicyPayload, StoredPolicy, name_of, policy_of, assign, upsert_row, upsert_policy, policies,
}
use rag_llm.Workspace.Table.{find, modify}

assigned-any :
    (f : PolicyRow → Bool) (b : PolicyPayload) (rows : List StoredPolicy) (q : StoredPolicy)
    → f (policy_of b) ≡ true
    → find name_of b.name rows ≡ some q
    → any_row f (policies (modify name_of b.name (assign b) rows)) ≡ true
unfolding find modify assign policies
assigned-any f b [] q h found = absurd (cc)
assigned-any f b (r ∷ rows) q h found = ground (arith, assigned-any f b rows q h)

-- The key that the row had before, or else the new one.
abbrev pub kept_id : String → Option StoredPolicy → String
kept_id fresh none = fresh
kept_id fresh (some q) = q.id

-- What a call that found `old` under the payload's name returns and leaves in the table.
abbrev pub IsUpserted :
    String
    → PolicyPayload
    → List StoredPolicy
    → Option StoredPolicy
    → Result StoredPolicy × List StoredPolicy
    → Type 0
IsUpserted fresh b rows old (result, after) =
    (r : StoredPolicy) × (result ≡ ok r)
    × (find name_of b.name after ≡ some r)
    × (r.policy ≡ policy_of b)
    × (r.id ≡ kept_id fresh old)
    × ((name : String) → name ≢ b.name → find name_of name after ≡ find name_of name rows)

upserted-any :
    (f : PolicyRow → Bool) (fresh : String) (b : PolicyPayload) (rows : List StoredPolicy)
    → f (policy_of b) ≡ true
    → any_row f (policies (upsert_policy true fresh b rows).1) ≡ true
unfolding upsert_policy upsert_row policies
upserted-any f fresh b rows h = elim (Option-cases (find name_of b.name rows)) [
  | inl e ↦ rw (e, upsert_row) (rw h refl)
  | inr (q, e) ↦ rw (e, upsert_row) (assigned-any f b rows q h e)
]

module _ (str_of : Json → String) (fnmatch : String → String → Bool) (fresh : String)
    (b : PolicyPayload) (rows : List StoredPolicy) (p : Principal) (action resource : String)
    (context attributes : Fields) where
  abbrev pub after : List PolicyRow
  after = policies (upsert_policy true fresh b rows).1

  -- An upserted denial that is active, concerns the action and applies to the request denies it to
  -- everyone but a superuser, whatever the other policies are and the subject may, if no condition
  -- raises.
  pub upsert_policy-authorize :
      b.effect ≡ "deny"
      → is_candidate action (policy_of b) ≡ true
      → row_applies str_of fnmatch (facts p resource context attributes) resource (policy_of b)
        ≡ some true
      → resource_of context ≡ some attributes
      → is_superuser p ≡ false
      → any_row (stumbles str_of fnmatch after p action resource context attributes) after ≡ false
      → authorize str_of fnmatch true
          (policies (upsert_policy true fresh b rows).1)
          p
          action
          resource
          context
        ≡ policy_denied action
  upsert_policy-authorize deny candidate fits given plain calm =
      authorize_lem str_of fnmatch after p action resource context attributes given
      ∙ rw plain (rw calm (rw denied refl))
    where
      denied :
          any_row (applies str_of fnmatch after p action resource context attributes "deny") after
          ≡ true
      denied =
          upserted-any (applies str_of fnmatch after p action resource context attributes "deny")
            fresh b rows (rw candidate (rw fits (unfold policy_of in rw deny refl)))
