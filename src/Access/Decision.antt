-- ===== src/Access/Decision.antt =====
-- What `PolicyProvider.decide` (policy.py) and `authorize` (security.py) decide, by the rows alone.
use rag_llm.Prelude.{
  String, ◌≡◌, refl, Bool, true, false, ◌&&◌, ◌||◌, Option, none, some, List, [], ◌∷◌, arith, ◌==◌,
  string_eq, ◌∙◌, inl, inr, Option-cases, if◌then◌else◌,
}
use rag_llm.Access.Json.{Json, Fields}
use rag_llm.Access.Policy.{
  PolicyRow, Principal, authorized, policy_denied, permission_required, raised, is_candidate,
  candidates, insert_row, order_rows, active_policies, contains, row_applies, add_effect, effects,
  combine, facts, resource_of, decide_on, decide, is_superuser, judge, authorize,
}

abbrev pub any_row : (PolicyRow → Bool) → List PolicyRow → Bool
any_row f [] = false
any_row f (r ∷ rs) = f r || any_row f rs

any_row-insert_row :
    (f : PolicyRow → Bool) (r : PolicyRow) (rs : List PolicyRow)
    → any_row f (insert_row r rs) ≡ (f r || any_row f rs)
unfolding insert_row
any_row-insert_row f r [] = refl
any_row-insert_row f r (q ∷ rs) = ground (arith, any_row-insert_row f r rs)

any_row-order_rows :
    (f : PolicyRow → Bool) (rs : List PolicyRow) → any_row f (order_rows rs) ≡ any_row f rs
unfolding order_rows
any_row-order_rows f [] = refl
any_row-order_rows f (r ∷ rs) =
    ground (arith, any_row-insert_row f r (order_rows rs), any_row-order_rows f rs)

any_row-candidates :
    (f : PolicyRow → Bool) (action : String) (rs : List PolicyRow)
    → any_row f (candidates action rs) ≡ any_row (λ r. is_candidate action r && f r) rs
unfolding candidates
any_row-candidates f action [] = refl
any_row-candidates f action (r ∷ rs) = ground (arith, any_row-candidates f action rs)

abbrev pub holds : Option Bool → Bool
holds none = false
holds (some b) = b

abbrev pub fails : Option Bool → Bool
fails none = true
fails (some b) = false

module _ (str_of : Json → String) (fnmatch : String → String → Bool) (data' : Json)
    (resource : String) where
  -- The row has the effect, its pattern fits the resource and its condition holds.
  abbrev pub has_effect : String → PolicyRow → Bool
  has_effect e r = holds (row_applies str_of fnmatch data' resource r) && e == r.effect

  -- Its pattern fits, and its condition raises.
  abbrev pub raises : PolicyRow → Bool
  raises r = fails (row_applies str_of fnmatch data' resource r)

  abbrev is_none : {A : Type 0} → Option A → Bool
  is_none none = true
  is_none (some a) = false

  effects-raised :
      (rs : List PolicyRow) → is_none (effects str_of fnmatch data' resource rs) ≡ any_row raises rs
  unfolding effects add_effect
  effects-raised [] = refl
  effects-raised (r ∷ rs) = ground (arith, effects-raised rs)

  effects-members :
      (rs : List PolicyRow) (es : List String) (e : String)
      → effects str_of fnmatch data' resource rs ≡ some es
      → contains e es ≡ any_row (has_effect e) rs
  unfolding effects add_effect contains
  effects-members [] es e h = ground arith
  effects-members (r ∷ rs) es e h = elim (Option-cases (effects str_of fnmatch data' resource rs)) [
    | inl x ↦ ground arith
    | inr (fs, x) ↦ ground (arith, effects-members rs fs e x)
  ]

  -- An exception of any condition is raised; else a row that denies wins, then one that allows.
  abbrev pub verdict_of : List PolicyRow → Option (Option Bool)
  verdict_of rs =
      if any_row raises rs
      then none
      else some (
          if any_row (has_effect "deny") rs
          then some false
          else if any_row (has_effect "allow") rs
          then some true
          else none)

  decide_on_lem : (rs : List PolicyRow) → decide_on str_of fnmatch data' resource rs ≡ verdict_of rs
  unfolding decide_on combine
  decide_on_lem rs = elim (Option-cases (effects str_of fnmatch data' resource rs)) [
    | inl x ↦ ground (arith, effects-raised rs)
    | inr (es, x) ↦
        ground (
          arith,
          effects-raised rs,
          effects-members rs es "deny" x,
          effects-members rs es "allow" x,
        )
  ]

module _ (str_of : Json → String) (fnmatch : String → String → Bool) (rows : List PolicyRow)
    (p : Principal) (action resource : String) (context attributes : Fields) where
  -- A row that concerns the action and has the effect on this request.
  abbrev pub applies : String → PolicyRow → Bool
  applies e r =
      is_candidate action r
      && has_effect str_of fnmatch (facts p resource context attributes) resource e r

  abbrev pub stumbles : PolicyRow → Bool
  stumbles r =
      is_candidate action r
      && raises str_of fnmatch (facts p resource context attributes) resource r

  active-any :
      (f : PolicyRow → Bool)
      → any_row f (active_policies true action rows)
        ≡ any_row (λ r. is_candidate action r && f r) rows
  unfolding active_policies
  active-any f = any_row-order_rows f (candidates action rows) ∙ any_row-candidates f action rows

  -- The decision on a request, by the active rows for the action in whatever order of priority: an
  -- exception if a condition raises one, else a denial if any row denies, else a permission if any
  -- row allows, else none.
  pub decide_lem :
      resource_of context ≡ some attributes
      → decide str_of fnmatch true rows p action resource context ≡ (
          if any_row stumbles rows
          then none
          else some (
              if any_row (applies "deny") rows
              then some false
              else if any_row (applies "allow") rows
              then some true
              else none))
  unfolding decide
  decide_lem given =
      rw (given, decide)
        (decide_on_lem str_of fnmatch (facts p resource context attributes) resource
            (active_policies true action rows)
          ∙ cc (
            active-any (raises str_of fnmatch (facts p resource context attributes) resource),
            active-any
                (has_effect str_of fnmatch (facts p resource context attributes) resource "deny"),
            active-any
                (has_effect str_of fnmatch (facts p resource context attributes) resource "allow"),
          ))

  -- The verdict on a request, in full: a superuser passes; else an exception of a condition is
  -- raised; else a denying row denies, whatever else allows; else the subject's own permission or
  -- an allowing row is needed.
  pub authorize_lem :
      resource_of context ≡ some attributes
      → authorize str_of fnmatch true rows p action resource context ≡ (
          if is_superuser p
          then authorized
          else if any_row stumbles rows
          then raised
          else if any_row (applies "deny") rows
          then policy_denied action
          else if contains action p.permissions || any_row (applies "allow") rows
          then authorized
          else permission_required action)
  unfolding authorize judge
  authorize_lem given = ground (arith, decide_lem given)
