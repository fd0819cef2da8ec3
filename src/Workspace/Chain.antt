-- ===== src/Workspace/Chain.antt =====
-- The chain of versions of db_store.py: the order of versions, and the loop that links each
-- document of a family to the one that it supersedes.
pub mod Order
pub mod Predecessor
use Prim.Native.Char.{code}
use rag_llm.Prelude.{
  ℕ, String, Bool, true, false, not, ◌&&◌, Option, none, some, List, [], ◌∷◌, ◌==◌, string_eq,
  option_eq, ltb, is_some, is_empty, strip, if◌then◌else◌,
}
use rag_llm.Workspace.Table.{select, modify}
use rag_llm.Workspace.Row.{Document}

-- `a < b` for tuples of integers.
unfoldable pub lt_key : List ℕ → List ℕ → Bool
lt_key [] [] = false
lt_key [] (y ∷ ys) = true
lt_key (x ∷ xs) [] = false
lt_key (x ∷ xs) (y ∷ ys) =
    let rest = lt_key xs ys in if ltb x y then true else if ltb y x then false else rest

-- `a < b` for identifiers, by their code points.
unfoldable pub lt_text : String → String → Bool
lt_text String.[] String.[] = false
lt_text String.[] (String.◌∷◌ d t) = true
lt_text (String.◌∷◌ c s) String.[] = false
lt_text (String.◌∷◌ c s) (String.◌∷◌ d t) =
    let rest = lt_text s t in
    if ltb (code c) (code d) then true else if ltb (code d) (code c) then false else rest

-- `tuple(row.get("version_sort_key") or ())`
abbrev pub key_or_empty : Option (List ℕ) → List ℕ
key_or_empty none = []
key_or_empty (some k) = k

abbrev pub key_of : Document → List ℕ
key_of d = key_or_empty d.version.version_sort_key

-- `ORDER BY version_sort_key ASC, created_at ASC, id ASC`
unfoldable pub precedes : Document → Document → Bool
precedes d e =
    if lt_key (key_of d) (key_of e)
    then true
    else if lt_key (key_of e) (key_of d)
    then false
    else if ltb d.created_at e.created_at
    then true
    else if ltb e.created_at d.created_at
    then false
    else not (lt_text e.id d.id)

unfoldable pub insert_version : Document → List Document → List Document
insert_version d [] = d ∷ []
insert_version d (e ∷ es) =
    let rest = insert_version d es in if precedes d e then d ∷ e ∷ es else e ∷ rest

unfoldable pub order_versions : List Document → List Document
order_versions [] = []
order_versions (d ∷ ds) = insert_version d (order_versions ds)

-- `owner_subject, project_id, chat_id, family, kind`
pub record Group : Type 0 where
  pub owner_subject : Option String
  pub project_id : Option String
  pub chat_id : Option String
  pub family : String
  pub kind : String

-- `str(record.get(key) or "").strip()`
abbrev pub stripped_or_empty : Option String → String
stripped_or_empty none = ""
stripped_or_empty (some s) = strip s

-- The empty list is false, too.
abbrev pub has_key : Option (List ℕ) → Bool
has_key none = false
has_key (some []) = false
has_key (some (x ∷ xs)) = true

unfoldable pub version_group : Document → Option Group
version_group d =
    let family = stripped_or_empty d.version.document_family in
    let kind = stripped_or_empty d.version.version_kind in
    if is_empty family
    then none
    else if is_empty kind
    then none
    else if has_key d.version.version_sort_key
    then some (record {
      owner_subject = d.owner_subject;
      project_id = d.project_id;
      chat_id = d.chat_id;
      family = family;
      kind = kind;
    })
    else none

-- The `WHERE` of `_rebuild_document_version_chain`.
unfoldable pub in_group : Group → Document → Bool
in_group g d =
    not (is_some d.deleted_at)
    && d.owner_subject == g.owner_subject
    && d.project_id == g.project_id
    && d.chat_id == g.chat_id
    && d.version.document_family == some g.family
    && d.version.version_kind == some g.kind
    && is_some d.version.version_sort_key

-- The three variables of the loop.
pub record Chain : Type 0 where
  pub predecessor_id : Option String
  pub predecessor_key : Option (List ℕ)
  pub previous_version_id : Option String

abbrev pub start : Chain
start = record { predecessor_id = none; predecessor_key = none; previous_version_id = none }

-- `predecessor_key is not None and current_key > predecessor_key`
abbrev pub is_newer : List ℕ → Option (List ℕ) → Bool
is_newer k none = false
is_newer k (some p) = lt_key p k

-- `predecessor_key is None or current_key > predecessor_key`
abbrev pub is_step : List ℕ → Option (List ℕ) → Bool
is_step k none = true
is_step k (some p) = lt_key p k

-- What the row is linked to.
unfoldable pub link_of : Document → Chain → Option String
link_of d c =
    if is_newer (key_of d) c.predecessor_key then c.previous_version_id else c.predecessor_id

unfoldable pub advance : Document → Chain → Chain
advance d c =
    let id = link_of d c in
    if is_step (key_of d) c.predecessor_key
    then record {
      predecessor_id = id;
      predecessor_key = some (key_of d);
      previous_version_id = some d.id;
    }
    else record c { predecessor_id = id }

unfoldable pub set_link : Option String → Document → Document
set_link id d = record d { supersedes_document_id = id }

-- One round: `UPDATE documents SET supersedes_document_id = %s WHERE id = %s`.
unfoldable pub link_versions : Chain → List Document → List Document → List Document
unfolding link_of advance set_link
link_versions c [] table = table
link_versions c (d ∷ ds) table =
    link_versions (advance d c) ds (modify (λ e. e.id) d.id (set_link (link_of d c)) table)

unfoldable pub rebuild_document_version_chain : Group → List Document → List Document
unfolding order_versions insert_version precedes in_group link_versions
rebuild_document_version_chain g table =
    link_versions start (order_versions (select (in_group g) table)) table
