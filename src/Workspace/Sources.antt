-- ===== src/Workspace/Sources.antt =====
-- `document_sources` of db_store.py: the uploads that the names of retrieved sources stand for.
-- `base_name` is `Path(text).name` and `casefold` is `str.casefold`. The dict is a list of its items;
-- the order of the set of names is that of the list.
pub mod Bare
pub mod Lookup
mod Examples
use rag_llm.Prelude.{
  ℕ, zero, suc, String, Bool, true, not, ◌&&◌, ◌||◌, Option, none, some, List, [], ◌∷◌, map, any,
  leb, eqb, ◌==◌, string_eq, strip, is_empty, length_chars, is_some, if◌then◌else◌,
}
use Prim.Native.Char.{Char, code}
use rag_llm.Workspace.Table.{select}
use rag_llm.Workspace.Scope.{Scope}
use rag_llm.Workspace.Row.{Document, Tables}
use rag_llm.Workspace.Document.{
  DocumentRecord, document_record, is_live_document, is_shared_or_own, given,
}

-- The condition of the query.
unfoldable pub is_source : Scope → Document → Bool
unfolding is_live_document is_shared_or_own
is_source scope d =
    is_live_document d
    && d.status == "ready"
    && (if given scope.subject && not scope.is_admin then is_shared_or_own scope d else true)

-- `[0-9a-f]`
unfoldable pub is_lower_hex : Char → Bool
is_lower_hex c = (leb 48 (code c) && leb (code c) 57) || (leb 97 (code c) && leb (code c) 102)

-- `[0-9a-fA-F]`
unfoldable pub is_hex : Char → Bool
unfolding is_lower_hex
is_hex c = is_lower_hex c || (leb 65 (code c) && leb (code c) 70)

-- What follows `n` characters of the class and an underscore at the start.
unfoldable pub after_prefix : (Char → Bool) → ℕ → String → Option String
after_prefix f zero String.[] = none
after_prefix f zero (String.◌∷◌ c s) = if eqb (code c) 95 then some s else none
after_prefix f (suc n) String.[] = none
after_prefix f (suc n) (String.◌∷◌ c s) =
    let rest = after_prefix f n s in if f c then rest else none

-- `while re.match(...): name = name[33:]`
unfoldable pub shed : ℕ → String → String
unfolding after_prefix
shed zero name = name
shed (suc fuel) name = elim (after_prefix is_hex 32 name) [
  | none ↦ name
  | some rest ↦ shed fuel rest
]

-- Each round drops characters, so that the length is enough fuel.
unfoldable pub bare_name : String → String
unfolding shed
bare_name name = shed (length_chars name) name

-- `matches[0]` if there is just one
unfoldable pub only : {A : Type 0} → List A → Option A
only [] = none
only (a ∷ []) = some a
only (a ∷ b ∷ rest) = none

-- `resolved[candidate] = matches[0]`
unfoldable pub link : {A : Type 0} → String → Option A → List (String × A) → List (String × A)
link candidate none rest = rest
link candidate (some r) rest = (candidate, r) ∷ rest

-- `{str(name).strip() for name in source_names if str(name).strip()}`
unfoldable pub names_of : List String → List String
names_of [] = []
names_of (n ∷ ns) =
    let rest = names_of ns in
    if is_empty (strip n) || any (λ k. k == strip n) rest then rest else strip n ∷ rest

module _ (base_name casefold : String → String) where
  unfoldable pub lookup_key : String → String
  unfolding bare_name
  lookup_key value = casefold (bare_name (base_name value))

  unfoldable pub candidate_name : String → String
  candidate_name candidate = casefold (base_name candidate)

  -- The name is an indexed upload's, not one for people.
  unfoldable pub is_upload : String → Bool
  unfolding candidate_name
  is_upload candidate = is_some (after_prefix is_lower_hex 32 (candidate_name candidate))

  unfoldable pub refers : String → DocumentRecord → Bool
  unfolding candidate_name lookup_key
  refers candidate r =
      if is_upload candidate
      then candidate_name r.row.source_path == candidate_name candidate
      else lookup_key candidate == lookup_key r.row.source_path
        || lookup_key candidate == lookup_key r.row.file_name

  unfoldable pub resolve : List DocumentRecord → List String → List (String × DocumentRecord)
  unfolding only link
  resolve rows [] = []
  resolve rows (n ∷ ns) = link n (only (select (refers n) rows)) (resolve rows ns)

  unfoldable pub document_sources : Scope → List String → Tables → List (String × DocumentRecord)
  unfolding resolve
  document_sources scope source_names s =
      resolve (map document_record (select (is_source scope) s.documents)) (names_of source_names)
