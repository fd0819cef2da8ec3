-- ===== src/Cache.antt =====
-- ResponseCache of response_cache.py. Redis and the JSON texts are parameters: a client acts on a
-- state, and an exception of it is an error.
pub mod Laws
mod Examples
use Prim.Native.String
use rag_llm.Prelude.{
  ℕ, ◌+◌, ◌*◌, max, String, Bool, Option, none, some, List, [], ◌∷◌, ◌++◌, leb, length, is_empty,
  if◌then◌else◌,
}
use rag_llm.Failure.{Result, ok, err}
use rag_llm.Access.Json.{Json, obj, Fields}

-- The three calls of the client; `get` is none where the key is missing.
pub record Client (R : Type 0) : Type 0 where
  pub get : String → R → Result (Option String)
  pub setex : String → ℕ → String → R → Result (Unit {0}) × R
  pub delete : List String → R → Result (Unit {0}) × R

-- `_key(key)`
unfoldable pub key_of : String → String
key_of key = String.◌++◌ "rag:answer:v3:" key

-- `max(60, int(ttl_seconds or ...))`
abbrev pub ttl_of : ℕ → ℕ
ttl_of seconds = max 60 seconds

module _ {R : Type 0} (client : Client R) (loads : String → Result Json)
    (dumps : Json → Result String) (ttl_seconds : ℕ) where
  abbrev pub dict_or_none : Result Json → Option Fields
  dict_or_none (ok (obj fs)) = some fs
  dict_or_none _ = none

  abbrev pub decoded : Result (Option String) → Option Fields
  decoded (err e) = none
  decoded (ok none) = none
  decoded (ok (some raw)) = if is_empty raw then none else dict_or_none (loads raw)

  unfoldable pub get : String → R → Option Fields
  get key r = decoded (client.get (key_of key) r)

  abbrev pub store_text : String → Result String → R → R
  store_text key (err e) r = r
  store_text key (ok text) r = (client.setex (key_of key) (ttl_of ttl_seconds) text r).1

  unfoldable pub set : String → Fields → R → R
  set key value r = store_text key (dumps (obj value)) r

  abbrev pub is_full : List String → Bool
  is_full batch = leb 200 (length batch)

  -- What a raise of the client leaves, or what comes next.
  abbrev pub after_delete : Result (Unit {0}) × R → (R → R) → R
  after_delete (err e, r) next = r
  after_delete (ok tt, r) next = next r

  -- The loop over the keys that `scan_iter` yields, with its batch.
  unfoldable pub clear_from : List String → List String → R → R
  clear_from [] [] r = r
  clear_from (b ∷ batch) [] r = (client.delete (b ∷ batch) r).1
  clear_from batch (k ∷ keys) r =
      let flushed : R → R = clear_from [] keys in
      let kept : R = clear_from (batch ++ k ∷ []) keys r in
      if is_full (batch ++ k ∷ [])
      then after_delete (client.delete (batch ++ k ∷ []) r) flushed
      else kept

  unfoldable pub clear : List String → R → R
  unfolding clear_from
  clear keys r = clear_from [] keys r
