-- ===== src/Workspace/Sources/Bare.antt =====
-- The loop of `lookup_key` in `document_sources` (db_store.py).
use rag_llm.Prelude.{
  ℕ, zero, suc, ◌<◌, ◌≤◌, String, ◌≡◌, Bool, none, some, arith, length_chars, Option-cases, inl,
  inr,
}
use Prim.Native.Char.{Char}
use rag_llm.Workspace.Sources.{after_prefix, is_hex, shed, bare_name}

after_prefix-length :
    (f : Char → Bool) (n : ℕ) (s rest : String)
    → after_prefix f n s ≡ some rest
    → length_chars rest < length_chars s
unfolding after_prefix length_chars
after_prefix-length f zero String.[] rest h = absurd (cc)
after_prefix-length f zero (String.◌∷◌ c s) rest h = ground arith
after_prefix-length f (suc n) String.[] rest h = absurd (cc)
after_prefix-length f (suc n) (String.◌∷◌ c s) rest h =
    ground (arith, after_prefix-length f n s rest)

shed-IsBare :
    (fuel : ℕ) (name : String)
    → length_chars name ≤ fuel
    → after_prefix is_hex 32 (shed fuel name) ≡ none
unfolding shed
shed-IsBare zero name le = elim (Option-cases (after_prefix is_hex 32 name)) [
  | inl e ↦ e
  | inr (rest, e) ↦ absurd (omega (arith, after_prefix-length is_hex 32 name rest e))
]
shed-IsBare (suc fuel) name le = elim (Option-cases (after_prefix is_hex 32 name)) [
  | inl e ↦ rw (e, shed) e
  | inr (rest, e) ↦
      rw (e, shed)
        (shed-IsBare fuel rest (omega (arith, after_prefix-length is_hex 32 name rest e)))
]

-- The loop comes to an end: no name that it leaves starts with an upload's identity.
pub bare_name-IsBare : (name : String) → after_prefix is_hex 32 (bare_name name) ≡ none
unfolding bare_name
bare_name-IsBare name = shed-IsBare (length_chars name) name (omega arith)
