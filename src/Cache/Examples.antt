-- ===== src/Cache/Examples.antt =====
-- Concrete inputs for the theorems of the cache.
use rag_llm.Prelude.{
  String, ◌≡◌, refl, Option, none, some, [], ◌∷◌, ◌==◌, string_eq, if◌then◌else◌, Bool-cases, inl,
  inr,
}
use rag_llm.Failure.{Result, ok}
use rag_llm.Access.Json.{Json, obj, str, Fields, field, end}
use rag_llm.Cache.{Client, get, clear, key_of}
use rag_llm.Cache.Laws.{is_among, clear_lem, Deletes}

-- A store in memory.
abbrev Memory : Type 0
Memory = String → Option String

abbrev memory : Client Memory
memory = record {
  get = λ k m. ok (m k);
  setex = λ k ttl v m. (ok tt, λ j. if k == j then some v else m j);
  delete = λ keys m. (ok tt, λ k. if is_among k keys then none else m k);
}

abbrev reply : Fields
reply = field "answer" (str "42") end

abbrev loads : String → Result Json
loads text = ok (obj reply)

abbrev dumps : Json → Result String
dumps v = ok "{\"answer\":\"42\"}"

memory-Deletes : Deletes memory loads dumps 3600
memory-Deletes keys m = (
  (λ k. if is_among k keys then none else m k),
  refl,
  (λ k. elim (Bool-cases (is_among k keys)) [ inl e ↦ rw e refl | inr e ↦ rw e refl ]),
)

clear_lem_example :
    get memory loads dumps 3600 "q"
      (clear memory loads dumps 3600 (key_of "q" ∷ []) (λ k. some "1"))
    ≡ (if is_among (key_of "q") (key_of "q" ∷ [])
        then none
        else get memory loads dumps 3600 "q" (λ k. some "1"))
clear_lem_example =
    clear_lem memory loads dumps 3600 memory-Deletes (key_of "q" ∷ []) "q" (λ k. some "1")
