-- ===== src/Workspace/Chain/Order.antt =====
-- The order of versions is total, and the listing of a family follows it.
use rag_llm.Prelude.{
  ℕ, String, ◌≡◌, ◌≢◌, refl, sym, true, false, List, [], ◌∷◌, arith, ◌⊎◌, inl, inr, Member,
  Bool-cases,
}
use rag_llm.Workspace.Table.{IsKeyed}
use rag_llm.Workspace.Row.{Document}
use rag_llm.Workspace.Chain.{lt_key, key_of, precedes, insert_version, order_versions}

pub lt_key_irrefl : (a : List ℕ) → lt_key a a ≡ false
unfolding lt_key
lt_key_irrefl [] = refl
lt_key_irrefl (x ∷ xs) = ground (arith, lt_key_irrefl xs)

pub lt_key_trans : (a b c : List ℕ) → lt_key a b ≡ true → lt_key b c ≡ true → lt_key a c ≡ true
unfolding lt_key
lt_key_trans [] [] c h k = cc
lt_key_trans [] (y ∷ b) [] h k = cc
lt_key_trans [] (y ∷ b) (z ∷ c) h k = refl
lt_key_trans (x ∷ a) [] c h k = cc
lt_key_trans (x ∷ a) (y ∷ b) [] h k = cc
lt_key_trans (x ∷ a) (y ∷ b) (z ∷ c) h k = ground (arith, lt_key_trans a b c)

pub lt_key_total : (a b : List ℕ) → lt_key a b ≡ false → lt_key b a ≡ false → a ≡ b
unfolding lt_key
lt_key_total [] [] h k = refl
lt_key_total [] (y ∷ b) h k = cc
lt_key_total (x ∷ a) [] h k = cc
lt_key_total (x ∷ a) (y ∷ b) h k = ground (arith, lt_key_total a b)

-- The keys of a list do not fall.
abbrev pub NotBelow : List ℕ → List Document → Type 0
NotBelow k ds = (e : Document) → Member e ds → lt_key (key_of e) k ≡ false

abbrev pub IsAscending : List Document → Type 0
IsAscending [] = Unit
IsAscending (d ∷ ds) = NotBelow (key_of d) ds × IsAscending ds

pub lt_key_cotrans : (a b c : List ℕ) → lt_key a b ≡ false → lt_key b c ≡ false → lt_key a c ≡ false
unfolding lt_key
lt_key_cotrans [] [] [] h k = refl
lt_key_cotrans [] [] (z ∷ c) h k = cc
lt_key_cotrans [] (y ∷ b) c h k = cc
lt_key_cotrans (x ∷ a) b [] h k = refl
lt_key_cotrans (x ∷ a) [] (z ∷ c) h k = cc
lt_key_cotrans (x ∷ a) (y ∷ b) (z ∷ c) h k = ground (arith, lt_key_cotrans a b c)

Member-insert_version :
    (e d : Document) (es : List Document) → Member e (insert_version d es) → (e ≡ d) ⊎ Member e es
unfolding insert_version
Member-insert_version e d [] m = m
Member-insert_version e d (f ∷ es) m = ground (arith, Member-insert_version e d es)

insert_version-Member :
    (e d : Document) (es : List Document) → (e ≡ d) ⊎ Member e es → Member e (insert_version d es)
unfolding insert_version
insert_version-Member e d [] m = m
insert_version-Member e d (f ∷ es) m = ground (arith, insert_version-Member e d es)

-- A listing has the rows that it was made from.
pub Member-order_versions :
    (e : Document) (ds : List Document) → Member e (order_versions ds) → Member e ds
unfolding order_versions
Member-order_versions e [] m = m
Member-order_versions e (d ∷ ds) m = elim (Member-insert_version e d (order_versions ds) m) [
  | inl p ↦ inl p
  | inr n ↦ inr (Member-order_versions e ds n)
]

pub order_versions-Member :
    (e : Document) (ds : List Document) → Member e ds → Member e (order_versions ds)
unfolding order_versions
order_versions-Member e (d ∷ ds) (inl p) = insert_version-Member e d (order_versions ds) (inl p)
order_versions-Member e (d ∷ ds) (inr m) =
    insert_version-Member e d (order_versions ds) (inr (order_versions-Member e ds m))
order_versions-Member e [] m = m

NotBelow-insert_version :
    (k : List ℕ) (d : Document) (es : List Document)
    → lt_key (key_of d) k ≡ false
    → NotBelow k es
    → NotBelow k (insert_version d es)
NotBelow-insert_version k d es h all e m = elim (Member-insert_version e d es m) [
  | inl p ↦ rw p h
  | inr n ↦ all e n
]

not-above : (a b : List ℕ) → lt_key a b ≡ true → lt_key b a ≡ false
not-above a b h = elim (Bool-cases (lt_key b a)) [
  | inl k ↦ absurd (cc (lt_key_trans a b a h k, lt_key_irrefl a))
  | inr k ↦ k
]

precedes-key : (d e : Document) → precedes d e ≡ true → lt_key (key_of e) (key_of d) ≡ false
unfolding precedes
precedes-key d e h = ground (arith, not-above (key_of d) (key_of e))

follows-key : (d e : Document) → precedes d e ≡ false → lt_key (key_of d) (key_of e) ≡ false
unfolding precedes
follows-key d e h = ground arith

insert_version-IsAscending :
    (d : Document) (es : List Document) → IsAscending es → IsAscending (insert_version d es)
unfolding insert_version
insert_version-IsAscending d [] h = ((λ e m. absurd m), tt)
insert_version-IsAscending d (e ∷ es) h = elim (Bool-cases (precedes d e)) [
  | inl p ↦ rw p (below p, h)
  | inr p ↦ rw p (
    NotBelow-insert_version (key_of e) d es (follows-key d e p) h.0,
    insert_version-IsAscending d es h.1,
  )
]
  where
    below : precedes d e ≡ true → NotBelow (key_of d) (e ∷ es)
    below p f (inl q) = rw q (precedes-key d e p)
    below p f (inr m) =
        lt_key_cotrans (key_of f) (key_of e) (key_of d) (h.0 f m) (precedes-key d e p)

pub order_versions-IsAscending : (ds : List Document) → IsAscending (order_versions ds)
unfolding order_versions
order_versions-IsAscending [] = tt
order_versions-IsAscending (d ∷ ds) =
    insert_version-IsAscending d (order_versions ds) (order_versions-IsAscending ds)

abbrev pub key_id : Document → String
key_id d = d.id

insert_version-IsKeyed :
    (d : Document) (es : List Document)
    → ((e : Document) → Member e es → e.id ≢ d.id)
    → IsKeyed key_id es
    → IsKeyed key_id (insert_version d es)
unfolding insert_version
insert_version-IsKeyed d [] h k = (h, k)
insert_version-IsKeyed d (e ∷ es) h k = elim (Bool-cases (precedes d e)) [
  | inl p ↦ rw p (h, k)
  | inr p ↦ rw p (above, insert_version-IsKeyed d es (λ f m. h f (inr m)) k.1)
]
  where
    above : (f : Document) → Member f (insert_version d es) → f.id ≢ e.id
    above f m = elim (Member-insert_version f d es m) [
      | inl q ↦ rw q (λ same. h e (inl refl) (sym same))
      | inr n ↦ k.0 f n
    ]

pub order_versions-IsKeyed :
    (ds : List Document) → IsKeyed key_id ds → IsKeyed key_id (order_versions ds)
unfolding order_versions
order_versions-IsKeyed [] k = tt
order_versions-IsKeyed (d ∷ ds) k =
    insert_version-IsKeyed d (order_versions ds) (λ e m. k.0 e (Member-order_versions e ds m))
      (order_versions-IsKeyed ds k.1)
