-- ===== src/Access/Json.antt =====
-- JSON values as Python objects: what policy.py reads and compares. Numbers are the integers.
use rag_llm.Prelude.{
  ℕ, String, Bool, true, false, not, ◌&&◌, ◌||◌, Option, none, some, ◌==◌, string_eq, nat_eq,
  is_empty, if◌then◌else◌, eqb,
}

mutual
  pub data Json : Type 0 where
    null : Json
    bool : Bool → Json
    num : ℕ → Json
    -- `negsuc n` is -(n + 1)
    negsuc : ℕ → Json
    str : String → Json
    arr : Items → Json
    obj : Fields → Json

  pub data Items : Type 0 where
    nil : Items
    item : Json → Items → Items

  pub data Fields : Type 0 where
    end : Fields
    field : String → Json → Fields → Fields

-- `data[key]`, `none` where `key not in data`
unfoldable pub lookup : String → Fields → Option Json
lookup k end = none
lookup k (field j v fs) = if j == k then some v else lookup k fs

-- `data.get(key)`
unfoldable pub get : String → Fields → Json
unfolding lookup
get k fs = elim (lookup k fs) [ none ↦ null | some v ↦ v ]

pub size : Fields → ℕ
size end = 0
size (field k v fs) = ℕ.suc (size fs)

-- `bool(value)`
unfoldable pub truthy : Json → Bool
truthy null = false
truthy (bool b) = b
truthy (num n) = not (eqb n 0)
truthy (negsuc n) = true
truthy (str s) = not (is_empty s)
truthy (arr nil) = false
truthy (arr (item v vs)) = true
truthy (obj end) = false
truthy (obj (field k v fs)) = true

-- A boolean is the integer 0 or 1 where it is compared with a number.
abbrev pub bit : Bool → ℕ
bit false = 0
bit true = 1

-- `left == right`; two objects are equal if they have as many keys and the same value at each.
unfoldable mutual
  pub equal : Json → Json → Bool
  equal null null = true
  equal (bool a) (bool b) = eqb (bit a) (bit b)
  equal (bool a) (num b) = eqb (bit a) b
  equal (num a) (bool b) = eqb a (bit b)
  equal (num a) (num b) = eqb a b
  equal (negsuc a) (negsuc b) = eqb a b
  equal (str a) (str b) = a == b
  equal (arr a) (arr b) = equal_items a b
  equal (obj a) (obj b) = eqb (size a) (size b) && equal_fields a b
  equal _ _ = false

  pub equal_items : Items → Items → Bool
  equal_items nil nil = true
  equal_items (item a as') (item b bs) = equal a b && equal_items as' bs
  equal_items _ _ = false

  pub equal_fields : Fields → Fields → Bool
  equal_fields end b = true
  equal_fields (field k v fs) b =
      elim (lookup k b) [ none ↦ false | some w ↦ equal v w ] && equal_fields fs b

-- `left in right` for a list
unfoldable pub mem_items : Json → Items → Bool
mem_items v nil = false
mem_items v (item w ws) = equal v w || mem_items v ws
