-- ===== src/Prelude/Texts.antt =====
-- What the program uses of Python's `str`, on the native text.
use Prim.Native.Nat.{ℕ, zero, suc, ◌-◌}
use Prim.Native.Char.{Char, code}
use Prim.Native.String.{String}
use mathlib.Core.Path.{◌≡◌, refl}
use mathlib.Core.Bool.{Bool, true, false, ◌&&◌, ◌||◌}
use mathlib.Core.Option.{Option, none, some}
use mathlib.Core.List.{List, [], ◌∷◌}
use rag_llm.Prelude.Tests.{leb, eqb, if◌then◌else◌}

-- `c.isspace()`: the code points that `str.strip` and `str.split` drop.
unfoldable pub is_space : Char → Bool
is_space c =
    let n = code c in
    (leb 9 n && leb n 13)
    || (leb 28 n && leb n 32)
    || eqb n 133
    || eqb n 160
    || eqb n 5760
    || (leb 8192 n && leb n 8202)
    || eqb n 8232
    || eqb n 8233
    || eqb n 8239
    || eqb n 8287
    || eqb n 12288

abbrev pub is_empty : String → Bool
is_empty String.[] = true
is_empty (String.◌∷◌ c s) = false

lstrip : String → String
lstrip String.[] = String.[]
lstrip (String.◌∷◌ c s) = let rest = lstrip s in if is_space c then rest else String.◌∷◌ c s

rstrip : String → String
rstrip String.[] = String.[]
rstrip (String.◌∷◌ c s) =
    let rest = rstrip s in if is_space c && is_empty rest then String.[] else String.◌∷◌ c rest

-- `value.strip()`
unfoldable pub strip : String → String
unfolding lstrip rstrip is_space
strip s = rstrip (lstrip s)

-- `value or default`, where the empty text is false.
abbrev pub or_default : String → String → String
or_default s d = if is_empty s then d else s

-- `value or None`
abbrev pub non_empty : String → Option String
non_empty s = if is_empty s then none else some s

-- `s[:n]`
unfoldable pub take_chars : ℕ → String → String
take_chars zero s = String.[]
take_chars (suc n) String.[] = String.[]
take_chars (suc n) (String.◌∷◌ c s) = String.◌∷◌ c (take_chars n s)

drop_chars : ℕ → String → String
drop_chars zero s = s
drop_chars (suc n) String.[] = String.[]
drop_chars (suc n) (String.◌∷◌ c s) = drop_chars n s

-- `len(s)`
unfoldable pub length_chars : String → ℕ
length_chars String.[] = 0
length_chars (String.◌∷◌ c s) = suc (length_chars s)

-- `s[-n:]` for `n > 0`
unfoldable pub take_last_chars : ℕ → String → String
unfolding drop_chars length_chars
take_last_chars n s = drop_chars (length_chars s - n) s

grow_first : Char → List String → List String
grow_first c [] = String.◌∷◌ c String.[] ∷ []
grow_first c (p ∷ ps) = String.◌∷◌ c p ∷ ps

-- `s.split(sep)` for a separator of one character, given by its code
unfoldable pub split_at : ℕ → String → List String
unfolding grow_first
split_at sep String.[] = String.[] ∷ []
split_at sep (String.◌∷◌ c s) =
    let rest = split_at sep s in if eqb (code c) sep then String.[] ∷ rest else grow_first c rest

split_path : split_at b'.' "a.bc." ≡ "a" ∷ "bc" ∷ "" ∷ []
unfolding split_at
split_path = refl

last_two : take_last_chars 2 "rag" ≡ "ag"
unfolding take_last_chars
last_two = refl

strip_both_ends : strip "  rag 1 " ≡ "rag 1"
unfolding strip
strip_both_ends = refl
