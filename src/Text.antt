-- ===== src/Text.antt =====
-- Go strings and the functions of the standard library that the program calls on them. A string is
-- the list of its code points (of its bytes, where it is ASCII); `str` reads a literal.
pub mod Equality
pub mod Dict
pub mod Decimal
pub mod Prefix
pub mod Parts
use Prim.Native.Char.{code}
use traefik_kop.Prelude.{
  ℕ, ◌+◌, String, Bool, true, false, not, ◌&&◌, ◌||◌, Option, none, some, List, [], ◌∷◌, ◌++◌, ◌==◌,
  leb, ltb, if◌then◌else◌,
}
use mathlib.Core.List.{reverse}

abbrev pub Str : Type 0
Str = List ℕ

-- A literal of the source. It stays shut, so that goals show the literal.
unfoldable pub str : String → Str
str String.[] = []
str (String.◌∷◌ c s) = code c ∷ str s

-- `a == b`
unfoldable pub str_eq : Str → Str → Bool
str_eq [] [] = true
str_eq [] (d ∷ ds) = false
str_eq (c ∷ cs) [] = false
str_eq (c ∷ cs) (d ∷ ds) = (c == d) && str_eq cs ds

-- `slices.Contains`
unfoldable pub elem : Str → List Str → Bool
elem a [] = false
elem a (b ∷ bs) = str_eq a b || elem a bs

-- `strings.HasPrefix(s, prefix)`, the prefix first
unfoldable pub has_prefix : Str → Str → Bool
has_prefix [] s = true
has_prefix (c ∷ cs) [] = false
has_prefix (c ∷ cs) (d ∷ ds) = (c == d) && has_prefix cs ds

-- what follows the prefix, where there is one
unfoldable pub after : Str → Str → Option Str
after [] s = some s
after (c ∷ cs) [] = none
after (c ∷ cs) (d ∷ ds) = if c == d then after cs ds else none

-- `strings.TrimPrefix(s, prefix)`, the prefix first
unfoldable pub trim_prefix : Str → Str → Str
unfolding after
trim_prefix p s = elim (after p s) [ none ↦ s | some rest ↦ rest ]

-- `strings.HasSuffix(s, suffix)`, the suffix first
unfoldable pub has_suffix : Str → Str → Bool
has_suffix p s = has_prefix (reverse p) (reverse s)

-- `strings.TrimSuffix(s, suffix)`, the suffix first: the walk stops where only the suffix is left
unfoldable pub trim_suffix : Str → Str → Str
unfolding str_eq
trim_suffix p [] = []
trim_suffix p (c ∷ cs) = if str_eq (c ∷ cs) p then [] else c ∷ trim_suffix p cs

-- `strings.Contains(s, sub)`, the part first
unfoldable pub contains : Str → Str → Bool
unfolding has_prefix
contains p [] = has_prefix p []
contains p (c ∷ cs) = has_prefix p (c ∷ cs) || contains p cs

-- `strings.ReplaceAll(s, a, b)` for one-character `a` and `b`
unfoldable pub replace_all : ℕ → ℕ → Str → Str
replace_all a b [] = []
replace_all a b (c ∷ cs) = (if c == a then b else c) ∷ replace_all a b cs

-- `unicode.IsSpace`
unfoldable pub is_space : ℕ → Bool
is_space c =
    (leb 9 c && leb c 13)
    || (c == 32)
    || (c == 0x85)
    || (c == 0xa0)
    || (c == 0x1680)
    || (leb 0x2000 c && leb c 0x200a)
    || (c == 0x2028)
    || (c == 0x2029)
    || (c == 0x202f)
    || (c == 0x205f)
    || (c == 0x3000)

unfoldable pub trim_left : Str → Str
unfolding is_space
trim_left [] = []
trim_left (c ∷ cs) = if is_space c then trim_left cs else c ∷ cs

-- `strings.TrimSpace`
unfoldable pub trim_space : Str → Str
unfolding trim_left
trim_space s = reverse (trim_left (reverse (trim_left s)))

drop_leading : ℕ → Str → Str
drop_leading q [] = []
drop_leading q (c ∷ cs) = if c == q then drop_leading q cs else c ∷ cs

-- `strings.Trim(s, q)` for a one-character cutset
unfoldable pub trim : ℕ → Str → Str
unfolding drop_leading
trim q s = reverse (drop_leading q (reverse (drop_leading q s)))

abbrev pub to_front : ℕ → List Str → List Str
to_front c [] = (c ∷ []) ∷ []
to_front c (w ∷ ws) = (c ∷ w) ∷ ws

-- `strings.Split(s, sep)` for a one-character separator
unfoldable pub split : ℕ → Str → List Str
split sep [] = [] ∷ []
split sep (c ∷ cs) = let rest = split sep cs in if c == sep then [] ∷ rest else to_front c rest

-- `strings.Join(words, sep)`
unfoldable pub join : Str → List Str → Str
join sep [] = []
join sep (w ∷ []) = w
join sep (w ∷ v ∷ ws) = w ++ (sep ++ join sep (v ∷ ws))

-- `a <= b` on strings
unfoldable pub str_le : Str → Str → Bool
str_le [] b = true
str_le (c ∷ cs) [] = false
str_le (c ∷ cs) (d ∷ ds) = ltb c d || ((c == d) && str_le cs ds)

insert_sorted : Str → List Str → List Str
unfolding str_le
insert_sorted s [] = s ∷ []
insert_sorted s (w ∷ ws) = if str_le s w then s ∷ w ∷ ws else w ∷ insert_sorted s ws

-- `sort.Strings`
unfoldable pub sort : List Str → List Str
unfolding insert_sorted
sort [] = []
sort (s ∷ ws) = insert_sorted s (sort ws)

-- `strings.ToLower`; `other` is what it makes of a character that is not ASCII
unfoldable pub to_lower : (ℕ → ℕ) → Str → Str
to_lower other [] = []
to_lower other (c ∷ cs) =
    (if leb 65 c && leb c 90 then c + 32 else if ltb c 128 then c else other c) ∷ to_lower other cs
