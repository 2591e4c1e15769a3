-- ===== src/Text/Parts.antt =====
-- Where a character stands in a string, and what stands before and after it.
use traefik_kop.Prelude.{
  ℕ, ◌≡◌, refl, Bool, false, ◌||◌, Option, none, some, [], ◌∷◌, ◌++◌, ◌==◌, arith, if◌then◌else◌,
}
use traefik_kop.Text.{Str}

-- `strings.IndexByte(s, c) >= 0`
unfoldable pub has_char : ℕ → Str → Bool
has_char c [] = false
has_char c (x ∷ xs) = (x == c) || has_char c xs

-- what stands before and after the last `c`
unfoldable pub split_last : ℕ → Str → Option (Str × Str)
split_last c [] = none
split_last c (x ∷ xs) = elim (split_last c xs) [
  | some parts ↦ some (x ∷ parts.0, parts.1)
  | none ↦ if x == c then some ([], xs) else none
]

-- `strings.Cut(s, c)` for one character; where it is absent, all stands before
unfoldable pub cut : ℕ → Str → Str × Str
cut c [] = ([], [])
cut c (x ∷ xs) = let rest = cut c xs in if x == c then ([], xs) else (x ∷ rest.0, rest.1)

-- what stands before the first `c`, and what begins with it
unfoldable pub span : ℕ → Str → Str × Str
span c [] = ([], [])
span c (x ∷ xs) = let rest = span c xs in if x == c then ([], x ∷ xs) else (x ∷ rest.0, rest.1)

pub split_last-none : (c : ℕ) (s : Str) → has_char c s ≡ false → split_last c s ≡ none
unfolding has_char split_last
split_last-none c [] h = refl
split_last-none c (x ∷ xs) h = ground (arith, split_last-none c xs)

pub split_last-append :
    (c : ℕ) (a b : Str) → has_char c b ≡ false → split_last c (a ++ (c ∷ b)) ≡ some (a, b)
unfolding split_last
split_last-append c [] b h = ground (arith, split_last-none c b h)
split_last-append c (x ∷ xs) b h = ground (arith, split_last-append c xs b h)

pub cut-none : (c : ℕ) (s : Str) → has_char c s ≡ false → cut c s ≡ (s, [])
unfolding has_char cut
cut-none c [] h = refl
cut-none c (x ∷ xs) h = ground (arith, cut-none c xs)

pub span-append : (c : ℕ) (a b : Str) → has_char c a ≡ false → span c (a ++ (c ∷ b)) ≡ (a, c ∷ b)
unfolding has_char span
span-append c [] b h = ground arith
span-append c (x ∷ xs) b h = ground (arith, span-append c xs b)

pub span-none : (c : ℕ) (s : Str) → has_char c s ≡ false → span c s ≡ (s, [])
unfolding has_char span
span-none c [] h = refl
span-none c (x ∷ xs) h = ground (arith, span-none c xs)
