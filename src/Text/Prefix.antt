-- ===== src/Text/Prefix.antt =====
-- Prefixes of strings.
use traefik_kop.Prelude.{◌≡◌, refl, true, [], ◌∷◌, ◌++◌, arith}
use traefik_kop.Text.{Str, has_prefix}

-- A prefix is found in front of anything.
pub has_prefix-append : (p s : Str) → has_prefix p (p ++ s) ≡ true
unfolding has_prefix
has_prefix-append [] s = refl
has_prefix-append (c ∷ cs) s = ground (arith, has_prefix-append cs s)

-- A string with a prefix is the prefix and a rest.
pub split_at_prefix : (p s : Str) → has_prefix p s ≡ true → (r : Str) × (s ≡ p ++ r)
unfolding has_prefix
split_at_prefix [] s h = (s, refl)
split_at_prefix (c ∷ cs) [] h = cc
split_at_prefix (c ∷ cs) (d ∷ ds) h =
    let (r, e) = split_at_prefix cs ds (ground arith) in (r, ground arith)

pub has_prefix-weaken : (p q s : Str) → has_prefix (p ++ q) s ≡ true → has_prefix p s ≡ true
unfolding has_prefix
has_prefix-weaken [] q s h = refl
has_prefix-weaken (c ∷ cs) q [] h = h
has_prefix-weaken (c ∷ cs) q (d ∷ ds) h = ground (arith, has_prefix-weaken cs q ds)
