-- ===== src/Text/Dict.antt =====
-- A Go map with string keys, as an association list.
use traefik_kop.Prelude.{
  ◌≡◌, refl, inl, inr, Bool, true, false, not, ◌&&◌, Option, none, some, List, [], ◌∷◌, arith,
  Option-cases, if◌then◌else◌,
}
use traefik_kop.Text.{Str, str_eq, elem}
use traefik_kop.Text.Equality.{eq_iff}

abbrev pub Dict {ℓ} : Type ℓ → Type ℓ
Dict V = List (Str × V)

module _ {ℓ} {V : Type ℓ} where
  unfoldable pub lookup : Str → Dict V → Option V
  lookup key [] = none
  lookup key ((other, value) ∷ rest) = if str_eq other key then some value else lookup key rest

  -- `m[k] = v`
  unfoldable pub insert : Str → V → Dict V → Dict V
  insert key value [] = (key, value) ∷ []
  insert key value ((other, old) ∷ rest) =
      if str_eq other key then (key, value) ∷ rest else (other, old) ∷ insert key value rest

  -- `delete(m, k)`
  unfoldable pub delete : Str → Dict V → Dict V
  delete k [] = []
  delete k ((j, v) ∷ m) = let rest = delete k m in if str_eq j k then rest else (j, v) ∷ rest

  unfoldable pub keys : Dict V → List Str
  keys [] = []
  keys ((k, v) ∷ m) = k ∷ keys m

  unfoldable pub has : Str → Dict V → Bool
  unfolding lookup
  has k m = elim (lookup k m) [ none ↦ false | some v ↦ true ]

  -- Each key stands once, as in a Go map.
  unfoldable pub is_distinct : Dict V → Bool
  unfolding has
  is_distinct [] = true
  is_distinct ((k, v) ∷ m) = not (has k m) && is_distinct m

  pub lookup-insert :
      (key at : Str) (value : V) (m : Dict V)
      → lookup at (insert key value m) ≡ (if str_eq key at then some value else lookup at m)
  unfolding lookup insert
  lookup-insert key at value [] = refl
  lookup-insert key at value ((i, w) ∷ m) =
      ground (arith, lookup-insert key at value m, eq_iff key at, eq_iff i key, eq_iff i at)

  pub lookup-delete :
      (k j : Str) (m : Dict V) → lookup j (delete k m) ≡ (if str_eq k j then none else lookup j m)
  unfolding lookup delete
  lookup-delete k j [] = ground arith
  lookup-delete k j ((i, v) ∷ m) =
      ground (arith, eq_iff k j, eq_iff i k, eq_iff i j, lookup-delete k j m)

  pub elem-keys : (k : Str) (m : Dict V) → elem k (keys m) ≡ has k m
  unfolding elem keys has
  elem-keys k [] = refl
  elem-keys k ((j, v) ∷ m) = ground (arith, elem-keys k m, eq_iff j k, eq_iff k j)

-- `m[k]` where the values are texts: a missing key reads as an empty text
unfoldable pub text_at : Str → Dict Str → Str
unfolding lookup
text_at k m = elim (lookup k m) [ none ↦ [] | some v ↦ v ]

pub has-lookup {ℓ} :
    {V : Type ℓ} (k : Str) (m : Dict V) (v : V) → lookup k m ≡ some v → has k m ≡ true
unfolding has
has-lookup k m v h = ground arith

pub has-some {ℓ} :
    {V : Type ℓ} (k : Str) (m : Dict V) → has k m ≡ true → (v : V) × (lookup k m ≡ some v)
unfolding has
has-some k m h = elim (Option-cases (lookup k m)) [ inl e ↦ cc | inr (v, e) ↦ (v, e) ]

pub text_at-lookup : (k : Str) (m : Dict Str) (v : Str) → lookup k m ≡ some v → text_at k m ≡ v
unfolding text_at
text_at-lookup k m v h = rw (h, text_at)
