-- ===== src/Text/Equality.antt =====
-- Equality of strings, and membership in a list of strings.
use traefik_kop.Prelude.{◌≡◌, ◌≢◌, refl, ◌↔◌, true, false, ◌||◌, List, [], ◌∷◌, ◌++◌, arith}
use traefik_kop.Text.{Str, str_eq, elem, sort, insert_sorted}

pub eq_iff : (a b : Str) → (str_eq a b ≡ true) ↔ (a ≡ b)
unfolding str_eq
eq_iff [] [] = (λ h. refl, λ h. refl)
eq_iff [] (d ∷ ds) = (λ h. cc, λ h. cc)
eq_iff (c ∷ cs) [] = (λ h. cc, λ h. cc)
eq_iff (c ∷ cs) (d ∷ ds) = (λ h. ground (arith, eq_iff cs ds), λ h. ground (arith, eq_iff cs ds))

pub eq_refl : (a : Str) → str_eq a a ≡ true
eq_refl a = (eq_iff a a).1 refl

pub elem-append : (a : Str) (xs ys : List Str) → elem a (xs ++ ys) ≡ elem a xs || elem a ys
unfolding elem
elem-append a [] ys = refl
elem-append a (x ∷ xs) ys = ground (arith, elem-append a xs ys)

elem-insert_sorted :
    (a s : Str) (ws : List Str) → elem a (insert_sorted s ws) ≡ str_eq a s || elem a ws
unfolding elem insert_sorted
elem-insert_sorted a s [] = refl
elem-insert_sorted a s (w ∷ ws) = ground (arith, elem-insert_sorted a s ws)

-- Sorting keeps the members.
pub elem-sort : (a : Str) (ws : List Str) → elem a (sort ws) ≡ elem a ws
unfolding elem sort
elem-sort a [] = refl
elem-sort a (w ∷ ws) = ground (arith, elem-insert_sorted a w (sort ws), elem-sort a ws)

pub nonempty : {s : Str} → str_eq s [] ≡ false → s ≢ []
nonempty {s} e h = ground (arith, eq_iff s [])
