-- ===== src/Namespace/Comma.antt =====
-- util.go: a comma at the end of a list of namespaces.
use traefik_kop.Prelude.{
  ℕ, ◌≡◌, refl, Bool, true, false, List, [], ◌∷◌, ◌++◌, map, ◌==◌, arith, sym, subst, Bool-cases,
  inl, inr,
}
use traefik_kop.Text.{Str, str, str_eq, elem, split, to_front, trim_space, trim_left}
use traefik_kop.Text.Equality.{eq_iff}
use traefik_kop.Text.Dict.{text_at}
use traefik_kop.Docker.Types.{Container}
use traefik_kop.Namespace.{split_string_arr, namespaces, keep_container}
use traefik_kop.Namespace.Keep.{Shared-any_shared}

-- is there an empty text after the first?
later_empty : List Str → Bool
later_empty [] = false
later_empty (w ∷ ws) = elem [] ws

later-to_front : (c : ℕ) (l : List Str) → later_empty l ≡ true → later_empty (to_front c l) ≡ true
unfolding later_empty
later-to_front c [] h = cc
later-to_front c (w ∷ ws) h = h

later-elem : (l : List Str) → later_empty l ≡ true → elem [] l ≡ true
unfolding later_empty elem
later-elem [] h = cc
later-elem (w ∷ ws) h = ground arith

split-comma : (s : Str) → later_empty (split 44 (s ++ (44 ∷ []))) ≡ true
unfolding split later_empty elem str_eq
split-comma [] = refl
split-comma (c ∷ cs) = elim (Bool-cases (c == 44)) [
  | inl e ↦ rw e (later-elem (split 44 (cs ++ (44 ∷ []))) (split-comma cs))
  | inr e ↦ rw e (later-to_front c (split 44 (cs ++ (44 ∷ []))) (split-comma cs))
]

trim_nil : trim_space [] ≡ []
unfolding trim_space trim_left
trim_nil = refl

trim_empty : (w : Str) → str_eq [] w ≡ true → str_eq [] (trim_space w) ≡ true
trim_empty w h =
    subst (λ v. str_eq [] (trim_space v) ≡ true) ((eq_iff [] w).0 h)
      ((eq_iff [] (trim_space [])).1 (sym trim_nil))

elem-trimmed : (l : List Str) → elem [] l ≡ true → elem [] (map trim_space l) ≡ true
unfolding elem
elem-trimmed [] h = cc
elem-trimmed (w ∷ ws) h = ground (arith, trim_empty w, elem-trimmed ws)

trailing_comma : (s : Str) → str_eq (s ++ (44 ∷ [])) [] ≡ false
unfolding str_eq
trailing_comma [] = refl
trailing_comma (c ∷ cs) = refl

split_string_arr-comma :
    (t s : Str) → trim_space t ≡ s ++ (44 ∷ []) → elem [] (split_string_arr t) ≡ true
unfolding split_string_arr
split_string_arr-comma t s h =
    rw (h, trailing_comma s)
      (elem-trimmed (split 44 (s ++ (44 ∷ [])))
        (later-elem (split 44 (s ++ (44 ∷ []))) (split-comma s)))

-- A container whose list of namespaces ends with a comma is kept where the configured namespaces
-- have an empty one, whatever other namespaces the two lists have.
pub keep_container-comma :
    (ns : List Str) (c : Container) (s : Str)
    → trim_space (text_at (str "kop.namespace") c.labels) ≡ s ++ (44 ∷ [])
    → elem [] ns ≡ true
    → keep_container ns c ≡ true
unfolding keep_container namespaces
keep_container-comma ns c s h m = ground (
  arith,
  Shared-any_shared ns (namespaces c)
      ([], m, split_string_arr-comma (text_at (str "kop.namespace") c.labels) s h),
)
