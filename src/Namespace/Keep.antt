-- ===== src/Namespace/Keep.antt =====
-- traefik_kop.go: which containers `keepContainer` keeps.
use traefik_kop.Prelude.{◌≡◌, ◌↔◌, ◌⊎◌, inl, inr, refl, true, List, [], ◌∷◌, arith, Bool-cases}
use traefik_kop.Text.{Str, elem}
use traefik_kop.Text.Equality.{eq_iff}
use traefik_kop.Docker.Types.{Container}
use traefik_kop.Namespace.{is_empty, namespaces, any_shared, keep_container}

-- A namespace that is configured and on the container.
abbrev pub Shared : List Str → List Str → Type 0
Shared ns of_container = (v : Str) × (elem v ns ≡ true) × (elem v of_container ≡ true)

any_shared-Shared : (ns cs : List Str) → any_shared ns cs ≡ true → Shared ns cs
unfolding any_shared elem
any_shared-Shared [] cs h = cc
any_shared-Shared (v ∷ ns) cs h = elim (Bool-cases (elem v cs)) [
  | inl e ↦ (v, ground (arith, eq_iff v v), e)
  | inr e ↦ let (w, m, n) = any_shared-Shared ns cs (ground arith) in (w, ground arith, n)
]

pub Shared-any_shared : (ns cs : List Str) → Shared ns cs → any_shared ns cs ≡ true
unfolding any_shared elem
Shared-any_shared [] cs (w, m, n) = cc
Shared-any_shared (v ∷ ns) cs (w, m, n) = elim (Bool-cases (elem w ns)) [
  | inl e ↦ ground (arith, Shared-any_shared ns cs (w, e, n))
  | inr e ↦ ground (arith, eq_iff w v)
]

is_empty-nil : (l : List Str) → is_empty l ≡ true → l ≡ []
unfolding is_empty
is_empty-nil [] h = refl
is_empty-nil (x ∷ xs) h = cc

-- A container is kept exactly where no namespace is configured and it has none, or where it has one
-- of the configured namespaces.
pub keep_container_iff :
    (ns : List Str) (c : Container)
    → (keep_container ns c ≡ true) ↔ (((ns ≡ []) × (namespaces c ≡ [])) ⊎ Shared ns (namespaces c))
unfolding keep_container is_empty
keep_container_iff ns c = (
  λ h. elim (Bool-cases (any_shared ns (namespaces c))) [
    | inl e ↦ inr (any_shared-Shared ns (namespaces c) e)
    | inr e ↦ inl (is_empty-nil ns (ground arith), is_empty-nil (namespaces c) (ground arith))
  ],
  λ u. elim u [
    | inl (e, f) ↦ rw (e, f, is_empty)
    | inr s ↦ ground (arith, Shared-any_shared ns (namespaces c) s)
  ],
)
