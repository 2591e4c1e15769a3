-- ===== src/Proxy/Listed.antt =====
-- docker_proxy.go: which containers `handleContainersList` lists.
use traefik_kop.Prelude.{
  ◌≡◌, ◌⊎◌, ◌↔◌, refl, ap, sym, subst, Bool, true, false, List, [], ◌∷◌, inl, inr, if◌then◌else◌,
}
use mathlib.Core.List.{Memᴰ}
use mathlib.Core.List.Memᴰ.{head, tail}
use traefik_kop.Prelude.Result.{ok}
use traefik_kop.Proxy.{
  DockerProxyServer, json, Summary, should_expose, filter_labels, exposed, respond,
  handle_containers_list,
}

member-if :
    {A : Type 0} (b : Bool) (x d : A) (rest : List A)
    → Memᴰ d (if b then x ∷ rest else rest)
    → ((d ≡ x) × (b ≡ true)) ⊎ Memᴰ d rest
member-if true x d rest (head e) = inl (e, refl)
member-if true x d rest (tail m) = inr m
member-if false x d rest m = inr m

if-member :
    {A : Type 0} (b : Bool) (d x : A) (rest : List A)
    → ((d ≡ x) × (b ≡ true)) ⊎ Memᴰ d rest
    → Memᴰ d (if b then x ∷ rest else rest)
if-member true d x rest (inl (e, seen)) = head e
if-member true d x rest (inr m) = tail m
if-member false d x rest (inl (e, seen)) = cc
if-member false d x rest (inr m) = m

module _ {R : Type 0} (s : DockerProxyServer) where
  -- a container as the proxy shows it
  unfoldable pub shown : Summary R → Summary R
  shown c = record c { labels = filter_labels s c.labels }

  pub listed-of :
      (l : List (Summary R)) (d : Summary R)
      → Memᴰ d (exposed s l)
      → (c : Summary R) × Memᴰ c l × (d ≡ shown c) × (should_expose s (shown c).labels ≡ true)
  unfolding exposed shown
  listed-of [] d m = elim m [ ]
  listed-of (c ∷ l) d m = elim (member-if _ (shown c) d (exposed s l) m) [
    | inl (e, seen) ↦ (c, head refl, e, seen)
    | inr later ↦ let (x, n, e, seen) = listed-of l d later in (x, tail n, e, seen)
  ]

  of-listed :
      (l : List (Summary R)) (c : Summary R)
      → Memᴰ c l
      → should_expose s (shown c).labels ≡ true
      → Memᴰ (shown c) (exposed s l)
  unfolding exposed shown
  of-listed [] c m e = elim m [ ]
  of-listed (x ∷ l) c (head q) e =
      if-member _ (shown c) (shown x) (exposed s l)
        (inl (ap shown q, subst (λ y. should_expose s (shown y).labels ≡ true) q e))
  of-listed (x ∷ l) c (tail m) e =
      if-member _ (shown c) (shown x) (exposed s l) (inr (of-listed l c m e))

  -- The proxy lists exactly the containers that it exposes, each with its filtered labels.
  pub handle_containers_list-exposed :
      (l : List (Summary R))
      → (out : List (Summary R)) × (handle_containers_list s (ok l) ≡ json out)
        × ((d : Summary R)
            → Memᴰ d out ↔ (
                (c : Summary R) × Memᴰ c l
                × (d ≡ shown c)
                × (should_expose s (filter_labels s c.labels) ≡ true)))
  unfolding handle_containers_list respond shown
  handle_containers_list-exposed l = (
    exposed s l,
    refl,
    λ d. (
      λ m. listed-of l d m,
      λ u.
          let (c, n, e, seen) = u in
          subst (λ x. Memᴰ x (exposed s l)) (sym e) (of-listed l c n seen),
    ),
  )
