-- ===== src/Docker/Cache/Upper.antt =====
-- docker.go: upper-case letters in the names that `findContainerByServiceName` looks for.
use traefik_kop.Prelude.{
  ℕ, ◌≡◌, ◌≢◌, ◌⊎◌, inl, inr, refl, Bool, true, false, ◌&&◌, ◌||◌, Option, none, some, List, [],
  ◌∷◌, ◌++◌, leb, arith,
}
use traefik_kop.Prelude.Result.{ok}
use traefik_kop.Prelude.Exec.{lift, gets, modify, ◌>>=◌}
use traefik_kop.Prelude.Exec.Rules.{
  Keeps, Keeps-pure, Keeps-lift, Keeps-gets, Keeps-wrap, Keeps-bind, Yields, Yields-bind_Keeps,
}
use traefik_kop.Text.{Str, str, has_prefix, to_lower}
use traefik_kop.Text.Equality.{eq_iff}
use traefik_kop.Text.Dict.{Dict, insert}
use traefik_kop.Docker.Types.{Container}
use traefik_kop.Docker.Names.{strip_docker}
use traefik_kop.Docker.Cache.{
  Daemon, DockerCache, lower_keys, normalize, forget_expired, inspect_all, list_containers,
  populate, service_needle, router_needle, label_matches, any_label, search_details, found,
  find_container_by_service_name,
}
use traefik_kop.Docker.Cache.Covers.{known-Keeps}

-- A to Z
unfoldable pub is_upper : ℕ → Bool
is_upper c = leb 65 c && leb c 90

unfoldable pub has_upper : Str → Bool
has_upper [] = false
has_upper (c ∷ cs) = is_upper c || has_upper cs

unfoldable pub any_upper : Dict Str → Bool
any_upper [] = false
any_upper ((key, v) ∷ l) = has_upper key || any_upper l

unfoldable pub details_upper : Dict Container → Bool
details_upper [] = false
details_upper ((id, c) ∷ d) = any_upper c.labels || details_upper d

abbrev IsLower : DockerCache → Type 0
IsLower dc = details_upper dc.details ≡ false

has_upper-append : (p s : Str) → has_upper (p ++ s) ≡ has_upper p || has_upper s
unfolding has_upper
has_upper-append [] s = refl
has_upper-append (c ∷ cs) s = ground (arith, has_upper-append cs s)

has_upper-prefix : (p s : Str) → has_prefix p s ≡ true → has_upper p ≡ true → has_upper s ≡ true
unfolding has_upper has_prefix
has_upper-prefix [] s h u = cc
has_upper-prefix (c ∷ cs) [] h u = cc
has_upper-prefix (c ∷ cs) (x ∷ xs) h u = ground (arith, has_upper-prefix cs xs)

module _ (other : ℕ → ℕ) (never_upper : (c : ℕ) → is_upper (other c) ≡ false) where
  has_upper-to_lower : (s : Str) → has_upper (to_lower other s) ≡ false
  unfolding has_upper to_lower is_upper
  has_upper-to_lower [] = refl
  has_upper-to_lower (c ∷ cs) = ground (arith, has_upper-to_lower cs, never_upper c)

  any_upper-insert :
      (k v : Str) (m : Dict Str)
      → has_upper k ≡ false
      → any_upper m ≡ false
      → any_upper (insert k v m) ≡ false
  unfolding any_upper insert
  any_upper-insert k v [] h a = ground arith
  any_upper-insert k v ((j, w) ∷ m) h a = ground (arith, any_upper-insert k v m h)

  any_upper-lower_keys :
      (l out : Dict Str) → any_upper out ≡ false → any_upper (lower_keys other l out) ≡ false
  unfolding lower_keys
  any_upper-lower_keys [] out h = h
  any_upper-lower_keys ((k, v) ∷ l) out h =
      any_upper-lower_keys l _ (any_upper-insert _ v out (has_upper-to_lower k) h)

details_upper-insert :
    (id : Str) (c : Container) (d : Dict Container)
    → any_upper c.labels ≡ false
    → details_upper d ≡ false
    → details_upper (insert id c d) ≡ false
unfolding details_upper insert
details_upper-insert id c [] h a = ground arith
details_upper-insert id c ((j, x) ∷ d) h a = ground (arith, details_upper-insert id c d h)

needle-upper :
    (a b c name : Str)
    → has_upper name ≡ true
    → has_upper (a ++ (b ++ (c ++ (name ++ str ".")))) ≡ true
needle-upper a b c name h = ground (
  arith,
  has_upper-append a (b ++ (c ++ (name ++ str "."))),
  has_upper-append b (c ++ (name ++ str ".")),
  has_upper-append c (name ++ str "."),
  has_upper-append name (str "."),
)

-- A service needs an upper-case letter to be missed, and a router too, unless there is none.
abbrev pub IsUpper : Str → Str → Type 0
IsUpper service router = (has_upper service ≡ true) × ((router ≡ []) ⊎ (has_upper router ≡ true))

any_label-upper :
    (type service router : Str) (l : Dict Str)
    → IsUpper service router
    → any_upper l ≡ false
    → any_label type service router l ≡ false
unfolding any_upper any_label label_matches service_needle router_needle
any_label-upper type service router [] u h = refl
any_label-upper type service router ((key, v) ∷ l) (u, inl e) h = ground (
  arith,
  eq_iff router [],
  has_upper-prefix _ key _ (needle-upper (str "traefik.") type (str ".services.") service u),
  any_label-upper type service router l (u, inl e),
)
any_label-upper type service router ((key, v) ∷ l) (u, inr e) h = ground (
  arith,
  has_upper-prefix _ key _ (needle-upper (str "traefik.") type (str ".services.") service u),
  has_upper-prefix _ key _ (needle-upper (str "traefik.") type (str ".routers.") router e),
  any_label-upper type service router l (u, inr e),
)

search-upper :
    (type service router : Str) (d : Dict Container)
    → IsUpper service router
    → details_upper d ≡ false
    → search_details type service router d ≡ none
unfolding details_upper search_details
search-upper type service router [] u h = refl
search-upper type service router ((id, c) ∷ d) u h =
    ground
      (arith, any_label-upper type service router c.labels u, search-upper type service router d u)

module _ (d : Daemon) (never_upper : (c : ℕ) → is_upper (d.lower_other c) ≡ false) where
  normalize-lower : (c : Container) → any_upper (normalize d.lower_other c).labels ≡ false
  unfolding normalize any_upper
  normalize-lower c = any_upper-lower_keys d.lower_other never_upper c.labels [] refl

  put-IsLower :
      (id : Str) (c : Container)
      → Keeps IsLower
          (modify (λ dc. record dc { details = insert id (normalize d.lower_other c) dc.details }))
  unfolding modify
  put-IsLower id c = record {
    at = λ dc h. details_upper-insert id _ dc.details (normalize-lower c) h;
  }

  inspect-IsLower : (l : List Str) → Keeps IsLower (inspect_all d l)
  unfolding inspect_all
  inspect-IsLower [] = Keeps-pure _
  inspect-IsLower (id ∷ l) = Keeps-bind _ _ (Keeps-gets _) (λ o.
      Keeps-bind _ _ (Keeps-wrap _ _ (known-Keeps d id o))
        (λ c. Keeps-bind _ _ (put-IsLower id c) (λ _. inspect-IsLower l)))

  set_list-IsLower : (l : List Str) → Keeps IsLower (modify (λ dc. record dc { list = some l }))
  unfolding modify
  set_list-IsLower l = record { at = λ dc h. h }

  list-IsLower : (o : Option (List Str)) → Keeps IsLower (list_containers d o)
  unfolding list_containers
  list-IsLower none =
      Keeps-bind _ _ (Keeps-wrap _ _ (Keeps-lift _))
        (λ l. Keeps-bind _ _ (set_list-IsLower l) (λ _. Keeps-pure _))
  list-IsLower (some l) = Keeps-pure _

  forget-IsLower : (now : ℕ) → Keeps IsLower (modify (forget_expired now))
  unfolding modify forget_expired details_upper
  forget-IsLower now = record { at = λ dc h. ground arith }

  expires-IsLower : (t : ℕ) → Keeps IsLower (modify (λ dc. record dc { expires = t }))
  unfolding modify
  expires-IsLower t = record { at = λ dc h. h }

  populate-IsLower : (now later : ℕ) → Keeps IsLower (populate d now later)
  unfolding populate
  populate-IsLower now later = Keeps-bind _ _ (forget-IsLower now) (λ _.
      Keeps-bind _ _ (Keeps-gets _) (λ o.
        Keeps-bind _ _ (list-IsLower o)
          (λ l. Keeps-bind _ _ (inspect-IsLower l) (λ _. expires-IsLower _))))

  found-none :
      (type service : Str) (o : Option Container) (c : Container)
      → o ≡ none
      → found type service o ≢ ok c
  unfolding found
  found-none type service none c e h = cc
  found-none type service (some x) c e h = cc

  found-upper :
      (type service router : Str)
      → IsUpper service router
      → Yields IsLower
          (gets (λ (dc : DockerCache). search_details type service router dc.details) >>= λ o.
            lift (found type service o))
          (λ c dc. ⊥)
  unfolding ◌>>=◌ gets lift
  found-upper type service router u = record {
    at =
        λ dc h c e. found-none type service _ c (search-upper type service router dc.details u h) e;
  }

  -- Where lower-casing never makes an upper-case letter, a service whose name has one is not found,
  -- unless its router has a name without one: the labels are lower-cased, and the names are not.
  pub find-misses_upper :
      (now later : ℕ) (type service router : Str) (dc : DockerCache) (c : Container)
      → details_upper dc.details ≡ false
      → IsUpper (strip_docker service) (strip_docker router)
      → (find_container_by_service_name d now later type service router dc).0 ≢ ok c
  unfolding find_container_by_service_name
  find-misses_upper now later type service router dc c h u e =
      (Yields-bind_Keeps (populate d now later) _ (populate-IsLower now later)
          (λ _. found-upper type (strip_docker service) (strip_docker router) u)).at
        dc h c e
