-- ===== src/Namespace/Filter.antt =====
-- traefik_kop.go: what `filterServices` leaves of a configuration.
use traefik_kop.Prelude.{
  ◌≡◌, refl, ◌∙◌, Bool, true, false, not, ◌&&◌, ◌||◌, Option, none, some, List, [], ◌∷◌, arith,
  Bool-cases, inl, inr, if◌then◌else◌,
}
use traefik_kop.Prelude.Result.{Result, ok, err, panic}
use traefik_kop.Prelude.Exec.{Exec, attempt}
use traefik_kop.Prelude.Exec.Returns.{Returns, Returns-pure, Returns-lift, Returns-bind}
use traefik_kop.Text.{Str, str, str_eq}
use traefik_kop.Text.Equality.{eq_iff}
use traefik_kop.Text.Dict.{Dict, lookup, delete, has, is_distinct, lookup-delete}
use traefik_kop.Dynamic.{Router, Server, StreamServer, Section, Service, Configuration}
use traefik_kop.Docker.Types.{Container}
use traefik_kop.Docker.Names.{strip_docker}
use traefik_kop.Namespace.{
  kept, delete_unless, router_named, router_in, get_router_of_service, with_router, prune,
  filter_section, filter_services,
}

-- what is left of a map when the entries that a test refuses are deleted one by one
unfoldable pub left_of : {V : Type 0} → (Str → V → Bool) → Dict V → Dict V → Dict V
left_of test [] d = d
left_of test ((k, v) ∷ rest) d = left_of test rest (delete_unless (test k v) k d)

-- the entry of a name, where the test lets it stay
unfoldable pub if_kept : {V : Type 0} → (Str → V → Bool) → Str → Option V → Option V
if_kept test k none = none
if_kept test k (some v) = if test k v then some v else none

module _ {V : Type 0} (test : Str → V → Bool) where
  refused : Str → Dict V → Bool
  refused k [] = false
  refused k ((j, v) ∷ rest) = (str_eq j k && not (test j v)) || refused k rest

  lookup-left_of :
      (k : Str) (entries d : Dict V)
      → lookup k (left_of test entries d) ≡ (if refused k entries then none else lookup k d)
  unfolding left_of refused delete_unless
  lookup-left_of k [] d = refl
  lookup-left_of k ((j, v) ∷ rest) d = elim (Bool-cases (test j v)) [
    | inl e ↦ rw (e, delete_unless) (ground (arith, lookup-left_of k rest d))
    | inr e ↦
        rw (e, delete_unless)
          (ground (arith, lookup-left_of k rest (delete j d), lookup-delete j k d))
  ]

  refused-absent : (k : Str) (m : Dict V) → has k m ≡ false → refused k m ≡ false
  unfolding refused has lookup
  refused-absent k [] h = refl
  refused-absent k ((j, v) ∷ m) h = ground (arith, refused-absent k m)

  refused-lookup :
      (k : Str) (m : Dict V)
      → is_distinct m ≡ true
      → (if refused k m then none else lookup k m) ≡ if_kept test k (lookup k m)
  unfolding refused is_distinct lookup if_kept
  refused-lookup k [] h = refl
  refused-lookup k ((j, v) ∷ m) h = elim (Bool-cases (str_eq j k)) [
    | inl e ↦ ground (arith, eq_iff j k, refused-absent k m)
    | inr e ↦ ground (arith, refused-lookup k m)
  ]

  -- Going once over the map itself lets exactly the entries stay that pass the test.
  pub left_of_self :
      (k : Str) (m : Dict V)
      → is_distinct m ≡ true
      → lookup k (left_of test m m) ≡ if_kept test k (lookup k m)
  left_of_self k m h = lookup-left_of k m m ∙ refused-lookup k m h

module _ {C : Type 0} (find : Str → Str → Str → Exec C Container) (P : C → Type 0)
    (answer : Str → Str → Str → Option Container) where
  -- In the states of `P`, which a search does not leave, `answer` is what is found: a container, or
  -- nothing where the search ends with an error.
  abbrev pub Answers : Type 0
  Answers =
      (type service router : Str)
      → Returns P (attempt (find type service router)) (answer type service router)

-- does the container of these names keep what asks for it?
unfoldable pub keeps_names :
    List Str → (Str → Str → Str → Option Container) → Str → Str × Str → Bool
keeps_names ns answer type names = kept ns (answer type names.0 names.1)

-- which services and which routers stay in a section
module _ {R : Type 0} (ns : List Str) (answer : Str → Str → Str → Option Container)
    (type : Str) where
  unfoldable pub service_stays : {S : Type 0} → Section R S → Str → Service R S → Bool
  unfolding keeps_names
  service_stays s name v =
      keeps_names ns answer type (name, router_named (strip_docker name) s.routers)

  unfoldable pub router_stays : Str → Router R → Bool
  unfolding keeps_names
  router_stays name r = keeps_names ns answer type (r.service, name)

  unfoldable pub filtered : {S : Type 0} → Section R S → Section R S
  unfolding left_of service_stays router_stays
  filtered s = record s {
    services = left_of (service_stays s) s.services s.services;
    routers = left_of router_stays s.routers s.routers;
  }

  unfoldable pub filtered_of : {S : Type 0} → Option (Section R S) → Option (Section R S)
  unfolding filtered
  filtered_of none = none
  filtered_of (some s) = some (filtered s)

with_router-ok :
    (service router : Str) (r : Result Str)
    → r ≡ ok router
    → with_router service r ≡ ok (service, router)
unfolding with_router
with_router-ok service router (ok x) h = ground arith
with_router-ok service router (err x) h = cc
with_router-ok service router panic h = cc

module _ {C : Type 0} (find : Str → Str → Str → Exec C Container) (P : C → Type 0)
    (answer : Str → Str → Str → Option Container) (answers : Answers find P answer) (ns : List Str)
    (type : Str) where
  prune-Returns :
      {V : Type 0} (query : Str → V → Result (Str × Str)) (q : Str → V → Str × Str)
      → ((k : Str) (v : V) → query k v ≡ ok (q k v))
      → (entries d : Dict V)
      → Returns P
          (prune find ns type query entries d)
          (left_of (λ k v. keeps_names ns answer type (q k v)) entries d)
  unfolding prune left_of keeps_names
  prune-Returns query q e [] d = Returns-pure d
  prune-Returns query q e ((k, v) ∷ rest) d =
      Returns-bind _ _ _ _ (Returns-lift _ (q k v) (e k v))
        (Returns-bind _ _ _ _ (answers type (q k v).0 (q k v).1) (prune-Returns query q e rest _))

  module _ {R S : Type 0} where
    pub section-Returns :
        (o : Option (Section R S)) (router_of : Str → Result Str)
        → ((s : Section R S) (name : Str)
            → o ≡ some s
            → router_of name ≡ ok (router_named (strip_docker name) s.routers))
        → Returns P (filter_section find ns type router_of o) (filtered_of ns answer type o)
    unfolding filter_section filtered_of filtered service_stays router_stays
    section-Returns none router_of e = Returns-pure none
    section-Returns (some s) router_of e =
        Returns-bind _ _ _ _
          (prune-Returns _ (λ name _. (name, router_named (strip_docker name) s.routers))
            (λ name v. with_router-ok name _ _ (e s name refl)) s.services s.services)
          (Returns-bind _ _ _ _
            (prune-Returns _ (λ name r. (r.service, name)) (λ name r. refl) s.routers s.routers)
            (Returns-pure _))

module _ {R : Type 0} where
  router-http :
      (conf : Configuration R) (s : Section R (Server R)) (name : Str)
      → conf.http ≡ some s
      → get_router_of_service conf name (str "http")
        ≡ ok (router_named (strip_docker name) s.routers)
  unfolding get_router_of_service str str_eq router_in
  router-http conf s name h = rw h

  router-tcp :
      (conf : Configuration R) (s : Section R (StreamServer R)) (name : Str)
      → conf.tcp ≡ some s
      → get_router_of_service conf name (str "tcp")
        ≡ ok (router_named (strip_docker name) s.routers)
  unfolding get_router_of_service str str_eq router_in
  router-tcp conf s name h = rw h

  router-udp :
      (conf : Configuration R) (s : Section R (StreamServer R)) (name : Str)
      → conf.udp ≡ some s
      → get_router_of_service conf name (str "udp")
        ≡ ok (router_named (strip_docker name) s.routers)
  unfolding get_router_of_service str str_eq router_in
  router-udp conf s name h = rw h

  unfoldable pub filtered_services :
      List Str → (Str → Str → Str → Option Container) → Configuration R → Configuration R
  unfolding filtered_of
  filtered_services ns answer conf = record conf {
    http = filtered_of ns answer (str "http") conf.http;
    tcp = filtered_of ns answer (str "tcp") conf.tcp;
    udp = filtered_of ns answer (str "udp") conf.udp;
  }

module _ {C R : Type 0} (find : Str → Str → Str → Exec C Container) (P : C → Type 0)
    (answer : Str → Str → Str → Option Container) (answers : Answers find P answer)
    (ns : List Str) where
  pub filter_services-Returns :
      (conf : Configuration R)
      → Returns P (filter_services find ns conf) (filtered_services ns answer conf)
  unfolding filter_services filtered_services
  filter_services-Returns conf =
      Returns-bind _ _ _ _
        (section-Returns find P answer answers ns _ conf.http _ (λ s name. router-http conf s name))
        (Returns-bind _ _ _ _
          (section-Returns find P answer answers ns _ conf.tcp _ (λ s name. router-tcp conf s name))
          (Returns-bind _ _ _ _
            (section-Returns find P answer answers ns _ conf.udp _
              (λ s name. router-udp conf s name))
            (Returns-pure _)))
