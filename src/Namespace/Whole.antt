-- ===== src/Namespace/Whole.antt =====
-- traefik_kop.go: what `filterServices` leaves of a configuration is as whole as it was, and each
-- service of a whole configuration has its router looked up.
use traefik_kop.Prelude.{
  ◌≡◌, ◌≢◌, refl, Bool, true, false, Option, none, some, List, [], ◌∷◌, Bool-cases, inl, inr,
  if◌then◌else◌,
}
use traefik_kop.Prelude.Result.{ok}
use traefik_kop.Text.{Str, str, str_eq}
use traefik_kop.Text.Dict.{Dict, delete}
use traefik_kop.Dynamic.{Server, Service, Section, Configuration}
use traefik_kop.Docker.Types.{Container}
use traefik_kop.Docker.Names.{strip_docker}
use traefik_kop.Namespace.{delete_unless, router_in, get_router_of_service}
use traefik_kop.Namespace.Filter.{left_of, filtered_of, filtered_services}
use traefik_kop.Addresses.Moved.{AllBalanced}
use traefik_kop.Addresses.Ends.{AllLoaded, Holding, IsWhole, HasSections}

module _ {V : Type 0} (Q : Dict V → Type 0)
    (shrinks : (k : Str) (d : Dict V) → Q d → Q (delete k d)) where
  unless-keeps : (b : Bool) (k : Str) (d : Dict V) → Q d → Q (delete_unless b k d)
  unfolding delete_unless
  unless-keeps true k d q = q
  unless-keeps false k d q = shrinks k d q

  left_of-keeps : (test : Str → V → Bool) (entries d : Dict V) → Q d → Q (left_of test entries d)
  unfolding left_of
  left_of-keeps test [] d q = q
  left_of-keeps test ((k, v) ∷ rest) d q = left_of-keeps test rest _ (unless-keeps (test k v) k d q)

module _ {R : Type 0} where
  delete-balanced :
      (k : Str) (d : Dict (Service R (Server R))) → AllBalanced d → AllBalanced (delete k d)
  unfolding delete
  delete-balanced k [] h = h
  delete-balanced k ((j, svc) ∷ d) (b, h) = elim (Bool-cases (str_eq j k)) [
    | inl e ↦ rw e (delete-balanced k d h)
    | inr e ↦ rw e (b, delete-balanced k d h)
  ]

  delete-loaded :
      {S : Type 0} (k : Str) (d : Dict (Service R S)) → AllLoaded d → AllLoaded (delete k d)
  unfolding delete
  delete-loaded k [] h = h
  delete-loaded k ((j, svc) ∷ d) (b, h) = elim (Bool-cases (str_eq j k)) [
    | inl e ↦ rw e (delete-loaded k d h)
    | inr e ↦ rw e (b, delete-loaded k d h)
  ]

  filtered_of-Holding :
      {S : Type 0} (Q : Dict (Service R S) → Type 0)
      → ((k : Str) (d : Dict (Service R S)) → Q d → Q (delete k d))
      → (ns : List Str) (answer : Str → Str → Str → Option Container) (type : Str)
      → (o : Option (Section R S)) → Holding Q o
      → Holding Q (filtered_of ns answer type o)
  unfolding filtered_of
  filtered_of-Holding Q shrinks ns answer type none h = h
  filtered_of-Holding Q shrinks ns answer type (some s) h =
      left_of-keeps Q shrinks _ s.services s.services h

  pub filtered_services-IsWhole :
      (ns : List Str) (answer : Str → Str → Str → Option Container) (conf : Configuration R)
      → IsWhole conf
      → IsWhole (filtered_services ns answer conf)
  unfolding filtered_services
  filtered_services-IsWhole ns answer conf (http, tcp, udp) = (
    filtered_of-Holding AllBalanced delete-balanced ns answer _ conf.http http,
    filtered_of-Holding AllLoaded delete-loaded ns answer _ conf.tcp tcp,
    filtered_of-Holding AllLoaded delete-loaded ns answer _ conf.udp udp,
  )

  Holding-there :
      {S : Type 0} (Q : Dict (Service R S) → Type 0) (o : Option (Section R S))
      → Holding Q o
      → o ≢ none
  Holding-there Q none h e = h
  Holding-there Q (some s) h e = cc

  pub IsWhole-HasSections : (conf : Configuration R) → IsWhole conf → HasSections conf
  IsWhole-HasSections conf (http, tcp, udp) = (
    Holding-there AllBalanced conf.http http,
    Holding-there AllLoaded conf.tcp tcp,
    Holding-there AllLoaded conf.udp udp,
  )

  router_in-total :
      {S : Type 0} (name : Str) (o : Option (Section R S))
      → o ≢ none
      → (r : Str) × (router_in name o ≡ ok r)
  unfolding router_in
  router_in-total name none h = absurd (h refl)
  router_in-total name (some s) h = (_, refl)

  pub get_router_of_service_total :
      (conf : Configuration R)
      → HasSections conf
      → (name type : Str) → (r : Str) × (get_router_of_service conf name type ≡ ok r)
  unfolding get_router_of_service
  get_router_of_service_total conf (http, tcp, udp) name type =
      choose (str_eq type (str "http")) (str_eq type (str "tcp")) (str_eq type (str "udp"))
    where
      choose :
          (a b c : Bool)
          → (r : Str) × ((if a
                then router_in (strip_docker name) conf.http
                else if b
                then router_in (strip_docker name) conf.tcp
                else if c
                then router_in (strip_docker name) conf.udp
                else ok [])
              ≡ ok r)
      choose true b c = router_in-total _ conf.http http
      choose false true c = router_in-total _ conf.tcp tcp
      choose false false true = router_in-total _ conf.udp udp
      choose false false false = ([], refl)
