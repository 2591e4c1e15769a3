-- ===== src/Namespace/Sections.antt =====
-- traefik_kop.go: `filterServices` keeps exactly the services and routers of kept containers.
use traefik_kop.Prelude.{◌≡◌, refl, Bool, true, ◌&&◌, Option, none, some, List, arith}
use traefik_kop.Prelude.Result.{ok}
use traefik_kop.Prelude.Exec.{Exec}
use traefik_kop.Text.{Str, str}
use traefik_kop.Text.Dict.{lookup, is_distinct}
use traefik_kop.Dynamic.{Section, Configuration}
use traefik_kop.Docker.Types.{Container}
use traefik_kop.Namespace.{filter_services}
use traefik_kop.Namespace.Filter.{
  Answers, if_kept, left_of_self, service_stays, router_stays, filtered, filtered_of,
  filtered_services, filter_services-Returns,
}

module _ {R S : Type 0} where
  -- The maps of a section have each key once.
  unfoldable pub has_maps : Option (Section R S) → Bool
  has_maps none = true
  has_maps (some s) = is_distinct s.services && is_distinct s.routers

  -- One section without the services and the routers whose containers are found and not kept.
  abbrev pub IsFiltered :
      List Str
      → (Str → Str → Str → Option Container)
      → Str
      → Option (Section R S)
      → Option (Section R S)
      → Type 0
  IsFiltered ns answer type none none = Unit
  IsFiltered ns answer type (some s) (some t) =
      ((name : Str)
        → lookup name t.services
          ≡ if_kept (service_stays ns answer type s) name (lookup name s.services))
      × ((name : Str)
          → lookup name t.routers
            ≡ if_kept (router_stays ns answer type) name (lookup name s.routers))
      × (t.middlewares ≡ s.middlewares)
  IsFiltered ns answer type none (some t) = ⊥
  IsFiltered ns answer type (some s) none = ⊥

  filtered_of-IsFiltered :
      (ns : List Str) (answer : Str → Str → Str → Option Container) (type : Str)
      (o : Option (Section R S))
      → has_maps o ≡ true
      → IsFiltered ns answer type o (filtered_of ns answer type o)
  unfolding has_maps filtered_of filtered
  filtered_of-IsFiltered ns answer type none h = tt
  filtered_of-IsFiltered ns answer type (some s) h = (
    λ name. left_of_self (service_stays ns answer type s) name s.services (ground arith),
    λ name. left_of_self (router_stays ns answer type) name s.routers (ground arith),
    refl,
  )

-- Where each search has an answer, the filter returns a configuration: in each protocol it keeps a
-- service, or a router, exactly where its container is not found or is kept, and it changes nothing
-- else.
pub filter_services-IsFiltered :
    {C R : Type 0} (find : Str → Str → Str → Exec C Container) (P : C → Type 0)
    (answer : Str → Str → Str → Option Container) (ns : List Str) (conf : Configuration R) (c : C)
    → Answers find P answer
    → P c
    → has_maps conf.http && (has_maps conf.tcp && has_maps conf.udp) ≡ true
    → (out : Configuration R) × ((filter_services find ns conf c).0 ≡ ok out)
      × IsFiltered ns answer (str "http") conf.http out.http
      × IsFiltered ns answer (str "tcp") conf.tcp out.tcp
      × IsFiltered ns answer (str "udp") conf.udp out.udp
      × (out.rest ≡ conf.rest)
unfolding filtered_services
filter_services-IsFiltered find P answer ns conf c answers p h = (
  filtered_services ns answer conf,
  ((filter_services-Returns find P answer answers ns conf).at c p).0,
  filtered_of-IsFiltered ns answer _ conf.http (ground arith),
  filtered_of-IsFiltered ns answer _ conf.tcp (ground arith),
  filtered_of-IsFiltered ns answer _ conf.udp (ground arith),
  refl,
)
