-- ===== src/Namespace.antt =====
-- util.go: `splitStringArr`; traefik_kop.go: `keepContainer`, `getRouterOfService`,
-- `filterServices`.
pub mod Keep
pub mod Comma
pub mod Filter
pub mod Whole
pub mod Sections
pub mod Kept
use traefik_kop.Prelude.{
  Bool, true, false, ◌&&◌, ◌||◌, Option, none, some, List, [], ◌∷◌, map, if◌then◌else◌,
}
use traefik_kop.Prelude.Result.{Result, ok, err, panic}
use traefik_kop.Prelude.Exec.{Exec, pure, lift, attempt, ◌>>=◌}
use traefik_kop.Text.{Str, str, str_eq, elem, split, trim_space}
use traefik_kop.Text.Dict.{Dict, delete, text_at}
use traefik_kop.Dynamic.{Router, Server, StreamServer, Section, Configuration}
use traefik_kop.Docker.Types.{Container}
use traefik_kop.Docker.Names.{strip_docker}

-- `len(l) == 0`
unfoldable pub is_empty : List Str → Bool
is_empty [] = true
is_empty (x ∷ xs) = false

-- `splitStringArr`; 44 is the comma
unfoldable pub split_string_arr : Str → List Str
split_string_arr s =
    if str_eq (trim_space s) [] then [] else map trim_space (split 44 (trim_space s))

unfoldable pub namespaces : Container → List Str
namespaces c = split_string_arr (text_at (str "kop.namespace") c.labels)

-- the loop over the configured namespaces
unfoldable pub any_shared : List Str → List Str → Bool
any_shared [] of_container = false
any_shared (v ∷ ns) of_container = elem v of_container || any_shared ns of_container

-- `keepContainer`
unfoldable pub keep_container : List Str → Container → Bool
keep_container ns c = (is_empty ns && is_empty (namespaces c)) || any_shared ns (namespaces c)

-- A container that is not found is left to the instance of its host.
unfoldable pub kept : List Str → Option Container → Bool
kept ns none = true
kept ns (some c) = keep_container ns c

unfoldable pub delete_unless : {V : Type 0} → Bool → Str → Dict V → Dict V
delete_unless true k d = d
delete_unless false k d = delete k d

module _ {R : Type 0} where
  -- the name of the first router of a service
  unfoldable pub router_named : Str → Dict (Router R) → Str
  router_named service [] = []
  router_named service ((name, r) ∷ rest) =
      if str_eq r.service service then name else router_named service rest

  unfoldable pub router_in : {S : Type 0} → Str → Option (Section R S) → Result Str
  router_in service none = panic
  router_in service (some s) = ok (router_named service s.routers)

  -- `getRouterOfService`, which reads through a nil section
  unfoldable pub get_router_of_service : Configuration R → Str → Str → Result Str
  get_router_of_service conf service type =
      if str_eq type (str "http")
      then router_in (strip_docker service) conf.http
      else if str_eq type (str "tcp")
      then router_in (strip_docker service) conf.tcp
      else if str_eq type (str "udp")
      then router_in (strip_docker service) conf.udp
      else ok []

unfoldable pub with_router : Str → Result Str → Result (Str × Str)
with_router service (ok router) = ok (service, router)
with_router service (err e) = err e
with_router service panic = panic

module _ {C : Type 0} (find : Str → Str → Str → Exec C Container) (ns : List Str) where
  -- The loop over the services or the routers of a section: each entry asks for the container of a
  -- service and a router, and goes where that is found and not kept.
  unfoldable pub prune :
      {V : Type 0} → Str → (Str → V → Result (Str × Str)) → Dict V → Dict V → Exec C (Dict V)
  prune type query [] d = pure d
  prune type query ((k, v) ∷ rest) d = do
    names ← lift (query k v)
    o ← attempt (find type names.0 names.1)
    prune type query rest (delete_unless (kept ns o) k d)

module _ {C R : Type 0} (find : Str → Str → Str → Exec C Container) (ns : List Str) where
  unfoldable pub filter_section :
      {S : Type 0} → Str → (Str → Result Str) → Option (Section R S) → Exec C (Option (Section R S))
  filter_section type router_of none = pure none
  filter_section type router_of (some s) = do
    services ←
        prune find ns type (λ name _. with_router name (router_of name)) s.services s.services
    routers ← prune find ns type (λ name r. ok (r.service, name)) s.routers s.routers
    pure (some (record s { services = services; routers = routers }))

  -- `filterServices`
  unfoldable pub filter_services : Configuration R → Exec C (Configuration R)
  filter_services conf = do
    http ←
        filter_section (str "http") (λ name. get_router_of_service conf name (str "http")) conf.http
    tcp ← filter_section (str "tcp") (λ name. get_router_of_service conf name (str "tcp")) conf.tcp
    udp ← filter_section (str "udp") (λ name. get_router_of_service conf name (str "udp")) conf.udp
    pure (record conf { http = http; tcp = tcp; udp = udp })
