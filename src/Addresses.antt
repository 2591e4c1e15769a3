-- ===== src/Addresses.antt =====
-- traefik_kop.go: `getContainerPort`, `getContainerNetworkIP`, `getKopOverrideBinding`, and the
-- loops of `replaceIPs` over the services of TCP and UDP.
pub mod HostPort
pub mod Port
pub mod Chosen
pub mod Stream
pub mod Replace
pub mod Http
pub mod Moved
pub mod Ends
use traefik_kop.Prelude.{
  Bool, true, false, not, ◌&&◌, Option, none, some, List, [], ◌∷◌, ◌++◌, if◌then◌else◌,
}
use traefik_kop.Prelude.Result.{Result, ok, err, panic}
use traefik_kop.Prelude.Exec.{Exec, pure, lift, deref, attempt, ◌>>=◌}
use traefik_kop.Text.{Str, str, str_eq}
use traefik_kop.Text.Dict.{Dict, lookup, text_at}
use traefik_kop.Dynamic.{StreamServer, LoadBalancer, Service, Section, Configuration}
use traefik_kop.Docker.Types.{NetworkSettings, Container}
use traefik_kop.Docker.Names.{strip_docker}
use traefik_kop.Docker.Ports.{is_port_set, get_service_port_binding, get_port_binding}
use traefik_kop.Namespace.{get_router_of_service}
use traefik_kop.Addresses.HostPort.{port_of_address}

-- `if s != "" { s } else { otherwise }`
unfoldable pub or_else : Str → Str → Str
or_else [] otherwise = otherwise
or_else (c ∷ cs) otherwise = c ∷ cs

-- what `getContainerPort` makes of the single binding of a container
unfoldable pub single_port : Str → Result Str → Result Str
single_port port (ok exposed) = ok (or_else exposed port)
single_port port (err e) = ok port
single_port port panic = panic

-- the port of a container that is found: a binding of the port of its label or, without a label, of
-- the port that traefik has; then the label; then the single binding; then traefik's
unfoldable pub port_in : Container → Str → Str → Str → Result Str
port_in c type service port =
    let explicit = is_port_set c type service in
    let bound = get_service_port_binding c type (or_else explicit port) in
    let single = single_port port (get_port_binding c) in
    if not (str_eq bound [])
    then ok bound
    else if not (str_eq explicit [])
    then ok explicit
    else single

unfoldable pub port_from : Option Container → Str → Str → Str → Result Str
port_from none type service port = ok port
port_from (some c) type service port = port_in c type service port

-- the address of a container on a network, where it is there and not nil
unfoldable pub address_on : Str → Str → Option NetworkSettings → Str
address_on network host none = host
address_on network host (some n) = elim (lookup network n.networks) [
  | none ↦ host
  | some none ↦ host
  | some (some ip) ↦ ip
]

unfoldable pub ip_from : Option Container → Str → Str
ip_from none host = host
ip_from (some c) host =
    let network = text_at (str "traefik.docker.network") c.labels in
    if str_eq network [] then host else address_on network host c.network_settings

-- the label for one service comes before the label for all
unfoldable pub override_from : Option Container → Str → Str → Str × Bool
override_from none service host = (host, false)
override_from (some c) service host =
    let own = text_at (str "kop." ++ (strip_docker service ++ str ".bind.ip")) c.labels in
    let all = text_at (str "kop.bind.ip") c.labels in
    if not (str_eq own [])
    then (own, true)
    else if not (str_eq all [])
    then (all, true)
    else (host, false)

-- `server.Address`
unfoldable pub address_of : Str → Str → Str
address_of ip [] = ip
address_of ip (c ∷ cs) = ip ++ (str ":" ++ (c ∷ cs))

module _ {C R : Type 0} (find : Str → Str → Str → Exec C Container) (conf : Configuration R) where
  -- the container of a service, or nothing where the search ends with an error
  unfoldable pub find_for : Str → Str → Exec C (Option Container)
  find_for type service = do
    router ← lift (get_router_of_service conf service type)
    attempt (find type service router)

  -- `getContainerPort`
  unfoldable pub get_container_port : Str → Str → Str → Exec C Str
  get_container_port type service port = do
    o ← find_for type service
    lift (port_from o type service port)

  -- `getContainerNetworkIP`
  unfoldable pub get_container_network_ip : Str → Str → Str → Exec C Str
  get_container_network_ip type service host = do o ← find_for type service; pure (ip_from o host)

  -- `getKopOverrideBinding`
  unfoldable pub get_kop_override_binding : Str → Str → Str → Exec C (Str × Bool)
  get_kop_override_binding type service host = do
    o ← find_for type service
    pure (override_from o service host)

  -- The loop over the servers of a TCP or UDP service. The address that is found for one server is
  -- the host's for what follows, so it comes back with the servers.
  unfoldable pub replace_servers :
      Str → Str → Str → List (StreamServer R) → Exec C (Str × List (StreamServer R))
  replace_servers type service ip [] = pure (ip, [])
  replace_servers type service ip (s ∷ rest) = do
    next ← get_container_network_ip type service ip
    port ← get_container_port type service (or_else s.port (port_of_address s.address))
    out ← replace_servers type service next rest
    pure (out.0, record s { address = address_of next port; port = port } ∷ out.1)

  -- The loop over the services.
  unfoldable pub replace_streams :
      Str
      → Str
      → Dict (Service R (StreamServer R))
      → Exec C (Str × Dict (Service R (StreamServer R)))
  replace_streams type ip [] = pure (ip, [])
  replace_streams type ip ((name, svc) ∷ rest) = do
    balancer ← deref svc.load_balancer
    r ← replace_servers type name ip balancer.servers
    out ← replace_streams type r.0 rest
    pure (
      out.0,
      (name, record svc { load_balancer = some (record balancer { servers = r.1 }) }) ∷ out.1,
    )
