-- ===== src/Addresses/Replace.antt =====
-- traefik_kop.go: what the TCP and UDP loops of `replaceIPs` leave, and where an address leaks.
use traefik_kop.Prelude.{◌≡◌, ◌≢◌, Option, none, some, [], ◌∷◌, sym, subst}
use traefik_kop.Prelude.Result.{ok}
use traefik_kop.Prelude.Exec.{Exec}
use traefik_kop.Prelude.Exec.Returns.{Returns, Returns-pure, Returns-bind}
use traefik_kop.Text.{Str}
use traefik_kop.Text.Dict.{Dict}
use traefik_kop.Dynamic.{StreamServer, LoadBalancer, Service, Configuration}
use traefik_kop.Docker.Types.{Container}
use traefik_kop.Namespace.{get_router_of_service}
use traefik_kop.Namespace.Filter.{Answers}
use traefik_kop.Addresses.{port_from, ip_from, replace_servers, replace_streams}
use traefik_kop.Addresses.Port.{port_from-total}
use traefik_kop.Addresses.Stream.{
  ServicesAt, AllLocal, at_port, known_port, server-Returns, streams-Returns, deref-Returns,
}

-- Every container that is found has a host configuration.
abbrev pub HaveHosts : (Str → Str → Str → Option Container) → Type 0
HaveHosts answer =
    (type service router : Str) (c : Container)
    → answer type service router ≡ some c
    → c.host_config ≢ none

-- Where each search has an answer, found containers have host configurations, the first service has
-- one server, and its container the address `other` on its network, and each service after it has a
-- load balancer and no container with a network address other than `other`, then the servers of all
-- services after the first get `other` in place of the host's address.
pub replace_streams-leaks :
    {C R : Type 0} (find : Str → Str → Str → Exec C Container) (conf : Configuration R)
    (P : C → Type 0) (answer : Str → Str → Str → Option Container) (type : Str)
    (router_of : Str → Str) (host other name : Str) (svc : Service R (StreamServer R))
    (b : LoadBalancer R (StreamServer R)) (s : StreamServer R)
    (d : Dict (Service R (StreamServer R))) (c : C)
    → Answers find P answer
    → P c
    → ((name : Str) → get_router_of_service conf name type ≡ ok (router_of name))
    → HaveHosts answer
    → svc.load_balancer ≡ some b
    → b.servers ≡ s ∷ []
    → ip_from (answer type name (router_of name)) host ≡ other
    → AllLocal (λ name. answer type name (router_of name)) other d
    → (e : Dict (Service R (StreamServer R))) × (out : Service R (StreamServer R))
      × ((replace_streams find conf type host ((name, svc) ∷ d) c).0 ≡ ok (other, (name, out) ∷ e))
      × ServicesAt other (λ name. port_from (answer type name (router_of name)) type name) d e
unfolding replace_streams
replace_streams-leaks find conf P answer type router_of host other name svc b s d c answers p routed
      hosts has one moved local =
    let (port, q) = port_from-total _ type name (known_port s) (hosts type name (router_of name)) in
    let (e, r, each) =
      streams-Returns find conf P answer answers type router_of routed other
        (λ n at. port_from-total _ type n at (hosts type n (router_of n))) d local in
    let first =
      subst
        (λ ss.
          Returns P (replace_servers find conf type name host ss)
            (other, at_port other s port ∷ []))
        (sym one)
        (server-Returns find conf P answer answers type router_of routed name host other port s
          moved q) in
    (
      e,
      record svc { load_balancer = some (record b { servers = at_port other s port ∷ [] }) },
      ((Returns-bind _ _ b _ (deref-Returns svc.load_balancer b has)
            (Returns-bind _ _ _ _ first (Returns-bind _ _ _ _ r (Returns-pure _)))).at
          c p).0,
      each,
    )
