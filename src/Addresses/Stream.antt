-- ===== src/Addresses/Stream.antt =====
-- traefik_kop.go: the addresses that `replaceIPs` gives to TCP and UDP servers.
use traefik_kop.Prelude.{
  ◌≡◌, ◌≢◌, ◌⊎◌, refl, ◌++◌, Option, none, some, List, [], ◌∷◌, arith, subst, Option-cases, inl,
  inr,
}
use traefik_kop.Prelude.Result.{Result, ok}
use traefik_kop.Prelude.Exec.{Exec, deref}
use traefik_kop.Prelude.Exec.Returns.{Returns, Returns-pure, Returns-lift, Returns-bind}
use traefik_kop.Text.{Str, str}
use traefik_kop.Text.Dict.{Dict}
use traefik_kop.Dynamic.{StreamServer, LoadBalancer, Service, Configuration}
use traefik_kop.Docker.Types.{Container}
use traefik_kop.Namespace.{get_router_of_service}
use traefik_kop.Namespace.Filter.{Answers}
use traefik_kop.Addresses.HostPort.{port_of_address}
use traefik_kop.Addresses.{
  or_else, port_from, ip_from, address_of, find_for, get_container_port, get_container_network_ip,
  replace_servers, replace_streams,
}

-- a host, with its port after a colon where there is one
abbrev pub IsAddress : Str → Str → Str → Type 0
IsAddress host port a = ((port ≡ []) × (a ≡ host)) ⊎ ((port ≢ []) × (a ≡ host ++ (str ":" ++ port)))

pub address_of-IsAddress : (host port : Str) → IsAddress host port (address_of host port)
unfolding address_of
address_of-IsAddress host [] = inl (refl, refl)
address_of-IsAddress host (c ∷ cs) = inr (λ e. cc, refl)

-- a server at a host, with a port
unfoldable pub at_port : {R : Type 0} → Str → StreamServer R → Str → StreamServer R
at_port host s port = record s { address = address_of host port; port = port }

-- the port that traefik has for a server
unfoldable pub known_port : {R : Type 0} → StreamServer R → Str
known_port s = or_else s.port (port_of_address s.address)

module _ {R : Type 0} where
  -- Each server keeps all but its address and port: these are the host's, and what a function gives
  -- for the port that the server had.
  abbrev pub AllAt :
      Str → (Str → Result Str) → List (StreamServer R) → List (StreamServer R) → Type 0
  AllAt host port [] [] = Unit
  AllAt host port (s ∷ ss) (t ∷ ts) =
      ((p : Str) × (a : Str) × (port (known_port s) ≡ ok p)
        × IsAddress host p a
        × (t ≡ record s { address = a; port = p }))
      × AllAt host port ss ts
  AllAt host port [] (t ∷ ts) = ⊥
  AllAt host port (s ∷ ss) [] = ⊥

  -- Each service stays, with its servers at their ports.
  abbrev pub ServicesAt :
      Str
      → (Str → Str → Result Str)
      → Dict (Service R (StreamServer R))
      → Dict (Service R (StreamServer R))
      → Type 0
  ServicesAt host port [] [] = Unit
  ServicesAt host port ((name, svc) ∷ d) ((other, out) ∷ e) =
      (name ≡ other)
      × ((b : LoadBalancer R (StreamServer R)) × (c : LoadBalancer R (StreamServer R))
          × (svc.load_balancer ≡ some b)
          × (out ≡ record svc { load_balancer = some c })
          × (c.rest ≡ b.rest)
          × AllAt host (port name) b.servers c.servers)
      × ServicesAt host port d e
  ServicesAt host port [] (x ∷ e) = ⊥
  ServicesAt host port (x ∷ d) [] = ⊥

-- Each service has a load balancer, and its container none but the host's address.
abbrev pub AllLocal :
    {R : Type 0} → (Str → Option Container) → Str → Dict (Service R (StreamServer R)) → Type 0
AllLocal of_service host [] = Unit
AllLocal of_service host ((name, svc) ∷ d) =
    (svc.load_balancer ≢ none)
    × (ip_from (of_service name) host ≡ host)
    × AllLocal of_service host d

pub deref-Returns :
    {S A : Type 0} {P : S → Type 0} (o : Option A) (a : A) → o ≡ some a → Returns P (deref o) a
unfolding deref
deref-Returns none a h = cc
deref-Returns (some b) a h = record { at = λ s p. (ground arith, p) }

module _ {C R : Type 0} (find : Str → Str → Str → Exec C Container) (conf : Configuration R)
    (P : C → Type 0) (answer : Str → Str → Str → Option Container) (answers : Answers find P answer)
    (type : Str) (router_of : Str → Str)
    (routed : (name : Str) → get_router_of_service conf name type ≡ ok (router_of name)) where
  -- the container of a service
  abbrev pub of_service : Str → Option Container
  of_service name = answer type name (router_of name)

  pub find_for-Returns : (name : Str) → Returns P (find_for find conf type name) (of_service name)
  unfolding find_for
  find_for-Returns name =
      Returns-bind _ _ _ _ (Returns-lift _ (router_of name) (routed name))
        (answers type name (router_of name))

  pub ip-Returns :
      (name host : Str)
      → Returns P
          (get_container_network_ip find conf type name host)
          (ip_from (of_service name) host)
  unfolding get_container_network_ip
  ip-Returns name host = Returns-bind _ _ _ _ (find_for-Returns name) (Returns-pure _)

  pub port-Returns :
      (name port p : Str)
      → port_from (of_service name) type name port ≡ ok p
      → Returns P (get_container_port find conf type name port) p
  unfolding get_container_port
  port-Returns name port p h = Returns-bind _ _ _ _ (find_for-Returns name) (Returns-lift _ p h)

  -- one server, whose container has an address of its own
  pub server-Returns :
      (name host other p : Str) (s : StreamServer R)
      → ip_from (of_service name) host ≡ other
      → port_from (of_service name) type name (known_port s) ≡ ok p
      → Returns P
          (replace_servers find conf type name host (s ∷ []))
          (other, at_port other s p ∷ [])
  unfolding replace_servers at_port known_port
  server-Returns name host other p s h e =
      Returns-bind _ _ _ _ (subst (Returns P _) h (ip-Returns name host)) (
        Returns-bind _ _ _ _ (port-Returns name _ p e)
          (Returns-bind _ _ _ _ (Returns-pure _) (Returns-pure _)))

  module _ (host : Str)
      (has_port : (name port : Str)
        → (p : Str) × (port_from (of_service name) type name port ≡ ok p)) where
    pub servers-Returns :
        (name : Str) (ss : List (StreamServer R))
        → ip_from (of_service name) host ≡ host
        → (ts : List (StreamServer R)) × Returns P
            (replace_servers find conf type name host ss)
            (host, ts)
          × AllAt host (port_from (of_service name) type name) ss ts
    unfolding replace_servers at_port known_port
    servers-Returns name [] h = ([], Returns-pure _, tt)
    servers-Returns name (s ∷ ss) h =
        let (p, e) = has_port name (or_else s.port (port_of_address s.address)) in
        let (ts, r, all) = servers-Returns name ss h in
        (
          at_port host s p ∷ ts,
          Returns-bind _ _ _ _ (subst (Returns P _) h (ip-Returns name host)) (
              Returns-bind _ _ _ _ (port-Returns name _ p e)
                (Returns-bind _ _ _ _ r (Returns-pure _))),
          ((p, address_of host p, e, address_of-IsAddress host p, refl), all),
        )

    pub streams-Returns :
        (d : Dict (Service R (StreamServer R)))
        → AllLocal of_service host d
        → (e : Dict (Service R (StreamServer R))) × Returns P
            (replace_streams find conf type host d)
            (host, e)
          × ServicesAt host (λ name. port_from (of_service name) type name) d e
    unfolding replace_streams
    streams-Returns [] local = ([], Returns-pure _, tt)
    streams-Returns ((name, svc) ∷ d) (has, here, local) = elim (Option-cases svc.load_balancer) [
      | inl none_there ↦ absurd (has none_there)
      | inr (b, there) ↦
          let (ts, r, all) = servers-Returns name b.servers here in
          let (e, rest, each) = streams-Returns d local in
          (
            (name, record svc { load_balancer = some (record b { servers = ts }) }) ∷ e,
            Returns-bind _ _ b _ (deref-Returns svc.load_balancer b there)
                (Returns-bind _ _ _ _ r (Returns-bind _ _ _ _ rest (Returns-pure _))),
            (refl, (b, record b { servers = ts }, there, refl, refl, all), each),
          )
    ]
