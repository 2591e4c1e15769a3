-- ===== src/Addresses/Moved.antt =====
-- traefik_kop.go: the URLs that `replaceIPs` gives to HTTP servers.
use traefik_kop.Prelude.{
  ◌≡◌, ◌≢◌, refl, subst, ◌++◌, arith, Bool, true, false, Option, none, some, List, [], ◌∷◌,
  Bool-cases, Option-cases, inl, inr, ◌⊎◌, if◌then◌else◌,
}
use traefik_kop.Prelude.Result.{Result, ok}
use traefik_kop.Prelude.Exec.{Exec, pure}
use traefik_kop.Prelude.Exec.Returns.{Returns, Returns-pure, Returns-bind}
use traefik_kop.Text.{Str, str, str_eq}
use traefik_kop.Text.Equality.{eq_iff, nonempty}
use traefik_kop.Text.Dict.{Dict, lookup, text_at}
use traefik_kop.Docker.Names.{strip_docker}
use traefik_kop.Dynamic.{Server, LoadBalancer, Service, Configuration}
use traefik_kop.Docker.Types.{NetworkSettings, Container}
use traefik_kop.Namespace.{get_router_of_service}
use traefik_kop.Namespace.Filter.{Answers}
use traefik_kop.Url.{Url, parse, port_of, url_string}
use traefik_kop.Addresses.{
  or_else, address_on, port_from, ip_from, override_from, address_of, get_container_port,
  get_container_network_ip, get_kop_override_binding,
}
use traefik_kop.Addresses.Port.{port_from-total}
use traefik_kop.Addresses.Stream.{
  IsAddress, address_of-IsAddress, deref-Returns, find_for-Returns, ip-Returns, port-Returns,
}
use traefik_kop.Addresses.Replace.{HaveHosts}
use traefik_kop.Addresses.Http.{
  new_url, moved_url, get_http_ip, get_http_url, replace_http_servers, replace_http,
}

abbrev on_entry : Str → Option (Option Str) → Str
on_entry host none = host
on_entry host (some none) = host
on_entry host (some (some ip)) = ip

entry_lem :
    (host : Str) (e : Option (Option Str))
    → (elim e [ none ↦ host | some none ↦ host | some (some ip) ↦ ip ]) ≡ on_entry host e
entry_lem host none = refl
entry_lem host (some none) = refl
entry_lem host (some (some ip)) = refl

-- the address on a network, or else the host's
abbrev on_network : Str → Str → Option NetworkSettings → Str
on_network network host none = host
on_network network host (some n) = on_entry host (lookup network n.networks)

address_on-same :
    (network host : Str) (o : Option NetworkSettings)
    → address_on network host o ≡ on_network network host o
unfolding address_on
address_on-same network host none = refl
address_on-same network host (some n) = entry_lem host (lookup network n.networks)

or_else-cases :
    (s otherwise : Str)
    → ((s ≡ []) × (or_else s otherwise ≡ otherwise)) ⊎ ((s ≢ []) × (or_else s otherwise ≡ s))
unfolding or_else
or_else-cases [] otherwise = inl (refl, refl)
or_else-cases (c ∷ cs) otherwise = inr (λ e. cc, refl)

-- the address that the servers of a service get: that of a label, or that of the container's
-- network
unfoldable pub own_ip : Option Container → Str → Str → Str
own_ip none service host = host
own_ip (some c) service host =
    let own = text_at (str "kop." ++ (strip_docker service ++ str ".bind.ip")) c.labels in
    let all = text_at (str "kop.bind.ip") c.labels in
    let network = text_at (str "traefik.docker.network") c.labels in
    if str_eq own []
    then (if str_eq all []
        then (if str_eq network [] then host else on_network network host c.network_settings)
        else all)
    else own

-- the address by the labels, or else on the network, is this one
own_ip_lem :
    (o : Option Container) (service host : Str)
    → (if (override_from o service host).1
        then (override_from o service host).0
        else ip_from o (override_from o service host).0)
      ≡ own_ip o service host
unfolding own_ip override_from ip_from
own_ip_lem none service host = refl
own_ip_lem (some c) service host = ground (
  arith,
  address_on-same (text_at (str "traefik.docker.network") c.labels) host c.network_settings,
)

module _ {R : Type 0} where
  -- The URL of a server with an address: the old one with its host replaced, and where there was
  -- none a new one. The port is the one that a function gives for the port of the old URL or of the
  -- server.
  abbrev pub IsMoved : Str → (Str → Result Str) → Server R → Server R → Type 0
  IsMoved ip port s t =
      ((s.url ≡ [])
        × (p : Str) × (a : Str) × (scheme : Str) × (port s.port ≡ ok p)
        × IsAddress ip p a
        × (((s.scheme ≡ []) × (scheme ≡ str "http")) ⊎ ((s.scheme ≢ []) × (scheme ≡ s.scheme)))
        × (t ≡ record s { url = scheme ++ (str "://" ++ a) }))
      ⊎ ((s.url ≢ [])
          × (u : Url) × (parse s.url ≡ some u)
          × (p : Str) × (a : Str) × (port (port_of u) ≡ ok p)
          × IsAddress ip p a
          × (t ≡ record s { url = url_string (record u { host = a }) }))

  abbrev pub AllMoved : Str → (Str → Result Str) → List (Server R) → List (Server R) → Type 0
  AllMoved ip port [] [] = Unit
  AllMoved ip port (s ∷ ss) (t ∷ ts) = IsMoved ip port s t × AllMoved ip port ss ts
  AllMoved ip port [] (t ∷ ts) = ⊥
  AllMoved ip port (s ∷ ss) [] = ⊥

  -- Each service stays, with its servers at their addresses.
  abbrev pub ServicesMoved :
      (Str → Str)
      → (Str → Str → Result Str)
      → Dict (Service R (Server R))
      → Dict (Service R (Server R))
      → Type 0
  ServicesMoved ip port [] [] = Unit
  ServicesMoved ip port ((name, svc) ∷ d) ((other, out) ∷ e) =
      (name ≡ other)
      × ((b : LoadBalancer R (Server R)) × (c : LoadBalancer R (Server R)) × (svc.load_balancer
            ≡ some b)
          × (out ≡ record svc { load_balancer = some c })
          × (c.rest ≡ b.rest)
          × AllMoved (ip name) (port name) b.servers c.servers)
      × ServicesMoved ip port d e
  ServicesMoved ip port [] (x ∷ e) = ⊥
  ServicesMoved ip port (x ∷ d) [] = ⊥

  -- Each server has no URL, or one that can be parsed.
  abbrev pub AllReadable : List (Server R) → Type 0
  AllReadable [] = Unit
  AllReadable (s ∷ ss) = ((s.url ≡ []) ⊎ (parse s.url ≢ none)) × AllReadable ss

  -- Each service has a load balancer, whose servers have such URLs.
  abbrev pub AllBalanced : Dict (Service R (Server R)) → Type 0
  AllBalanced [] = Unit
  AllBalanced ((name, svc) ∷ d) =
      ((b : LoadBalancer R (Server R)) × (svc.load_balancer ≡ some b) × AllReadable b.servers)
      × AllBalanced d

module _ {C R : Type 0} (find : Str → Str → Str → Exec C Container) (conf : Configuration R)
    (P : C → Type 0) (answer : Str → Str → Str → Option Container) (answers : Answers find P answer)
    (router_of : Str → Str)
    (routed : (name : Str) → get_router_of_service conf name (str "http") ≡ ok (router_of name))
    (hosts : HaveHosts answer) where
  abbrev pub of_service : Str → Option Container
  of_service name = answer (str "http") name (router_of name)

  get_http_ip-Returns :
      (name host : Str)
      → Returns P (get_http_ip find conf name host) (own_ip (of_service name) name host)
  unfolding get_http_ip get_kop_override_binding
  get_http_ip-Returns name host =
      subst (Returns P (get_http_ip find conf name host)) (own_ip_lem (of_service name) name host) (
        Returns-bind _ _ _ _
          (Returns-bind _ _ _ _
            (find_for-Returns find conf P answer answers (str "http") router_of routed name)
            (Returns-pure _))
          (either_way (override_from (of_service name) name host).1))
    where
      either_way :
          (b : Bool)
          → Returns P
              (if b
                then pure (override_from (of_service name) name host).0
                else get_container_network_ip find conf
                    (str "http")
                    name
                    (override_from (of_service name) name host).0)
              (if b
                then (override_from (of_service name) name host).0
                else ip_from (of_service name) (override_from (of_service name) name host).0)
      either_way true = Returns-pure _
      either_way false = ip-Returns find conf P answer answers (str "http") router_of routed name _

  known-port :
      (name port : Str) → (p : Str) × (port_from (of_service name) (str "http") name port ≡ ok p)
  known-port name port =
      port_from-total _ (str "http") name port (hosts (str "http") name (router_of name))

  port_lem :
      (name port p : Str)
      → port_from (of_service name) (str "http") name port ≡ ok p
      → Returns P (get_container_port find conf (str "http") name port) p
  port_lem = port-Returns find conf P answer answers (str "http") router_of routed

  get_http_url-Returns :
      (name ip : Str) (s : Server R)
      → (s.url ≡ []) ⊎ (parse s.url ≢ none)
      → (url : Str) × Returns P (get_http_url find conf name ip s) url
        × IsMoved ip (port_from (of_service name) (str "http") name) s (record s { url = url })
  unfolding get_http_url new_url moved_url
  get_http_url-Returns name ip s h = elim (Bool-cases (str_eq s.url [])) [
    | inl e ↦
        let (p, q) = known-port name s.port in
        (
          new_url s.scheme (address_of ip p),
          rw e (Returns-bind _ _ _ _ (port_lem name _ p q) (Returns-pure _)),
          inl (
            (eq_iff s.url []).0 e,
            p,
            address_of ip p,
            or_else s.scheme (str "http"),
            q,
            address_of-IsAddress ip p,
            or_else-cases s.scheme (str "http"),
            refl,
          ),
        )
    | inr e ↦ elim (Option-cases (parse s.url)) [
      | inl unread ↦ elim h [
        | inl nil ↦ absurd (nonempty e nil)
        | inr readable ↦ absurd (readable unread)
      ]
      | inr (u, read) ↦
          let (p, q) = known-port name (port_of u) in
          (
            moved_url u (address_of ip p),
            rw e (
                Returns-bind _ _ _ _ (deref-Returns (parse s.url) u read)
                  (Returns-bind _ _ _ _ (port_lem name _ p q) (Returns-pure _))),
            inr (nonempty e, u, read, p, address_of ip p, q, address_of-IsAddress ip p, refl),
          )
    ]
  ]

  replace_http_servers-Returns :
      (name host : Str) (ss : List (Server R))
      → AllReadable ss
      → (ts : List (Server R)) × Returns P (replace_http_servers find conf name host ss) ts
        × AllMoved
            (own_ip (of_service name) name host)
            (port_from (of_service name) (str "http") name)
            ss
            ts
  unfolding replace_http_servers
  replace_http_servers-Returns name host [] h = ([], Returns-pure _, tt)
  replace_http_servers-Returns name host (s ∷ ss) (h, hs) =
      let (url, r, moved) = get_http_url-Returns name (own_ip (of_service name) name host) s h in
      let (ts, rest, all) = replace_http_servers-Returns name host ss hs in
      (
        record s { url = url } ∷ ts,
        Returns-bind _ _ _ _ (get_http_ip-Returns name host)
            (Returns-bind _ _ _ _ r (Returns-bind _ _ _ _ rest (Returns-pure _))),
        (moved, all),
      )

  pub replace_http-Returns :
      (host : Str) (d : Dict (Service R (Server R)))
      → AllBalanced d
      → (e : Dict (Service R (Server R))) × Returns P (replace_http find conf host d) e
        × ServicesMoved
            (λ name. own_ip (of_service name) name host)
            (λ name. port_from (of_service name) (str "http") name)
            d
            e
  unfolding replace_http
  replace_http-Returns host [] h = ([], Returns-pure _, tt)
  replace_http-Returns host ((name, svc) ∷ d) ((b, there, readable), h) =
      let (ts, r, all) = replace_http_servers-Returns name host b.servers readable in
      let (e, rest, each) = replace_http-Returns host d h in
      (
        (name, record svc { load_balancer = some (record b { servers = ts }) }) ∷ e,
        Returns-bind _ _ b _ (deref-Returns svc.load_balancer b there)
            (Returns-bind _ _ _ _ r (Returns-bind _ _ _ _ rest (Returns-pure _))),
        (refl, (b, record b { servers = ts }, there, refl, refl, all), each),
      )

-- Where each search has an answer, found containers have host configurations, and each HTTP service
-- has a load balancer whose servers have no URL or one that can be parsed, the loop returns all
-- services in their order. Each server keeps all but its URL: this is the old one with its host
-- replaced, or a scheme, by default http, with the host where there was none. The host is the
-- address of the label for the service, of the label for all, or of the container's network, else
-- the given one, beside the port, if any, that `getContainerPort` gives for the port of the old URL
-- or of the server.
pub replace_http-ServicesMoved :
    {C R : Type 0} (find : Str → Str → Str → Exec C Container) (conf : Configuration R)
    (P : C → Type 0) (answer : Str → Str → Str → Option Container) (router_of : Str → Str)
    (host : Str) (d : Dict (Service R (Server R))) (c : C)
    → Answers find P answer
    → P c
    → ((name : Str) → get_router_of_service conf name (str "http") ≡ ok (router_of name))
    → HaveHosts answer
    → AllBalanced d
    → (e : Dict (Service R (Server R))) × ((replace_http find conf host d c).0 ≡ ok e)
      × ServicesMoved
          (λ name. own_ip (answer (str "http") name (router_of name)) name host)
          (λ name. port_from (answer (str "http") name (router_of name)) (str "http") name)
          d
          e
replace_http-ServicesMoved find conf P answer router_of host d c answers p routed hosts balanced =
    let (e, r, each) =
      replace_http-Returns find conf P answer answers router_of routed hosts host d balanced in
    (e, (r.at c p).0, each)
