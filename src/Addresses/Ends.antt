-- ===== src/Addresses/Ends.antt =====
-- traefik_kop.go: `replaceIPs` ends with a configuration of the same sections.
use traefik_kop.Prelude.{
  ◌≡◌, ◌≢◌, ◌⊎◌, inl, inr, sym, ◌∙◌, subst, Option, none, some, List, [], ◌∷◌, Bool-cases,
}
use traefik_kop.Prelude.Result.{ok}
use traefik_kop.Prelude.Exec.{Exec, attempt}
use traefik_kop.Prelude.Exec.Ends.{Ends, Ends-pure, Ends-lift, Ends-if, Ends-bind, Ends-bind_deref}
use traefik_kop.Text.{Str, str, str_eq}
use traefik_kop.Text.Equality.{nonempty}
use traefik_kop.Text.Dict.{Dict}
use traefik_kop.Dynamic.{Server, StreamServer, LoadBalancer, Service, Section, Configuration}
use traefik_kop.Docker.Types.{Container}
use traefik_kop.Url.{parse}
use traefik_kop.Namespace.{get_router_of_service}
use traefik_kop.Addresses.{
  ip_from, find_for, get_container_port, get_container_network_ip, get_kop_override_binding,
  replace_servers, replace_streams,
}
use traefik_kop.Addresses.Port.{port_from-total}
use traefik_kop.Addresses.Moved.{AllReadable, AllBalanced}
use traefik_kop.Addresses.Http.{
  get_http_ip, get_http_url, replace_http_servers, replace_http, replace_http_section,
  replace_stream_section, replace_ips,
}

-- A container that is found has a host configuration.
abbrev pub HasHost : Option Container → Type 0
HasHost o = (c : Container) → o ≡ some c → c.host_config ≢ none

-- The balancer's servers have no URL or one that can be parsed.
abbrev BalancerReads : {R : Type 0} → Option (LoadBalancer R (Server R)) → Type 0
BalancerReads none = ⊥
BalancerReads (some b) = AllReadable b.servers

-- Each service has a load balancer.
abbrev pub AllLoaded : {R S : Type 0} → Dict (Service R S) → Type 0
AllLoaded [] = Unit
AllLoaded ((name, svc) ∷ d) = (svc.load_balancer ≢ none) × AllLoaded d

-- The section is there, and its services satisfy `Q`.
abbrev pub Holding : {R S : Type 0} → (Dict (Service R S) → Type 0) → Option (Section R S) → Type 0
Holding Q none = ⊥
Holding Q (some s) = Q s.services

-- No section is missing, each service has a load balancer, and the HTTP servers have no URL or one
-- that can be parsed.
abbrev pub IsWhole : {R : Type 0} → Configuration R → Type 0
IsWhole conf =
    Holding AllBalanced conf.http × Holding AllLoaded conf.tcp × Holding AllLoaded conf.udp

abbrev pub HasSections : {R : Type 0} → Configuration R → Type 0
HasSections conf = (conf.http ≢ none) × (conf.tcp ≢ none) × (conf.udp ≢ none)

module _ {C R : Type 0} (find : Str → Str → Str → Exec C Container) (conf : Configuration R)
    (P : C → Type 0)
    (finds : (type service router : Str) → Ends P (attempt (find type service router)) HasHost)
    (routed : (name type : Str) → (r : Str) × (get_router_of_service conf name type ≡ ok r)) where
  find_for-Ends : (type service : Str) → Ends P (find_for find conf type service) HasHost
  unfolding find_for
  find_for-Ends type service =
      let (r, e) = routed service type in
      Ends-bind {R = λ r. Unit {0}} _ _ (Ends-lift _ r e tt) (λ router _. finds type service router)

  port-Ends :
      (type service port : Str)
      → Ends P (get_container_port find conf type service port) (λ p. Unit {0})
  unfolding get_container_port
  port-Ends type service port =
      Ends-bind _ _ (find_for-Ends type service)
        (λ o h. let (p, e) = port_from-total o type service port h in Ends-lift _ p e tt)

  ip-Ends :
      (type service host : Str)
      → Ends P (get_container_network_ip find conf type service host) (λ ip. Unit {0})
  unfolding get_container_network_ip
  ip-Ends type service host =
      Ends-bind _ _ (find_for-Ends type service) (λ o _. Ends-pure (ip_from o host) tt)

  http_ip-Ends : (service host : Str) → Ends P (get_http_ip find conf service host) (λ ip. Unit {0})
  unfolding get_http_ip get_kop_override_binding
  http_ip-Ends service host =
      Ends-bind {R = λ b. Unit {0}} _ _
        (Ends-bind _ _ (find_for-Ends (str "http") service) (λ o _. Ends-pure _ tt))
        (λ b _. Ends-if b.1 _ _ (Ends-pure _ tt) (ip-Ends (str "http") service b.0))

  http_url-Ends :
      (service ip : Str) (s : Server R)
      → (s.url ≡ []) ⊎ (parse s.url ≢ none)
      → Ends P (get_http_url find conf service ip s) (λ url. Unit {0})
  unfolding get_http_url
  http_url-Ends service ip s readable = elim (Bool-cases (str_eq s.url [])) [
    | inl e ↦ rw e (
        Ends-bind {R = λ p. Unit {0}} _ _ (port-Ends (str "http") service s.port)
          (λ port _. Ends-pure _ tt))
    | inr e ↦ rw e (
        Ends-bind_deref (parse s.url) _
          (elim readable [ inl bare ↦ absurd (nonempty e bare) | inr read ↦ read ])
          (λ u _.
            Ends-bind {R = λ p. Unit {0}} _ _ (port-Ends (str "http") service _)
              (λ port _. Ends-pure _ tt)))
  ]

  http_servers-Ends :
      (service host : Str) (ss : List (Server R))
      → AllReadable ss
      → Ends P (replace_http_servers find conf service host ss) (λ ts. Unit {0})
  unfolding replace_http_servers
  http_servers-Ends service host [] h = Ends-pure _ tt
  http_servers-Ends service host (s ∷ ss) (h, hs) =
      Ends-bind {R = λ x. Unit {0}} _ _ (http_ip-Ends service host) (λ ip _.
        Ends-bind {R = λ x. Unit {0}} _ _ (http_url-Ends service ip s h) (λ url _.
          Ends-bind {R = λ x. Unit {0}} _ _ (http_servers-Ends service host ss hs)
            (λ out _. Ends-pure _ tt)))

  http-Ends :
      (host : Str) (d : Dict (Service R (Server R)))
      → AllBalanced d
      → Ends P (replace_http find conf host d) (λ e. Unit {0})
  unfolding replace_http
  http-Ends host [] h = Ends-pure _ tt
  http-Ends host ((name, svc) ∷ d) ((b, there, readable), h) =
      Ends-bind_deref svc.load_balancer _ (λ e. cc)
        (λ c same.
          Ends-bind {R = λ x. Unit {0}} _ _
            (http_servers-Ends name host c.servers
              (subst BalancerReads (sym there ∙ same) readable))
            (λ ts _.
              Ends-bind {R = λ x. Unit {0}} _ _ (http-Ends host d h) (λ out _. Ends-pure _ tt)))

  stream_servers-Ends :
      (type service ip : Str) (ss : List (StreamServer R))
      → Ends P (replace_servers find conf type service ip ss) (λ out. Unit {0})
  unfolding replace_servers
  stream_servers-Ends type service ip [] = Ends-pure _ tt
  stream_servers-Ends type service ip (s ∷ ss) =
      Ends-bind {R = λ x. Unit {0}} _ _ (ip-Ends type service ip) (λ next _.
        Ends-bind {R = λ x. Unit {0}} _ _ (port-Ends type service _) (λ port _.
          Ends-bind {R = λ x. Unit {0}} _ _ (stream_servers-Ends type service next ss)
            (λ out _. Ends-pure _ tt)))

  streams-Ends :
      (type ip : Str) (d : Dict (Service R (StreamServer R)))
      → AllLoaded d
      → Ends P (replace_streams find conf type ip d) (λ out. Unit {0})
  unfolding replace_streams
  streams-Ends type ip [] h = Ends-pure _ tt
  streams-Ends type ip ((name, svc) ∷ d) (loaded, h) =
      Ends-bind_deref svc.load_balancer _ loaded (λ b _.
        Ends-bind {R = λ x. Unit {0}} _ _ (stream_servers-Ends type name ip b.servers) (λ r _.
          Ends-bind {R = λ x. Unit {0}} _ _ (streams-Ends type r.0 d h) (λ out _. Ends-pure _ tt)))

  http_section-Ends :
      (host : Str) (o : Option (Section R (Server R)))
      → Holding AllBalanced o
      → Ends P (replace_http_section find conf host o) (λ out. out ≢ none)
  unfolding replace_http_section
  http_section-Ends host none h = absurd h
  http_section-Ends host (some s) h =
      Ends-bind {R = λ x. Unit {0}} _ _ (http-Ends host s.services h)
        (λ out _. Ends-pure _ (λ e. cc))

  stream_section-Ends :
      (type host : Str) (o : Option (Section R (StreamServer R)))
      → Holding AllLoaded o
      → Ends P (replace_stream_section find conf type host o) (λ out. out.1 ≢ none)
  unfolding replace_stream_section
  stream_section-Ends type host none h = absurd h
  stream_section-Ends type host (some s) h =
      Ends-bind {R = λ x. Unit {0}} _ _ (streams-Ends type host s.services h)
        (λ out _. Ends-pure _ (λ e. cc))

  pub replace_ips-Ends :
      (host : Str) → IsWhole conf → Ends P (replace_ips find conf host) HasSections
  unfolding replace_ips
  replace_ips-Ends host (http, tcp, udp) =
      Ends-bind _ _ (http_section-Ends host conf.http http) (λ h there.
        Ends-bind _ _ (stream_section-Ends (str "tcp") host conf.tcp tcp) (λ t also.
          Ends-bind _ _ (stream_section-Ends (str "udp") t.0 conf.udp udp)
            (λ u too. Ends-pure _ (there, also, too))))
