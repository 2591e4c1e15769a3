-- ===== src/Handler/Steady.antt =====
-- What a run of the handler leaves of its state: no more than the searches, the reads and the store
-- do to it.
use traefik_kop.Prelude.{Option, none, some, List, [], ◌∷◌}
use traefik_kop.Prelude.Result.{Result}
use traefik_kop.Prelude.Exec.{Exec}
use traefik_kop.Prelude.Exec.Rules.{
  Keeps, Keeps-pure, Keeps-lift, Keeps-deref, Keeps-if, Keeps-attempt, Keeps-bind,
}
use traefik_kop.Text.{Str}
use traefik_kop.Text.Dict.{Dict}
use traefik_kop.Dynamic.{Server, StreamServer, Service, Section, Configuration}
use traefik_kop.Docker.Types.{Container}
use traefik_kop.Namespace.{prune, filter_section, filter_services}
use traefik_kop.Addresses.{
  find_for, get_container_port, get_container_network_ip, get_kop_override_binding, replace_servers,
  replace_streams,
}
use traefik_kop.Addresses.Http.{
  get_http_ip, get_http_url, replace_http_servers, replace_http, replace_http_section,
  replace_stream_section, replace_ips,
}
use traefik_kop.Merge.{merge_found, merge_services, merge_section, merge_load_balancers}

ruleset calm_rules = (Keeps-pure, Keeps-lift, Keeps-deref, Keeps-attempt, Keeps-if, Keeps-bind)

module _ {C : Type 0} (find : Str → Str → Str → Exec C Container) (P : C → Type 0)
    (finds : (type service router : Str) → Keeps P (find type service router)) where
  prune-Keeps :
      {V : Type 0} (ns : List Str) (type : Str) (query : Str → V → Result (Str × Str))
      (entries d : Dict V)
      → Keeps P (prune find ns type query entries d)
  unfolding prune
  prune-Keeps ns type query [] d = Keeps-pure d
  prune-Keeps ns type query ((k, v) ∷ rest) d = Keeps-bind _ _ (Keeps-lift _) (λ names.
      Keeps-bind _ _ (Keeps-attempt _ (finds type names.0 names.1))
        (λ o. prune-Keeps ns type query rest _))

  filter_section-Keeps :
      {R S : Type 0} (ns : List Str) (type : Str) (router_of : Str → Result Str)
      (o : Option (Section R S))
      → Keeps P (filter_section find ns type router_of o)
  unfolding filter_section
  filter_section-Keeps ns type router_of none = Keeps-pure none
  filter_section-Keeps ns type router_of (some s) = search (calm_rules, prune-Keeps)

  pub filter_services-Keeps :
      {R : Type 0} (ns : List Str) (conf : Configuration R) → Keeps P (filter_services find ns conf)
  unfolding filter_services
  filter_services-Keeps ns conf = search (calm_rules, filter_section-Keeps)

  module _ {R : Type 0} (conf : Configuration R) where
    find_for-Keeps : (type service : Str) → Keeps P (find_for find conf type service)
    unfolding find_for
    find_for-Keeps type service = search (calm_rules, finds)

    port-Keeps :
        (type service port : Str) → Keeps P (get_container_port find conf type service port)
    unfolding get_container_port
    port-Keeps type service port = search (calm_rules, find_for-Keeps)

    ip-Keeps :
        (type service host : Str) → Keeps P (get_container_network_ip find conf type service host)
    unfolding get_container_network_ip
    ip-Keeps type service host = search (calm_rules, find_for-Keeps)

    override-Keeps :
        (type service host : Str) → Keeps P (get_kop_override_binding find conf type service host)
    unfolding get_kop_override_binding
    override-Keeps type service host = search (calm_rules, find_for-Keeps)

    http_ip-Keeps : (service host : Str) → Keeps P (get_http_ip find conf service host)
    unfolding get_http_ip
    http_ip-Keeps service host = search (calm_rules, override-Keeps, ip-Keeps)

    http_url-Keeps :
        (service ip : Str) (s : Server R) → Keeps P (get_http_url find conf service ip s)
    unfolding get_http_url
    http_url-Keeps service ip s = search (calm_rules, port-Keeps) depth 8

    http_servers-Keeps :
        (service host : Str) (l : List (Server R))
        → Keeps P (replace_http_servers find conf service host l)
    unfolding replace_http_servers
    http_servers-Keeps service host [] = Keeps-pure []
    http_servers-Keeps service host (s ∷ l) = Keeps-bind _ _ (http_ip-Keeps service host) (λ ip.
        Keeps-bind _ _ (http_url-Keeps service ip s)
          (λ url. Keeps-bind _ _ (http_servers-Keeps service host l) (λ out. Keeps-pure _)))

    http-Keeps :
        (host : Str) (m : Dict (Service R (Server R))) → Keeps P (replace_http find conf host m)
    unfolding replace_http
    http-Keeps host [] = Keeps-pure []
    http-Keeps host ((name, svc) ∷ m) = Keeps-bind _ _ (Keeps-deref _) (λ b.
        Keeps-bind _ _ (http_servers-Keeps name host b.servers)
          (λ servers. Keeps-bind _ _ (http-Keeps host m) (λ out. Keeps-pure _)))

    servers-Keeps :
        (type service ip : Str) (l : List (StreamServer R))
        → Keeps P (replace_servers find conf type service ip l)
    unfolding replace_servers
    servers-Keeps type service ip [] = Keeps-pure _
    servers-Keeps type service ip (s ∷ l) = Keeps-bind _ _ (ip-Keeps type service ip) (λ next.
        Keeps-bind _ _ (port-Keeps type service _)
          (λ port. Keeps-bind _ _ (servers-Keeps type service next l) (λ out. Keeps-pure _)))

    streams-Keeps :
        (type ip : Str) (m : Dict (Service R (StreamServer R)))
        → Keeps P (replace_streams find conf type ip m)
    unfolding replace_streams
    streams-Keeps type ip [] = Keeps-pure _
    streams-Keeps type ip ((name, svc) ∷ m) = Keeps-bind _ _ (Keeps-deref _) (λ b.
        Keeps-bind _ _ (servers-Keeps type name ip b.servers)
          (λ r. Keeps-bind _ _ (streams-Keeps type r.0 m) (λ out. Keeps-pure _)))

    http_section-Keeps :
        (host : Str) (o : Option (Section R (Server R)))
        → Keeps P (replace_http_section find conf host o)
    unfolding replace_http_section
    http_section-Keeps host none = Keeps-pure none
    http_section-Keeps host (some s) = search (calm_rules, http-Keeps)

    stream_section-Keeps :
        (type host : Str) (o : Option (Section R (StreamServer R)))
        → Keeps P (replace_stream_section find conf type host o)
    unfolding replace_stream_section
    stream_section-Keeps type host none = Keeps-pure _
    stream_section-Keeps type host (some s) = search (calm_rules, streams-Keeps)

    pub replace_ips-Keeps : (host : Str) → Keeps P (replace_ips find conf host)
    unfolding replace_ips
    replace_ips-Keeps host = search (calm_rules, http_section-Keeps, stream_section-Keeps) depth 8

  module _ (gets : Str → Exec C (Dict Str)) (reads : (key : Str) → Keeps P (gets key)) where
    module _ {R S : Type 0} (get_key : S → Str) (make_server : Str → S) (conf : Configuration R)
        (type : Str) where
      merge_found-Keeps :
          (o : Option Container) (name : Str) (svc : Service R S)
          → Keeps P (merge_found get_key make_server find gets conf type o name svc)
      unfolding merge_found
      merge_found-Keeps none name svc = Keeps-pure svc
      merge_found-Keeps (some c) name svc = search (calm_rules, reads)

      merge_services-Keeps :
          (m : Dict (Service R S))
          → Keeps P (merge_services get_key make_server find gets conf type m)
      unfolding merge_services
      merge_services-Keeps [] = Keeps-pure []
      merge_services-Keeps ((name, svc) ∷ m) = Keeps-bind _ _ (Keeps-lift _) (λ router.
          Keeps-bind _ _ (Keeps-attempt _ (finds type name router)) (λ o.
            Keeps-bind _ _ (merge_found-Keeps o name svc)
              (λ merged. Keeps-bind _ _ (merge_services-Keeps m) (λ others. Keeps-pure _))))

      merge_section-Keeps :
          (o : Option (Section R S))
          → Keeps P (merge_section get_key make_server find gets conf type o)
      unfolding merge_section
      merge_section-Keeps none = Keeps-lift _
      merge_section-Keeps (some s) = search (calm_rules, merge_services-Keeps)

    pub merge_load_balancers-Keeps :
        {R : Type 0} (zero_rest : R) (conf : Configuration R)
        → Keeps P (merge_load_balancers find gets zero_rest conf)
    unfolding merge_load_balancers
    merge_load_balancers-Keeps zero_rest conf = search (calm_rules, merge_section-Keeps) depth 8
