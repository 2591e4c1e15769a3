-- ===== src/Addresses/Http.antt =====
-- traefik_kop.go: the loop of `replaceIPs` over the services of HTTP, and the whole of
-- `replaceIPs`.
use traefik_kop.Prelude.{Option, none, some, List, [], ◌∷◌, ◌++◌, if◌then◌else◌}
use traefik_kop.Prelude.Exec.{Exec, pure, deref, ◌>>=◌}
use traefik_kop.Text.{Str, str, str_eq}
use traefik_kop.Text.Dict.{Dict}
use traefik_kop.Dynamic.{Server, StreamServer, Service, Section, Configuration}
use traefik_kop.Docker.Types.{Container}
use traefik_kop.Url.{Url, parse, port_of, url_string}
use traefik_kop.Addresses.{
  or_else, address_of, get_container_port, get_container_network_ip, get_kop_override_binding,
  replace_streams,
}

-- the URL of a server that has none: its scheme, or HTTP, and an address
unfoldable pub new_url : Str → Str → Str
new_url scheme address = or_else scheme (str "http") ++ (str "://" ++ address)

-- the URL of a server that has one: its host is another
unfoldable pub moved_url : Url → Str → Str
moved_url u address = url_string (record u { host = address })

module _ {C R : Type 0} (find : Str → Str → Str → Exec C Container) (conf : Configuration R) where
  -- the address for one server: an override, or the address on the container's network
  unfoldable pub get_http_ip : Str → Str → Exec C Str
  get_http_ip service host = do
    binding ← get_kop_override_binding find conf (str "http") service host
    if binding.1
        then pure binding.0
        else get_container_network_ip find conf (str "http") service binding.0

  -- the URL for one server; the error of `url.Parse` is dropped, and the nil URL is read through
  unfoldable pub get_http_url : Str → Str → Server R → Exec C Str
  get_http_url service ip s =
      if str_eq s.url []
      then (get_container_port find conf (str "http") service s.port >>= λ port.
          pure (new_url s.scheme (address_of ip port)))
      else (deref (parse s.url) >>= λ u.
          get_container_port find conf (str "http") service (port_of u) >>= λ port.
          pure (moved_url u (address_of ip port)))

  unfoldable pub replace_http_servers : Str → Str → List (Server R) → Exec C (List (Server R))
  replace_http_servers service host [] = pure []
  replace_http_servers service host (s ∷ rest) = do
    ip ← get_http_ip service host
    url ← get_http_url service ip s
    out ← replace_http_servers service host rest
    pure (record s { url = url } ∷ out)

  unfoldable pub replace_http :
      Str → Dict (Service R (Server R)) → Exec C (Dict (Service R (Server R)))
  replace_http host [] = pure []
  replace_http host ((name, svc) ∷ rest) = do
    balancer ← deref svc.load_balancer
    servers ← replace_http_servers name host balancer.servers
    out ← replace_http host rest
    pure ((name, record svc { load_balancer = some (record balancer { servers = servers }) }) ∷ out)

  unfoldable pub replace_http_section :
      Str → Option (Section R (Server R)) → Exec C (Option (Section R (Server R)))
  replace_http_section host none = pure none
  replace_http_section host (some s) = do
    services ← replace_http host s.services
    pure (some (record s { services = services }))

  -- the address is the one that the section leaves to the next
  unfoldable pub replace_stream_section :
      Str
      → Str
      → Option (Section R (StreamServer R))
      → Exec C (Str × Option (Section R (StreamServer R)))
  replace_stream_section type host none = pure (host, none)
  replace_stream_section type host (some s) = do
    out ← replace_streams find conf type host s.services
    pure (out.0, some (record s { services = out.1 }))

  -- `replaceIPs`
  unfoldable pub replace_ips : Str → Exec C (Configuration R)
  replace_ips host = do
    http ← replace_http_section host conf.http
    tcp ← replace_stream_section (str "tcp") host conf.tcp
    udp ← replace_stream_section (str "udp") tcp.0 conf.udp
    pure (record conf { http = http; tcp = tcp.1; udp = udp.1 })
