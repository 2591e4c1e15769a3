-- ===== src/Tests/Handler.antt =====
-- A run of the configuration handler, from a docker daemon to the server in memory.
use traefik_kop.Prelude.{
  arith, Bool-cases, ◌≡◌, ◌≢◌, inl, inr, refl, true, false, ◌&&◌, none, some, [], ◌∷◌,
}
use traefik_kop.Prelude.Result.{ok}
use traefik_kop.Text
use traefik_kop.Text.{Str, str}
use traefik_kop.Text.Dict
use traefik_kop.Int64.{pos}
use traefik_kop.Config.{Config}
use traefik_kop.Dynamic.{Router, Configuration}
use traefik_kop.Docker.Types.{Container}
use traefik_kop.Docker.Ports
use traefik_kop.Namespace
use traefik_kop.Namespace.Sections.{has_maps}
use traefik_kop.Proxy
use traefik_kop.Addresses
use traefik_kop.Addresses.Http
use traefik_kop.Merge
use traefik_kop.Store.Publish.{item}
use traefik_kop.Redis.Memory.Sound.{memory-Laws}
use traefik_kop.Kv.Under.{IsNamed}
use traefik_kop.Handler
use traefik_kop.Handler.{new_cache, create_config_handler}
use traefik_kop.Handler.Publish.{AllTrimmed, IsPublished}
use traefik_kop.Handler.Cached.{read_details, in_details, create_config_handler-publishes}
use traefik_kop.Docker.Cache.{any_label, search_details, populate}
use traefik_kop.Docker.Names.{strip_docker}
use traefik_kop.Text.Dict.{Dict}
use traefik_kop.Handler.Ends.{EndsWith, create_config_handler-EndsWith}
use traefik_kop.Addresses.Ends.{IsWhole}
use traefik_kop.Addresses.Replace.{HaveHosts}
use traefik_kop.Url.{parse}
use traefik_kop.Redis.Memory.Up.{memory-Serves}
use traefik_kop.Handler.Watcher
use traefik_kop.Tests.Run.{opened}
use traefik_kop.Tests.Url.{reading}
use traefik_kop.Tests.Examples.{Rest, deps, fields_of, one_server, http_service, host, fresh}
use traefik_kop.Tests.Daemon.{web, daemon_of, running}

abbrev pub settings : Config
settings = record {
  docker_config = [];
  docker_host = str "unix:///var/run/docker.sock";
  docker_prefix = [];
  hostname = str "a.local";
  bind_ip = str "192.168.1.1";
  skip_replace = false;
  redis_addr = str "127.0.0.1:6379";
  redis_ttl = pos 300;
  redis_user = str "default";
  redis_pass = [];
  redis_db = pos 0;
  redis_tls = record {
    enabled = false;
    ca_file = [];
    cert_file = [];
    key_file = [];
    server_name = [];
    insecure_skip_verify = false;
  };
  redis_sentinel_addrs = [];
  redis_sentinel_master = [];
  poll_interval = pos 60;
  namespace = str "prod" ∷ [];
}

-- Opening this runs the handler.
unfoldable pub handling : Unit {0}
unfolding opened running reading Namespace.is_empty Namespace.split_string_arr Namespace.namespaces
    Namespace.any_shared Namespace.keep_container Namespace.kept Namespace.delete_unless
    Namespace.router_named Namespace.router_in Namespace.get_router_of_service Namespace.with_router
    Namespace.prune Namespace.filter_section Namespace.filter_services Text.trim_space
    Text.trim_left Text.is_space Proxy.parse_bool Addresses.or_else Addresses.single_port
    Addresses.port_in Addresses.port_from Addresses.address_on Addresses.ip_from
    Addresses.override_from Addresses.address_of Addresses.find_for Addresses.get_container_port
    Addresses.get_container_network_ip Addresses.get_kop_override_binding Addresses.replace_streams
    Addresses.replace_servers Http.new_url Http.moved_url Http.get_http_ip Http.get_http_url
    Http.replace_http_servers Http.replace_http Http.replace_http_section
    Http.replace_stream_section Http.replace_ips Ports.is_port_set Ports.is_bound Ports.first_bound
    Ports.bindings_at Ports.runtime_ports Ports.port_key Ports.get_service_port_binding Merge.is_set
    Merge.is_merged Merge.merge_found Merge.merge_services Merge.merge_section Merge.make_url_server
    Merge.make_stream_server Merge.merge_load_balancers Handler.on_first Handler.on_second
    Handler.must Handler.new_cache Handler.search Handler.replace_unless Handler.prepared
    Handler.handle_config Handler.create_config_handler
handling = tt

publishes :
    Dict.lookup
      (str "traefik/http/services/app/loadBalancer/servers/0/url")
      (create_config_handler deps tt settings false
        (daemon_of web)
        host
        7
        one_server
        fresh).1.1.server
    ≡ item (str "http://192.168.1.1:32768") 300
unfolding handling
publishes = refl

maps : has_maps one_server.http && (has_maps one_server.tcp && has_maps one_server.udp) ≡ true
unfolding has_maps Dict.is_distinct Dict.has Dict.lookup
maps = refl

pub named : (conf : Configuration Rest) → IsNamed (fields_of conf)
named conf = (refl, (refl, (refl, tt)))

pub lowered :
    (x : Str) → Text.to_lower (λ c. 0) (Text.to_lower (λ c. 0) x) ≡ Text.to_lower (λ c. 0) x
unfolding Text.to_lower
lowered [] = refl
lowered (c ∷ cs) = ground (arith, lowered cs)

reads : (populate (daemon_of web) 7_000_000_000 7_000_000_000 new_cache).0 ≡ ok tt
unfolding handling
reads = refl

handles :
    (create_config_handler deps tt settings false (daemon_of web) host 7 one_server fresh).0 ≡ ok tt
unfolding handling
handles = refl

create_config_handler-publishes_example :
    (out : Configuration Rest) × AllTrimmed settings.namespace
      (in_details (daemon_of web) 7_000_000_000)
      one_server
      out
    × IsPublished deps host 7 out
        (create_config_handler deps tt settings false (daemon_of web) host 7 one_server fresh).1.1
create_config_handler-publishes_example =
    create_config_handler-publishes deps tt settings false (daemon_of web) one_server host 7 fresh
      memory-Laws lowered reads maps named handles

abbrev AllHosted : Dict Container → Type 0
AllHosted [] = Unit
AllHosted ((id, c) ∷ d) = (c.host_config ≢ none) × AllHosted d

search-hosts :
    (type service router : Str) (d : Dict Container) (c : Container)
    → AllHosted d
    → search_details type service router d ≡ some c
    → c.host_config ≢ none
unfolding search_details
search-hosts type service router [] c h e = cc
search-hosts type service router ((id, b) ∷ d) c (h, hs) e =
    elim (Bool-cases (any_label type service router b.labels)) [
      | inl at_once ↦ ground arith
      | inr later ↦ search-hosts type service router d c hs (ground arith)
    ]

web-hosts : HaveHosts (in_details (daemon_of web) 7_000_000_000)
unfolding handling
web-hosts type service router c e =
    search-hosts type (strip_docker service) (strip_docker router)
      (read_details (daemon_of web) 7_000_000_000) c ((λ n. cc), tt) e

readable : parse (str "http://10.0.0.3:80") ≢ none
unfolding reading
readable e = cc

whole : IsWhole one_server
whole = (((_, refl, (inr readable, tt)), tt), tt, tt)

create_config_handler-EndsWith_example :
    (out : Configuration Rest) × AllTrimmed settings.namespace
      (in_details (daemon_of web) 7_000_000_000)
      one_server
      out
    × EndsWith deps host 7 out
        (create_config_handler deps tt settings false (daemon_of web) host 7 one_server fresh).0
        (create_config_handler deps tt settings false (daemon_of web) host 7 one_server fresh).1.1
create_config_handler-EndsWith_example =
    create_config_handler-EndsWith deps tt settings false (daemon_of web) one_server host 7 fresh
      memory-Laws named memory-Serves web-hosts lowered reads maps whole

abbrev bare : Router Rest
bare = record { service = str "app"; entry_points = []; rest = tt }

abbrev defaulted : Configuration Rest
defaulted = record one_server {
  http = some (record {
    routers =
        (str "app@docker", record bare { entry_points = str "traefik-kop-default-internal" ∷ [] })
        ∷ [];
    services = (str "app@docker", http_service (str "http://10.0.0.3:80" ∷ [])) ∷ [];
    middlewares = [];
  });
}
