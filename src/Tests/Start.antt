-- ===== src/Tests/Start.antt =====
-- The start of the program: its flags, TLS, and the proxy.
use traefik_kop.Prelude.{
  ℕ, ◌≡◌, ◌≢◌, ◌⊎◌, ◌↔◌, refl, true, false, none, some, List, [], ◌∷◌, arith, if◌then◌else◌,
}
use traefik_kop.Prelude.Result.{ok, err}
use traefik_kop.Text
use traefik_kop.Text.{Str, str, str_eq, trim_space}
use traefik_kop.Text.Decimal.{format_uint}
use traefik_kop.Int64
use traefik_kop.Int64.{pos, negsuc, seconds, third}
use traefik_kop.Config
use traefik_kop.Config.{Config, DockerProvider, Files, new_docker_provider}
use traefik_kop.Namespace
use traefik_kop.Proxy
use traefik_kop.Tls
use traefik_kop.Tls.{Keyring, TlsConfig, build}
use traefik_kop.Tls.Built.{IsUnset, IsBuilt, build-cases}
use traefik_kop.Cli
use traefik_kop.Cli.{Flags, Machine, default_flags, config_of, do_start}
use traefik_kop.Cli.Address
use traefik_kop.Cli.Address.{Ip, Addr, ip_net, ip_addr, other_addr, first_ipv4}
use traefik_kop.Cli.Checks.{IsStartable, do_start_iff}
use traefik_kop.Cli.Interface.{IsFirst, AllSkipped, first_ipv4-cases}
use traefik_kop.Start
use traefik_kop.Start.{Outside, Started, start}
use traefik_kop.Start.Proxied.{IsProxied, HasEndpoint, start-IsProxied}
use traefik_kop.Start.Renewal.{IsThird, start-renewal}
use traefik_kop.Tests.Handler.{settings}

-- a CA file that can be read, with a certificate in it
abbrev keyring : Keyring ℕ ℕ
keyring = record {
  read_file =
      λ file. if str_eq file (str "ca.pem") then ok (str "PEM") else err (str "no such file");
  append_certs_from_pem = λ pem. some 1;
  load_key_pair = λ cert key. ok 2;
}

abbrev with_tls : Config
with_tls = record settings {
  redis_tls = record {
    enabled = true;
    ca_file = str "ca.pem";
    cert_file = str "cert.pem";
    key_file = str "key.pem";
    server_name = [];
    insecure_skip_verify = false;
  };
}

abbrev built : TlsConfig ℕ ℕ
built = record {
  min_version = 0x0303;
  server_name = [];
  insecure_skip_verify = false;
  root_cas = some 1;
  certificates = 2 ∷ [];
}

builds : build keyring with_tls.redis_tls ≡ ok (some built)
unfolding str Text.str_eq Config.wrap Tls.has_options Tls.is_half_pair Tls.pool_in Tls.root_pool
    Tls.client_pairs Tls.build_enabled Tls.build
builds = refl

build-cases_example :
    ((with_tls.redis_tls.enabled ≡ false) × IsUnset with_tls.redis_tls × (some built ≡ none))
    ⊎ ((with_tls.redis_tls.enabled ≡ true)
        × (t : TlsConfig ℕ ℕ) × (some built ≡ some t)
        × IsBuilt keyring with_tls.redis_tls t)
build-cases_example = build-cases keyring with_tls.redis_tls (some built) builds

-- a machine with a loopback, an IPv6 and an IPv4 address on its interface
abbrev addresses : List Addr
addresses =
    ip_net (some (127 ∷ 0 ∷ 0 ∷ 1 ∷ []))
    ∷ other_addr
    ∷ ip_addr (some (0 ∷ 0 ∷ 0 ∷ 0 ∷ 0 ∷ 0 ∷ 0 ∷ 0 ∷ 0 ∷ 0 ∷ 255 ∷ 255 ∷ 192 ∷ 168 ∷ 1 ∷ 7 ∷ []))
    ∷ []

abbrev machine : Machine
machine = record {
  os_hostname = ok (str "a.local");
  docker_host_env = [];
  interface_by_name = λ name. ok (ok addresses);
  dial_local_addr = err (str "network is unreachable");
  other_string = λ ip. [];
}

first_ipv4-cases_example :
    ((ip : Ip) × (first_ipv4 addresses ≡ some ip) × IsFirst addresses ip)
    ⊎ ((first_ipv4 addresses ≡ none) × AllSkipped addresses)
first_ipv4-cases_example = first_ipv4-cases addresses

abbrev flags : Flags
flags = record (default_flags machine) { bind_interface = str "eth0" }

-- Opening this runs the command line.
unfoldable pub starting : Unit {0}
unfolding str format_uint Text.str_eq Text.has_prefix Text.has_suffix Text.contains Text.split
    Text.trim_space Text.trim_left Text.is_space Namespace.split_string_arr Namespace.is_empty
    Cli.get_hostname Cli.default_flags Cli.get_outbound_ip Cli.get_interface_ip Cli.string_or_nil
    Cli.interface_or Cli.get_default_ip Cli.bind_ip_of Cli.config_of Cli.fatal_if Cli.check_config
    Cli.do_start Address.all_zero Address.mapped_ipv4 Address.to_4 Address.starts_127
    Address.is_ipv6_loopback Address.is_loopback_of Address.is_loopback Address.dotted
    Address.ip_string Address.ip_of Address.usable Address.first_of Address.first_ipv4 Config.wrap
    Config.looks_like_file Config.with_endpoint Config.with_timeout Config.docker_config_text
    Config.load_docker_config Config.zero_provider Config.or_zero Config.new_docker_provider
    Proxy.create_proxy Tls.has_options Tls.is_half_pair Tls.build Int64.to_bits Int64.of_bits
    Int64.seconds Int64.third Int64.is_positive Int64.is_zero Start.ttl_of Start.new_redis_store
    Start.redis_server Start.redis_options Start.docker_endpoint Start.renewal_of Start.ping_checked
    Start.needs_proxy Start.proxied Start.through_proxy Start.start
starting = tt

binds_interface : (config_of machine flags).bind_ip ≡ str "192.168.1.7"
unfolding starting
binds_interface = refl

do_start_iff_example :
    ((c : Config) → do_start machine flags ≡ ok c → c ≡ config_of machine flags)
    × ((do_start machine flags ≡ ok (config_of machine flags))
        ↔ IsStartable machine (config_of machine flags))
    × (trim_space flags.bind_ip ≢ [] → (config_of machine flags).bind_ip ≡ trim_space flags.bind_ip)
do_start_iff_example = do_start_iff machine flags

starts_up : do_start machine flags ≡ ok (config_of machine flags)
unfolding starting
starts_up = refl

abbrev outside : Outside (Unit {0}) Str ℕ ℕ
outside = record {
  files = record {
    stat = λ file. err (str "no such file");
    read = λ file. err (str "no such file");
    decode = λ text. err (str "EOF");
    zero_rest = tt;
  };
  create_docker_client = λ host. ok host;
  listener_port = 40001;
  keyring = keyring;
  ping = λ options. ok tt;
}

abbrev provider : DockerProvider (Unit {0})
provider = record {
  endpoint = str "http://localhost:40001";
  http_client_timeout = pos 0;
  use_bind_port_ip = false;
  exposed_by_default = false;
  watch = true;
  network = [];
  rest = tt;
}

abbrev up : Started (Unit {0}) Str ℕ ℕ
up = record {
  config = record settings { docker_host = str "http://localhost:40001" };
  docker_client = str "http://localhost:40001";
  provider = provider;
  proxy = some (record { label_prefix = []; exposed_by_default = false });
  store = record { hostname = str "a.local"; ttl = 300 };
  redis = record {
    server = Start.single (str "127.0.0.1:6379");
    username = str "default";
    password = [];
    db = pos 0;
    tls = none;
  };
  renewal = some (pos 100_000_000_000);
  polling_provider = record provider { watch = false };
  refresh_interval = pos 60_000_000_000;
}

is_up : start outside settings ≡ ok up
unfolding starting
is_up = refl

start-IsProxied_example :
    (dp : DockerProvider (Unit {0})) × (new_docker_provider outside.files settings ≡ ok dp)
    × IsProxied outside settings dp up.config up.docker_client up.provider up.proxy
    × HasEndpoint outside.files up.config up.config.docker_host up.polling_provider.endpoint
start-IsProxied_example = start-IsProxied outside settings up is_up

start-renewal_example : (up.store.ttl ≡ 300) × IsThird 300 up.renewal
start-renewal_example = start-renewal outside settings up 300 is_up refl (omega arith) (omega arith)

-- one second more than fits: the interval would be negative
overflows : seconds (pos 9_223_372_037) ≡ negsuc 9_223_372_036_709_551_615
unfolding starting
overflows = refl
