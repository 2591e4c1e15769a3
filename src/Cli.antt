-- ===== src/Cli.antt =====
-- bin/traefik-kop/main.go: the flags, the address to bind to, and the checks of `doStart`. A fatal
-- log line ends the program, so it is an error here; the other log lines are left out.
pub mod Address
pub mod Checks
pub mod Interface
use traefik_kop.Prelude.{
  ℕ, Bool, true, false, not, ◌&&◌, Option, none, some, List, [], ◌∷◌, ◌++◌, if◌then◌else◌,
}
use traefik_kop.Prelude.Result.{Result, ok, err, panic, ◌>>=◌, ◌>>◌}
use traefik_kop.Text.{Str, str, str_eq, trim_space}
use traefik_kop.Int64.{ℤ, pos}
use traefik_kop.Config.{Config}
use traefik_kop.Namespace.{split_string_arr, is_empty}
use traefik_kop.Cli.Address.{Ip, Addr, first_ipv4, ip_string}

-- the values of the flags
pub record Flags : Type 0 where
  pub hostname : Str
  pub bind_ip : Str
  pub bind_interface : Str
  pub skip_replace : Bool
  pub redis_addr : Str
  pub redis_user : Str
  pub redis_pass : Str
  pub redis_db : ℤ
  pub redis_ttl : ℤ
  pub redis_tls : Bool
  pub redis_tls_ca : Str
  pub redis_tls_cert : Str
  pub redis_tls_key : Str
  pub redis_tls_server_name : Str
  pub redis_tls_insecure_skip_verify : Bool
  pub redis_sentinel_addrs : Str
  pub redis_sentinel_master : Str
  pub docker_host : Str
  pub docker_config : Str
  pub docker_prefix : Str
  pub poll_interval : ℤ
  pub namespace : Str

-- What the machine tells: its name, the variable DOCKER_HOST, the addresses of an interface (the
-- interface may be missing, and its addresses too), and the address of a socket to the internet.
-- `other_string` is `IP.String` beyond IPv4.
pub record Machine : Type 0 where
  pub os_hostname : Result Str
  pub docker_host_env : Str
  pub interface_by_name : Str → Result (Result (List Addr))
  pub dial_local_addr : Result (Option Ip)
  pub other_string : Ip → Str

-- `getHostname`
unfoldable pub get_hostname : Result Str → Str
get_hostname (ok h) = h
get_hostname (err e) = str "traefik-kop"
get_hostname panic = str "traefik-kop"

-- the flags that are not given
unfoldable pub default_flags : Machine → Flags
default_flags m = record {
  hostname = get_hostname m.os_hostname;
  bind_ip = [];
  bind_interface = [];
  skip_replace = false;
  redis_addr = str "127.0.0.1:6379";
  redis_user = str "default";
  redis_pass = [];
  redis_db = pos 0;
  redis_ttl = pos 0;
  redis_tls = false;
  redis_tls_ca = [];
  redis_tls_cert = [];
  redis_tls_key = [];
  redis_tls_server_name = [];
  redis_tls_insecure_skip_verify = false;
  redis_sentinel_addrs = [];
  redis_sentinel_master = [];
  docker_host = str "unix:///var/run/docker.sock";
  docker_config = [];
  docker_prefix = [];
  poll_interval = pos 60;
  namespace = [];
}

-- `GetOutboundIP`
unfoldable pub get_outbound_ip : Result (Option Ip) → Option Ip
get_outbound_ip (ok ip) = ip
get_outbound_ip (err e) = none
get_outbound_ip panic = none

-- `GetInterfaceIP`
unfoldable pub get_interface_ip : Result (Result (List Addr)) → Option Ip
get_interface_ip (ok (ok addrs)) = first_ipv4 addrs
get_interface_ip (ok (err e)) = none
get_interface_ip (ok panic) = none
get_interface_ip (err e) = none
get_interface_ip panic = none

unfoldable pub string_or_nil : Machine → Option Ip → Str
string_or_nil m none = []
string_or_nil m (some ip) = ip_string m.other_string ip

unfoldable pub interface_or : Machine → Option Ip → Str
interface_or m none = string_or_nil m (get_outbound_ip m.dial_local_addr)
interface_or m (some ip) = ip_string m.other_string ip

-- `getDefaultIP`
unfoldable pub get_default_ip : Machine → Str → Str
get_default_ip m iface =
    if str_eq (trim_space iface) []
    then string_or_nil m (get_outbound_ip m.dial_local_addr)
    else interface_or m (get_interface_ip (m.interface_by_name iface))

-- the address to bind to: the flag's, that of the flag's interface, or one that is found
unfoldable pub bind_ip_of : Machine → Flags → Str
bind_ip_of m f =
    if str_eq (trim_space f.bind_ip) []
    then get_default_ip m (trim_space f.bind_interface)
    else trim_space f.bind_ip

unfoldable pub config_of : Machine → Flags → Config
config_of m f = record {
  docker_config = f.docker_config;
  docker_host = f.docker_host;
  docker_prefix = f.docker_prefix;
  hostname = f.hostname;
  bind_ip = bind_ip_of m f;
  skip_replace = f.skip_replace;
  redis_addr = f.redis_addr;
  redis_ttl = f.redis_ttl;
  redis_user = f.redis_user;
  redis_pass = f.redis_pass;
  redis_db = f.redis_db;
  redis_tls = record {
    enabled = f.redis_tls;
    ca_file = f.redis_tls_ca;
    cert_file = f.redis_tls_cert;
    key_file = f.redis_tls_key;
    server_name = f.redis_tls_server_name;
    insecure_skip_verify = f.redis_tls_insecure_skip_verify;
  };
  redis_sentinel_addrs = split_string_arr f.redis_sentinel_addrs;
  redis_sentinel_master = f.redis_sentinel_master;
  poll_interval = f.poll_interval;
  namespace = split_string_arr f.namespace;
}

-- `if cond { log.Fatal() }`
unfoldable pub fatal_if : Bool → Str → Result (Unit {0})
fatal_if true message = err message
fatal_if false message = ok tt

-- the checks of `doStart`; a DOCKER_HOST beside another docker host is only warned of
unfoldable pub check_config : Machine → Config → Result (Unit {0})
check_config m c = do
  fatal_if (str_eq c.bind_ip []) (str "Bind IP cannot be empty")
  fatal_if (not (is_empty c.redis_sentinel_addrs) && str_eq c.redis_sentinel_master [])
      (str "--redis-sentinel-master is required when using --redis-sentinel-addrs")
  fatal_if (not (str_eq c.redis_sentinel_master []) && is_empty c.redis_sentinel_addrs)
      (str "--redis-sentinel-addrs is required when using --redis-sentinel-master")
  fatal_if (not (str_eq m.docker_host_env []) && not (str_eq c.docker_prefix [])) (
      str
        "Using the DOCKER_HOST env var with the DOCKER PREFIX feature is not allowed; use DOCKER_ADDR to set the Docker endpoint instead")

-- `doStart`: the configuration that it starts the program with
unfoldable pub do_start : Machine → Flags → Result Config
do_start m f = do check_config m (config_of m f); ok (config_of m f)
