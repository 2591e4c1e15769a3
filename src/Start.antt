-- ===== src/Start.antt =====
-- traefik_kop.go: what `Start` sets up, store.go: `NewRedisStore` and `Ping`, docker_proxy.go: the
-- address that `start` gives. A fatal log line ends the program, so it is an error here.
pub mod Proxied
pub mod Renewal
use traefik_kop.Prelude.{
  ℕ, ◌/◌, Bool, true, false, not, ◌&&◌, ◌||◌, Option, none, some, List, [], ◌∷◌, ◌++◌,
  if◌then◌else◌,
}
use traefik_kop.Prelude.Result.{Result, ok, err, panic, ◌>>=◌, ◌>>◌}
use traefik_kop.Text.{Str, str, str_eq, contains}
use traefik_kop.Text.Decimal.{format_uint}
use traefik_kop.Int64.{ℤ, pos, negsuc, seconds, third, is_positive}
use traefik_kop.Config.{Config, DockerProvider, Files, wrap, new_docker_provider}
use traefik_kop.Namespace.{is_empty}
use traefik_kop.Proxy.{DockerProxyServer, create_proxy}
use traefik_kop.Store.{RedisStore}
use traefik_kop.Tls.{Keyring, TlsConfig, build}

-- The redis server that a client is made for: the master that sentinels know, or one at an address.
pub data RedisServer : Type 0 where
  failover : Str → List Str → RedisServer
  single : Str → RedisServer

-- the options of the redis client
pub record RedisOptions (Tls : Type 0) : Type 0 where
  pub server : RedisServer
  pub username : Str
  pub password : Str
  pub db : ℤ
  pub tls : Option Tls

-- What lies outside: files, the client library of docker, the port of the listener for the proxy,
-- certificates, and the reply to a PING through a client with some options.
pub record Outside (R Client Pool Pair : Type 0) : Type 0 where
  pub files : Files R
  pub create_docker_client : Str → Result Client
  pub listener_port : ℕ
  pub keyring : Keyring Pool Pair
  pub ping : RedisOptions (TlsConfig Pool Pair) → Result (Unit {0})

-- What `Start` has set up when it initializes the providers: `docker_client` and `provider` are
-- those of the handler, `renewal` is the interval of `keepStoreAlive`.
pub record Started (R Client Pool Pair : Type 0) : Type 0 where
  pub config : Config
  pub docker_client : Client
  pub provider : DockerProvider R
  pub proxy : Option DockerProxyServer
  pub store : RedisStore
  pub redis : RedisOptions (TlsConfig Pool Pair)
  pub renewal : Option ℤ
  pub polling_provider : DockerProvider R
  pub refresh_interval : ℤ

-- the whole seconds of a duration; a negative one is no expiry
unfoldable pub ttl_of : ℤ → ℕ
ttl_of (pos d) = d / 1_000_000_000
ttl_of (negsuc d) = 0

-- `NewRedisStore`: the store, and the options of its client
unfoldable pub new_redis_store : Config → RedisStore
new_redis_store c = record { hostname = c.hostname; ttl = ttl_of (seconds c.redis_ttl) }

unfoldable pub redis_server : Config → RedisServer
redis_server c =
    if not (is_empty c.redis_sentinel_addrs) && not (str_eq c.redis_sentinel_master [])
    then failover c.redis_sentinel_master c.redis_sentinel_addrs
    else single c.redis_addr

unfoldable pub redis_options : {Tls : Type 0} → Config → Option Tls → RedisOptions Tls
redis_options c tls = record {
  server = redis_server c;
  username = c.redis_user;
  password = c.redis_pass;
  db = c.redis_db;
  tls = tls;
}

-- the endpoint that the proxy's `start` returns
unfoldable pub docker_endpoint : ℕ → Str
docker_endpoint port = str "http://localhost:" ++ format_uint port

-- the interval of `keepStoreAlive`, which runs where keys expire
unfoldable pub renewal_of : Config → Option ℤ
renewal_of c = if is_positive c.redis_ttl then some (third (seconds c.redis_ttl)) else none

-- what becomes of the reply to the first PING
unfoldable pub ping_checked : Config → Result (Unit {0}) → Result (Unit {0})
ping_checked c (ok u) = ok u
ping_checked c panic = panic
ping_checked c (err e) =
    if not (is_empty c.redis_sentinel_addrs)
    then err (
        str "failed to connect to redis via sentinel (master="
        ++ (c.redis_sentinel_master ++ (str "): " ++ e)))
    else if contains c.redis_addr e
    then err (str "failed to connect to redis: " ++ e)
    else err (str "failed to connect to redis at " ++ (c.redis_addr ++ (str ": " ++ e)))

module _ {R Client Pool Pair : Type 0} (o : Outside R Client Pool Pair) where
  -- is the docker API reached through the proxy?
  unfoldable pub needs_proxy : Config → DockerProvider R → Bool
  needs_proxy c dp = not (str_eq c.docker_prefix []) || not dp.exposed_by_default

  unfoldable pub proxied :
      Config
      → DockerProvider R
      → Result (Config × Client × DockerProvider R × Option DockerProxyServer)
  proxied c dp = do
    client ←
        wrap (str "failed to create docker client for proxy")
          (o.create_docker_client (docker_endpoint o.listener_port))
    rebuilt ←
        new_docker_provider o.files (record c { docker_host = docker_endpoint o.listener_port })
    ok (
      record c { docker_host = docker_endpoint o.listener_port },
      client,
      rebuilt,
      some (create_proxy c.docker_prefix dp.exposed_by_default),
    )

  -- The configuration, the client and the provider that are used, with the proxy where there is
  -- one.
  unfoldable pub through_proxy :
      Config
      → Client
      → DockerProvider R
      → Result (Config × Client × DockerProvider R × Option DockerProxyServer)
  through_proxy c client dp = if needs_proxy c dp then proxied c dp else ok (c, client, dp, none)

  -- `Start`, up to the initialization of the providers
  unfoldable pub start : Config → Result (Started R Client Pool Pair)
  start config = do
    client ← wrap (str "failed to create docker client") (o.create_docker_client config.docker_host)
    dp ← new_docker_provider o.files config
    used ← through_proxy config client dp
    tls ← wrap (str "invalid redis TLS configuration") (build o.keyring used.0.redis_tls)
    ping_checked used.0 (o.ping (redis_options used.0 tls))
    polling ← new_docker_provider o.files used.0
    ok (record {
      config = used.0;
      docker_client = used.1;
      provider = used.2;
      proxy = used.3;
      store = new_redis_store used.0;
      redis = redis_options used.0 tls;
      renewal = renewal_of used.0;
      polling_provider = record polling { watch = false };
      refresh_interval = seconds used.0.poll_interval;
    })
