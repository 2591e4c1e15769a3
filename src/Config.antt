-- ===== src/Config.antt =====
-- config.go: the configuration of the program, and of traefik's docker provider.
use traefik_kop.Prelude.{
  Bool, true, false, not, ◌&&◌, ◌||◌, Option, none, some, List, [], ◌∷◌, ◌++◌, if◌then◌else◌, ◌≡◌,
  arith,
}
use traefik_kop.Prelude.Result.{Result, ok, err, panic, ◌>>=◌}
use traefik_kop.Text.{Str, str, str_eq, has_prefix, contains, trim_space}
use traefik_kop.Text.Parts.{has_char}
use traefik_kop.Int64.{ℤ, pos, is_zero}

-- `RedisTLSConfig`
pub record RedisTlsConfig : Type 0 where
  pub enabled : Bool
  pub ca_file : Str
  pub cert_file : Str
  pub key_file : Str
  pub server_name : Str
  pub insecure_skip_verify : Bool

-- `Config`; a number that may be negative is an integer
pub record Config : Type 0 where
  pub docker_config : Str
  pub docker_host : Str
  pub docker_prefix : Str
  pub hostname : Str
  pub bind_ip : Str
  pub skip_replace : Bool
  pub redis_addr : Str
  pub redis_ttl : ℤ
  pub redis_user : Str
  pub redis_pass : Str
  pub redis_db : ℤ
  pub redis_tls : RedisTlsConfig
  pub redis_sentinel_addrs : List Str
  pub redis_sentinel_master : Str
  pub poll_interval : ℤ
  pub namespace : List Str

-- what the program reads and writes of traefik's `docker.Provider`; `rest` is what else it has. The
-- timeout is a number of nanoseconds, which is written as `0s` where it is 0.
pub record DockerProvider (R : Type 0) : Type 0 where
  pub endpoint : Str
  pub http_client_timeout : ℤ
  pub use_bind_port_ip : Bool
  pub exposed_by_default : Bool
  pub watch : Bool
  pub network : Str
  pub rest : R

-- The files that can be read, the decoder of YAML, and the zero value of what else a provider has.
pub record Files (R : Type 0) : Type 0 where
  pub stat : Str → Result (Unit {0})
  pub read : Str → Result Str
  pub decode : Str → Result (DockerProvider R)
  pub zero_rest : R

-- `errors.Wrap(err, message)`
unfoldable pub wrap {ℓ} : {A : Type ℓ} → Str → Result A → Result A
wrap message (ok a) = ok a
wrap message (err e) = err (message ++ (str ": " ++ e))
wrap message panic = panic

-- Wrapping an error changes no value.
pub wrap_inverse :
    {A : Type 0} (message : Str) (r : Result A) (a : A) → wrap message r ≡ ok a → r ≡ ok a
unfolding wrap
wrap_inverse message r a h = ground arith

-- `looksLikeFile`: one line with `.yml` or `.yaml` in it
unfoldable pub looks_like_file : Str → Bool
looks_like_file input =
    not (has_char b'\n' input) && (contains (str ".yml") input || contains (str ".yaml") input)

module _ {R : Type 0} where
  -- the defaults that `newDockerProvider` sets
  unfoldable pub with_endpoint : Str → DockerProvider R → DockerProvider R
  with_endpoint host dp = if str_eq dp.endpoint [] then record dp { endpoint = host } else dp

  unfoldable pub with_timeout : DockerProvider R → DockerProvider R
  with_timeout dp =
      if not (is_zero dp.http_client_timeout) && has_prefix (str "unix://") dp.endpoint
      then record dp { http_client_timeout = pos 0 }
      else dp

module _ {R : Type 0} (files : Files R) where
  unfoldable pub docker_config_text : Str → Result Str
  docker_config_text input =
      if looks_like_file input
      then (wrap (str "failed to stat docker config " ++ input) (files.stat input) >>= λ u.
          wrap (str "failed to open docker config " ++ input) (files.read input))
      else ok input

  -- `loadDockerConfig`; without an input there is no configuration
  unfoldable pub load_docker_config : Str → Result (Option (DockerProvider R))
  load_docker_config [] = ok none
  load_docker_config (c ∷ cs) = do
    text ← docker_config_text (c ∷ cs)
    dp ← wrap (str "failed to load config") (files.decode text)
    ok (some (record dp { network = trim_space dp.network }))

  -- `&docker.Provider{}`
  unfoldable pub zero_provider : DockerProvider R
  zero_provider = record {
    endpoint = [];
    http_client_timeout = pos 0;
    use_bind_port_ip = false;
    exposed_by_default = false;
    watch = false;
    network = [];
    rest = files.zero_rest;
  }

  unfoldable pub or_zero : Option (DockerProvider R) → DockerProvider R
  or_zero none = zero_provider
  or_zero (some dp) = dp

  -- `newDockerProvider`; an error ends the program
  unfoldable pub new_docker_provider : Config → Result (DockerProvider R)
  new_docker_provider config = do
    loaded ← wrap (str "failed to read docker config") (load_docker_config config.docker_config)
    ok (record (with_timeout (with_endpoint config.docker_host (or_zero loaded))) { watch = true })
