-- ===== src/Tls.antt =====
-- redis_tls.go: `RedisTLSConfig.Build`. Files, certificates and keys are parameters.
pub mod Built
use traefik_kop.Prelude.{
  ℕ, Bool, true, false, not, ◌&&◌, ◌||◌, Option, none, some, List, [], ◌∷◌, ◌++◌, if◌then◌else◌,
}
use traefik_kop.Prelude.Result.{Result, ok, err, panic, ◌>>=◌}
use traefik_kop.Text.{Str, str, str_eq}
use traefik_kop.Config.{RedisTlsConfig, wrap}

-- What `os`, `crypto/x509` and `crypto/tls` give: the bytes of a file, the pool of the certificates
-- in a text, if it has any, and the pair of a certificate file and a key file.
pub record Keyring (Pool Pair : Type 0) : Type 0 where
  pub read_file : Str → Result Str
  pub append_certs_from_pem : Str → Option Pool
  pub load_key_pair : Str → Str → Result Pair

-- the fields of `tls.Config` that are set
pub record TlsConfig (Pool Pair : Type 0) : Type 0 where
  pub min_version : ℕ
  pub server_name : Str
  pub insecure_skip_verify : Bool
  pub root_cas : Option Pool
  pub certificates : List Pair

-- `tls.VersionTLS12`
abbrev pub version_tls12 : ℕ
version_tls12 = 0x0303

-- is any option of TLS set?
unfoldable pub has_options : RedisTlsConfig → Bool
has_options c =
    not (str_eq c.ca_file [])
    || (not (str_eq c.cert_file [])
        || (not (str_eq c.key_file [])
            || (not (str_eq c.server_name []) || c.insecure_skip_verify)))

-- is a client certificate given without a key, or a key without a certificate?
unfoldable pub is_half_pair : RedisTlsConfig → Bool
is_half_pair c = if str_eq c.cert_file [] then not (str_eq c.key_file []) else str_eq c.key_file []

unfoldable pub pool_in : {Pool : Type 0} → Str → Option Pool → Result (Option Pool)
pool_in file none = err (str "no valid certificates found in redis TLS CA file " ++ file)
pool_in file (some p) = ok (some p)

module _ {Pool Pair : Type 0} (k : Keyring Pool Pair) where
  -- the pool of the CA file, where there is one
  unfoldable pub root_pool : Str → Result (Option Pool)
  root_pool [] = ok none
  root_pool (x ∷ xs) = do
    pem ← wrap (str "failed to read redis TLS CA file " ++ (x ∷ xs)) (k.read_file (x ∷ xs))
    pool_in (x ∷ xs) (k.append_certs_from_pem pem)

  -- the client certificate, where there is one
  unfoldable pub client_pairs : Str → Str → Result (List Pair)
  client_pairs [] key = ok []
  client_pairs (x ∷ xs) key = do
    pair ←
        wrap (str "failed to load redis TLS client certificate/key") (k.load_key_pair (x ∷ xs) key)
    ok (pair ∷ [])

  -- `Build` with TLS enabled
  unfoldable pub build_enabled : RedisTlsConfig → Result (TlsConfig Pool Pair)
  build_enabled c = do
    pool ← root_pool c.ca_file
    pairs ← client_pairs c.cert_file c.key_file
    ok (record {
      min_version = version_tls12;
      server_name = c.server_name;
      insecure_skip_verify = c.insecure_skip_verify;
      root_cas = pool;
      certificates = pairs;
    })

  -- `Build`
  unfoldable pub build : RedisTlsConfig → Result (Option (TlsConfig Pool Pair))
  build c =
      if not c.enabled
      then (if has_options c
          then err (str "redis TLS options were set but --redis-tls is not enabled")
          else ok none)
      else if is_half_pair c
      then err (str "--redis-tls-cert and --redis-tls-key must be provided together")
      else (build_enabled c >>= λ conf. ok (some conf))
