-- ===== src/Tls/Built.antt =====
-- redis_tls.go: what `Build` has checked where it returns no error.
use traefik_kop.Prelude.{
  ◌≡◌, ◌≢◌, ◌⊎◌, inl, inr, refl, sym, subst, Bool, true, false, not, Option, none, some, List, [],
  ◌∷◌, arith, if◌then◌else◌,
}
use traefik_kop.Prelude.Result.{Result, ok, err, bind_inverse}
use traefik_kop.Prelude.Exec.Gives.{ok-injective}
use traefik_kop.Text.{Str, str_eq}
use traefik_kop.Text.Equality.{eq_iff, eq_refl, nonempty}
use traefik_kop.Config.{RedisTlsConfig, wrap_inverse}
use traefik_kop.Tls.{
  Keyring, TlsConfig, version_tls12, has_options, is_half_pair, pool_in, root_pool, client_pairs,
  build_enabled, build,
}

-- No option of TLS is set.
abbrev pub IsUnset : RedisTlsConfig → Type 0
IsUnset c =
    (c.ca_file ≡ [])
    × (c.cert_file ≡ [])
    × (c.key_file ≡ [])
    × (c.server_name ≡ [])
    × (c.insecure_skip_verify ≡ false)

pool_in-some :
    {Pool : Type 0} (file : Str) (o roots : Option Pool)
    → pool_in file o ≡ ok roots
    → (pool : Pool) × (o ≡ some pool) × (roots ≡ some pool)
unfolding pool_in
pool_in-some file none roots h = cc
pool_in-some file (some p) roots h = (p, refl, sym (ok-injective h))

-- which branch of `Build` has returned no error
chosen :
    {A : Type 0} (enabled options half : Bool) (e f : Str) (r : Result (Option A)) (o : Option A)
    → (if not enabled then (if options then err e else ok none) else if half then err f else r)
      ≡ ok o
    → ((enabled ≡ false) × (options ≡ false) × (o ≡ none))
      ⊎ ((enabled ≡ true) × (half ≡ false) × (r ≡ ok o))
chosen false false half e f r o h = inl (refl, refl, sym (ok-injective h))
chosen false true half e f r o h = cc
chosen true options true e f r o h = cc
chosen true options false e f r o h = inr (refl, refl, h)

module _ {Pool Pair : Type 0} (k : Keyring Pool Pair) where
  -- The roots are the system's where no file is named, and else the certificates of the file.
  abbrev pub HasRoots : Str → Option Pool → Type 0
  HasRoots file roots =
      ((file ≡ []) × (roots ≡ none))
      ⊎ ((file ≢ [])
          × (pem : Str) × (pool : Pool) × (k.read_file file ≡ ok pem)
          × (k.append_certs_from_pem pem ≡ some pool)
          × (roots ≡ some pool))

  -- No client certificate, or the one of both files.
  abbrev pub HasPair : Str → Str → List Pair → Type 0
  HasPair cert key pairs =
      ((cert ≡ []) × (key ≡ []) × (pairs ≡ []))
      ⊎ ((cert ≢ [])
          × (key ≢ [])
          × (pair : Pair) × (k.load_key_pair cert key ≡ ok pair)
          × (pairs ≡ pair ∷ []))

  root_pool-roots :
      (file : Str) (roots : Option Pool) → root_pool k file ≡ ok roots → HasRoots file roots
  unfolding root_pool
  root_pool-roots [] roots h = inl (refl, ground arith)
  root_pool-roots (x ∷ xs) roots h =
      let (pem, q, r) = bind_inverse _ _ roots h in
      let (pool, found, same) = pool_in-some (x ∷ xs) (k.append_certs_from_pem pem) roots r in
      inr ((λ z. cc), pem, pool, wrap_inverse _ _ pem q, found, same)

  client_pairs-pair :
      (cert key : Str) (pairs : List Pair)
      → (if str_eq cert [] then not (str_eq key []) else str_eq key []) ≡ false
      → client_pairs k cert key ≡ ok pairs
      → HasPair cert key pairs
  unfolding client_pairs str_eq
  client_pairs-pair [] key pairs e h =
      inl (refl, ground (arith, eq_iff key [], eq_refl []), ground arith)
  client_pairs-pair (x ∷ xs) key pairs e h =
      let (pair, q, r) = bind_inverse _ _ pairs h in
      inr ((λ z. cc), nonempty e, pair, wrap_inverse _ _ pair q, sym (ok-injective r))

  -- What an enabled configuration gives: TLS 1.2 at least, the given name and check of the server,
  -- the roots, and the client's certificate.
  abbrev pub IsBuilt : RedisTlsConfig → TlsConfig Pool Pair → Type 0
  IsBuilt c t =
      (version_tls12 ≡ t.min_version)
      × (t.server_name ≡ c.server_name)
      × (t.insecure_skip_verify ≡ c.insecure_skip_verify)
      × HasRoots c.ca_file t.root_cas
      × HasPair c.cert_file c.key_file t.certificates

  build_enabled-IsBuilt :
      (c : RedisTlsConfig) (t : TlsConfig Pool Pair)
      → is_half_pair c ≡ false
      → build_enabled k c ≡ ok t
      → IsBuilt c t
  unfolding build_enabled is_half_pair
  build_enabled-IsBuilt c t e h =
      let (pool, q, next) = bind_inverse _ _ t h in
      let (pairs, p, last) = bind_inverse _ _ t next in
      subst (IsBuilt c) (ok-injective last) (
        refl,
        refl,
        refl,
        root_pool-roots c.ca_file pool q,
        client_pairs-pair c.cert_file c.key_file pairs e p,
      )

  has_options-IsUnset : (c : RedisTlsConfig) → has_options c ≡ false → IsUnset c
  unfolding has_options
  has_options-IsUnset c h = (
    ground (arith, eq_iff c.ca_file []),
    ground (arith, eq_iff c.cert_file []),
    ground (arith, eq_iff c.key_file []),
    ground (arith, eq_iff c.server_name []),
    ground arith,
  )

  -- Where `Build` returns no error, either TLS is not enabled, no option of it is set and there is
  -- no configuration; or it is enabled, and the configuration has TLS 1.2 at least, the given
  -- server name and verification, as roots the certificates of the CA file or, without one, the
  -- system's, and the pair of the client's certificate and key, which are given both or not at all.
  pub build-cases :
      (c : RedisTlsConfig) (o : Option (TlsConfig Pool Pair))
      → build k c ≡ ok o
      → ((c.enabled ≡ false) × IsUnset c × (o ≡ none))
        ⊎ ((c.enabled ≡ true) × (t : TlsConfig Pool Pair) × (o ≡ some t) × IsBuilt c t)
  unfolding build
  build-cases c o h = elim (chosen c.enabled (has_options c) (is_half_pair c) _ _ _ o h) [
    | inl (off, unset, e) ↦ inl (off, has_options-IsUnset c unset, e)
    | inr (on, whole, e) ↦
        let (t, q, r) = bind_inverse (build_enabled k c) _ o e in
        inr (on, t, sym (ok-injective r), build_enabled-IsBuilt c t whole q)
  ]
