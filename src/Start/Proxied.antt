-- ===== src/Start/Proxied.antt =====
-- traefik_kop.go: whether the docker client and the providers of a started program go through the
-- proxy.
use traefik_kop.Prelude.{
  ◌≡◌, ◌≢◌, ◌⊎◌, inl, inr, refl, sym, ap, ◌∙◌, subst, Bool, true, false, Option, none, some, [],
  arith, Bool-cases, if◌then◌else◌,
}
use traefik_kop.Prelude.Result.{Result, ok, err, panic, bind_inverse}
use traefik_kop.Prelude.Exec.Gives.{ok-injective}
use traefik_kop.Text.{Str, str_eq}
use traefik_kop.Text.Equality.{eq_iff, nonempty}
use traefik_kop.Config.{
  Config, DockerProvider, Files, wrap, wrap_inverse, load_docker_config, or_zero, with_endpoint,
  with_timeout, new_docker_provider,
}
use traefik_kop.Int64.{pos}
use traefik_kop.Proxy.{DockerProxyServer, create_proxy}
use traefik_kop.Tls.{build}
use traefik_kop.Start.{
  Outside, Started, docker_endpoint, ping_checked, redis_options, needs_proxy, proxied,
  through_proxy, start, new_redis_store, renewal_of,
}

if_true : {A : Type 0} {b : Bool} {x z : A} (y : A) → b ≡ true → (if b then x else y) ≡ z → x ≡ z
if_true y e h = ground arith

if_false : {A : Type 0} {b : Bool} {y z : A} (x : A) → b ≡ false → (if b then x else y) ≡ z → y ≡ z
if_false x e h = ground arith

module _ {R : Type 0} (files : Files R) where
  -- The endpoint of a provider: the one of its configuration, where that has one, and else a host.
  abbrev pub HasEndpoint : Config → Str → Str → Type 0
  HasEndpoint c host endpoint =
      (loaded : Option (DockerProvider R)) × (load_docker_config files c.docker_config ≡ ok loaded)
      × ((((or_zero files loaded).endpoint ≡ []) × (endpoint ≡ host))
          ⊎ (((or_zero files loaded).endpoint ≢ []) × (endpoint ≡ (or_zero files loaded).endpoint)))

  with_timeout-endpoint : (dp : DockerProvider R) → (with_timeout dp).endpoint ≡ dp.endpoint
  unfolding with_timeout
  with_timeout-endpoint dp = either_way _
    where
      either_way :
          (b : Bool)
          → (if b then record dp { http_client_timeout = pos 0 } else dp).endpoint ≡ dp.endpoint
      either_way true = refl
      either_way false = refl

  with_endpoint-cases :
      (host : Str) (dp : DockerProvider R)
      → ((dp.endpoint ≡ []) × ((with_endpoint host dp).endpoint ≡ host))
        ⊎ ((dp.endpoint ≢ []) × ((with_endpoint host dp).endpoint ≡ dp.endpoint))
  unfolding with_endpoint
  with_endpoint-cases host dp = elim (Bool-cases (str_eq dp.endpoint [])) [
    | inl e ↦ inl ((eq_iff dp.endpoint []).0 e, rw e)
    | inr e ↦ inr (nonempty e, rw e)
  ]

  new_docker_provider-endpoint :
      (c : Config) (dp : DockerProvider R)
      → new_docker_provider files c ≡ ok dp
      → HasEndpoint c c.docker_host dp.endpoint
  unfolding new_docker_provider
  new_docker_provider-endpoint c dp h =
      let (loaded, q, e) =
        bind_inverse (wrap _ (load_docker_config files c.docker_config)) _ dp h in
      let same =
        sym (ap (λ x. x.endpoint) (ok-injective e))
        ∙ with_timeout-endpoint (with_endpoint c.docker_host (or_zero files loaded)) in
      (
        loaded,
        wrap_inverse _ _ loaded q,
        elim (with_endpoint-cases c.docker_host (or_zero files loaded)) [
          | inl (nil, w) ↦ inl (nil, same ∙ w)
          | inr (n, w) ↦ inr (n, same ∙ w)
        ],
      )

module _ {R Client Pool Pair : Type 0} (o : Outside R Client Pool Pair) where
  -- What is used through the proxy, and without it.
  abbrev pub IsProxied :
      Config
      → DockerProvider R
      → Config
      → Client
      → DockerProvider R
      → Option DockerProxyServer
      → Type 0
  IsProxied c dp used client provider proxy =
      (((c.docker_prefix ≢ []) ⊎ (dp.exposed_by_default ≡ false))
        × (used ≡ record c { docker_host = docker_endpoint o.listener_port })
        × (proxy ≡ some (create_proxy c.docker_prefix dp.exposed_by_default))
        × (o.create_docker_client (docker_endpoint o.listener_port) ≡ ok client)
        × HasEndpoint o.files c (docker_endpoint o.listener_port) provider.endpoint)
      ⊎ (((c.docker_prefix ≡ []) × (dp.exposed_by_default ≡ true))
          × (used ≡ c)
          × (proxy ≡ none)
          × (o.create_docker_client c.docker_host ≡ ok client)
          × HasEndpoint o.files c c.docker_host provider.endpoint)

  needs_proxy-true :
      (c : Config) (dp : DockerProvider R)
      → needs_proxy o c dp ≡ true
      → (c.docker_prefix ≢ []) ⊎ (dp.exposed_by_default ≡ false)
  unfolding needs_proxy
  needs_proxy-true c dp e = elim (Bool-cases (str_eq c.docker_prefix [])) [
    | inl nil ↦ inr (ground arith)
    | inr there ↦ inl (nonempty there)
  ]

  needs_proxy-false :
      (c : Config) (dp : DockerProvider R)
      → needs_proxy o c dp ≡ false
      → (c.docker_prefix ≡ []) × (dp.exposed_by_default ≡ true)
  unfolding needs_proxy
  needs_proxy-false c dp e = (ground (arith, eq_iff c.docker_prefix []), ground arith)

  proxied-inverse :
      (c used : Config) (client : Client) (dp provider : DockerProvider R)
      (proxy : Option DockerProxyServer)
      → proxied o c dp ≡ ok (used, client, provider, proxy)
      → (used ≡ record c { docker_host = docker_endpoint o.listener_port })
        × (proxy ≡ some (create_proxy c.docker_prefix dp.exposed_by_default))
        × (o.create_docker_client (docker_endpoint o.listener_port) ≡ ok client)
        × HasEndpoint o.files c (docker_endpoint o.listener_port) provider.endpoint
  unfolding proxied
  proxied-inverse c used client dp provider proxy h =
      let host = docker_endpoint o.listener_port in
      let (made, q, next) = bind_inverse (wrap _ (o.create_docker_client host)) _ _ h in
      let (rebuilt, p, last) =
        bind_inverse (new_docker_provider o.files (record c { docker_host = host })) _ _ next in
      let same = ok-injective last in
      (
        sym (ap (λ t. t.0) same),
        sym (ap (λ t. t.3) same),
        subst (λ x. o.create_docker_client host ≡ ok x) (ap (λ t. t.1) same)
            (wrap_inverse _ _ made q),
        subst (λ (x : DockerProvider R). HasEndpoint o.files c host x.endpoint) (ap (λ t. t.2) same)
            (new_docker_provider-endpoint o.files (record c { docker_host = host }) rebuilt p),
      )

  through_proxy-IsProxied :
      (c used : Config) (client first : Client) (dp provider : DockerProvider R)
      (proxy : Option DockerProxyServer)
      → o.create_docker_client c.docker_host ≡ ok first
      → new_docker_provider o.files c ≡ ok dp
      → through_proxy o c first dp ≡ ok (used, client, provider, proxy)
      → IsProxied c dp used client provider proxy
  unfolding through_proxy
  through_proxy-IsProxied c used client first dp provider proxy made there h =
      elim (Bool-cases (needs_proxy o c dp)) [
        | inl e ↦
            let (a, b, d, f) = proxied-inverse c used client dp provider proxy (if_true _ e h) in
            inl (needs_proxy-true c dp e, a, b, d, f)
        | inr e ↦
            let same = ok-injective (if_false _ e h) in
            inr (
              needs_proxy-false c dp e,
              sym (ap (λ t. t.0) same),
              sym (ap (λ t. t.3) same),
              subst (λ x. o.create_docker_client c.docker_host ≡ ok x) (ap (λ t. t.1) same) made,
              subst (λ (x : DockerProvider R). HasEndpoint o.files c c.docker_host x.endpoint)
                  (ap (λ t. t.2) same) (new_docker_provider-endpoint o.files c dp there),
            )
      ]

  -- What each step of `Start` has given to a started program.
  abbrev pub IsStarted : Config → Started R Client Pool Pair → Type 0
  IsStarted c s =
      (first : Client) × (dp : DockerProvider R) × (o.create_docker_client c.docker_host ≡ ok first)
      × (new_docker_provider o.files c ≡ ok dp)
      × (through_proxy o c first dp ≡ ok (s.config, s.docker_client, s.provider, s.proxy))
      × (build o.keyring s.config.redis_tls ≡ ok s.redis.tls)
      × (s.redis ≡ redis_options s.config s.redis.tls)
      × (o.ping s.redis ≡ ok tt)
      × HasEndpoint o.files s.config s.config.docker_host s.polling_provider.endpoint
      × (s.store ≡ new_redis_store s.config)
      × (s.renewal ≡ renewal_of s.config)

  ping_checked-ok :
      (c : Config) (r : Result (Unit {0})) (u : Unit {0}) → ping_checked c r ≡ ok u → r ≡ ok tt
  unfolding ping_checked
  ping_checked-ok c (ok a) u h = refl
  ping_checked-ok c (err e) u h = ground arith
  ping_checked-ok c panic u h = cc

  pub start-IsStarted :
      (c : Config) (s : Started R Client Pool Pair) → start o c ≡ ok s → IsStarted c s
  unfolding start redis_options
  start-IsStarted c s h =
      let (first, e1, h1) = bind_inverse (wrap _ (o.create_docker_client c.docker_host)) _ s h in
      let (dp, e2, h2) = bind_inverse (new_docker_provider o.files c) _ s h1 in
      let (used, e3, h3) = bind_inverse (through_proxy o c first dp) _ s h2 in
      let (tls, e4, h4) = bind_inverse (wrap _ (build o.keyring used.0.redis_tls)) _ s h3 in
      let (u, e5, h5) =
        bind_inverse (ping_checked used.0 (o.ping (redis_options used.0 tls))) _ s h4 in
      let (polling, e6, h6) = bind_inverse (new_docker_provider o.files used.0) _ s h5 in
      subst (IsStarted c) (ok-injective h6) (
        first,
        dp,
        wrap_inverse _ _ first e1,
        e2,
        e3,
        wrap_inverse _ _ tls e4,
        refl,
        ping_checked-ok used.0 _ u e5,
        new_docker_provider-endpoint o.files used.0 polling e6,
        refl,
        refl,
      )

-- Where `Start` comes to the providers, then either the labels have a prefix or the configured
-- provider does not expose containers by default, and there is a proxy with this prefix and this
-- default, the docker client is one for the address of the proxy, and the providers too have this
-- address as their endpoint; or neither is the case, there is no proxy, and client and providers
-- have the host that was given. In both cases a provider whose configuration names an endpoint has
-- that one instead, so that it does not go through the proxy.
pub start-IsProxied :
    {R Client Pool Pair : Type 0} (o : Outside R Client Pool Pair) (c : Config)
    (s : Started R Client Pool Pair)
    → start o c ≡ ok s
    → (dp : DockerProvider R) × (new_docker_provider o.files c ≡ ok dp)
      × IsProxied o c dp s.config s.docker_client s.provider s.proxy
      × HasEndpoint o.files s.config s.config.docker_host s.polling_provider.endpoint
start-IsProxied o c s h =
    let done = start-IsStarted o c s h in
    (done.1, done.3, through_proxy-IsProxied o c _ _ done.0 done.1 _ _ done.2 done.3 done.4, done.8)
