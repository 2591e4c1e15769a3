-- ===== src/Providers.antt =====
-- multi_provider.go: providers that are initialized, and asked, one after the other; and of
-- polling_provider.go whether the poller does anything.
use traefik_kop.Prelude.{List, [], ◌∷◌, if◌then◌else◌}
use traefik_kop.Prelude.Exec.{Exec, pure, ignore, ◌>>◌}
use traefik_kop.Int64.{ℤ, is_zero}

-- traefik's interface of a provider, on the state of all providers
pub record Provider (W : Type 0) : Type 0 where
  pub init : Exec W (Unit {0})
  pub provide : Exec W (Unit {0})

module _ {W : Type 0} where
  -- `MultiProvider.Init`, which ends with the first error
  unfoldable pub init_all : List (Provider W) → Exec W (Unit {0})
  init_all [] = pure tt
  init_all (p ∷ rest) = p.init >> init_all rest

  -- `MultiProvider.Provide`, which drops the errors
  unfoldable pub provide_all : List (Provider W) → Exec W (Unit {0})
  provide_all [] = pure tt
  provide_all (p ∷ rest) = ignore p.provide >> provide_all rest

  -- `NewMultiProvider`
  unfoldable pub new_multi_provider : List (Provider W) → Provider W
  new_multi_provider upstream = record { init = init_all upstream; provide = provide_all upstream }

  -- `PollingProvider`: its loop runs unless the interval is 0
  unfoldable pub polling_provider : ℤ → Provider W → Exec W (Unit {0}) → Provider W
  polling_provider refresh_interval upstream loop = record {
    init = upstream.init;
    provide = if is_zero refresh_interval then pure tt else loop;
  }
