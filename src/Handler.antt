-- ===== src/Handler.antt =====
-- traefik_kop.go: `createConfigHandler`, which takes each new configuration from docker to redis,
-- and configuration_watcher.go: the listener that runs before it.
pub mod Names
pub mod Publish
pub mod Watcher
pub mod Steady
pub mod Cached
pub mod Unread
pub mod Ends
use traefik_kop.Prelude.{
  ℕ, ◌*◌, Bool, true, false, not, ◌&&◌, Option, none, some, List, [], ◌∷◌, if◌then◌else◌,
}
use traefik_kop.Prelude.Result.{Result, ok, err, panic}
use traefik_kop.Prelude.Exec.{Exec, pure, ◌>>=◌}
use traefik_kop.Text.{Str, str, str_eq}
use traefik_kop.Text.Dict.{Dict}
use traefik_kop.Dynamic.{Router, Section, Configuration}
use traefik_kop.Docker.Types.{Container}
use traefik_kop.Docker.Cache.{Daemon, DockerCache, find_container_by_service_name}
use traefik_kop.Config.{Config}
use traefik_kop.Namespace.{filter_services}
use traefik_kop.Addresses.Http.{replace_ips}
use traefik_kop.Merge.{merge_load_balancers}
use traefik_kop.Store.{Deps, RedisStore, World, gets_matching, store}

-- an action on the one part of a state, and on the other
unfoldable pub on_first : {C W A : Type 0} → Exec C A → Exec (C × W) A
on_first m (c, w) = let (r, c') = m c in (r, (c', w))

unfoldable pub on_second : {C W A : Type 0} → Exec W A → Exec (C × W) A
on_second m (c, w) = let (r, w') = m w in (r, (c, w'))

abbrev pub raise : {A : Type 0} → Result A → Result A
raise (ok a) = ok a
raise (err e) = panic
raise panic = panic

-- `if err != nil { panic(err) }`
unfoldable pub must : {S A : Type 0} → Exec S A → Exec S A
must m s = let (r, s') = m s in (raise r, s')

-- the cache that each run of the handler makes
unfoldable pub new_cache : DockerCache
new_cache = record { list = none; details = []; expires = 0 }

-- The handler runs on a cache of containers and the store; `find` is the search through the cache.
module _ {C R : Type 0} (find : Str → Str → Str → Exec C Container) (d : Deps R) where
  unfoldable pub search : Str → Str → Str → Exec (C × World d) Container
  search type service router = on_first (find type service router)

  unfoldable pub replace_unless :
      Config → Bool → Configuration R → Exec (C × World d) (Configuration R)
  replace_unless config use_bind_port_ip conf =
      if not use_bind_port_ip && not config.skip_replace
      then replace_ips search conf config.bind_ip
      else pure conf

module _ {C R : Type 0} (find : Str → Str → Str → Exec C Container) (d : Deps R) (zero_rest : R)
    (config : Config) (use_bind_port_ip : Bool) where
  -- what the handler makes of a configuration before it stores it
  unfoldable pub prepared : Configuration R → Exec (C × World d) (Configuration R)
  prepared conf = do
    kept ← filter_services (search find d) config.namespace conf
    replaced ← replace_unless find d config use_bind_port_ip kept
    merge_load_balancers (search find d) (λ key. on_second (gets_matching d key)) zero_rest replaced

  unfoldable pub handle_config : RedisStore → ℕ → Configuration R → Exec (C × World d) (Unit {0})
  handle_config s now conf = do out ← prepared conf; must (on_second (store d s now out))

-- `createConfigHandler`, at a time, with a daemon: the cache of a run begins empty
unfoldable pub create_config_handler :
    {R : Type 0} (d : Deps R)
    → R
    → Config
    → Bool
    → Daemon
    → RedisStore
    → ℕ
    → Configuration R
    → World d
    → Result (Unit {0}) × (DockerCache × World d)
create_config_handler d zero_rest config use_bind_port_ip daemon s now conf w =
    handle_config
      (find_container_by_service_name daemon (now * 1_000_000_000) (now * 1_000_000_000)) d
      zero_rest config use_bind_port_ip s now conf (new_cache, w)
