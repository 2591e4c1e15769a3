-- ===== src/Tests/Life.antt =====
-- A running program, whose daemon goes down and whose server loses everything between two ticks.
use traefik_kop.Prelude.{◌≡◌, ◌≢◌, refl, arith, if◌then◌else◌, Bool, true, false, ◌&&◌, [], ◌∷◌}
use traefik_kop.Text.Dict
use traefik_kop.Namespace.Sections.{has_maps}
use traefik_kop.Store.{World}
use traefik_kop.Polling.{Poller, finish_attempt, new_polling_provider}
use traefik_kop.Polling.Single.{IsSingle}
use traefik_kop.Redis.Memory.Sound.{memory-Laws}
use traefik_kop.Handler.Watcher
use traefik_kop.Handler.Watcher.{forget_defaults}
use traefik_kop.Life.{
  Given, poll_tick, configure, Runs, begun, configured, polled, attempted, elsewhere,
}
use traefik_kop.Life.Invariant.{IsGiven, Runs-IsGiven}
use traefik_kop.Tests.Examples.{Rest, deps, one_server, host, fresh}
use traefik_kop.Tests.Handler.{settings, lowered, named}
use traefik_kop.Tests.Daemon.{web, daemon_of, down}
use traefik_kop.Handler.Unread.{IsCalm}
use traefik_kop.Prelude.Result.{ok, err, panic}
use traefik_kop.Text.{str, str_eq}

maps :
    has_maps (forget_defaults one_server).http
      && (has_maps (forget_defaults one_server).tcp && has_maps (forget_defaults one_server).udp)
    ≡ true
unfolding has_maps Dict.is_distinct Dict.has Dict.lookup Watcher.only_default Watcher.forget_default
    Watcher.forget_all Watcher.forget_section Watcher.forget_defaults
maps = refl

found-calm : (b : Bool) → (if b then ok web else err (str "no such container")) ≢ panic
found-calm true e = cc
found-calm false e = cc

web-IsCalm : IsCalm (daemon_of web)
web-IsCalm = record { list_calm = λ e. cc; inspect_calm = λ id. found-calm (str_eq id (str "c1")) }

down-IsCalm : IsCalm down
down-IsCalm = record { list_calm = λ e. cc; inspect_calm = λ id e. cc }

abbrev first : Given Rest
first = record { conf = one_server; daemon = daemon_of web; at = 7 }

abbrev second : Given Rest
second = record { conf = one_server; daemon = down; at = 8 }

abbrev written : World deps
written = (configure deps tt settings false host first fresh).1

abbrev lost : World deps
lost = record (configure deps tt settings false host second written).1 { server = [] }

abbrev polled_once : Poller × World deps
polled_once = poll_tick deps host 9 (new_polling_provider, lost)

runs :
    Runs deps tt settings false host
      (second ∷ first ∷ [])
      (finish_attempt 0 polled_once.0)
      polled_once.1
runs =
    attempted
      (polled
        (elsewhere
          (configured (configured (begun []) first (omega arith, web-IsCalm, lowered, maps)) second
            (omega arith, down-IsCalm, lowered, maps))
          [])
        9)
      0

Runs-IsGiven_example :
    IsGiven settings.namespace (second ∷ first ∷ []) polled_once.1.last_config
    × IsSingle (finish_attempt 0 polled_once.0)
Runs-IsGiven_example =
    Runs-IsGiven deps tt settings false host (second ∷ first ∷ []) (finish_attempt 0 polled_once.0)
      polled_once.1 memory-Laws named runs
