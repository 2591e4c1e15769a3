-- ===== src/Life.antt =====
-- traefik_kop.go and polling_provider.go: what changes while the program runs. The watcher hands it
-- configurations, `keepStoreAlive` and the poller tick, attempts of the poller end, and other
-- clients change the server.
pub mod Recall
pub mod Invariant
use traefik_kop.Prelude.{ℕ, ◌<◌, ◌≡◌, Bool, true, ◌&&◌, none, List, [], ◌∷◌}
use traefik_kop.Prelude.Exec.{Exec, ignore}
use traefik_kop.Text.{Str}
use traefik_kop.Dynamic.{Configuration}
use traefik_kop.Docker.Cache.{Daemon}
use traefik_kop.Docker.Cache.Settled.{IsIdempotent}
use traefik_kop.Config.{Config}
use traefik_kop.Namespace.Sections.{has_maps}
use traefik_kop.Store.{Deps, RedisStore, World, keep_conf_alive}
use traefik_kop.Polling.{Poller, start_poll_attempt, finish_attempt, new_polling_provider}
use traefik_kop.Handler.{create_config_handler}
use traefik_kop.Handler.Unread.{IsCalm}
use traefik_kop.Handler.Watcher.{forget_defaults}

module _ {R : Type 0} (d : Deps R) (s : RedisStore) where
  -- a tick of `keepStoreAlive`, whose error is only logged
  unfoldable pub renewal_tick : ℕ → Exec (World d) (Unit {0})
  renewal_tick now = ignore (keep_conf_alive d s now)

  -- a tick of the poller
  unfoldable pub poll_tick : ℕ → Poller × World d → Poller × World d
  poll_tick now (p, w) = (start_poll_attempt p, (ignore (keep_conf_alive d s now) w).1)

-- A configuration that the watcher hands over: with the time, and the daemon as the handler's run
-- finds it.
pub record Given (R : Type 0) : Type 0 where
  pub conf : Configuration R
  pub daemon : Daemon
  pub at : ℕ

-- What is supposed of it: a time after the epoch, a client that returns replies or errors,
-- lower-casing twice is lower-casing once, and each map has each key once.
abbrev pub IsUsual : {R : Type 0} → Given R → Type 0
IsUsual g =
    (0 < g.at)
    × IsCalm g.daemon
    × IsIdempotent g.daemon.lower_other
    × (has_maps (forget_defaults g.conf).http
          && (has_maps (forget_defaults g.conf).tcp && has_maps (forget_defaults g.conf).udp)
        ≡ true)

module _ {R : Type 0} (d : Deps R) (zero_rest : R) (config : Config) (use_bind_port_ip : Bool)
    (s : RedisStore) where
  -- a configuration that the watcher hands to its two listeners, one after the other
  unfoldable pub configure : Given R → Exec (World d) (Unit {0})
  configure g w =
      let (r, after) =
        create_config_handler d zero_rest config use_bind_port_ip g.daemon s g.at
          (forget_defaults g.conf) w in
      (r, after.1)

  -- The states of a running program, after the configurations of a list, the last one first, each
  -- with a daemon of its own: also those in which a call has failed, and whatever other clients and
  -- expiry make of the server.
  pub data Runs : List (Given R) → Poller → World d → Type 0 where
    begun :
        (t : d.redis.State)
        → Runs [] new_polling_provider (record { last_config = none; server = t })
    configured :
        {given : List (Given R)} {p : Poller} {w : World d}
        → Runs given p w
        → (g : Given R) → IsUsual g
        → Runs (g ∷ given) p (configure g w).1
    renewed :
        {given : List (Given R)} {p : Poller} {w : World d}
        → Runs given p w
        → (now : ℕ) → Runs given p (renewal_tick d s now w).1
    polled :
        {given : List (Given R)} {p : Poller} {w : World d}
        → Runs given p w
        → (now : ℕ) → Runs given (poll_tick d s now (p, w)).0 (poll_tick d s now (p, w)).1
    attempted :
        {given : List (Given R)} {p : Poller} {w : World d}
        → Runs given p w
        → (id : ℕ) → Runs given (finish_attempt id p) w
    elsewhere :
        {given : List (Given R)} {p : Poller} {w : World d}
        → Runs given p w
        → (t : d.redis.State) → Runs given p (record w { server = t })
