-- ===== src/Life/Invariant.antt =====
-- What holds in every state of a running program.
use traefik_kop.Prelude.{
  ℕ, ◌*◌, ◌≡◌, ◌≢◌, ◌⊎◌, inl, inr, refl, sym, subst, Bool, Option, none, some, List, ◌∷◌,
}
use mathlib.Core.List.{Memᴰ}
use mathlib.Core.List.Memᴰ.{head, tail}
use traefik_kop.Prelude.Result.{Result, ok, err, panic}
use traefik_kop.Prelude.Exec.{ignore}
use traefik_kop.Text.{Str}
use traefik_kop.Dynamic.{Configuration}
use traefik_kop.Config.{Config}
use traefik_kop.Kv.Under.{IsNamed}
use traefik_kop.Redis.Laws.{Laws}
use traefik_kop.Store.{Deps, RedisStore, World}
use traefik_kop.Polling.{Poller, new_polling_provider}
use traefik_kop.Polling.Single.{IsSingle, start_poll_attempt-IsSingle, finish_attempt-IsSingle}
use traefik_kop.Handler.{new_cache, create_config_handler}
use traefik_kop.Handler.Unread.{seen, create_config_handler-seen}
use traefik_kop.Docker.Cache.{find_container_by_service_name}
use traefik_kop.Handler.Watcher.{forget_defaults}
use traefik_kop.Handler.Publish.{AllTrimmed}
use traefik_kop.Life.{
  Given, IsUsual, renewal_tick, poll_tick, configure, Runs, begun, configured, renewed, polled,
  attempted, elsewhere,
}
use traefik_kop.Life.Recall.{keep_conf_alive-same, handle_config-forgets_failed}

-- Nothing is remembered, or what has been made of one of the given configurations: by their names,
-- the services whose container, as the daemon had it for that configuration, is not found or is
-- kept, the routers alike, and the middlewares.
abbrev pub IsGiven : {R : Type 0} → List Str → List (Given R) → Option (Configuration R) → Type 0
IsGiven {R} ns given last =
    (last ≡ none)
    ⊎ ((out : Configuration R) × (g : Given R) × (last ≡ some out)
        × Memᴰ g given
        × AllTrimmed ns (seen g.daemon (g.at * 1_000_000_000)) (forget_defaults g.conf) out)

module _ {R : Type 0} (ns : List Str) where
  one_more :
      (given : List (Given R)) (g : Given R) (last : Option (Configuration R))
      → IsGiven ns given last
      → IsGiven ns (g ∷ given) last
  one_more given g last (inl e) = inl e
  one_more given g last (inr (out, c, e, m, t)) = inr (out, c, e, tail m, t)

done_or_not : (r : Result (Unit {0})) → (r ≡ ok tt) ⊎ (r ≢ ok tt)
done_or_not (ok a) = inl refl
done_or_not (err e) = inr (λ h. cc)
done_or_not panic = inr (λ h. cc)

module _ {R : Type 0} (d : Deps R) (zero_rest : R) (config : Config) (use_bind_port_ip : Bool)
    (s : RedisStore) where
  renewal_tick-last :
      (now : ℕ) (w : World d) → (renewal_tick d s now w).1.last_config ≡ w.last_config
  unfolding renewal_tick ignore
  renewal_tick-last now w = keep_conf_alive-same d s now w

  poll_tick-last :
      (now : ℕ) (p : Poller) (w : World d)
      → (poll_tick d s now (p, w)).1.last_config ≡ w.last_config
  unfolding poll_tick ignore
  poll_tick-last now p w = keep_conf_alive-same d s now w

  -- a configuration that could not be published leaves what is remembered
  configure-failed :
      (g : Given R) (w : World d)
      → (configure d zero_rest config use_bind_port_ip s g w).0 ≢ ok tt
      → (configure d zero_rest config use_bind_port_ip s g w).1.last_config ≡ w.last_config
  unfolding configure create_config_handler
  configure-failed g w failed =
      handle_config-forgets_failed
        (find_container_by_service_name g.daemon (g.at * 1_000_000_000) (g.at * 1_000_000_000)) d
        zero_rest config use_bind_port_ip s g.at (forget_defaults g.conf) new_cache w failed

  module _ (laws : Laws d.redis) (named : (c : Configuration R) → IsNamed (d.fields_of c)) where
    configure-IsGiven :
        (given : List (Given R)) (g : Given R) (w : World d)
        → IsUsual g
        → (configure d zero_rest config use_bind_port_ip s g w).0 ≡ ok tt
        → IsGiven config.namespace
            (g ∷ given)
            (configure d zero_rest config use_bind_port_ip s g w).1.last_config
    unfolding configure
    configure-IsGiven given g w (later, calm, idempotent, maps) done =
        let (out, trimmed, published) =
          create_config_handler-seen d zero_rest config use_bind_port_ip g.daemon
            (forget_defaults g.conf) s g.at w laws idempotent calm later maps named done in
        inr (out, g, published.4, head refl, trimmed)

    last_config-IsGiven :
        (given : List (Given R)) (p : Poller) (w : World d)
        → Runs d zero_rest config use_bind_port_ip s given p w
        → IsGiven config.namespace given w.last_config
    last_config-IsGiven given p w (begun t) = inl refl
    last_config-IsGiven given p w (renewed {w = v} before now) =
        subst (IsGiven config.namespace given) (sym (renewal_tick-last now v))
          (last_config-IsGiven given p v before)
    last_config-IsGiven given p w (polled {p = q} {w = v} before now) =
        subst (IsGiven config.namespace given) (sym (poll_tick-last now q v))
          (last_config-IsGiven given q v before)
    last_config-IsGiven given p w (attempted {p = q} before id) =
        last_config-IsGiven given q w before
    last_config-IsGiven given p w (elsewhere {w = v} before t) =
        last_config-IsGiven given p v before
    last_config-IsGiven given p w (configured {given = before_it} {w = v} before g usual) =
        elim (done_or_not (configure d zero_rest config use_bind_port_ip s g v).0) [
          | inl done ↦ configure-IsGiven before_it g v usual done
          | inr failed ↦
              subst (IsGiven config.namespace (g ∷ before_it)) (sym (configure-failed g v failed)) (
                one_more config.namespace before_it g v.last_config
                  (last_config-IsGiven before_it p v before))
        ]

  Runs-IsSingle :
      (given : List (Given R)) (p : Poller) (w : World d)
      → Runs d zero_rest config use_bind_port_ip s given p w
      → IsSingle p
  unfolding new_polling_provider poll_tick
  Runs-IsSingle given p w (begun t) = inl (refl, refl, refl, refl)
  Runs-IsSingle given p w (configured {given = before_it} {w = v} before g usual) =
      Runs-IsSingle before_it p v before
  Runs-IsSingle given p w (renewed {w = v} before now) = Runs-IsSingle given p v before
  Runs-IsSingle given p w (polled {p = q} {w = v} before now) =
      start_poll_attempt-IsSingle q (Runs-IsSingle given q v before)
  Runs-IsSingle given p w (attempted {p = q} before id) =
      finish_attempt-IsSingle id q (Runs-IsSingle given q w before)
  Runs-IsSingle given p w (elsewhere {w = v} before t) = Runs-IsSingle given p v before

-- In every state of the running program, also after calls that failed, whatever daemon each run of
-- the handler found and whatever other clients did to the server: the store remembers nothing, or a
-- configuration made of one that was given, which has by their names just the services whose
-- container, by that run's reading of its daemon, was not found or is kept, the routers alike, and
-- the middlewares; and at most one attempt of the poller runs, the active one. (A container is kept
-- that has a configured namespace, or none where none is configured. During one run the daemon
-- answers the same, and its client returns replies or errors; the time is after the epoch, a given
-- map has each key once, lower-casing twice is lower-casing once, and a configuration is a struct
-- without embedded fields.)
pub Runs-IsGiven :
    {R : Type 0} (d : Deps R) (zero_rest : R) (config : Config) (use_bind_port_ip : Bool)
    (s : RedisStore) (given : List (Given R)) (p : Poller) (w : World d)
    → Laws d.redis
    → ((c : Configuration R) → IsNamed (d.fields_of c))
    → Runs d zero_rest config use_bind_port_ip s given p w
    → IsGiven config.namespace given w.last_config × IsSingle p
Runs-IsGiven d zero_rest config u s given p w laws named runs = (
  last_config-IsGiven d zero_rest config u s laws named given p w runs,
  Runs-IsSingle d zero_rest config u s given p w runs,
)
