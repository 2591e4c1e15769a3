-- ===== src/Handler/Ends.antt =====
-- A run of the handler comes to its end: nothing before the store panics, and the store does not
-- fail but for a configuration that cannot be flattened.
use traefik_kop.Prelude.{
  ℕ, ◌*◌, ◌≡◌, ◌⊎◌, inl, inr, refl, sym, ap, subst, Bool, true, not, ◌&&◌, Option,
}
use traefik_kop.Prelude.Result.{Result, ok, err, panic}
use traefik_kop.Prelude.Exec.{Exec, attempt}
use traefik_kop.Prelude.Exec.Rules.{bind_ok}
use traefik_kop.Prelude.Exec.Ends.{
  Ends, Ends-pure, Ends-if, Ends-bind, Returns-Ends, Calm, attempt-Ends,
}
use traefik_kop.Text.{Str}
use traefik_kop.Text.Dict.{Dict}
use traefik_kop.Dynamic.{Configuration}
use traefik_kop.Docker.Types.{Container}
use traefik_kop.Docker.Cache.{Daemon, populate, find_container_by_service_name}
use traefik_kop.Docker.Cache.Settled.{IsIdempotent}
use traefik_kop.Config.{Config}
use traefik_kop.Kv.Walk.{config_to_kv}
use traefik_kop.Namespace.Filter.{Answers, filter_services-Returns}
use traefik_kop.Namespace.Sections.{has_maps}
use traefik_kop.Namespace.Whole.{
  filtered_services-IsWhole, IsWhole-HasSections, get_router_of_service_total,
}
use traefik_kop.Addresses.Replace.{HaveHosts}
use traefik_kop.Addresses.Ends.{IsWhole, HasSections, replace_ips-Ends}
use traefik_kop.Merge.Ends.{merge_load_balancers-Ends}
use traefik_kop.Redis.Laws.{Laws}
use traefik_kop.Redis.Serves.{Serves}
use traefik_kop.Kv.Under.{IsNamed}
use traefik_kop.Store.Publish.{store-publishes}
use traefik_kop.Store.{Deps, RedisStore, World, gets_matching, store}
use traefik_kop.Store.Ends.{gets_matching-Calm, store-ends}
use traefik_kop.Handler.{
  on_second, raise, must, new_cache, search, replace_unless, prepared, handle_config,
  create_config_handler,
}
use traefik_kop.Handler.Publish.{AllTrimmed, IsPublished, on_first-Returns, prepared-Yields}
use traefik_kop.Handler.Cached.{in_details, BeginsOrFresh, cached-Answers}

module _ {C W A : Type 0} (P : C → Type 0) where
  tried_second :
      (m : Exec W A) → Calm m → Ends (λ (s : C × W). P s.0) (attempt (on_second m)) (λ o. Unit {0})
  unfolding attempt on_second
  tried_second m c = record {
    at = λ s p. let (o, e, _, _) = (attempt-Ends m c).at s.1 tt in (o, e, tt, p);
  }

module _ {R : Type 0} (d : Deps R) where
  -- The run has published the configuration without an error; or it has panicked, for the
  -- configuration cannot be flattened.
  abbrev pub EndsWith : RedisStore → ℕ → Configuration R → Result (Unit {0}) → World d → Type 0
  EndsWith s now out r w =
      ((r ≡ ok tt) × IsPublished d s now out w)
      ⊎ ((r ≡ panic)
          × ((config_to_kv d.directive (d.fields_of out) ≡ panic)
              ⊎ ((e : Str) × (config_to_kv d.directive (d.fields_of out) ≡ err e))))

module _ {C R : Type 0} (find : Str → Str → Str → Exec C Container) (d : Deps R) (zero_rest : R)
    (config : Config) (use_bind_port_ip : Bool) (P : C → Type 0)
    (answer : Str → Str → Str → Option Container) (answers : Answers find P answer)
    (laws : Laws d.redis) (named : (c : Configuration R) → IsNamed (d.fields_of c))
    (serves : Serves d.redis) (hosts : HaveHosts answer) where
  searches : Answers (search find d) (λ s. P s.0) answer
  unfolding search
  searches type service router =
      on_first-Returns P (find type service router) _ (answers type service router)

  replace_unless-Ends :
      (conf : Configuration R)
      → IsWhole conf
      → Ends
          (λ (s : C × World d). P s.0)
          (replace_unless find d config use_bind_port_ip conf)
          HasSections
  unfolding replace_unless
  replace_unless-Ends conf whole =
      let there = IsWhole-HasSections conf whole in
      Ends-if (not use_bind_port_ip && not config.skip_replace) _ _
        (replace_ips-Ends (search find d) conf _
          (λ type service router.
            Returns-Ends _ _ (searches type service router) (hosts type service router))
          (get_router_of_service_total conf there) config.bind_ip whole)
        (Ends-pure conf there)

  prepared-Ends :
      (conf : Configuration R)
      → IsWhole conf
      → Ends
          (λ (s : C × World d). P s.0)
          (prepared find d zero_rest config use_bind_port_ip conf)
          HasSections
  unfolding prepared
  prepared-Ends conf whole =
      Ends-bind {R = IsWhole} _ _
        (Returns-Ends _ _ (filter_services-Returns (search find d) _ answer searches _ conf)
          (filtered_services-IsWhole config.namespace answer conf whole))
        (λ kept all. Ends-bind _ _ (replace_unless-Ends kept all) (λ replaced there.
          merge_load_balancers-Ends _ _ replaced _
            (λ type service router. Returns-Ends _ _ (searches type service router) tt)
            (λ key. tried_second P (gets_matching d key) (gets_matching-Calm d serves key))
            (get_router_of_service_total replaced there) zero_rest there))

  raised : (r : Result (Unit {0})) → (r ≡ ok tt) ⊎ (raise r ≡ panic)
  raised (ok a) = inl refl
  raised (err e) = inr refl
  raised panic = inr refl

  flattens :
      (r : Result (Dict Str))
      → ((kv : Dict Str) × (r ≡ ok kv)) ⊎ ((r ≡ panic) ⊎ ((e : Str) × (r ≡ err e)))
  flattens (ok kv) = inl (kv, refl)
  flattens (err e) = inr (inr (e, refl))
  flattens panic = inr (inl refl)

  stored-EndsWith :
      (s : RedisStore) (now : ℕ) (out : Configuration R) (t : C × World d)
      → HasSections out
      → EndsWith d s now out
          (must (on_second (store d s now out)) t).0
          (must (on_second (store d s now out)) t).1.1
  unfolding must on_second
  stored-EndsWith s now out t there = elim (flattens (config_to_kv d.directive (d.fields_of out))) [
    | inl (kv, e) ↦
        let done = ((store-ends d serves s now out kv there e).at t.1 tt).1 in
        inl (ap raise done, store-publishes d laws s now out t.1 (named out) done)
    | inr never ↦ elim (raised (store d s now out t.1).0) [
      | inl done ↦ inl (ap raise done, store-publishes d laws s now out t.1 (named out) done)
      | inr e ↦ inr (e, never)
    ]
  ]

  pub handle_config-EndsWith :
      (conf : Configuration R) (s : RedisStore) (now : ℕ) (c : C) (w : World d)
      → P c
      → has_maps conf.http && (has_maps conf.tcp && has_maps conf.udp) ≡ true
      → IsWhole conf
      → (out : Configuration R) × AllTrimmed config.namespace answer conf out
        × EndsWith d s now out
            (handle_config find d zero_rest config use_bind_port_ip s now conf (c, w)).0
            (handle_config find d zero_rest config use_bind_port_ip s now conf (c, w)).1.1
  unfolding handle_config
  handle_config-EndsWith conf s now c w p maps whole =
      let (out, e, there, _) = (prepared-Ends conf whole).at (c, w) p in
      (
        out,
        (prepared-Yields find d zero_rest config use_bind_port_ip P answer answers conf maps).at
            (c, w) p out e,
        subst (λ x. EndsWith d s now out x.0 x.1.1) (sym (bind_ok _ _ (c, w) out e))
            (stored-EndsWith s now out _ there),
      )

-- A run of the handler from an empty cache comes to its end, where the daemon can be read at its
-- beginning and the server accepts what is written. There is a configuration that it has then
-- either published without an error, so that the server holds each key of its flattening with its
-- text and the TTL, and the time under the sentinel, and the store remembers it, or has panicked
-- at, because it cannot be flattened. By their names, the services and routers of this
-- configuration are those of the given one for which the containers read have no match, or one that
-- has a configured namespace, or none where none is configured; its middlewares are the given ones.
-- (In the given one no section is missing, each map has each key once, each service has a load
-- balancer, and the URLs of HTTP servers are empty or can be parsed; the containers read have host
-- configurations; lower-casing twice is lower-casing once; a configuration is a struct without
-- embedded fields.)
pub create_config_handler-EndsWith :
    {R : Type 0} (d : Deps R) (zero_rest : R) (config : Config) (use_bind_port_ip : Bool)
    (daemon : Daemon) (conf : Configuration R) (s : RedisStore) (now : ℕ) (w : World d)
    (laws : Laws d.redis) (named : (c : Configuration R) → IsNamed (d.fields_of c))
    (serves : Serves d.redis) (hosts : HaveHosts (in_details daemon (now * 1_000_000_000)))
    → IsIdempotent daemon.lower_other
    → (populate daemon (now * 1_000_000_000) (now * 1_000_000_000) new_cache).0 ≡ ok tt
    → has_maps conf.http && (has_maps conf.tcp && has_maps conf.udp) ≡ true
    → IsWhole conf
    → (out : Configuration R) × AllTrimmed config.namespace
        (in_details daemon (now * 1_000_000_000))
        conf
        out
      × EndsWith d s now out
          (create_config_handler d zero_rest config use_bind_port_ip daemon s now conf w).0
          (create_config_handler d zero_rest config use_bind_port_ip daemon s now conf w).1.1
unfolding create_config_handler
create_config_handler-EndsWith d zero_rest config use_bind_port_ip daemon conf s now w laws named
      serves hosts idempotent reads maps whole =
    let t = now * 1_000_000_000 in
    handle_config-EndsWith (find_container_by_service_name daemon t t) d zero_rest config
      use_bind_port_ip (BeginsOrFresh daemon t) (in_details daemon t)
      (cached-Answers daemon t idempotent reads) laws named serves hosts conf s now new_cache w
      (inl refl) maps whole
