-- ===== src/Store/KeepAlive.antt =====
-- What a successful `KeepConfAlive` guarantees.
use traefik_kop.Prelude.{
  ℕ, ◌<◌, ◌≡◌, refl, ap, ◌∙◌, sym, Bool, true, Option, some, List, [], ◌∷◌, ◌++◌, arith, ◌⊎◌, inl,
  inr, subst, ◌==◌,
}
use traefik_kop.Prelude.Result.{ok}
use traefik_kop.Prelude.Exec.{pure, ◌>>=◌}
use traefik_kop.Prelude.Exec.Rules.{
  Yields, Yields-wrap, Yields-bind, Yields-bind_any, Yields-bind_lift, Yields-lift_ok, Yields-if,
  Yields_anywhere,
}
use traefik_kop.Text.{Str, elem}
use traefik_kop.Text.Equality.{eq_iff, elem-append}
use traefik_kop.Text.Dict.{Dict, lookup, keys, has, elem-keys}
use traefik_kop.Dynamic.{Configuration}
use traefik_kop.Kv.Walk.{config_to_kv}
use traefik_kop.Kv.Under.{IsNamed}
use traefik_kop.Text.Decimal.{format_uint}
use traefik_kop.Redis.{Item, text}
use traefik_kop.Redis.Laws.{Laws, all_true}
use traefik_kop.Store.{
  Deps, RedisStore, World, on, sentinel, store, renew, keep_conf_alive_of, keep_conf_alive,
}
use traefik_kop.Store.Publish.{store-kv, store-publishes}

module _ {R : Type 0} (d : Deps R) (laws : Laws d.redis) (s : RedisStore) (now : ℕ) where
  -- The key is there and lives on for the whole TTL.
  abbrev pub Alive : Str → World d → Type 0
  Alive key w = (i : Item) × (d.redis.view w.server key ≡ some i) × (i.ttl ≡ s.ttl)

  module _ (conf : Configuration R) (named : IsNamed (d.fields_of conf)) (kv : Dict Str)
      (flat : config_to_kv d.directive (d.fields_of conf) ≡ ok kv) (key : Str)
      (ours : elem key (keys kv ++ sentinel s ∷ []) ≡ true) where
    ours_cases : ((v : Str) × (lookup key kv ≡ some v)) ⊎ (key ≡ sentinel s)
    unfolding elem has
    ours_cases =
        let e = elem-append key (keys kv) (sentinel s ∷ []) in
        ground (arith, e, elem-keys key kv, eq_iff key (sentinel s))

    store-Alive : Yields (λ _. Unit {0}) (store d s now conf) (λ _. Alive key)
    store-Alive = record {
      at = λ w h a e.
          let (kv', flat', published, there, last) = store-publishes d laws s now conf w named e in
          elim ours_cases [
            | inl (v, found) ↦ (_, published key v (ground arith), refl)
            | inr same ↦
                (record { content = text (format_uint now); ttl = s.ttl }, rw same there, refl)
          ];
    }

    renew-Alive : 0 < s.ttl → Yields (λ _. Unit {0}) (renew d s now conf) (λ _. Alive key)
    unfolding renew on pure
    renew-Alive positive = rw flat (
        Yields-lift_ok kv _ (
          Yields-bind {R = λ l w. all_true l ≡ true → Alive key w} _ _ (Yields-wrap _ _ expired)
            (λ l.
              Yields-if (all_true l) _ _ (λ all. kept l all) (λ _. Yields_anywhere _ store-Alive))))
      where
        expired :
            Yields
              (λ _. Unit {0})
              (on d (d.redis.pexpire (keys kv ++ sentinel s ∷ []) s.ttl))
              (λ l w. all_true l ≡ true → Alive key w)
        expired = record {
          at = λ w h l e all.
              let (i, held, renewed) =
                laws.pexpire_ok (keys kv ++ sentinel s ∷ []) s.ttl w.server l key positive
                  (ground arith) all ours in
              (record i { ttl = s.ttl }, renewed, refl);
        }

        kept :
            (l : List Bool)
            → all_true l ≡ true
            → Yields (λ w. all_true l ≡ true → Alive key w) (pure tt) (λ _. Alive key)
        kept l all = record { at = λ w h a e. h all }

    keep-Alive :
        0 < s.ttl → Yields (λ _. Unit {0}) (keep_conf_alive_of d s now (some conf)) (λ _. Alive key)
    unfolding keep_conf_alive_of
    keep-Alive positive = Yields-bind_any _ _ (λ there.
        Yields-if there _ _
          (λ _.
            Yields-if (s.ttl == 0) _ _ (λ never. absurd (ground arith)) (λ _. renew-Alive positive))
          (λ _. store-Alive))

  -- the last configuration that was stored, where a `KeepConfAlive` succeeds, can be flattened
  keep-flat :
      (conf : Configuration R) (w : World d)
      → 0 < s.ttl
      → (keep_conf_alive_of d s now (some conf) w).0 ≡ ok tt
      → (kv : Dict Str) × (config_to_kv d.directive (d.fields_of conf) ≡ ok kv)
  unfolding keep_conf_alive_of renew
  keep-flat conf w positive h =
      (Yields-bind_any {P = λ _. Unit {0}}
          {Q = λ _ _. (kv : Dict Str) × (config_to_kv d.directive (d.fields_of conf) ≡ ok kv)} _ _
          (λ there.
            Yields-if there _ _
              (λ _.
                Yields-if (s.ttl == 0) _ _ (λ never. absurd (ground arith))
                  (λ _.
                    Yields-bind_lift (config_to_kv d.directive (d.fields_of conf)) _
                      (λ kv e. record { at = λ w h a p. (kv, e) })))
              (λ _. store-kv d laws s now conf))).at
        w tt tt h

  -- `KeepConfAlive` with the configuration that it finds
  pub keep_conf_alive-step :
      (w : World d) (o : Option (Configuration R))
      → w.last_config ≡ o
      → keep_conf_alive d s now w ≡ keep_conf_alive_of d s now o w
  unfolding keep_conf_alive ◌>>=◌
  keep_conf_alive-step w o h = ap (λ o. keep_conf_alive_of d s now o w) h

  -- A `KeepConfAlive` that returns no error, in an instance with a TTL that has stored a
  -- configuration, leaves every key of that configuration and the sentinel in place with the whole
  -- TTL ahead of it, whichever of them had expired before.
  pub keep_conf_alive-renews :
      (w : World d) (conf : Configuration R)
      → 0 < s.ttl
      → IsNamed (d.fields_of conf)
      → w.last_config ≡ some conf
      → (keep_conf_alive d s now w).0 ≡ ok tt
      → (kv : Dict Str) × (config_to_kv d.directive (d.fields_of conf) ≡ ok kv)
        × ((key : Str)
            → elem key (keys kv ++ sentinel s ∷ []) ≡ true
            → Alive key (keep_conf_alive d s now w).1)
  keep_conf_alive-renews w conf positive named last h =
      let e = keep_conf_alive-step w (some conf) last in
      let done : (keep_conf_alive_of d s now (some conf) w).0 ≡ ok tt = ap (λ r. r.0) (sym e) ∙ h in
      let (kv, flat) = keep-flat conf w positive done in
      (
        kv,
        flat,
        λ key ours.
            subst (λ r. Alive key r.1) (sym e)
              ((keep-Alive conf named kv flat key ours positive).at w tt tt done),
      )
