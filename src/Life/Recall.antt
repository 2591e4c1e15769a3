-- ===== src/Life/Recall.antt =====
-- Which configuration the store remembers after a renewal, and after a run of the handler that
-- fails.
use traefik_kop.Prelude.{ℕ, ◌≡◌, ◌≢◌, refl, ◌∙◌, Bool, Option, none, some, List, [], ◌∷◌, ◌==◌}
use traefik_kop.Prelude.Result.{ok}
use traefik_kop.Prelude.Exec.{Exec, pure, modify, ◌>>=◌}
use traefik_kop.Prelude.Exec.Rules.{
  Keeps, Keeps-pure, Keeps-bind, Keeps-wrap, Keeps-lift, Keeps-if, Fails, Fails-bind,
}
use traefik_kop.Text.{Str, sort}
use traefik_kop.Text.Dict.{Dict, keys}
use traefik_kop.Dynamic.{Configuration}
use traefik_kop.Docker.Types.{Container}
use traefik_kop.Config.{Config}
use traefik_kop.Redis.Laws.{all_true}
use traefik_kop.Store.{
  Deps, RedisStore, World, set_names, get, gets_all, gets_matching, store, renew,
  keep_conf_alive_of, keep_conf_alive,
}
use traefik_kop.Store.Failure.{
  Recalls, on-Recalls, remove_old-Recalls, write_all-Recalls, remove_stale-Recalls,
  swap_all-Recalls, store-forgets_failed,
}
use traefik_kop.Handler.{on_first, on_second, must, search, replace_unless, prepared, handle_config}
use traefik_kop.Handler.Steady.{
  filter_services-Keeps, replace_ips-Keeps, merge_load_balancers-Keeps,
}

module _ {R : Type 0} (d : Deps R) (s : RedisStore) (now : ℕ) (conf : Configuration R) where
  store-same : Keeps (Recalls d (some conf)) (store d s now conf)
  unfolding store modify
  store-same = Keeps-bind _ _ (remove_old-Recalls d (some conf) s conf) (λ _.
      Keeps-bind _ _ (Keeps-lift _) (λ kv.
        Keeps-bind _ _ (write_all-Recalls d (some conf) s kv (sort (keys kv))) (λ _.
          Keeps-bind _ _ (remove_stale-Recalls d (some conf) kv conf) (λ _.
            Keeps-bind _ _ (swap_all-Recalls d (some conf) s set_names) (λ _.
              Keeps-bind _ _ (Keeps-wrap _ _ (on-Recalls d (some conf) _))
                (λ _. record { at = λ w h. refl }))))))

  renew-same : Keeps (Recalls d (some conf)) (renew d s now conf)
  unfolding renew
  renew-same = Keeps-bind _ _ (Keeps-lift _) (λ kv.
      Keeps-bind _ _ (Keeps-wrap _ _ (on-Recalls d (some conf) _))
        (λ replies. Keeps-if (all_true replies) _ _ (Keeps-pure tt) store-same))

  keep_of-same : Keeps (Recalls d (some conf)) (keep_conf_alive_of d s now (some conf))
  unfolding keep_conf_alive_of
  keep_of-same = Keeps-bind _ _ (Keeps-wrap _ _ (on-Recalls d (some conf) _)) (λ there.
      Keeps-if there _ _ (Keeps-if (s.ttl == 0) _ _ (Keeps-pure tt) renew-same) store-same)

module _ {R : Type 0} (d : Deps R) (s : RedisStore) (now : ℕ) where
  keep_of-last :
      (w : World d) (o : Option (Configuration R))
      → w.last_config ≡ o
      → (keep_conf_alive_of d s now o w).1.last_config ≡ o
  unfolding keep_conf_alive_of pure
  keep_of-last w none e = e
  keep_of-last w (some conf) e = (keep_of-same d s now conf).at w e

  -- A renewal remembers what it has found, however it ends.
  pub keep_conf_alive-same :
      (w : World d) → (keep_conf_alive d s now w).1.last_config ≡ w.last_config
  unfolding keep_conf_alive ◌>>=◌
  keep_conf_alive-same w = keep_of-last w w.last_config refl

module _ {C R : Type 0} (find : Str → Str → Str → Exec C Container) (d : Deps R) (zero_rest : R)
    (config : Config) (use_bind_port_ip : Bool) (last : Option (Configuration R)) where
  abbrev BothRecall : C × World d → Type 0
  BothRecall t = t.1.last_config ≡ last

  search-BothRecall :
      (type service router : Str) → Keeps BothRecall (search find d type service router)
  unfolding search on_first
  search-BothRecall type service router = record { at = λ t h. h }

  get-Recalls : (key : Str) → Keeps (Recalls d last) (get d key)
  unfolding get
  get-Recalls key =
      Keeps-bind _ _ (Keeps-wrap _ _ (on-Recalls d last (d.redis.get key))) (λ o. Keeps-pure _)

  gets_all-Recalls : (l : List Str) (vals : Dict Str) → Keeps (Recalls d last) (gets_all d l vals)
  unfolding gets_all
  gets_all-Recalls [] vals = Keeps-pure vals
  gets_all-Recalls (key ∷ l) vals =
      Keeps-bind _ _ (Keeps-wrap _ _ (get-Recalls key)) (λ v. gets_all-Recalls l _)

  gets-BothRecall : (key : Str) → Keeps BothRecall (on_second {C = C} (gets_matching d key))
  unfolding on_second gets_matching
  gets-BothRecall key = record {
    at = λ t h.
        (Keeps-bind _ _ (Keeps-wrap _ _ (on-Recalls d last (d.redis.keys key)))
            (λ found. gets_all-Recalls found [])).at
          t.1 h;
  }

  replace_unless-BothRecall :
      (conf : Configuration R)
      → Keeps BothRecall (replace_unless find d config use_bind_port_ip conf)
  unfolding replace_unless
  replace_unless-BothRecall conf =
      Keeps-if _ _ _
        (replace_ips-Keeps (search find d) BothRecall search-BothRecall conf config.bind_ip)
        (Keeps-pure conf)

  prepared-BothRecall :
      (conf : Configuration R)
      → Keeps BothRecall (prepared find d zero_rest config use_bind_port_ip conf)
  unfolding prepared
  prepared-BothRecall conf =
      Keeps-bind _ _
        (filter_services-Keeps (search find d) BothRecall search-BothRecall config.namespace conf)
        (λ kept. Keeps-bind _ _ (replace_unless-BothRecall kept) (λ replaced.
          merge_load_balancers-Keeps (search find d) BothRecall search-BothRecall _ gets-BothRecall
            zero_rest replaced))

  must-fails :
      (m : Exec (World d) (Unit {0})) (t : C × World d)
      → ((a : Unit {0}) → (must (on_second {C = C} m) t).0 ≢ ok a)
      → (m t.1).0 ≢ ok tt
  unfolding must on_second
  must-fails m t h e = h tt (rw e)

  handle-Fails :
      (s : RedisStore) (now : ℕ) (conf : Configuration R)
      → Fails BothRecall
          (handle_config find d zero_rest config use_bind_port_ip s now conf)
          BothRecall
  unfolding handle_config must on_second
  handle-Fails s now conf = Fails-bind _ _ (prepared-BothRecall conf) (λ out. record {
    at = λ t h n. store-forgets_failed d s now out t.1 (must-fails (store d s now out) t n) ∙ h;
  })

-- A run of the handler that does not end well leaves the remembered configuration as it is.
pub handle_config-forgets_failed :
    {C R : Type 0} (find : Str → Str → Str → Exec C Container) (d : Deps R) (zero_rest : R)
    (config : Config) (use_bind_port_ip : Bool) (s : RedisStore) (now : ℕ) (conf : Configuration R)
    (c : C) (w : World d)
    → (handle_config find d zero_rest config use_bind_port_ip s now conf (c, w)).0 ≢ ok tt
    → (handle_config find d zero_rest config use_bind_port_ip s now conf (c, w)).1.1.last_config
      ≡ w.last_config
handle_config-forgets_failed find d zero_rest config use_bind_port_ip s now conf c w n =
    (handle-Fails find d zero_rest config use_bind_port_ip w.last_config s now conf).at (c, w) refl
      (λ a e. n e)
