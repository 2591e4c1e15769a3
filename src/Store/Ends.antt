-- ===== src/Store/Ends.antt =====
-- store.go: on a server that is up, `Gets` does not panic, and `store` ends where the configuration
-- can be flattened.
use traefik_kop.Prelude.{ℕ, ◌≡◌, ◌≢◌, refl, Bool, true, false, some, List, [], ◌∷◌, if◌then◌else◌}
use traefik_kop.Prelude.Result.{Result, ok, err, panic}
use traefik_kop.Prelude.Exec.{Exec, lift, ignore, modify, wrap}
use traefik_kop.Prelude.Exec.Ends.{
  Ends, Ends-pure, Ends-lift, Ends-if, Ends-bind, Ends-bind_deref, Calm, Calm-pure, Calm-err,
  Calm-wrap, Calm-bind, ignore-Ends, Ends-Calm,
}
use traefik_kop.Text.{Str, str, contains}
use traefik_kop.Text.Dict.{Dict, keys, has}
use traefik_kop.Dynamic.{Configuration}
use traefik_kop.Kv.Walk.{config_to_kv}
use traefik_kop.Redis.Serves.{Serves}
use traefik_kop.Addresses.Ends.{HasSections}
use traefik_kop.Store.{
  Deps, RedisStore, World, wrapped, sk, new_key, set_names, sentinel, on, get, gets_all,
  gets_matching, remove_keys, remove_old_keys, write_all, unlink_stale, remove_stale_of,
  remove_stale_server_keys, after_rename, swap_keys, swap_all, remove_old, remove_stale, store,
}

module _ {R : Type 0} (d : Deps R) where
  -- From any world, an action ends.
  abbrev pub Completes : {A : Type 0} → Exec (World d) A → Type 0
  Completes m = Ends (λ w. Unit {0}) m (λ a. Unit {0})

  on-Calm :
      {A : Type 0} (c : d.redis.State → Result A × d.redis.State)
      → ((t : d.redis.State) → (c t).0 ≢ panic)
      → Calm (on d c)
  unfolding on
  on-Calm c h = record { at = λ w. h w.server }

  module _ (serves : Serves d.redis) where
    get-Calm : (key : Str) → Calm (get d key)
    unfolding get
    get-Calm key =
        Calm-bind _ _ (Calm-wrap _ _ (on-Calm _ (serves.get_calm key))) (λ o. Calm-pure _)

    gets_all-Calm : (found : List Str) (vals : Dict Str) → Calm (gets_all d found vals)
    unfolding gets_all
    gets_all-Calm [] vals = Calm-pure vals
    gets_all-Calm (key ∷ rest) vals =
        Calm-bind _ _ (Calm-wrap _ _ (get-Calm key)) (λ v. gets_all-Calm rest _)

    pub gets_matching-Calm : (pattern : Str) → Calm (gets_matching d pattern)
    unfolding gets_matching
    gets_matching-Calm pattern =
        Calm-bind _ _ (Calm-wrap _ _ (on-Calm _ (serves.keys_calm pattern)))
          (λ found. gets_all-Calm found [])

    remove_keys-Calm : (set : Str) (names : List Str) → Calm (remove_keys d set names)
    unfolding remove_keys
    remove_keys-Calm set [] = Calm-pure tt
    remove_keys-Calm set (name ∷ rest) =
        Calm-bind _ _ (Calm-wrap _ _ (on-Calm _ (serves.keys_calm _))) (λ res.
          Calm-bind _ _ (Calm-wrap _ _ (on-Calm _ (serves.unlink_calm res)))
            (λ _. remove_keys-Calm set rest))

    remove_old_keys-Calm :
        (s : RedisStore) (names : List Str) (set : Str) → Calm (remove_old_keys d s names set)
    unfolding remove_old_keys
    remove_old_keys-Calm s [] set =
        Calm-bind _ _ (Calm-wrap _ _ (on-Calm _ (serves.smembers_calm _)))
          (λ res. remove_keys-Calm set res)
    remove_old_keys-Calm s (name ∷ names) set =
        Calm-bind _ _ (Calm-wrap _ _ (on-Calm _ (serves.sadd_calm _ _))) (λ _.
          Calm-bind _ _ (Calm-wrap _ _ (on-Calm _ (serves.sdiff_calm _ _)))
            (λ res. remove_keys-Calm set res))

    old-Completes :
        (s : RedisStore) (names : List Str) (set : Str)
        → Completes (ignore (remove_old_keys d s names set))
    old-Completes s names set = ignore-Ends _ (remove_old_keys-Calm s names set)

    remove_old-Completes :
        (s : RedisStore) (conf : Configuration R)
        → HasSections conf
        → Completes (remove_old d s conf)
    unfolding remove_old
    remove_old-Completes s conf (http, tcp, udp) = Ends-bind_deref conf.http _ http (λ h _.
        Ends-bind _ _ (old-Completes s (keys h.middlewares) _) (λ _ _.
          Ends-bind _ _ (old-Completes s (keys h.routers) _) (λ _ _.
            Ends-bind _ _ (old-Completes s (keys h.services) _) (λ _ _.
              Ends-bind_deref conf.tcp _ tcp (λ t _.
                Ends-bind _ _ (old-Completes s (keys t.middlewares) _) (λ _ _.
                  Ends-bind _ _ (old-Completes s (keys t.routers) _) (λ _ _.
                    Ends-bind _ _ (old-Completes s (keys t.services) _) (λ _ _.
                      Ends-bind_deref conf.udp _ udp (λ u _.
                        Ends-bind _ _ (old-Completes s (keys u.routers) _)
                          (λ _ _. old-Completes s (keys u.services) _))))))))))

    set-Completes :
        (f : Str → Str) (key v : Str) (t : ℕ) → Completes (wrap f (on d (d.redis.set key v t)))
    unfolding wrap on
    set-Completes f key v t = record {
      at = λ w p. (tt, rw (serves.set_accepted key v t w.server) refl, tt, tt);
    }

    write_all-Completes :
        (s : RedisStore) (kv : Dict Str) (l : List Str) → Completes (write_all d s kv l)
    unfolding write_all
    write_all-Completes s kv [] = Ends-pure tt tt
    write_all-Completes s kv (key ∷ rest) =
        Ends-bind _ _ (set-Completes _ key _ s.ttl) (λ _ _. write_all-Completes s kv rest)

    unlink_stale-Completes : (kv : Dict Str) (l : List Str) → Completes (unlink_stale d kv l)
    unfolding unlink_stale
    unlink_stale-Completes kv [] = Ends-pure tt tt
    unlink_stale-Completes kv (key ∷ rest) =
        Ends-bind {R = λ u. Unit {0}} _ _
          (Ends-if (has key kv) _ _ (Ends-pure tt tt)
            (ignore-Ends _ (on-Calm _ (serves.unlink_calm (key ∷ [])))))
          (λ _ _. unlink_stale-Completes kv rest)

    stale_of-Completes : (kv : Dict Str) (prefix : Str) → Completes (remove_stale_of d kv prefix)
    unfolding remove_stale_of
    stale_of-Completes kv prefix = ignore-Ends _ (
        Calm-bind _ _ (on-Calm _ (serves.keys_calm _))
          (λ existing. Ends-Calm _ (unlink_stale-Completes kv existing)))

    stale_keys-Completes :
        (kv : Dict Str) (names : List Str) (proto : Str)
        → Completes (remove_stale_server_keys d kv names proto)
    unfolding remove_stale_server_keys
    stale_keys-Completes kv [] proto = Ends-pure tt tt
    stale_keys-Completes kv (name ∷ rest) proto =
        Ends-bind _ _ (stale_of-Completes kv _) (λ _ _. stale_keys-Completes kv rest proto)

    remove_stale-Completes :
        (kv : Dict Str) (conf : Configuration R)
        → HasSections conf
        → Completes (remove_stale d kv conf)
    unfolding remove_stale
    remove_stale-Completes kv conf (http, tcp, udp) = Ends-bind_deref conf.http _ http (λ h _.
        Ends-bind _ _ (stale_keys-Completes kv (keys h.services) _) (λ _ _.
          Ends-bind_deref conf.tcp _ tcp (λ t _.
            Ends-bind _ _ (stale_keys-Completes kv (keys t.services) _) (λ _ _.
              Ends-bind_deref conf.udp _ udp
                (λ u _. stale_keys-Completes kv (keys u.services) _)))))

    after_rename-Calm :
        (setkey : Str) (r : Result (Unit {0})) → r ≢ panic → Calm (after_rename d setkey r)
    unfolding after_rename
    after_rename-Calm setkey (ok a) h = Calm-pure tt
    after_rename-Calm setkey (err e) h = missing (contains (str "no such key") e)
      where
        missing :
            (b : Bool)
            → Calm (
                if b
                then ignore (on d (d.redis.unlink (setkey ∷ [])))
                else lift (err (wrapped (str "rename failed") e)))
        missing true = Ends-Calm _ (ignore-Ends _ (on-Calm _ (serves.unlink_calm (setkey ∷ []))))
        missing false = Calm-err _
    after_rename-Calm setkey panic h = absurd (h refl)

    swap_keys-Calm : (setkey : Str) → Calm (swap_keys d setkey)
    unfolding swap_keys
    swap_keys-Calm setkey = record {
      at = λ w.
          (after_rename-Calm setkey _ (serves.rename_calm (new_key setkey) setkey w.server)).at _;
    }

    swap_all-Completes : (s : RedisStore) (sets : List Str) → Completes (swap_all d s sets)
    unfolding swap_all
    swap_all-Completes s [] = Ends-pure tt tt
    swap_all-Completes s (set ∷ sets) =
        Ends-bind _ _ (ignore-Ends _ (swap_keys-Calm (sk s set))) (λ _ _. swap_all-Completes s sets)

    remember-Completes :
        (conf : Configuration R) → Completes (modify (λ w. record w { last_config = some conf }))
    unfolding modify
    remember-Completes conf = record { at = λ w p. (tt, refl, tt, tt) }

    -- On a server that is up, a store of a configuration that has its three sections and can be
    -- flattened ends without an error.
    pub store-ends :
        (s : RedisStore) (now : ℕ) (conf : Configuration R) (kv : Dict Str)
        → HasSections conf
        → config_to_kv d.directive (d.fields_of conf) ≡ ok kv
        → Completes (store d s now conf)
    unfolding store
    store-ends s now conf kv there e = Ends-bind _ _ (remove_old-Completes s conf there) (λ _ _.
        Ends-bind {R = λ kv. Unit {0}} _ _ (Ends-lift _ kv e tt) (λ out _.
          Ends-bind _ _ (write_all-Completes s out _) (λ _ _.
            Ends-bind _ _ (remove_stale-Completes out conf there) (λ _ _.
              Ends-bind _ _ (swap_all-Completes s set_names) (λ _ _.
                Ends-bind _ _ (set-Completes _ (sentinel s) _ s.ttl)
                  (λ _ _. remember-Completes conf))))))
