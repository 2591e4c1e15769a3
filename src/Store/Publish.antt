-- ===== src/Store/Publish.antt =====
-- What a successful `Store` has published.
use traefik_kop.Prelude.{
  ℕ, ◌≡◌, refl, true, Option, some, List, [], ◌∷◌, arith, inl, inr, Bool-cases, subst, String,
}
use traefik_kop.Prelude.Result.{ok}
use traefik_kop.Prelude.Exec.{pure, modify}
use traefik_kop.Prelude.Exec.Rules.{
  Keeps, Keeps-bind, Keeps-wrap, Keeps-deref, Yields, Yields-Keeps, Yields_anywhere, Yields-wrap,
  Yields-bind, Yields-bind_lift, Yields-bind_any, Yields-lift_ok,
}
use traefik_kop.Text.{Str, str, str_eq, elem, has_prefix, sort}
use traefik_kop.Text.Equality.{eq_iff, elem-sort}
use traefik_kop.Text.Decimal.{format_uint}
use traefik_kop.Text.Dict.{Dict, lookup, keys, has, text_at, elem-keys, has-lookup, text_at-lookup}
use traefik_kop.Dynamic.{Configuration}
use traefik_kop.Kv.Walk.{config_to_kv}
use traefik_kop.Kv.Under.{IsNamed}
use traefik_kop.Kv.Keys.{config_to_kv-keys}
use traefik_kop.Redis.{text, Item}
use traefik_kop.Redis.Laws.{Laws}
use traefik_kop.Store.{
  Deps, RedisStore, World, on, write_all, remove_stale, remove_stale_server_keys, set_names,
  sentinel, store,
}
use traefik_kop.Store.Names.{sk-outside, new_key-outside}
use traefik_kop.Store.Steady.{
  Holds, OutsideAll, set-Holds, remove_stale_server_keys-Holds, swap_all-Holds, remember-Holds,
}

abbrev pub item : Str → ℕ → Option Item
item v t = some (record { content = text v; ttl = t })

module _ {R : Type 0} (d : Deps R) (laws : Laws d.redis) where
  pub outside_all :
      (j : Str) (x : Option Item) (s : RedisStore) (sets : List Str)
      → has_prefix (str "traefik/") j ≡ true
      → OutsideAll d laws j x s sets
  outside_all j x s [] h = tt
  outside_all j x s (b ∷ sets) h =
      ((sk-outside s b j h, new_key-outside s b j h), outside_all j x s sets h)

  -- A SET that is accepted makes its key hold the text.
  set-Yields :
      (key v : Str) (t : ℕ)
      → Yields (λ _. Unit {0}) (on d (d.redis.set key v t)) (λ _. Holds d laws key (item v t))
  unfolding on
  set-Yields key v t = record { at = λ w h a e. laws.set_ok key v t w.server (ground arith) }

  module _ (s : RedisStore) (kv : Dict Str) (key : Str) where
    abbrev Written : World d → Type 0
    Written = Holds d laws key (item (text_at key kv) s.ttl)

    write_self :
        (other : Str)
        → key ≡ other
        → Yields (λ _. Unit {0}) (on d (d.redis.set other (text_at other kv) s.ttl)) (λ _. Written)
    write_self other e =
        subst
          (λ i. Yields (λ _. Unit {0}) (on d (d.redis.set i (text_at i kv) s.ttl)) (λ _. Written)) e
          (set-Yields key (text_at key kv) s.ttl)

    -- one write, of this key again or of another
    write-Written :
        (other : Str)
        → Yields Written (on d (d.redis.set other (text_at other kv) s.ttl)) (λ _. Written)
    write-Written other = elim (Bool-cases (str_eq key other)) [
      | inl e ↦ Yields_anywhere _ (write_self other ((eq_iff key other).0 e))
      | inr e ↦ Yields-Keeps _ (
          set-Holds d laws key _ other (text_at other kv) s.ttl
            (ground (arith, eq_iff key other, eq_iff other key)))
    ]

    write_all-keeps : (l : List Str) → Yields Written (write_all d s kv l) (λ _. Written)
    unfolding write_all pure
    write_all-keeps [] = record { at = λ w h a e. h }
    write_all-keeps (other ∷ l) =
        Yields-bind _ _ (Yields-wrap _ _ (write-Written other)) (λ _. write_all-keeps l)

    -- The write loop leaves every key of its list with its value and the TTL.
    write_all-Yields :
        (l : List Str)
        → elem key l ≡ true
        → Yields (λ _. Unit {0}) (write_all d s kv l) (λ _. Written)
    unfolding write_all elem
    write_all-Yields [] h = cc
    write_all-Yields (other ∷ l) h = elim (Bool-cases (str_eq key other)) [
      | inl e ↦
          Yields-bind _ _ (Yields-wrap _ _ (write_self other ((eq_iff key other).0 e)))
            (λ _. write_all-keeps l)
      | inr e ↦ Yields-bind_any _ _ (λ _. write_all-Yields l (ground arith))
    ]

    -- The cleanup of servers leaves the keys of the configuration.
    remove_stale-Holds :
        (conf : Configuration R) → has key kv ≡ true → Keeps Written (remove_stale d kv conf)
    unfolding remove_stale
    remove_stale-Holds conf h = Keeps-bind _ _ (Keeps-deref conf.http) (λ http.
        Keeps-bind _ _ (of_section (keys http.services) "http") (λ _.
          Keeps-bind _ _ (Keeps-deref conf.tcp) (λ tcp.
            Keeps-bind _ _ (of_section (keys tcp.services) "tcp") (λ _.
              Keeps-bind _ _ (Keeps-deref conf.udp)
                (λ udp. of_section (keys udp.services) "udp")))))
      where
        of_section :
            (names : List Str) (proto : String)
            → Keeps Written (remove_stale_server_keys d kv names (str proto))
        of_section names proto =
            remove_stale_server_keys-Holds d laws key _ kv names (str proto) (λ n. inl h)

    -- With this flattening of the configuration, a `store` that succeeds leaves the key with its
    -- text.
    store-Written :
        (now : ℕ) (conf : Configuration R)
        → config_to_kv d.directive (d.fields_of conf) ≡ ok kv
        → has key kv ≡ true
        → has_prefix (str "traefik/") key ≡ true
        → Yields (λ _. Unit {0}) (store d s now conf) (λ _. Written)
    unfolding store sentinel
    store-Written now conf e h p = Yields-bind_any _ _ (λ _. rw e (
        Yields-lift_ok kv _ (
          Yields-bind _ _
            (write_all-Yields (sort (keys kv)) (rw (elem-sort key (keys kv), elem-keys key kv) h))
            (λ _. Yields-Keeps _ (
              Keeps-bind _ _ (remove_stale-Holds conf h) (λ _.
                Keeps-bind _ _
                  (swap_all-Holds d laws key _ s set_names
                    (outside_all key (item (text_at key kv) s.ttl) s set_names p))
                  (λ _.
                    Keeps-bind _ _
                      (Keeps-wrap _ _ (
                        set-Holds d laws key _ (sentinel s) (format_uint now) s.ttl
                          (sk-outside s (str "kop_last_update") key p)))
                      (λ _. remember-Holds d laws key _ conf))))))))

  pub store-kv :
      (s : RedisStore) (now : ℕ) (conf : Configuration R)
      → Yields
          (λ _. Unit {0})
          (store d s now conf)
          (λ _ _. (kv : Dict Str) × (config_to_kv d.directive (d.fields_of conf) ≡ ok kv))
  unfolding store
  store-kv s now conf = Yields-bind_any _ _ (λ _.
      Yields-bind_lift (config_to_kv d.directive (d.fields_of conf)) _
        (λ kv e. record { at = λ w h a p. (kv, e) }))

  store-ends :
      (s : RedisStore) (now : ℕ) (conf : Configuration R)
      → Yields
          (λ _. Unit {0})
          (store d s now conf)
          (λ _ w.
            (d.redis.view w.server (sentinel s) ≡ item (format_uint now) s.ttl)
            × (w.last_config ≡ some conf))
  unfolding store modify
  store-ends s now conf = Yields-bind_any _ _ (λ _. Yields-bind_any _ _ (λ kv.
      Yields-bind_any _ _ (λ _. Yields-bind_any _ _ (λ _. Yields-bind_any _ _ (λ _.
        Yields-bind _ _ (Yields-wrap _ _ (set-Yields (sentinel s) (format_uint now) s.ttl))
          (λ _. record { at = λ w h a p. (h, refl) }))))))

  -- A `Store` that returns no error has flattened the configuration, and leaves every key of it
  -- with its text and the TTL of the store, whatever the server held before and whatever became of
  -- the commands whose errors it ignores. It has written the time to the sentinel with the same
  -- TTL, and remembers the configuration. (The configuration is a struct without embedded fields.)
  pub store-publishes :
      (s : RedisStore) (now : ℕ) (conf : Configuration R) (w : World d)
      → IsNamed (d.fields_of conf)
      → (store d s now conf w).0 ≡ ok tt
      → (kv : Dict Str) × (config_to_kv d.directive (d.fields_of conf) ≡ ok kv)
        × ((key v : Str)
            → lookup key kv ≡ some v
            → d.redis.view (store d s now conf w).1.server key ≡ item v s.ttl)
        × (d.redis.view (store d s now conf w).1.server (sentinel s) ≡ item (format_uint now) s.ttl)
        × ((store d s now conf w).1.last_config ≡ some conf)
  store-publishes s now conf w named h =
      let (kv, e) = (store-kv s now conf).at w tt tt h in
      let (there, remembered) = (store-ends s now conf).at w tt tt h in
      (
        kv,
        e,
        (λ key v found.
            let starts = (config_to_kv-keys d.directive (d.fields_of conf) key named e found).0 in
            let held =
              (store-Written s kv key now conf e (has-lookup key kv v found) starts).at w tt tt h in
            subst (λ t. d.redis.view (store d s now conf w).1.server key ≡ item t s.ttl)
              (text_at-lookup key kv v found) held),
        there,
        remembered,
      )
