-- ===== src/Store/Foreign.antt =====
-- The keys of others: no call of the store touches them, also not one that fails.
use traefik_kop.Prelude.{
  ℕ, ◌≡◌, refl, true, false, Option, none, some, List, [], ◌∷◌, ◌++◌, arith, inl, inr, Bool-cases,
  subst, Option-cases, ◌==◌,
}
use traefik_kop.Prelude.Result.{ok}
use traefik_kop.Prelude.Exec.{pure, ignore, ◌>>=◌}
use traefik_kop.Prelude.Exec.Rules.{
  Keeps, Keeps-pure, Keeps-bind, Keeps-wrap, Keeps-deref, Keeps-if, Keeps-bind_lift,
}
use traefik_kop.Text.{Str, str, str_eq, elem, has_prefix, sort}
use traefik_kop.Text.Equality.{eq_iff, elem-sort, elem-append}
use traefik_kop.Text.Decimal.{format_uint}
use traefik_kop.Text.Dict.{Dict, lookup, keys, has, text_at, elem-keys}
use traefik_kop.Dynamic.{Configuration}
use traefik_kop.Kv.Walk.{config_to_kv}
use traefik_kop.Kv.Under.{IsNamed}
use traefik_kop.Kv.Keys.{config_to_kv-keys}
use traefik_kop.Redis.{Item}
use traefik_kop.Redis.Laws.{Laws, is_plain, all_true}
use traefik_kop.Store.{
  Deps, RedisStore, World, on, star, remove_old_keys, write_all, remove_old, remove_stale,
  remove_stale_server_keys, set_names, sentinel, store, renew, keep_conf_alive_of, keep_conf_alive,
}
use traefik_kop.Store.Names.{
  key_path-starts, server_prefix-starts, own_keys, own_keys-sentinel, own_keys-set,
}
use traefik_kop.Store.Steady.{
  Holds, Outside, OutsideAll, Unmatched, on-Holds, set-Holds, remove_old_keys-Holds,
  remove_stale_server_keys-Holds, swap_all-Holds, remember-Holds,
}

module _ {R : Type 0} (d : Deps R) (laws : Laws d.redis) (s : RedisStore) (j : Str)
    (x : Option Item) (elsewhere : has_prefix (str "traefik/") j ≡ false)
    (not_own : elem j (own_keys s) ≡ false) where
  abbrev Kept : World d → Type 0
  Kept = Holds d laws j x

  -- a pattern that begins with traefik/ does not match `j`
  foreign_pattern : (p q : Str) → p ≡ str "traefik/" ++ q → d.redis.glob p j ≡ false
  unfolding is_plain str
  foreign_pattern p q e = elim (Bool-cases (d.redis.glob p j)) [
    | inl matched ↦
        let starts =
          laws.glob_head (str "traefik/") q j refl
            (subst (λ t. d.redis.glob t j ≡ true) e matched) in
        cc (starts, elsewhere)
    | inr unmatched ↦ unmatched
  ]

  foreign_names : (set : Str) → Unmatched d laws j x set
  foreign_names set n = let (q, e) = key_path-starts set n (str "/") in foreign_pattern _ q e

  Outside-set : (set : Str) → elem set set_names ≡ true → Outside d laws j x s set
  Outside-set set m = own_keys-set s j set not_own m

  old_keys :
      (names : List Str) (set : Str)
      → elem set set_names ≡ true
      → Keeps Kept (ignore (remove_old_keys d s names set))
  old_keys names set m =
      remove_old_keys-Holds d laws j x s names set (Outside-set set m) (foreign_names set)

  remove_old-Kept : (conf : Configuration R) → Keeps Kept (remove_old d s conf)
  unfolding remove_old set_names str elem str_eq
  remove_old-Kept conf = search (Keeps-bind, Keeps-deref, old_keys) depth 30

  stale_of :
      (kv : Dict Str) (names : List Str) (proto : Str)
      → Keeps Kept (remove_stale_server_keys d kv names proto)
  unfolding star
  stale_of kv names proto =
      remove_stale_server_keys-Holds d laws j x kv names proto
        (λ n. let (q, e) = server_prefix-starts proto n (str "*") in inr (foreign_pattern _ q e))

  remove_stale-Kept : (kv : Dict Str) (conf : Configuration R) → Keeps Kept (remove_stale d kv conf)
  unfolding remove_stale
  remove_stale-Kept kv conf = search (Keeps-bind, Keeps-deref, stale_of) depth 20

  write_all-Kept :
      (kv : Dict Str) (l : List Str) → elem j l ≡ false → Keeps Kept (write_all d s kv l)
  unfolding write_all elem
  write_all-Kept kv [] h = Keeps-pure tt
  write_all-Kept kv (key ∷ l) h =
      Keeps-bind _ _
        (Keeps-wrap _ _ (
          set-Holds d laws j x key (text_at key kv) s.ttl
            (ground (arith, eq_iff j key, eq_iff key j))))
        (λ _. write_all-Kept kv l (ground arith))

  outside_list :
      (sets : List Str)
      → ((b : Str) → elem b sets ≡ true → elem b set_names ≡ true)
      → OutsideAll d laws j x s sets
  unfolding elem
  outside_list [] h = tt
  outside_list (set ∷ sets) h = (
    Outside-set set (h set (ground (arith, eq_iff set set))),
    outside_list sets (λ b m. h b (ground (arith, m))),
  )

  module _ (now : ℕ) (conf : Configuration R) (named : IsNamed (d.fields_of conf)) where
    -- no key of the flattened configuration is `j`
    not_key :
        (kv : Dict Str)
        → config_to_kv d.directive (d.fields_of conf) ≡ ok kv
        → elem j (keys kv) ≡ false
    unfolding has
    not_key kv e = elim (Option-cases (lookup j kv)) [
      | inl missing ↦ rw (elem-keys j kv) (ground arith)
      | inr (v, found) ↦
          let starts = (config_to_kv-keys d.directive (d.fields_of conf) j named e found).0 in
          absurd (ground arith)
    ]

    not_renewed :
        (kv : Dict Str)
        → config_to_kv d.directive (d.fields_of conf) ≡ ok kv
        → elem j (keys kv ++ sentinel s ∷ []) ≡ false
    unfolding elem
    not_renewed kv e = rw elem-append (
        ground (
          arith,
          not_key kv e,
          own_keys-sentinel s j not_own,
          eq_iff j (sentinel s),
          eq_iff (sentinel s) j,
        ))

    write_sentinel : Keeps Kept (on d (d.redis.set (sentinel s) (format_uint now) s.ttl))
    write_sentinel =
        set-Holds d laws j x (sentinel s) (format_uint now) s.ttl (own_keys-sentinel s j not_own)

    store-Kept : Keeps Kept (store d s now conf)
    unfolding store
    store-Kept = Keeps-bind _ _ (remove_old-Kept conf) (λ _. Keeps-bind_lift _ _ (λ kv e.
        Keeps-bind _ _
          (write_all-Kept kv (sort (keys kv)) (rw (elem-sort j (keys kv)) (not_key kv e)))
          (λ _. Keeps-bind _ _ (remove_stale-Kept kv conf) (λ _.
            Keeps-bind _ _
              (swap_all-Holds d laws j x s set_names (outside_list set_names (λ b m. m)))
              (λ _.
                Keeps-bind _ _ (Keeps-wrap _ _ write_sentinel)
                  (λ _. remember-Holds d laws j x conf))))))

    renew-Kept : Keeps Kept (renew d s now conf)
    unfolding renew
    renew-Kept = Keeps-bind_lift _ _ (λ kv e.
        Keeps-bind _ _
          (Keeps-wrap _ _ (
            on-Holds d laws j x (d.redis.pexpire (keys kv ++ sentinel s ∷ []) s.ttl)
              (λ t. laws.pexpire_frame (keys kv ++ sentinel s ∷ []) s.ttl t j (not_renewed kv e))))
          (λ replies. Keeps-if (all_true replies) _ _ (Keeps-pure tt) store-Kept))

    keep_conf_alive_of-Kept : Keeps Kept (keep_conf_alive_of d s now (some conf))
    unfolding keep_conf_alive_of
    keep_conf_alive_of-Kept =
        Keeps-bind _ _
          (Keeps-wrap _ _ (
            on-Holds d laws j x (d.redis.exists (sentinel s))
              (λ t. laws.exists_frame (sentinel s) t j)))
          (λ there.
            Keeps-if there _ _ (Keeps-if (s.ttl == 0) _ _ (Keeps-pure tt) renew-Kept) store-Kept)

module _ {R : Type 0} (d : Deps R) (laws : Laws d.redis) (s : RedisStore) (now : ℕ) (j : Str) where
  -- A key that does not start with traefik/, and that is neither a set nor the sentinel of this
  -- host, holds after a call of `Store` what it held before, also where the call fails.
  pub store-foreign :
      (conf : Configuration R) (w : World d)
      → has_prefix (str "traefik/") j ≡ false
      → elem j (own_keys s) ≡ false
      → IsNamed (d.fields_of conf)
      → d.redis.view (store d s now conf w).1.server j ≡ d.redis.view w.server j
  store-foreign conf w e n named =
      (store-Kept d laws s j (d.redis.view w.server j) e n now conf named).at w refl

  -- The same of `KeepConfAlive`, on every way through it: with nothing to publish, with a renewal,
  -- and with a configuration that is written again.
  pub keep_conf_alive-foreign :
      (w : World d)
      → has_prefix (str "traefik/") j ≡ false
      → elem j (own_keys s) ≡ false
      → ((conf : Configuration R) → w.last_config ≡ some conf → IsNamed (d.fields_of conf))
      → d.redis.view (keep_conf_alive d s now w).1.server j ≡ d.redis.view w.server j
  unfolding keep_conf_alive ◌>>=◌
  keep_conf_alive-foreign w e n named = of_last w.last_config refl
    where
      of_last :
          (o : Option (Configuration R))
          → w.last_config ≡ o
          → d.redis.view (keep_conf_alive_of d s now o w).1.server j ≡ d.redis.view w.server j
      of_last none p = unfold keep_conf_alive_of pure in refl
      of_last (some conf) p =
          (keep_conf_alive_of-Kept d laws s j (d.redis.view w.server j) e n now conf
              (named conf p)).at
            w refl
