-- ===== src/Store/Failure.antt =====
-- What a `Store` that fails leaves behind.
use traefik_kop.Prelude.{ℕ, ◌≡◌, ◌≢◌, refl, Option, List, [], ◌∷◌}
use traefik_kop.Prelude.Result.{Result, ok, err, panic}
use traefik_kop.Prelude.Exec.{modify}
use traefik_kop.Prelude.Exec.Rules.{
  Keeps, keeps_rules, Keeps-bind, Keeps-wrap, Keeps-ignore, Keeps-lift, Keeps-if, Fails, Fails-bind,
}
use traefik_kop.Text.{Str}
use traefik_kop.Text.Dict.{Dict}
use traefik_kop.Dynamic.{Configuration}
use traefik_kop.Store.{
  Deps, RedisStore, World, on, sk, remove_keys, remove_old_keys, remove_old, write_all,
  unlink_stale, remove_stale_of, remove_stale_server_keys, remove_stale, after_rename, swap_keys,
  swap_all, store,
}

module _ {R : Type 0} (d : Deps R) (last : Option (Configuration R)) where
  abbrev pub Recalls : World d → Type 0
  Recalls w = w.last_config ≡ last

  pub on-Recalls :
      {A : Type 0} (c : d.redis.State → Result A × d.redis.State) → Keeps Recalls (on d c)
  unfolding on
  on-Recalls c = record { at = λ w h. h }

  ruleset recall_rules = (keeps_rules, Keeps-if, on-Recalls)

  remove_keys-Recalls : (set : Str) (names : List Str) → Keeps Recalls (remove_keys d set names)
  unfolding remove_keys
  remove_keys-Recalls set [] = search recall_rules
  remove_keys-Recalls set (n ∷ ns) =
      Keeps-bind _ _ (search recall_rules)
        (λ res. Keeps-bind _ _ (search recall_rules) (λ _. remove_keys-Recalls set ns))

  remove_old_keys-Recalls :
      (s : RedisStore) (names : List Str) (set : Str)
      → Keeps Recalls (remove_old_keys d s names set)
  unfolding remove_old_keys
  remove_old_keys-Recalls s [] set = search (recall_rules, remove_keys-Recalls)
  remove_old_keys-Recalls s (n ∷ ns) set = search (recall_rules, remove_keys-Recalls) depth 8

  pub remove_old-Recalls :
      (s : RedisStore) (conf : Configuration R) → Keeps Recalls (remove_old d s conf)
  unfolding remove_old
  remove_old-Recalls s conf = search (keeps_rules, remove_old_keys-Recalls) depth 30

  pub write_all-Recalls :
      (s : RedisStore) (kv : Dict Str) (l : List Str) → Keeps Recalls (write_all d s kv l)
  unfolding write_all
  write_all-Recalls s kv [] = search recall_rules
  write_all-Recalls s kv (key ∷ l) =
      Keeps-bind _ _ (search recall_rules) (λ _. write_all-Recalls s kv l)

  unlink_stale-Recalls : (kv : Dict Str) (l : List Str) → Keeps Recalls (unlink_stale d kv l)
  unfolding unlink_stale
  unlink_stale-Recalls kv [] = search recall_rules
  unlink_stale-Recalls kv (key ∷ l) =
      Keeps-bind _ _ (search recall_rules) (λ _. unlink_stale-Recalls kv l)

  remove_stale_server_keys-Recalls :
      (kv : Dict Str) (names : List Str) (proto : Str)
      → Keeps Recalls (remove_stale_server_keys d kv names proto)
  unfolding remove_stale_server_keys remove_stale_of
  remove_stale_server_keys-Recalls kv [] proto = search recall_rules
  remove_stale_server_keys-Recalls kv (n ∷ ns) proto =
      Keeps-bind _ _ (search (recall_rules, unlink_stale-Recalls))
        (λ _. remove_stale_server_keys-Recalls kv ns proto)

  pub remove_stale-Recalls :
      (kv : Dict Str) (conf : Configuration R) → Keeps Recalls (remove_stale d kv conf)
  unfolding remove_stale
  remove_stale-Recalls kv conf = search (keeps_rules, remove_stale_server_keys-Recalls) depth 20

  after_rename-Recalls :
      (setkey : Str) (r : Result (Unit {0})) → Keeps Recalls (after_rename d setkey r)
  unfolding after_rename
  after_rename-Recalls setkey (ok a) = search recall_rules
  after_rename-Recalls setkey (err e) = search recall_rules
  after_rename-Recalls setkey panic = search recall_rules

  pub swap_all-Recalls : (s : RedisStore) (sets : List Str) → Keeps Recalls (swap_all d s sets)
  unfolding swap_all swap_keys
  swap_all-Recalls s [] = search recall_rules
  swap_all-Recalls s (set ∷ sets) =
      Keeps-bind _ _
        (Keeps-ignore _ (record { at = λ w h. (after_rename-Recalls (sk s set) _).at _ h }))
        (λ _. swap_all-Recalls s sets)

  store-Fails :
      (s : RedisStore) (now : ℕ) (conf : Configuration R)
      → Fails Recalls (store d s now conf) Recalls
  unfolding store modify
  store-Fails s now conf = Fails-bind _ _ (remove_old-Recalls s conf) (λ _.
      Fails-bind _ _ (Keeps-lift _) (λ kv. Fails-bind _ _ (write_all-Recalls s kv _) (λ _.
        Fails-bind _ _ (remove_stale-Recalls kv conf) (λ _.
          Fails-bind _ _ (swap_all-Recalls s _) (λ _.
            Fails-bind _ _ (Keeps-wrap _ _ (on-Recalls _))
              (λ _. record { at = λ w h n. absurd (n tt refl) }))))))

-- A `Store` that returns an error or panics remembers the configuration that it remembered before:
-- the next `KeepConfAlive` works with the last configuration that was stored as a whole.
pub store-forgets_failed :
    {R : Type 0} (d : Deps R) (s : RedisStore) (now : ℕ) (conf : Configuration R) (w : World d)
    → (store d s now conf w).0 ≢ ok tt
    → (store d s now conf w).1.last_config ≡ w.last_config
store-forgets_failed d s now conf w h =
    (store-Fails d w.last_config s now conf).at w refl (λ a e. h e)
