-- ===== src/Store/Steady.antt =====
-- Which keys of the server the steps of the store leave as they are, whether they succeed or fail.
use traefik_kop.Prelude.{
  ℕ, ◌≡◌, refl, ◌∙◌, Bool, true, false, Option, some, List, [], ◌∷◌, ◌++◌, arith, if◌then◌else◌,
  ◌⊎◌, inl, inr,
}
use traefik_kop.Prelude.Result.{Result, ok, err, panic}
use traefik_kop.Prelude.Exec.{pure, lift, ignore, modify}
use traefik_kop.Prelude.Exec.Rules.{
  Keeps, Keeps-pure, Keeps-bind, Keeps-bind_reply, Keeps-wrap, Keeps-ignore, Keeps-lift, wrap_ok,
}
use traefik_kop.Text.{Str, str, str_eq, elem, contains}
use traefik_kop.Text.Equality.{eq_iff}
use traefik_kop.Text.Dict.{Dict, has}
use traefik_kop.Dynamic.{Configuration}
use traefik_kop.Redis.{Item}
use traefik_kop.Redis.Laws.{Laws}
use traefik_kop.Store.{
  Deps, RedisStore, World, on, sk, new_key, key_path, server_prefix, star, wrapped, remove_keys,
  remove_old_keys, unlink_stale, remove_stale_of, remove_stale_server_keys, after_rename, swap_keys,
  swap_all,
}

module _ {R : Type 0} (d : Deps R) (laws : Laws d.redis) (j : Str) (x : Option Item) where
  -- The key `j` holds `x`.
  abbrev pub Holds : World d → Type 0
  Holds w = d.redis.view w.server j ≡ x

  pub on-Holds :
      {A : Type 0} (c : d.redis.State → Result A × d.redis.State)
      → ((s : d.redis.State) → d.redis.view (c s).1 j ≡ d.redis.view s j)
      → Keeps Holds (on d c)
  unfolding on
  on-Holds c h = record { at = λ w p. h w.server ∙ p }

  unlink-Holds : (ks : List Str) → elem j ks ≡ false → Keeps Holds (on d (d.redis.unlink ks))
  unlink-Holds ks h = on-Holds (d.redis.unlink ks) (λ s. laws.unlink_frame ks s j h)

  pub set-Holds :
      (key v : Str) (t : ℕ) → str_eq key j ≡ false → Keeps Holds (on d (d.redis.set key v t))
  set-Holds key v t h = on-Holds (d.redis.set key v t) (λ s. laws.set_frame key v t s j h)

  keys-Holds : (p : Str) → Keeps Holds (on d (d.redis.keys p))
  keys-Holds p = on-Holds (d.redis.keys p) (λ s. laws.keys_frame p s j)

  -- `j` is neither of the two keys of a set.
  abbrev pub Outside : RedisStore → Str → Type 0
  Outside s set = (str_eq (sk s set) j ≡ false) × (str_eq (new_key (sk s set)) j ≡ false)

  abbrev pub OutsideAll : RedisStore → List Str → Type 0
  OutsideAll s [] = Unit
  OutsideAll s (set ∷ sets) = Outside s set × OutsideAll s sets

  -- What KEYS lists does not hold `j` where the pattern does not match it.
  unmatched :
      (p : Str) (w : World d) (l : List Str)
      → d.redis.glob p j ≡ false
      → (on d (d.redis.keys p) w).0 ≡ ok l
      → elem j l ≡ false
  unfolding on
  unmatched p w l g h = ground (arith, laws.keys_ok p w.server l j h)

  -- `remove_keys` leaves `j` alone where none of its patterns matches `j`.
  pub remove_keys-Holds :
      (set : Str) (names : List Str)
      → ((n : Str)
          → elem n names ≡ true
          → d.redis.glob (star (key_path set n ++ str "/")) j ≡ false)
      → Keeps Holds (remove_keys d set names)
  unfolding remove_keys elem
  remove_keys-Holds set [] h = Keeps-pure tt
  remove_keys-Holds set (n ∷ ns) h =
      Keeps-bind_reply {Q = λ l. elem j l ≡ false} _ _ (Keeps-wrap _ _ (keys-Holds _))
        (λ w p l e. unmatched _ w l (h n (ground (arith, eq_iff n n))) (wrap_ok _ _ w l e))
        (λ l e.
          Keeps-bind _ _ (Keeps-wrap _ _ (unlink-Holds l e))
            (λ _. remove_keys-Holds set ns (λ m q. h m (ground (arith, q)))))

  -- No pattern by which a name of `set` is removed matches `j`.
  abbrev pub Unmatched : Str → Type 0
  Unmatched set = (n : Str) → d.redis.glob (star (key_path set n ++ str "/")) j ≡ false

  pub remove_old_keys-Holds :
      (s : RedisStore) (names : List Str) (set : Str)
      → Outside s set
      → Unmatched set
      → Keeps Holds (ignore (remove_old_keys d s names set))
  unfolding remove_old_keys
  remove_old_keys-Holds s [] set out un = Keeps-ignore _ (
      Keeps-bind _ _
        (Keeps-wrap _ _
          (on-Holds (d.redis.smembers (sk s set)) (λ t. laws.smembers_frame (sk s set) t j)))
        (λ res. remove_keys-Holds set res (λ n _. un n)))
  remove_old_keys-Holds s (n ∷ ns) set out un = Keeps-ignore _ (
      Keeps-bind _ _
        (Keeps-wrap _ _ (
          on-Holds (d.redis.sadd (new_key (sk s set)) (n ∷ ns))
            (λ t. laws.sadd_frame (new_key (sk s set)) (n ∷ ns) t j out.1)))
        (λ _.
          Keeps-bind _ _
            (Keeps-wrap _ _ (
              on-Holds (d.redis.sdiff (sk s set) (new_key (sk s set)))
                (λ t. laws.sdiff_frame (sk s set) (new_key (sk s set)) t j)))
            (λ res. remove_keys-Holds set res (λ m _. un m))))

  unlink_stale-Holds :
      (kv : Dict Str) (l : List Str)
      → (has j kv ≡ true) ⊎ (elem j l ≡ false)
      → Keeps Holds (unlink_stale d kv l)
  unfolding unlink_stale elem
  unlink_stale-Holds kv [] h = Keeps-pure tt
  unlink_stale-Holds kv (i ∷ l) h =
      Keeps-bind _ _ (unlink_one (has i kv) refl) (λ _. unlink_stale-Holds kv l (ground arith))
    where
      unlink_one :
          (b : Bool)
          → has i kv ≡ b
          → Keeps Holds (if b then pure tt else ignore (on d (d.redis.unlink (i ∷ []))))
      unlink_one true e = Keeps-pure tt
      unlink_one false e = Keeps-ignore _ (unlink-Holds (i ∷ []) (ground (arith, eq_iff j i)))

  -- The cleanup under one prefix leaves the keys of the new configuration and the keys that are not
  -- under the prefix.
  remove_stale_of-Holds :
      (kv : Dict Str) (prefix : Str)
      → (has j kv ≡ true) ⊎ (d.redis.glob (star prefix) j ≡ false)
      → Keeps Holds (remove_stale_of d kv prefix)
  unfolding remove_stale_of
  remove_stale_of-Holds kv prefix h = Keeps-ignore _ (
      Keeps-bind_reply {Q = λ l. (has j kv ≡ true) ⊎ (elem j l ≡ false)} _ _ (keys-Holds _)
        (λ w p l e. elim h [ inl a ↦ inl a | inr b ↦ inr (unmatched (star prefix) w l b e) ])
        (λ l q. unlink_stale-Holds kv l q))

  pub remove_stale_server_keys-Holds :
      (kv : Dict Str) (names : List Str) (proto : Str)
      → ((n : Str) → (has j kv ≡ true) ⊎ (d.redis.glob (star (server_prefix proto n)) j ≡ false))
      → Keeps Holds (remove_stale_server_keys d kv names proto)
  unfolding remove_stale_server_keys
  remove_stale_server_keys-Holds kv [] proto h = Keeps-pure tt
  remove_stale_server_keys-Holds kv (n ∷ ns) proto h =
      Keeps-bind _ _ (remove_stale_of-Holds kv (server_prefix proto n) (h n))
        (λ _. remove_stale_server_keys-Holds kv ns proto h)

  after_rename-Holds :
      (setkey : Str) (r : Result (Unit {0}))
      → str_eq setkey j ≡ false
      → Keeps Holds (after_rename d setkey r)
  unfolding after_rename elem
  after_rename-Holds setkey (ok a) h = Keeps-pure tt
  after_rename-Holds setkey (err e) h = missing (contains (str "no such key") e)
    where
      missing :
          (b : Bool)
          → Keeps Holds (
              if b
              then ignore (on d (d.redis.unlink (setkey ∷ [])))
              else lift (err (wrapped (str "rename failed") e)))
      missing true =
          Keeps-ignore _
            (unlink-Holds (setkey ∷ []) (ground (arith, eq_iff setkey j, eq_iff j setkey)))
      missing false = Keeps-lift _
  after_rename-Holds setkey panic h = Keeps-lift _

  swap_keys-Holds :
      (s : RedisStore) (set : Str) → Outside s set → Keeps Holds (swap_keys d (sk s set))
  unfolding swap_keys
  swap_keys-Holds s set out = record {
    at = λ w p.
        (after_rename-Holds (sk s set) _ out.0).at _
          (laws.rename_frame (new_key (sk s set)) (sk s set) w.server j out.1 out.0 ∙ p);
  }

  pub swap_all-Holds :
      (s : RedisStore) (sets : List Str) → OutsideAll s sets → Keeps Holds (swap_all d s sets)
  unfolding swap_all
  swap_all-Holds s [] out = Keeps-pure tt
  swap_all-Holds s (set ∷ sets) out =
      Keeps-bind _ _ (Keeps-ignore _ (swap_keys-Holds s set out.0))
        (λ _. swap_all-Holds s sets out.1)

  pub remember-Holds :
      (conf : Configuration R) → Keeps Holds (modify (λ w. record w { last_config = some conf }))
  unfolding modify
  remember-Holds conf = record { at = λ w h. h }
