-- ===== src/Store/Servers.antt =====
-- The servers of a service that are no longer configured lose their keys in the next `Store`.
use traefik_kop.Prelude.{
  ℕ, ◌≡◌, refl, ap, true, false, Option, none, some, List, [], ◌∷◌, arith, ◌⊎◌, inl, inr,
  Bool-cases, if◌then◌else◌, ◌∙◌,
}
use traefik_kop.Prelude.Result.{ok}
use traefik_kop.Prelude.Exec.{pure, ignore, modify, ◌>>=◌, ◌>>◌, wrap}
use traefik_kop.Prelude.Exec.Rules.{
  Keeps, Keeps-pure, Keeps-bind, Keeps-wrap, Keeps-ignore, Keeps-if, Keeps-deref, Yields,
  Yields-Keeps, Yields_anywhere, Yields-bind_deref, Yields-bind, Yields-bind_any, Yields-lift_ok,
  bind_ok,
}
use traefik_kop.Text.{Str, str, str_eq, elem, has_prefix}
use traefik_kop.Text.Equality.{eq_iff}
use traefik_kop.Text.Prefix.{has_prefix-weaken}
use traefik_kop.Text.Decimal.{format_uint}
use traefik_kop.Text.Dict.{Dict, keys, has}
use traefik_kop.Dynamic.{Configuration}
use traefik_kop.Kv.Walk.{config_to_kv}
use traefik_kop.Redis.{Redis}
use traefik_kop.Redis.Laws.{Laws, is_plain}
use traefik_kop.Store.{
  Deps, RedisStore, World, on, server_prefix, star, wrapped, unlink_stale, remove_stale_of,
  remove_stale_server_keys, remove_stale, swap_all, set_names, sentinel, store,
}
use traefik_kop.Store.Names.{sk-outside}
use traefik_kop.Store.Steady.{set-Holds, swap_all-Holds, remember-Holds}
use traefik_kop.Store.Publish.{outside_all, store-kv}
use traefik_kop.Store.Cleanup.{Gone, unlink-Gone, keys-Gone, keys_listed, unlink_listed}

-- A server that answers every KEYS, and every UNLINK of some keys.
pub record Answers (r : Redis) : Type 0 where
  pub keys_answer : (p : Str) (s : r.State) → (l : List Str) × ((r.keys p s).0 ≡ ok l)
  pub unlink_answer : (key : Str) (ks : List Str) (s : r.State) → (r.unlink (key ∷ ks) s).0 ≡ ok tt

-- The protocols, and the services that a configuration has in each.
pub data Proto : Type 0 where
  http tcp udp : Proto

abbrev pub proto_name : Proto → Str
proto_name http = str "http"
proto_name tcp = str "tcp"
proto_name udp = str "udp"

abbrev names_in : {S : Type 0} → Option S → (S → List Str) → List Str
names_in none f = []
names_in (some s) f = f s

abbrev pub services_of : {R : Type 0} → Configuration R → Proto → List Str
services_of conf http = names_in conf.http (λ s. keys s.services)
services_of conf tcp = names_in conf.tcp (λ s. keys s.services)
services_of conf udp = names_in conf.udp (λ s. keys s.services)

module _ {R : Type 0} (d : Deps R) (laws : Laws d.redis) (answers : Answers d.redis) (key : Str)
    (kv : Dict Str) (dropped : has key kv ≡ false) where
  abbrev Absent : World d → Type 0
  Absent = Gone d laws key

  one-Gone :
      (i : Str)
      → Keeps Absent (if has i kv then pure tt else ignore (on d (d.redis.unlink (i ∷ []))))
  one-Gone i =
      Keeps-if (has i kv) _ _ (Keeps-pure tt) (Keeps-ignore _ (unlink-Gone d laws key (i ∷ [])))

  unlink_stale-Gone : (l : List Str) → Keeps Absent (unlink_stale d kv l)
  unfolding unlink_stale
  unlink_stale-Gone [] = Keeps-pure tt
  unlink_stale-Gone (i ∷ l) = Keeps-bind _ _ (one-Gone i) (λ _. unlink_stale-Gone l)

  remove_stale_of-Gone : (prefix : Str) → Keeps Absent (remove_stale_of d kv prefix)
  unfolding remove_stale_of
  remove_stale_of-Gone prefix =
      Keeps-ignore _ (Keeps-bind _ _ (keys-Gone d laws key _) (λ l. unlink_stale-Gone l))

  remove_stale_server_keys-Gone :
      (names : List Str) (proto : Str) → Keeps Absent (remove_stale_server_keys d kv names proto)
  unfolding remove_stale_server_keys
  remove_stale_server_keys-Gone [] proto = Keeps-pure tt
  remove_stale_server_keys-Gone (n ∷ ns) proto =
      Keeps-bind _ _ (remove_stale_of-Gone _) (λ _. remove_stale_server_keys-Gone ns proto)

  -- the loop over the listed keys never fails
  unlink_stale_ok : (l : List Str) (w : World d) → (unlink_stale d kv l w).0 ≡ ok tt
  unfolding unlink_stale on ignore ◌>>=◌ pure
  unlink_stale_ok [] w = refl
  unlink_stale_ok (i ∷ l) w = elim (Bool-cases (has i kv)) [
    | inl e ↦ rw e (unlink_stale_ok l w)
    | inr e ↦ rw (e, answers.unlink_answer i [] w.server) (unlink_stale_ok l _)
  ]

  itself : (i : Str) → elem i (i ∷ []) ≡ true
  unfolding elem
  itself i = ground (arith, eq_iff i i)

  ignored_unlink :
      (i : Str)
      → Yields
          (λ w. (elem key (i ∷ []) ≡ true) ⊎ Absent w)
          (ignore (on d (d.redis.unlink (i ∷ []))))
          (λ _. Absent)
  unfolding ignore on
  ignored_unlink i = record {
    at = λ w h a e.
        (unlink_listed d laws key (i ∷ [])).at w h tt
          (unfold on in answers.unlink_answer i [] w.server);
  }

  unlink_stale-Yields :
      (l : List Str)
      → Yields (λ w. (elem key l ≡ true) ⊎ Absent w) (unlink_stale d kv l) (λ _. Absent)
  unfolding unlink_stale pure elem
  unlink_stale-Yields [] = record {
    at = λ w h a e. elim h [ inl m ↦ absurd (ground arith) | inr g ↦ g ];
  }
  unlink_stale-Yields (i ∷ l) = elim (Bool-cases (str_eq key i)) [
    | inl e ↦
        rw (← (eq_iff key i).0 e, dropped)
          (Yields-bind _ _
            (Yields_anywhere _
              (record { at = λ w h a p. (ignored_unlink key).at w (inl (itself key)) a p }))
            (λ _. Yields-Keeps _ (unlink_stale-Gone l)))
    | inr e ↦
        Yields-bind {R = λ _ w. (elem key l ≡ true) ⊎ Absent w} _ _
          (record {
            at = λ w h a p. elim h [
              | inl m ↦ inl (ground arith)
              | inr g ↦ inr ((one-Gone i).at w g)
            ];
          })
          (λ _. unlink_stale-Yields l)
  ]

  -- One prefix: KEYS lists what is there, and each listed key that is not configured is deleted.
  remove_stale_of-Yields :
      (prefix : Str)
      → is_plain prefix ≡ true
      → has_prefix prefix key ≡ true
      → Yields (λ _. Unit {0}) (remove_stale_of d kv prefix) (λ _. Absent)
  unfolding remove_stale_of ignore
  remove_stale_of-Yields prefix plain starts = record {
    at = λ w h a e.
        let y =
          Yields-bind (on d (d.redis.keys (star prefix))) (unlink_stale d kv)
            (keys_listed d laws key prefix plain starts) unlink_stale-Yields in
        y.at w tt tt (listed_ok prefix w);
  }
    where
      listed_ok :
          (prefix : Str) (w : World d)
          → ((on d (d.redis.keys (star prefix)) >>= unlink_stale d kv) w).0 ≡ ok tt
      listed_ok prefix w =
          let (l, p) = answers.keys_answer (star prefix) w.server in
          ap (λ r. r.0)
            (bind_ok (on d (d.redis.keys (star prefix))) (unlink_stale d kv) w l (unfold on in p))
          ∙ unlink_stale_ok l _

  remove_stale_server_keys-Yields :
      (names : List Str) (name proto : Str)
      → elem name names ≡ true
      → is_plain (server_prefix proto name) ≡ true
      → has_prefix (server_prefix proto name) key ≡ true
      → Yields (λ _. Unit {0}) (remove_stale_server_keys d kv names proto) (λ _. Absent)
  unfolding remove_stale_server_keys elem
  remove_stale_server_keys-Yields [] name proto m plain starts = cc
  remove_stale_server_keys-Yields (n ∷ ns) name proto m plain starts =
      elim (Bool-cases (str_eq name n)) [
        | inl e ↦ rw (← (eq_iff name n).0 e) (
            Yields-bind _ _ (remove_stale_of-Yields _ plain starts)
              (λ _. Yields-Keeps _ (remove_stale_server_keys-Gone ns proto)))
        | inr e ↦
            Yields-bind_any _ _
              (λ _. remove_stale_server_keys-Yields ns name proto (ground arith) plain starts)
      ]

  remove_stale-Yields :
      (conf : Configuration R) (p : Proto) (name : Str)
      → elem name (services_of conf p) ≡ true
      → is_plain (server_prefix (proto_name p) name) ≡ true
      → has_prefix (server_prefix (proto_name p) name) key ≡ true
      → Yields (λ _. Unit {0}) (remove_stale d kv conf) (λ _. Absent)
  unfolding remove_stale
  remove_stale-Yields conf http name m plain starts = Yields-bind_deref conf.http _ (λ section e.
      Yields-bind _ _
        (remove_stale_server_keys-Yields (keys section.services) name (str "http")
          (ground (arith, e)) plain starts)
        (λ _.
          Yields-Keeps _
            (search (Keeps-bind, Keeps-deref, remove_stale_server_keys-Gone) depth 12)))
  remove_stale-Yields conf tcp name m plain starts = Yields-bind_any _ _ (λ _.
      Yields-bind_any _ _ (λ _. Yields-bind_deref conf.tcp _ (λ section e.
        Yields-bind _ _
          (remove_stale_server_keys-Yields (keys section.services) name (str "tcp")
            (ground (arith, e)) plain starts)
          (λ _.
            Yields-Keeps _
              (search (Keeps-bind, Keeps-deref, remove_stale_server_keys-Gone) depth 12)))))
  remove_stale-Yields conf udp name m plain starts = Yields-bind_any _ _ (λ _.
      Yields-bind_any _ _ (λ _. Yields-bind_any _ _ (λ _. Yields-bind_any _ _ (λ _.
        Yields-bind_deref conf.udp _ (λ section e.
          remove_stale_server_keys-Yields (keys section.services) name (str "udp")
            (ground (arith, e)) plain starts)))))

  -- what `store` does after the cleanup leaves a key under traefik/ absent
  ending-Gone :
      (s : RedisStore) (now : ℕ) (conf : Configuration R)
      → has_prefix (str "traefik/") key ≡ true
      → Keeps Absent (
          swap_all d s set_names
          >> (wrap
                (wrapped (str "failed to write Redis sentinel"))
                (on d (d.redis.set (sentinel s) (format_uint now) s.ttl))
              >> modify (λ w. record w { last_config = some conf })))
  unfolding sentinel
  ending-Gone s now conf p =
      Keeps-bind _ _
        (swap_all-Holds d laws key none s set_names (outside_all d laws key none s set_names p))
        (λ _.
          Keeps-bind _ _
            (Keeps-wrap _ _ (
              set-Holds d laws key none (sentinel s) (format_uint now) s.ttl
                (sk-outside s (str "kop_last_update") key p)))
            (λ _. remember-Holds d laws key none conf))

module _ {R : Type 0} (d : Deps R) (laws : Laws d.redis) (answers : Answers d.redis) where
  under_traefik :
      (proto name key : Str)
      → has_prefix (server_prefix proto name) key ≡ true
      → has_prefix (str "traefik/") key ≡ true
  unfolding server_prefix
  under_traefik proto name key h = has_prefix-weaken (str "traefik/") _ key h

  store-Absent :
      (s : RedisStore) (now : ℕ) (conf : Configuration R) (p : Proto) (name key : Str)
      (kv : Dict Str)
      → config_to_kv d.directive (d.fields_of conf) ≡ ok kv
      → has key kv ≡ false
      → elem name (services_of conf p) ≡ true
      → is_plain (server_prefix (proto_name p) name) ≡ true
      → has_prefix (server_prefix (proto_name p) name) key ≡ true
      → Yields (λ _. Unit {0}) (store d s now conf) (λ _. Gone d laws key)
  unfolding store
  store-Absent s now conf p name key kv flat dropped m plain starts = Yields-bind_any _ _ (λ _.
      rw flat (
        Yields-lift_ok kv _ (
          Yields-bind_any _ _ (λ _.
            Yields-bind _ _
              (remove_stale-Yields d laws answers key kv dropped conf p name m plain starts)
              (λ _. Yields-Keeps _ (
                ending-Gone d laws answers key kv dropped s now conf
                  (under_traefik (proto_name p) name key starts)))))))

  -- After a `Store` that returns no error, on a server that answers KEYS and UNLINK, a key under
  -- the servers of any service of the configuration that the flattened configuration does not have
  -- is absent: the servers of an earlier configuration do not survive. (The name of the service has
  -- no character that is special in a pattern.)
  pub store-drops_servers :
      (s : RedisStore) (now : ℕ) (conf : Configuration R) (w : World d) (p : Proto) (name key : Str)
      → elem name (services_of conf p) ≡ true
      → is_plain (server_prefix (proto_name p) name) ≡ true
      → has_prefix (server_prefix (proto_name p) name) key ≡ true
      → (store d s now conf w).0 ≡ ok tt
      → (kv : Dict Str) × (config_to_kv d.directive (d.fields_of conf) ≡ ok kv)
        × (has key kv ≡ false → d.redis.view (store d s now conf w).1.server key ≡ none)
  store-drops_servers s now conf w p name key m plain starts h =
      let (kv, flat) = (store-kv d laws s now conf).at w tt tt h in
      (
        kv,
        flat,
        λ dropped. (store-Absent s now conf p name key kv flat dropped m plain starts).at w tt tt h,
      )
