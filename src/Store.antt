-- ===== src/Store.antt =====
-- store.go: the redis store. The mutex of the source makes each call of `Store` and `KeepConfAlive`
-- one uninterrupted action; log lines are left out.
pub mod Names
pub mod Steady
pub mod Publish
pub mod Foreign
pub mod KeepAlive
pub mod Failure
pub mod Cleanup
pub mod Servers
pub mod Ends
pub mod Gets
use traefik_kop.Prelude.{
  ℕ, Bool, true, false, ◌&&◌, Option, none, some, List, [], ◌∷◌, ◌++◌, ◌==◌, if◌then◌else◌,
}
use traefik_kop.Prelude.Result.{Result, ok, err, panic}
use traefik_kop.Prelude.Exec.{Exec, pure, lift, deref, gets, ignore, modify, ◌>>=◌, ◌>>◌, wrap}
use traefik_kop.Text.{Str, str, elem, contains, replace_all, sort}
use traefik_kop.Text.Decimal.{format_uint}
use traefik_kop.Text.Dict.{Dict, lookup, insert, keys, has, text_at}
use traefik_kop.Dynamic.{Section, Server, StreamServer, Configuration}
use traefik_kop.Docker.Names.{strip_docker}
use traefik_kop.Kv.Value.{Fields}
use traefik_kop.Kv.Walk.{config_to_kv}
use traefik_kop.Redis
use traefik_kop.Redis.{Redis}
use traefik_kop.Redis.Laws.{all_true}

-- What the store is built on: the redis server, the fields of a configuration as reflection shows
-- them, and what `fmt.Sprintf` makes of a format from its first `%` on.
pub record Deps (R : Type 0) : Type 1 where
  pub redis : Redis
  pub fields_of : Configuration R → Fields
  pub directive : Str → Str

-- `RedisStore`, without what changes; the TTL is in seconds, and a negative one counts as 0.
pub record RedisStore : Type 0 where
  pub hostname : Str
  pub ttl : ℕ

-- `errors.Wrap(err, message)`
unfoldable pub wrapped : Str → Str → Str
wrapped message e = message ++ (str ": " ++ e)

-- `sk`
unfoldable pub sk : RedisStore → Str → Str
sk s b = str "traefik_" ++ (b ++ (str "@" ++ s.hostname))

-- `setkey + "_new"`
unfoldable pub new_key : Str → Str
new_key setkey = setkey ++ str "_new"

-- the key path of a name in a set, `k` in the source
unfoldable pub key_path : Str → Str → Str
key_path set b = replace_all b'_' b'/' (str "traefik_" ++ set) ++ (str "/" ++ strip_docker b)

unfoldable pub server_prefix : Str → Str → Str
server_prefix proto name =
    str "traefik/"
    ++ (proto ++ (str "/services/" ++ (strip_docker name ++ str "/loadBalancer/servers/")))

-- a pattern for all keys that start with `p`
unfoldable pub star : Str → Str
star p = p ++ str "*"

-- the sets, by the names that `store` gives them
unfoldable pub set_names : List Str
set_names =
    str "http_middlewares"
    ∷ str "http_routers"
    ∷ str "http_services"
    ∷ str "tcp_middlewares"
    ∷ str "tcp_routers"
    ∷ str "tcp_services"
    ∷ str "udp_routers"
    ∷ str "udp_services"
    ∷ []

-- the key that says when this instance has last written
unfoldable pub sentinel : RedisStore → Str
sentinel s = sk s (str "kop_last_update")

module _ {R : Type 0} (d : Deps R) where
  -- The state of the world: what the store remembers, and the server.
  pub record World : Type 0 where
    pub last_config : Option (Configuration R)
    pub server : d.redis.State

  -- a command that is sent to the server
  unfoldable pub on : {A : Type 0} → (d.redis.State → Result A × d.redis.State) → Exec World A
  on c w = let (r, t) = c w.server in (r, record w { server = t })

  -- `Get`: a missing key reads as an empty text
  unfoldable pub get : Str → Exec World Str
  get key = do
    o ← wrap (wrapped (str "failed to get key " ++ key)) (on (d.redis.get key))
    pure (elim o [ none ↦ [] | some v ↦ v ])

  unfoldable pub gets_all : List Str → Dict Str → Exec World (Dict Str)
  gets_all [] vals = pure vals
  gets_all (key ∷ rest) vals = do
    v ← wrap (wrapped (str "failed to get value for key " ++ key)) (get key)
    gets_all rest (insert key v vals)

  -- `Gets`: the values of all keys that match a pattern
  unfoldable pub gets_matching : Str → Exec World (Dict Str)
  gets_matching pattern = do
    found ←
        wrap (wrapped (str "failed to get keys matching " ++ pattern)) (on (d.redis.keys pattern))
    gets_all found []

  unfoldable pub remove_keys : Str → List Str → Exec World (Unit {0})
  remove_keys set [] = pure tt
  remove_keys set (name ∷ rest) = do
    res ←
        wrap (wrapped (str "fetch failed"))
          (on (d.redis.keys (star (key_path set name ++ str "/"))))
    wrap (wrapped (str "unlink failed")) (on (d.redis.unlink res))
    remove_keys set rest

  unfoldable pub remove_old_keys : RedisStore → List Str → Str → Exec World (Unit {0})
  remove_old_keys s [] set = do
    res ← wrap (wrapped (str "fetch failed")) (on (d.redis.smembers (sk s set)))
    remove_keys set res
  remove_old_keys s (name ∷ names) set = do
    wrap (wrapped (str "add failed")) (on (d.redis.sadd (new_key (sk s set)) (name ∷ names)))
    res ← wrap (wrapped (str "diff failed")) (on (d.redis.sdiff (sk s set) (new_key (sk s set))))
    remove_keys set res

  -- the write loop of `store` over the sorted keys
  unfoldable pub write_all : RedisStore → Dict Str → List Str → Exec World (Unit {0})
  write_all s kv [] = pure tt
  write_all s kv (key ∷ rest) = do
    wrap (wrapped (str "failed to write key " ++ key)) (on (d.redis.set key (text_at key kv) s.ttl))
    write_all s kv rest

  unfoldable pub unlink_stale : Dict Str → List Str → Exec World (Unit {0})
  unlink_stale kv [] = pure tt
  unlink_stale kv (key ∷ rest) =
      (if has key kv then pure tt else ignore (on (d.redis.unlink (key ∷ []))))
      >> unlink_stale kv rest

  -- one service of `removeStaleServerKeys`; where the keys cannot be listed it is left as it is
  unfoldable pub remove_stale_of : Dict Str → Str → Exec World (Unit {0})
  remove_stale_of kv prefix =
      ignore (on (d.redis.keys (star prefix)) >>= λ existing. unlink_stale kv existing)

  unfoldable pub remove_stale_server_keys : Dict Str → List Str → Str → Exec World (Unit {0})
  remove_stale_server_keys kv [] proto = pure tt
  remove_stale_server_keys kv (name ∷ rest) proto =
      remove_stale_of kv (server_prefix proto name) >> remove_stale_server_keys kv rest proto

  -- what `swapKeys` makes of the reply to RENAME
  unfoldable pub after_rename : Str → Result (Unit {0}) → Exec World (Unit {0})
  after_rename setkey (ok a) = pure tt
  after_rename setkey (err e) =
      if contains (str "no such key") e
      then ignore (on (d.redis.unlink (setkey ∷ [])))
      else lift (err (wrapped (str "rename failed") e))
  after_rename setkey panic = lift panic

  unfoldable pub swap_keys : Str → Exec World (Unit {0})
  swap_keys setkey w =
      let (r, t) = d.redis.rename (new_key setkey) setkey w.server in
      after_rename setkey r (record w { server = t })

  unfoldable pub swap_all : RedisStore → List Str → Exec World (Unit {0})
  swap_all s [] = pure tt
  swap_all s (set ∷ rest) = ignore (swap_keys (sk s set)) >> swap_all s rest

  -- the first block of `store`: the names that are gone lose their keys
  unfoldable pub remove_old : RedisStore → Configuration R → Exec World (Unit {0})
  remove_old s conf = do
    http ← deref conf.http
    ignore (remove_old_keys s (keys http.middlewares) (str "http_middlewares"))
    ignore (remove_old_keys s (keys http.routers) (str "http_routers"))
    ignore (remove_old_keys s (keys http.services) (str "http_services"))
    tcp ← deref conf.tcp
    ignore (remove_old_keys s (keys tcp.middlewares) (str "tcp_middlewares"))
    ignore (remove_old_keys s (keys tcp.routers) (str "tcp_routers"))
    ignore (remove_old_keys s (keys tcp.services) (str "tcp_services"))
    udp ← deref conf.udp
    ignore (remove_old_keys s (keys udp.routers) (str "udp_routers"))
    ignore (remove_old_keys s (keys udp.services) (str "udp_services"))

  unfoldable pub remove_stale : Dict Str → Configuration R → Exec World (Unit {0})
  remove_stale kv conf = do
    http ← deref conf.http
    remove_stale_server_keys kv (keys http.services) (str "http")
    tcp ← deref conf.tcp
    remove_stale_server_keys kv (keys tcp.services) (str "tcp")
    udp ← deref conf.udp
    remove_stale_server_keys kv (keys udp.services) (str "udp")

  -- `store`, at the time `now` in seconds
  unfoldable pub store : RedisStore → ℕ → Configuration R → Exec World (Unit {0})
  store s now conf = do
    remove_old s conf
    kv ← lift (config_to_kv d.directive (d.fields_of conf))
    write_all s kv (sort (keys kv))
    remove_stale kv conf
    swap_all s set_names
    wrap (wrapped (str "failed to write Redis sentinel"))
        (on (d.redis.set (sentinel s) (format_uint now) s.ttl))
    modify (λ w. record w { last_config = some conf })

  -- the renewal of `KeepConfAlive`, where the sentinel is there and keys expire
  unfoldable pub renew : RedisStore → ℕ → Configuration R → Exec World (Unit {0})
  renew s now conf = do
    kv ← lift (config_to_kv d.directive (d.fields_of conf))
    replies ←
        wrap (wrapped (str "failed to renew Redis configuration TTL"))
          (on (d.redis.pexpire (keys kv ++ sentinel s ∷ []) s.ttl))
    if all_true replies then pure tt else store s now conf

  unfoldable pub keep_conf_alive_of :
      RedisStore → ℕ → Option (Configuration R) → Exec World (Unit {0})
  keep_conf_alive_of s now none = pure tt
  keep_conf_alive_of s now (some conf) = do
    there ← wrap (wrapped (str "failed to check Redis sentinel")) (on (d.redis.exists (sentinel s)))
    if there then (if s.ttl == 0 then pure tt else renew s now conf) else store s now conf

  -- `KeepConfAlive`
  unfoldable pub keep_conf_alive : RedisStore → ℕ → Exec World (Unit {0})
  keep_conf_alive s now = do last ← gets (λ w. w.last_config); keep_conf_alive_of s now last
