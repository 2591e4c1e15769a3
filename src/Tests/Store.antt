-- ===== src/Tests/Store.antt =====
-- The store on the server in memory.
use traefik_kop.Prelude.{◌≡◌, refl, true, false, none, some, [], ◌∷◌, ◌++◌, ◌≢◌, arith}
use traefik_kop.Prelude.Result.{ok}
use traefik_kop.Text
use traefik_kop.Text.{Str, str}
use traefik_kop.Text.Decimal.{format_uint}
use traefik_kop.Text.Dict
use traefik_kop.Dynamic.{Configuration}
use traefik_kop.Kv.Walk
use traefik_kop.Redis.Memory
use traefik_kop.Store
use traefik_kop.Store.{store, keep_conf_alive}
use traefik_kop.Store.{World, Deps, sentinel}
use traefik_kop.Store.Publish.{item, store-publishes}
use traefik_kop.Store.Foreign.{store-foreign, keep_conf_alive-foreign}
use traefik_kop.Store.KeepAlive.{Alive, keep_conf_alive-renews}
use traefik_kop.Store.Failure.{store-forgets_failed}
use traefik_kop.Store.Cleanup.{remove_keys-removes, remove_keys-stops}
use traefik_kop.Store.Servers.{Answers, Proto, store-drops_servers}
use traefik_kop.Redis.{members}
use traefik_kop.Redis.Memory.Sound.{memory-Laws}
use traefik_kop.Kv.Under.{IsNamed}
use traefik_kop.Tests.Run.{opened}
use traefik_kop.Tests.Examples.{Rest, deps, fields_of, two_servers, one_server, no_tcp, host, fresh}

stored : World deps
stored = (store deps host 7 two_servers fresh).1

stores : (store deps host 7 two_servers fresh).0 ≡ ok tt
unfolding opened
stores = refl

named : (conf : Configuration Rest) → IsNamed (fields_of conf)
named conf = (refl, (refl, (refl, tt)))

store-publishes_example :
    (kv : Dict.Dict Str) × (Walk.config_to_kv deps.directive (fields_of two_servers) ≡ ok kv)
    × ((key v : Str)
        → Dict.lookup key kv ≡ some v
        → Dict.lookup key (store deps host 7 two_servers fresh).1.server ≡ item v 300)
    × (Dict.lookup (sentinel host) (store deps host 7 two_servers fresh).1.server
        ≡ item (format_uint 7) 300)
    × ((store deps host 7 two_servers fresh).1.last_config ≡ some two_servers)
store-publishes_example =
    store-publishes deps memory-Laws host 7 two_servers fresh (named two_servers) stores

first_url :
    Dict.lookup (str "traefik/http/services/app/loadBalancer/servers/0/url") stored.server
    ≡ item (str "http://10.0.0.1:80") 300
unfolding opened stored
first_url = refl

-- a second instance on the same server: its sets are not ours
abbrev other_key : Str
other_key = str "traefik_http_routers@b.local"

abbrev shared : World deps
shared = record {
  last_config = none;
  server = (other_key, record { content = members (str "x@docker" ∷ []); ttl = 0 }) ∷ [];
}

store-foreign_example :
    Dict.lookup other_key (store deps host 7 two_servers shared).1.server
    ≡ Dict.lookup other_key shared.server
unfolding opened
store-foreign_example =
    store-foreign deps memory-Laws host 7 other_key two_servers shared refl refl (named two_servers)

keep_conf_alive-foreign_example :
    Dict.lookup other_key
      (keep_conf_alive deps host 9 (record shared { last_config = some two_servers })).1.server
    ≡ Dict.lookup other_key shared.server
unfolding opened
keep_conf_alive-foreign_example =
    keep_conf_alive-foreign deps memory-Laws host 9 other_key
      (record shared { last_config = some two_servers }) refl refl (λ conf _. named conf)

-- redis was restarted: the sentinel and all keys are lost
abbrev restarted : World deps
restarted = record { last_config = some two_servers; server = [] }

restores : (keep_conf_alive deps host 9 restarted).0 ≡ ok tt
unfolding opened
restores = refl

keep_conf_alive-renews_example :
    (kv : Dict.Dict Str) × (Walk.config_to_kv deps.directive (fields_of two_servers) ≡ ok kv)
    × ((key : Str)
        → Text.elem key (Dict.keys kv ++ sentinel host ∷ []) ≡ true
        → Alive deps memory-Laws host 9 key (keep_conf_alive deps host 9 restarted).1)
keep_conf_alive-renews_example =
    keep_conf_alive-renews deps memory-Laws host 9 restarted two_servers (omega arith)
      (named two_servers) refl restores

-- the configuration has no TCP part, so the call panics
panics : (store deps host 9 no_tcp stored).0 ≢ ok tt
unfolding opened stored
panics h = cc

store-forgets_failed_example : (store deps host 9 no_tcp stored).1.last_config ≡ stored.last_config
store-forgets_failed_example = store-forgets_failed deps host 9 no_tcp stored panics

abbrev router_key : Str
router_key = str "traefik/http/routers/app/service"

removes : (Store.remove_keys deps (str "http_routers") (str "app@docker" ∷ []) stored).0 ≡ ok tt
unfolding opened stored
removes = refl

remove_keys-removes_example :
    Dict.lookup router_key
      (Store.remove_keys deps (str "http_routers") (str "app@docker" ∷ []) stored).1.server
    ≡ none
unfolding opened
remove_keys-removes_example =
    remove_keys-removes deps memory-Laws router_key (str "http_routers") (str "app@docker")
      (str "app@docker" ∷ []) stored refl refl refl (unfold stored in removes)

memory-Answers : Answers Memory.memory
unfolding opened
memory-Answers = record { keys_answer = λ p s. (_, refl); unlink_answer = λ key ks s. refl }

abbrev ghost : Str
ghost = str "ghost@docker"

abbrev ghost_pattern : Str
ghost_pattern = Store.star (Store.key_path (str "http_routers") ghost ++ str "/")

no_ghost_listed : (deps.redis.keys ghost_pattern stored.server).0 ≡ ok []
unfolding opened stored
no_ghost_listed = refl

no_ghost : (j : Str) → Memory.glob_of ghost_pattern j ≡ true → Dict.lookup j stored.server ≡ none
unfolding Text.elem
no_ghost j matched =
    let listed = memory-Laws.keys_ok ghost_pattern stored.server [] j no_ghost_listed in
    ground arith

-- The keys of app@docker stay, since ghost@docker, which stands in front of it, has none.
remove_keys-stops_example :
    ((Store.remove_keys deps (str "http_routers") (ghost ∷ str "app@docker" ∷ []) stored).0 ≢ ok tt)
    × ((j : Str)
        → Dict.lookup j
            (Store.remove_keys deps
              (str "http_routers")
              (ghost ∷ str "app@docker" ∷ [])
              stored).1.server
          ≡ Dict.lookup j stored.server)
remove_keys-stops_example =
    remove_keys-stops deps memory-Laws (str "http_routers") ghost (str "app@docker" ∷ []) stored []
      no_ghost_listed no_ghost

again : (store deps host 8 one_server stored).0 ≡ ok tt
unfolding opened stored
again = refl

abbrev second_url : Str
second_url = str "traefik/http/services/app/loadBalancer/servers/1/url"

store-drops_servers_example :
    (kv : Dict.Dict Str) × (Walk.config_to_kv deps.directive (fields_of one_server) ≡ ok kv)
    × (Dict.has second_url kv ≡ false
        → Dict.lookup second_url (store deps host 8 one_server stored).1.server ≡ none)
unfolding opened
store-drops_servers_example =
    store-drops_servers deps memory-Laws memory-Answers host 8 one_server stored Proto.http
      (str "app@docker") second_url refl refl refl (unfold stored in again)
