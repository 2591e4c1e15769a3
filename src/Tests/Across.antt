-- ===== src/Tests/Across.antt =====
-- Two hosts that share a service: what the first has published reaches the second.
use traefik_kop.Prelude.{◌≡◌, refl, true, if◌then◌else◌, none, some, [], ◌∷◌}
use traefik_kop.Prelude.Result.{Result, ok, err, panic}
use traefik_kop.Prelude.Exec.{Exec, lift}
use traefik_kop.Text.{Str, str}
use traefik_kop.Text.Dict
use traefik_kop.Text.Dict.{Dict}
use traefik_kop.Dynamic.{Server, Service}
use traefik_kop.Docker.Types.{Container}
use traefik_kop.Kv.Walk.{config_to_kv}
use traefik_kop.Proxy
use traefik_kop.Store
use traefik_kop.Store.{World, store, gets_matching}
use traefik_kop.Merge
use traefik_kop.Merge.{is_merged, store_key, merge_found}
use traefik_kop.Merge.Across.{HasServer, merge_found-HasServer}
use traefik_kop.Store.Gets.{text_of, gets_matching-lookup}
use traefik_kop.Redis.Memory.Sound.{memory-Laws}
use traefik_kop.Tests.Run.{opened}
use traefik_kop.Tests.Examples.{
  Rest, deps, fields_of, http_service, two_servers, one_server, host, fresh,
}
use traefik_kop.Tests.Merge.{url_of, make, made, sharing}
use traefik_kop.Tests.Handler.{named}

abbrev value : Result (Dict Str) → Dict Str
value (ok m) = m
value (err e) = []
value panic = []

-- the second host has the server of the first, and remembers nothing
abbrev second : World deps
second = record (store deps host 7 two_servers fresh).1 { last_config = none }

abbrev flat : Dict Str
flat = value (config_to_kv deps.directive (fields_of two_servers))

abbrev first_url : Str
first_url = str "traefik/http/services/app/loadBalancer/servers/0/url"

abbrev pattern : Str
pattern = store_key (str "http") (str "app@docker")

abbrev read : Dict Str
read = value (gets_matching deps pattern second).0

abbrev find : Str → Str → Str → Exec (World deps) Container
find type service router = lift (ok sharing)

abbrev own_service : Service Rest (Server Rest)
own_service = http_service (str "http://10.0.0.3:80" ∷ [])

-- Opening this runs the merge.
unfoldable merging : Unit {0}
unfolding opened Proxy.parse_bool Merge.is_set Merge.is_merged Merge.store_key Store.get
    Store.gets_all Store.gets_matching
merging = tt

stores : (store deps host 7 two_servers fresh).0 ≡ ok tt
unfolding merging
stores = refl

flattens : config_to_kv deps.directive (fields_of two_servers) ≡ ok flat
unfolding merging
flattens = refl

listed : Dict.lookup first_url flat ≡ some (str "http://10.0.0.1:80")
unfolding merging
listed = refl

matches : deps.redis.glob pattern first_url ≡ true
unfolding merging
matches = refl

asks : is_merged sharing.labels ≡ true
unfolding merging
asks = refl

answers : (gets_matching deps pattern second).0 ≡ ok read
unfolding merging
answers = refl

merge_found-HasServer_example :
    (out : Service Rest (Server Rest)) × ((merge_found url_of make find
        (gets_matching deps)
        one_server
        (str "http")
        (some sharing)
        (str "app@docker")
        own_service
        second).0
      ≡ ok out)
    × HasServer url_of (str "http://10.0.0.1:80") out
merge_found-HasServer_example =
    merge_found-HasServer url_of make deps find host 7 two_servers one_server fresh second
      (str "http") (str "app@docker") first_url (str "http://10.0.0.1:80") sharing own_service
      (record { servers = make (str "http://10.0.0.3:80") ∷ []; rest = tt }) made memory-Laws
      (named two_servers) stores flattens listed matches refl asks answers refl

gets_matching-lookup_example : Dict.lookup first_url read ≡ (
    if deps.redis.glob pattern first_url
    then text_of (deps.redis.view second.server first_url)
    else none)
gets_matching-lookup_example =
    gets_matching-lookup deps memory-Laws pattern first_url second answers
