-- ===== src/Tests/Merge.antt =====
-- The merge of a service with a server that another host has published.
use traefik_kop.Prelude.{◌≡◌, refl, Option, some, List, [], ◌∷◌}
use traefik_kop.Prelude.Result.{ok}
use traefik_kop.Prelude.Exec.{Exec, lift}
use traefik_kop.Prelude.Exec.Returns.{Returns}
use traefik_kop.Text.{Str, str}
use traefik_kop.Text.Dict.{Dict}
use traefik_kop.Dynamic.{Server, Service, Configuration}
use traefik_kop.Docker.Types.{Container}
use traefik_kop.Namespace
use traefik_kop.Tests.Examples.{Rest, empty_section, http_service, two_servers}
use traefik_kop.Tests.Daemon.{web}

abbrev pub url_of : Server Rest → Str
url_of s = s.url

abbrev pub make : Str → Server Rest
make url = record { url = url; scheme = []; port = []; rest = tt }

pub made : (k : Str) → url_of (make k) ≡ k
made k = refl

abbrev existing : Dict Str
existing =
    (str "traefik/http/services/app/loadBalancer/servers/0/url", str "http://10.0.0.9:80") ∷ []

abbrev own : List (Server Rest)
own = make (str "http://10.0.0.1:80") ∷ make (str "http://10.0.0.9:80") ∷ []

-- a container that asks for a merge
abbrev pub sharing : Container
sharing = record web { labels = (str "kop.merge-lbs", str "true") ∷ [] }

abbrev answer : Str → Str → Str → Option Container
answer type service router = some sharing

abbrev find : Str → Str → Str → Exec (Unit {0}) Container
find type service router = lift (ok sharing)

abbrev gets : Str → Exec (Unit {0}) (Dict Str)
gets key = lift (ok existing)

abbrev stored : Str → Option (Dict Str)
stored key = some existing

-- a configuration without routers
abbrev bare : Configuration Rest
bare = record two_servers { http = some empty_section }

abbrev router_of : Str → Str
router_of name = []

abbrev services : Dict (Service Rest (Server Rest))
services = (str "app@docker", http_service (str "http://10.0.0.1:80" ∷ [])) ∷ []
