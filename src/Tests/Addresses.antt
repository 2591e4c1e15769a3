-- ===== src/Tests/Addresses.antt =====
-- The addresses of two TCP services, one of whose containers is on a network of its own.
use traefik_kop.Prelude.{
  ◌≡◌, ◌≢◌, inr, refl, Bool, true, false, Option, none, some, [], ◌∷◌, if◌then◌else◌,
}
use traefik_kop.Prelude.Result.{ok}
use traefik_kop.Prelude.Exec.{Exec, lift, attempt, deref}
use traefik_kop.Text.{Str, str, str_eq}
use traefik_kop.Text.Dict.{Dict, text_at}
use traefik_kop.Dynamic.{Server, StreamServer, LoadBalancer, Service}
use traefik_kop.Docker.Types.{Container}
use traefik_kop.Docker.Ports
use traefik_kop.Docker.Ports.{is_port_set, get_port_binding}
use traefik_kop.Namespace
use traefik_kop.Namespace.{get_router_of_service, router_named}
use traefik_kop.Namespace.Filter.{Answers}
use traefik_kop.Addresses
use traefik_kop.Addresses.{port_in, port_from, ip_from, replace_streams}
use traefik_kop.Addresses.Chosen.{label_port, IsKey, IsChosen, port_in-IsChosen}
use traefik_kop.Addresses.Stream.{ServicesAt, AllLocal}
use traefik_kop.Addresses.Replace.{HaveHosts, replace_streams-leaks}
use traefik_kop.Addresses.Http
use traefik_kop.Addresses.Http.{replace_http}
use traefik_kop.Addresses.Moved.{own_ip, ServicesMoved, replace_http-ServicesMoved}
use traefik_kop.Docker.Names.{strip_docker}
use traefik_kop.Url.{parse}
use traefik_kop.Tests.Url.{reading}
use traefik_kop.Tests.Examples.{Rest, one_server, one_routers, http_service}
use traefik_kop.Tests.Daemon.{web, running}

web_port : port_in web (str "http") (str "app@docker") (str "80") ≡ ok (str "32768")
unfolding running Addresses.port_in Addresses.or_else Ports.is_port_set Ports.is_bound
    Ports.first_bound Ports.bindings_at Ports.runtime_ports Ports.port_key
    Ports.get_service_port_binding text_at
web_port = refl

port_in-IsChosen_example :
    (key : Str) × IsKey (label_port web (str "http") (str "app@docker")) (str "http") (str "80") key
    × IsChosen web
        (label_port web (str "http") (str "app@docker"))
        (str "http")
        (str "80")
        key
        (str "32768")
port_in-IsChosen_example =
    port_in-IsChosen web (str "http") (str "app@docker") (str "80") (str "32768") web_port

-- a container with an address on a network
abbrev networked : Container
networked = record web {
  labels = (str "traefik.docker.network", str "cni") ∷ [];
  network_settings =
      some (record { ports = []; networks = (str "cni", some (str "172.16.0.9")) ∷ [] });
}

abbrev answer : Str → Str → Str → Option Container
answer type service router = some (if str_eq service (str "db@docker") then networked else web)

abbrev find : Str → Str → Str → Exec (Unit {0}) Container
find type service router = lift (ok (if str_eq service (str "db@docker") then networked else web))

find-Answers : Answers find (λ _. Unit {0}) answer
unfolding lift attempt
find-Answers type service router = record { at = λ s h. (refl, h) }

answer-HaveHosts : HaveHosts answer
answer-HaveHosts type service router c h e = hosts (str_eq service (str "db@docker")) c h e
  where
    hosts :
        (b : Bool) (c : Container)
        → some (if b then networked else web) ≡ some c
        → c.host_config ≢ none
    hosts true c h e = cc
    hosts false c h e = cc

abbrev no_router : Str → Str
no_router name = []

routed : (name : Str) → get_router_of_service one_server name (str "tcp") ≡ ok (no_router name)
unfolding running Namespace.get_router_of_service Namespace.router_in Namespace.router_named
routed name = refl

abbrev server : StreamServer Rest
server = record { address = str "10.0.0.7:1883"; port = []; rest = tt }

abbrev balancer : LoadBalancer Rest (StreamServer Rest)
balancer = record { servers = server ∷ []; rest = tt }

abbrev stream : Service Rest (StreamServer Rest)
stream = record { load_balancer = some balancer; rest = tt }

abbrev queue : Dict (Service Rest (StreamServer Rest))
queue = (str "mq@docker", stream) ∷ []

local : (host : Str) → AllLocal (λ name. answer (str "tcp") name (no_router name)) host queue
unfolding running Addresses.ip_from text_at
local host = ((λ e. cc), refl, tt)

db_moves :
    ip_from (answer (str "tcp") (str "db@docker") (no_router (str "db@docker"))) (str "192.168.1.1")
    ≡ str "172.16.0.9"
unfolding running Addresses.ip_from Addresses.address_on text_at
db_moves = refl

replace_streams-leaks_example :
    (e : Dict (Service Rest (StreamServer Rest))) × (out : Service Rest (StreamServer Rest))
    × ((replace_streams find one_server
          (str "tcp")
          (str "192.168.1.1")
          ((str "db@docker", stream) ∷ queue)
          tt).0
        ≡ ok (str "172.16.0.9", (str "db@docker", out) ∷ e))
    × ServicesAt
        (str "172.16.0.9")
        (λ name. port_from (answer (str "tcp") name (no_router name)) (str "tcp") name)
        queue
        e
replace_streams-leaks_example =
    replace_streams-leaks find one_server (λ _. Unit {0}) answer (str "tcp") no_router
      (str "192.168.1.1") (str "172.16.0.9") (str "db@docker") stream balancer server queue tt
      find-Answers tt routed answer-HaveHosts refl refl db_moves (local (str "172.16.0.9"))

http_routed :
    (name : Str)
    → get_router_of_service one_server name (str "http")
      ≡ ok (router_named (strip_docker name) one_routers)
unfolding running Namespace.get_router_of_service Namespace.router_in
http_routed name = refl

readable : parse (str "http://10.0.0.3:80") ≢ none
unfolding reading
readable e = cc

abbrev services : Dict (Service Rest (Server Rest))
services = (str "app@docker", http_service (str "http://10.0.0.3:80" ∷ [])) ∷ []

-- the services with their servers moved
abbrev IsReplaced : Dict (Service Rest (Server Rest)) → Type 0
IsReplaced =
    ServicesMoved
      (λ name.
        own_ip (answer (str "http") name (router_named (strip_docker name) one_routers)) name
          (str "192.168.1.1"))
      (λ name.
        port_from (answer (str "http") name (router_named (strip_docker name) one_routers))
          (str "http") name)
      services

replace_http-ServicesMoved_example :
    (e : Dict (Service Rest (Server Rest))) × ((replace_http find one_server
        (str "192.168.1.1")
        services
        tt).0
      ≡ ok e)
    × IsReplaced e
replace_http-ServicesMoved_example =
    replace_http-ServicesMoved find one_server (λ _. Unit {0}) answer
      (λ name. router_named (strip_docker name) one_routers) (str "192.168.1.1") services tt
      find-Answers tt http_routed answer-HaveHosts ((_, refl, (inr readable, tt)), tt)

replaced :
    (replace_http find one_server (str "192.168.1.1") services tt).0
    ≡ ok ((str "app@docker", http_service (str "http://192.168.1.1:32768" ∷ [])) ∷ [])
unfolding running reading Namespace.get_router_of_service Namespace.router_in Namespace.router_named
    deref text_at Addresses.or_else Addresses.single_port Addresses.port_in Addresses.port_from
    Addresses.address_on Addresses.ip_from Addresses.override_from Addresses.address_of
    Addresses.find_for Addresses.get_container_port Addresses.get_container_network_ip
    Addresses.get_kop_override_binding Http.new_url Http.moved_url Http.get_http_ip
    Http.get_http_url Http.replace_http_servers Http.replace_http Ports.is_port_set Ports.is_bound
    Ports.first_bound Ports.bindings_at Ports.runtime_ports Ports.port_key
    Ports.get_service_port_binding
replaced = refl
