-- ===== src/Tests/Examples.antt =====
-- A small configuration, its reflection, and a server in memory.
use traefik_kop.Prelude.{true, false, Option, none, some, List, [], ◌∷◌}
use traefik_kop.Text.{Str, str}
use traefik_kop.Text.Dict.{Dict}
use traefik_kop.Dynamic.{
  Router, Server, StreamServer, LoadBalancer, Service, Section, Configuration,
}
use traefik_kop.Kv.Value.{
  string, FieldInfo, string_key, Value, nil_pointer, pointer, prim, struct, map_of, slice, Fields,
  no_field, field, Entries, no_entry, entry, Elems, no_elem, item,
}
use traefik_kop.Redis.Memory.{memory}
use traefik_kop.Store.{Deps, RedisStore, World}

abbrev pub Rest : Type 0
Rest = Unit {0}

abbrev pub tagged : Str → Str → Str → FieldInfo
tagged name json label = record {
  name = name;
  exported = true;
  json = json;
  label = label;
  anonymous = false;
}

abbrev pub text_field : Str → Str → Str → Fields → Fields
text_field name json v fs = field (tagged name json []) (prim (string v)) fs

abbrev router_entries : Dict (Router Rest) → Entries
router_entries [] = no_entry
router_entries ((name, r) ∷ rs) =
    entry name
      (pointer (struct (text_field (str "Service") (str "service,omitempty") r.service no_field)))
      (router_entries rs)

abbrev url_elems : List (Server Rest) → Elems
url_elems [] = no_elem
url_elems (s ∷ ss) =
    item (struct (text_field (str "URL") (str "url,omitempty") s.url no_field)) (url_elems ss)

abbrev address_elems : List (StreamServer Rest) → Elems
address_elems [] = no_elem
address_elems (s ∷ ss) =
    item (struct (text_field (str "Address") (str "address,omitempty") s.address no_field))
      (address_elems ss)

abbrev balancer : {S : Type 0} → (List S → Elems) → Option (LoadBalancer Rest S) → Value
balancer f none = nil_pointer
balancer f (some b) = pointer (
    struct
      (field (tagged (str "Servers") (str "servers,omitempty") []) (slice (f b.servers)) no_field))

abbrev service_entries : {S : Type 0} → (List S → Elems) → Dict (Service Rest S) → Entries
service_entries f [] = no_entry
service_entries f ((name, s) ∷ ss) =
    entry name
      (pointer (
        struct (
          field (tagged (str "LoadBalancer") (str "loadBalancer,omitempty") [])
            (balancer f s.load_balancer) no_field)))
      (service_entries f ss)

abbrev section_value : {S : Type 0} → (List S → Elems) → Option (Section Rest S) → Value
section_value f none = nil_pointer
section_value f (some s) = pointer (
    struct (
      field (tagged (str "Routers") (str "routers,omitempty") [])
        (map_of string_key (router_entries s.routers))
        (field (tagged (str "Services") (str "services,omitempty") [])
          (map_of string_key (service_entries f s.services)) no_field)))

abbrev pub fields_of : Configuration Rest → Fields
fields_of conf =
    field (tagged (str "HTTP") (str "http,omitempty") []) (section_value url_elems conf.http) (
      field (tagged (str "TCP") (str "tcp,omitempty") []) (section_value address_elems conf.tcp) (
        field (tagged (str "UDP") (str "udp,omitempty") []) (section_value address_elems conf.udp)
          no_field))

abbrev pub directive : Str → Str
directive f = str "%!(NOVERB)"

abbrev pub deps : Deps Rest
deps = record { redis = memory; fields_of = fields_of; directive = directive }

abbrev pub empty_section : {S : Type 0} → Section Rest S
empty_section = record { routers = []; services = []; middlewares = [] }

abbrev pub http_service : List Str → Service Rest (Server Rest)
http_service urls = record {
  load_balancer = some (record { servers = servers urls; rest = tt });
  rest = tt;
}
  where
    servers : List Str → List (Server Rest)
    servers [] = []
    servers (u ∷ us) = record { url = u; scheme = []; port = []; rest = tt } ∷ servers us

abbrev pub one_routers : Dict (Router Rest)
one_routers = (str "app@docker", record { service = str "app"; entry_points = []; rest = tt }) ∷ []

abbrev pub app : List Str → Configuration Rest
app urls = record {
  http = some (record {
    routers = one_routers;
    services = (str "app@docker", http_service urls) ∷ [];
    middlewares = [];
  });
  tcp = some empty_section;
  udp = some empty_section;
  rest = tt;
}

abbrev pub two_servers : Configuration Rest
two_servers = app (str "http://10.0.0.1:80" ∷ str "http://10.0.0.2:80" ∷ [])

abbrev pub one_server : Configuration Rest
one_server = app (str "http://10.0.0.3:80" ∷ [])

abbrev pub host : RedisStore
host = record { hostname = str "a.local"; ttl = 300 }

abbrev pub fresh : World deps
fresh = record { last_config = none; server = [] }

abbrev pub no_tcp : Configuration Rest
no_tcp = record one_server { tcp = none }
