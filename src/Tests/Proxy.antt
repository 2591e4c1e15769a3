-- ===== src/Tests/Proxy.antt =====
-- The proxy with the prefix kop.
use traefik_kop.Prelude.{
  ◌≡◌, ◌≢◌, ◌↔◌, refl, Bool, true, false, Option, none, some, if◌then◌else◌, List, [], ◌∷◌, ◌++◌,
}
use mathlib.Core.List.{Memᴰ}
use traefik_kop.Prelude.Result.{ok}
use traefik_kop.Text
use traefik_kop.Text.{Str, str, has_prefix}
use traefik_kop.Text.Dict
use traefik_kop.Text.Dict.{Dict, lookup, is_distinct}
use traefik_kop.Proxy
use traefik_kop.Proxy.{
  DockerProxyServer, Response, json, Summary, Event, Received, event, no_error, an_error, Line,
  event_line, create_proxy, enabled_by, should_expose, filter_labels, filtered_event, is_dropped,
  handle_containers_list, handle_events,
}
use traefik_kop.Proxy.Labels.{lookup-filter_labels}
use traefik_kop.Proxy.Listed.{shown, handle_containers_list-exposed}
use traefik_kop.Proxy.Stream.{is_smooth, Passes, handle_events_iff}
use traefik_kop.Proxy.Routes
use traefik_kop.Proxy.Routes.{
  Endpoint, containers_list, Route, routes, Framework, Upstream, Answer, serve, Shows, serve-Shows,
}
use traefik_kop.Redis.Memory
use traefik_kop.Redis.Memory.{memory}
use traefik_kop.Tests.Daemon.{web, running}

-- Opening this runs the proxy.
unfoldable serving : Unit {0}
unfolding running Text.has_suffix Text.trim_prefix Text.after Dict.is_distinct Proxy.create_proxy
    Proxy.parse_bool Proxy.enabled_by Proxy.should_expose Proxy.filter_into Proxy.filter_labels
    Proxy.exposed Proxy.respond Proxy.handle_containers_list Proxy.filtered_event Proxy.is_dropped
    Proxy.handle_events is_smooth
serving = tt

abbrev kop : DockerProxyServer
kop = record { label_prefix = str "kop."; exposed_by_default = false }

made : create_proxy (str "kop") false ≡ kop
unfolding serving
made = refl

abbrev labels : Dict Str
labels =
    (str "kop.traefik.enable", str "true")
    ∷ (str "traefik.enable", str "false")
    ∷ (str "other", str "1")
    ∷ []

prefixed : kop.label_prefix ≢ []
unfolding str
prefixed h = cc

distinct : is_distinct labels ≡ true
unfolding serving
distinct = refl

dotted : has_prefix (str "traefik.") (str "traefik.enable") ≡ true
unfolding serving
dotted = refl

lookup-filter_labels_example :
    lookup (str "traefik.enable") (filter_labels kop labels)
    ≡ lookup (str "kop." ++ str "traefik.enable") labels
lookup-filter_labels_example =
    lookup-filter_labels kop labels (str "traefik.enable") prefixed distinct dotted

abbrev listed : List (Summary (Unit {0}))
listed = record { labels = labels; rest = tt } ∷ record { labels = []; rest = tt } ∷ []

handle_containers_list-exposed_example :
    (out : List (Summary (Unit {0}))) × (handle_containers_list kop (ok listed) ≡ json out)
    × ((d : Summary (Unit {0}))
        → Memᴰ d out ↔ (
            (c : Summary (Unit {0})) × Memᴰ c listed
            × (d ≡ shown kop c)
            × (should_expose kop (filter_labels kop c.labels) ≡ true)))
handle_containers_list-exposed_example = handle_containers_list-exposed kop listed

abbrev started : Event (Unit {0})
started = record { type = str "container"; attributes = labels; rest = tt }

abbrev hidden : Event (Unit {0})
hidden = record { type = str "container"; attributes = []; rest = tt }

abbrev received : List (Received (Unit {0}))
received = event hidden true ∷ event started true ∷ []

smooth : is_smooth received ≡ true
unfolding serving
smooth = refl

handle_events_iff_example :
    Memᴰ (event_line (filtered_event kop started)) (handle_events kop received) ↔ (
      (from : Event (Unit {0})) × (flushed : Bool) × Memᴰ (event from flushed) received
      × Passes kop from (filtered_event kop started))
handle_events_iff_example = handle_events_iff kop received (filtered_event kop started) smooth

-- A path is matched as a pattern of the server in memory is, and the first route that matches is
-- picked.
first_match : Str → List Route → Option Endpoint
first_match path [] = none
first_match path (r ∷ rest) =
    if memory.glob r.pattern path then some r.endpoint else first_match path rest

abbrev framework : Framework Str (Unit {0})
framework = record {
  picks = first_match;
  param_id = λ path. [];
  query_all = λ path. false;
  query_filters = λ path. [];
  from_json = λ text. ok tt;
  zero = tt;
}

abbrev daemon : Upstream (Unit {0}) (Unit {0}) (Unit {0})
daemon = record {
  server_version = ok tt;
  container_list = λ all. ok listed;
  container_inspect = λ id. ok web;
  events = λ filters. received;
}

abbrev list_path : Str
list_path = str "/v1.44/containers/json"

reached : framework.picks list_path routes ≡ some containers_list
unfolding serving Memory.glob_of Routes.routes first_match
reached = refl

serves_list :
    serve framework daemon kop list_path
    ≡ some (Routes.listed (handle_containers_list kop (ok listed)))
unfolding serving Memory.glob_of Routes.routes first_match Routes.endpoint_answer Routes.serve
serves_list = refl

serve-Shows_example :
    (a : Answer (Unit {0}) (Unit {0})) × (serve framework daemon kop list_path ≡ some a)
    × Shows framework daemon kop list_path containers_list a
serve-Shows_example = serve-Shows framework daemon kop list_path containers_list reached
