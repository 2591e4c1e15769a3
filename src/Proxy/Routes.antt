-- ===== src/Proxy/Routes.antt =====
-- docker_proxy.go: the routes of `start`, which decide what handler answers a request.
use traefik_kop.Prelude.{
  ◌≡◌, ◌≢◌, ◌⊎◌, ◌↔◌, inl, inr, refl, ap, sym, subst, Bool, true, Option, none, some, List, [], ◌∷◌,
}
use mathlib.Core.List.{Memᴰ}
use traefik_kop.Prelude.Result.{Result, ok, err, panic}
use traefik_kop.Text.{Str, str}
use traefik_kop.Docker.Types.{Container}
use traefik_kop.Proxy.{
  DockerProxyServer, Response, json, failure, crash, respond, Summary, Event, Received, Line,
  event_line, should_expose, filter_labels, handle_containers_list, handle_events,
  handle_container_inspect, handle_version, handle_not_found, event_filters,
}
use traefik_kop.Proxy.{event, exposed}
use traefik_kop.Proxy.Listed.{shown, handle_containers_list-exposed}
use traefik_kop.Proxy.Stream.{Passes, handle_events-from}

-- how a route is registered
pub data Method : Type 0 where
  get : Method
  all : Method

-- the handler of a route
pub data Endpoint : Type 0 where
  ping : Endpoint
  version : Endpoint
  containers_list : Endpoint
  container_inspect : Endpoint
  events : Endpoint
  unhandled : Endpoint

pub record Route : Type 0 where
  pub method : Method
  pub pattern : Str
  pub endpoint : Endpoint

-- the routes, in the order in which `start` registers them
unfoldable pub routes : List Route
routes =
    record { method = all; pattern = str "/_ping"; endpoint = ping }
    ∷ record { method = get; pattern = str "/v*/version"; endpoint = version }
    ∷ record { method = get; pattern = str "/v*/containers/json"; endpoint = containers_list }
    ∷ record { method = get; pattern = str "/v*/containers/:id/json"; endpoint = container_inspect }
    ∷ record { method = get; pattern = str "/v*/events"; endpoint = events }
    ∷ record { method = all; pattern = str "/*"; endpoint = unhandled }
    ∷ []

-- What the web framework tells of a request: the handler of the route that it picks, the identifier
-- in its path and what it has in its query; `from_json` is the reader of filters, of which `zero`
-- is the empty one.
pub record Framework (Q F : Type 0) : Type 1 where
  pub picks : Q → List Route → Option Endpoint
  pub param_id : Q → Str
  pub query_all : Q → Bool
  pub query_filters : Q → Str
  pub from_json : Str → Result F
  pub zero : F

-- the daemon behind the proxy
pub record Upstream (V F R : Type 0) : Type 1 where
  pub server_version : Result V
  pub container_list : Bool → Result (List (Summary R))
  pub container_inspect : Str → Result Container
  pub events : F → List (Received R)

-- what the proxy answers
pub data Answer (V R : Type 0) : Type 0 where
  no_content : Answer V R
  version_of : Response V → Answer V R
  listed : Response (List (Summary R)) → Answer V R
  inspected : Response Container → Answer V R
  streamed : Response (List (Line R)) → Answer V R
  missing : Response (Unit {0}) → Answer V R

module _ {Q F V R : Type 0} (f : Framework Q F) (up : Upstream V F R) (s : DockerProxyServer) where
  unfoldable pub streamed_from : Response F → Response (List (Line R))
  streamed_from (json fa) = json (handle_events s (up.events fa))
  streamed_from (failure status e) = failure status e
  streamed_from crash = crash

  unfoldable pub endpoint_answer : Q → Endpoint → Answer V R
  endpoint_answer q ping = no_content
  endpoint_answer q version = version_of (handle_version up.server_version)
  endpoint_answer q containers_list =
      listed (handle_containers_list s (up.container_list (f.query_all q)))
  endpoint_answer q container_inspect =
      inspected (handle_container_inspect s (up.container_inspect (f.param_id q)))
  endpoint_answer q events =
      streamed (streamed_from (event_filters f.from_json f.zero (f.query_filters q)))
  endpoint_answer q unhandled = missing handle_not_found

  -- the answer to a request, where the framework picks a route
  unfoldable pub serve : Q → Option (Answer V R)
  serve q = elim (f.picks q routes) [ none ↦ none | some e ↦ some (endpoint_answer q e) ]

-- A reply of the daemon, and what the proxy makes of it: a reply in its place, or its error.
abbrev pub Replies : {A B : Type 0} → (A → B → Type 0) → Result A → Response B → Type 0
Replies Q (ok a) (json b) = Q a b
Replies Q (err e) (failure status message) = (status ≡ 500) × (message ≡ e)
Replies Q panic crash = Unit
Replies Q _ _ = ⊥

replies :
    {A B : Type 0} (Q : A → B → Type 0) (g : A → B)
    → ((a : A) → Q a (g a))
    → (r : Result A) → Replies Q r (respond g r)
unfolding respond
replies Q g h (ok a) = h a
replies Q g h (err e) = (refl, refl)
replies Q g h panic = tt

-- A container as the daemon has it, and with its labels filtered.
abbrev pub IsShown : DockerProxyServer → Container → Container → Type 0
IsShown s c d = d ≡ record c { labels = filter_labels s c.labels }

module _ {R : Type 0} (s : DockerProxyServer) where
  -- The listed containers are those of the daemon that the proxy exposes, with their labels
  -- filtered.
  abbrev pub IsListed : List (Summary R) → List (Summary R) → Type 0
  IsListed l out =
      (d : Summary R)
      → Memᴰ d out ↔ (
          (c : Summary R) × Memᴰ c l
          × (d ≡ record c { labels = filter_labels s c.labels })
          × (should_expose s (filter_labels s c.labels) ≡ true))

  -- Every streamed event is what the proxy shows of one that it has received.
  abbrev pub AreStreamed : List (Received R) → List (Line R) → Type 0
  AreStreamed ms lines =
      (to : Event R)
      → Memᴰ (event_line to) lines
      → (from : Event R) × (flushed : Bool) × Memᴰ (event from flushed) ms × Passes s from to

  exposed-IsListed : (l : List (Summary R)) → IsListed l (exposed s l)
  unfolding handle_containers_list respond shown
  exposed-IsListed l =
      let (out, e, listing) = handle_containers_list-exposed s l in
      subst (IsListed l) (json-injective (sym e)) listing
    where
      json-injective : {A : Type 0} {a b : A} → json a ≡ json b → a ≡ b
      json-injective h = cc

module _ {Q F V R : Type 0} (f : Framework Q F) (up : Upstream V F R) (s : DockerProxyServer)
    (q : Q) where
  -- the filters of the query, or none where it has none
  abbrev pub IsAsked : F → Type 0
  IsAsked fa =
      ((f.query_filters q ≡ []) × (fa ≡ f.zero))
      ⊎ ((f.query_filters q ≢ []) × (f.from_json (f.query_filters q) ≡ ok fa))

  abbrev pub IsStreamed : Response (List (Line R)) → Type 0
  IsStreamed (json lines) = (fa : F) × IsAsked fa × AreStreamed s (up.events fa) lines
  IsStreamed (failure status e) =
      (status ≡ 400) × (f.query_filters q ≢ []) × (f.from_json (f.query_filters q) ≡ err e)
  IsStreamed crash = (f.query_filters q ≢ []) × (f.from_json (f.query_filters q) ≡ panic)

  -- The answer of each handler, against the reply of the daemon.
  abbrev pub Shows : Endpoint → Answer V R → Type 0
  Shows ping no_content = Unit
  Shows version (version_of r) = Replies (λ v w. w ≡ v) up.server_version r
  Shows containers_list (listed r) = Replies (IsListed s) (up.container_list (f.query_all q)) r
  Shows container_inspect (inspected r) =
      Replies (IsShown s) (up.container_inspect (f.param_id q)) r
  Shows events (streamed r) = IsStreamed r
  Shows unhandled (missing r) = r ≡ failure 404 (str "Not Found")
  Shows _ _ = ⊥

  streamed_from-IsStreamed :
      (query : Str)
      → f.query_filters q ≡ query
      → IsStreamed (streamed_from f up s (event_filters f.from_json f.zero query))
  unfolding event_filters streamed_from
  streamed_from-IsStreamed [] e = (f.zero, inl (e, refl), handle_events-from s (up.events f.zero))
  streamed_from-IsStreamed (c ∷ cs) e = of_read (f.from_json (c ∷ cs)) (ap f.from_json e)
    where
      there : f.query_filters q ≢ []
      there nil = cc

      of_read :
          (r : Result F)
          → f.from_json (f.query_filters q) ≡ r
          → IsStreamed (
              streamed_from f up s
                (elim r [ ok fa ↦ json fa | err x ↦ failure 400 x | panic ↦ crash ]))
      of_read (ok fa) h = (fa, inr (there, h), handle_events-from s (up.events fa))
      of_read (err x) h = (refl, there, h)
      of_read panic h = (there, h)

  endpoint-Shows : (e : Endpoint) → Shows e (endpoint_answer f up s q e)
  unfolding endpoint_answer handle_version handle_containers_list handle_container_inspect
      handle_not_found
  endpoint-Shows ping = tt
  endpoint-Shows version = replies _ _ (λ v. refl) up.server_version
  endpoint-Shows containers_list =
      replies _ _ (exposed-IsListed s) (up.container_list (f.query_all q))
  endpoint-Shows container_inspect = replies _ _ (λ c. refl) (up.container_inspect (f.param_id q))
  endpoint-Shows events = streamed_from-IsStreamed (f.query_filters q) refl
  endpoint-Shows unhandled = refl

-- Where the framework picks a route of the proxy for a request, the proxy answers, and it answers
-- by that route: a list has exactly the daemon's containers that the proxy exposes, and an
-- inspection the daemon's container, both with their labels filtered; every streamed event is what
-- the proxy shows of one that the daemon has sent for the filters of the query; the version is the
-- daemon's; an error of the daemon has status 500, filters that cannot be read 400, and what has no
-- handler 404.
pub serve-Shows :
    {Q F V R : Type 0} (f : Framework Q F) (up : Upstream V F R) (s : DockerProxyServer) (q : Q)
    (e : Endpoint)
    → f.picks q routes ≡ some e
    → (a : Answer V R) × (serve f up s q ≡ some a) × Shows f up s q e a
unfolding serve
serve-Shows f up s q e h = (
  endpoint_answer f up s q e,
  ap (λ o. elim o [ none ↦ none | some x ↦ some (endpoint_answer f up s q x) ]) h,
  endpoint-Shows f up s q e,
)
