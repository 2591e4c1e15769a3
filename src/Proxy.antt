-- ===== src/Proxy.antt =====
-- docker_proxy.go: the proxy that filters labels by a prefix and hides containers: `createProxy`,
-- `shouldExpose`, `filterLabels`, and the handlers of lists, inspections and events.
pub mod Labels
pub mod Listed
pub mod Stream
pub mod Routes
use traefik_kop.Prelude.{
  ℕ, Bool, true, false, not, ◌&&◌, Option, none, some, List, [], ◌∷◌, ◌++◌, if◌then◌else◌,
}
use traefik_kop.Prelude.Result.{Result, ok, err, panic}
use traefik_kop.Text.{Str, str, str_eq, elem, has_prefix, has_suffix, trim_prefix}
use traefik_kop.Text.Dict.{Dict, lookup, insert}
use traefik_kop.Docker.Types.{Container}

pub record DockerProxyServer : Type 0 where
  pub label_prefix : Str
  pub exposed_by_default : Bool

-- `createProxy`
unfoldable pub create_proxy : Str → Bool → DockerProxyServer
create_proxy prefix exposed = record {
  label_prefix =
      if not (str_eq prefix []) && not (has_suffix (str ".") prefix)
      then prefix ++ str "."
      else prefix;
  exposed_by_default = exposed;
}

-- `strconv.ParseBool`
unfoldable pub parse_bool : Str → Option Bool
parse_bool s =
    if elem s (str "1" ∷ str "t" ∷ str "T" ∷ str "true" ∷ str "TRUE" ∷ str "True" ∷ [])
    then some true
    else if elem s (str "0" ∷ str "f" ∷ str "F" ∷ str "false" ∷ str "FALSE" ∷ str "False" ∷ [])
    then some false
    else none

-- what the label makes of the default
unfoldable pub enabled_by : Bool → Option Str → Bool
enabled_by enabled none = enabled
enabled_by enabled (some v) = elim (parse_bool v) [ none ↦ enabled | some b ↦ b ]

unfoldable pub should_expose : DockerProxyServer → Dict Str → Bool
should_expose s labels = enabled_by s.exposed_by_default (lookup (str "traefik.enable") labels)

-- the loop of `filterLabels`, with the new labels so far
unfoldable pub filter_into : Str → Dict Str → Dict Str → Dict Str
filter_into prefix [] out = out
filter_into prefix ((k, v) ∷ rest) out = filter_into prefix rest (
    if has_prefix prefix k
    then insert (trim_prefix prefix k) v out
    else if has_prefix (str "traefik.") k
    then out
    else insert k v out)

unfoldable pub filter_labels : DockerProxyServer → Dict Str → Dict Str
filter_labels s labels =
    if str_eq s.label_prefix [] then labels else filter_into s.label_prefix labels []

-- What a handler answers: a status with an error, or a body.
pub data Response (A : Type 0) : Type 0 where
  json : A → Response A
  failure : ℕ → Str → Response A
  crash : Response A

unfoldable pub respond : {A B : Type 0} → (A → B) → Result A → Response B
respond f (ok a) = json (f a)
respond f (err e) = failure 500 e
respond f panic = crash

-- a container in the daemon's list; `rest` is what the proxy passes on
pub record Summary (R : Type 0) : Type 0 where
  pub labels : Dict Str
  pub rest : R

-- an event of the daemon
pub record Event (R : Type 0) : Type 0 where
  pub type : Str
  pub attributes : Dict Str
  pub rest : R

-- What the loop of `handleEvents` receives: an event or the end of the errors, with whether the
-- flush that follows succeeds, or an error.
pub data Received (R : Type 0) : Type 0 where
  event : Event R → Bool → Received R
  no_error : Bool → Received R
  an_error : Str → Received R

-- what it writes
pub data Line (R : Type 0) : Type 0 where
  event_line : Event R → Line R
  error_line : Str → Line R

module _ {R : Type 0} (s : DockerProxyServer) where
  -- the loop of `handleContainersList`
  unfoldable pub exposed : List (Summary R) → List (Summary R)
  exposed [] = []
  exposed (c ∷ rest) =
      let labels = filter_labels s c.labels in
      let others = exposed rest in
      if should_expose s labels then record c { labels = labels } ∷ others else others

  unfoldable pub handle_containers_list : Result (List (Summary R)) → Response (List (Summary R))
  handle_containers_list upstream = respond exposed upstream

  unfoldable pub filtered_event : Event R → Event R
  filtered_event e =
      if str_eq e.type (str "container")
      then record e { attributes = filter_labels s e.attributes }
      else e

  -- is the filtered event one of a container that is not exposed?
  unfoldable pub is_dropped : Event R → Bool
  is_dropped e = str_eq e.type (str "container") && not (should_expose s e.attributes)

  -- the loop of `handleEvents`; a flush that fails ends it
  unfoldable pub handle_events : List (Received R) → List (Line R)
  handle_events [] = []
  handle_events (event e flushed ∷ rest) =
      let others = handle_events rest in
      if is_dropped (filtered_event e)
      then others
      else event_line (filtered_event e) ∷ (if flushed then others else [])
  handle_events (no_error flushed ∷ rest) =
      let others = handle_events rest in if flushed then others else []
  handle_events (an_error e ∷ rest) = error_line e ∷ []

-- `handleContainerInspect`
unfoldable pub handle_container_inspect : DockerProxyServer → Result Container → Response Container
handle_container_inspect s upstream =
    respond (λ (c : Container). record c { labels = filter_labels s c.labels }) upstream

-- `handleVersion`
unfoldable pub handle_version : {V : Type 0} → Result V → Response V
handle_version upstream = respond (λ v. v) upstream

-- `handleNotFound`
unfoldable pub handle_not_found : {A : Type 0} → Response A
handle_not_found = failure 404 (str "Not Found")

-- the filters that `handleEvents` asks for: none, or those of the query, where they can be read
unfoldable pub event_filters : {F : Type 0} → (Str → Result F) → F → Str → Response F
event_filters from_json zero [] = json zero
event_filters from_json zero (c ∷ cs) = elim (from_json (c ∷ cs)) [
  | ok fa ↦ json fa
  | err e ↦ failure 400 e
  | panic ↦ crash
]
