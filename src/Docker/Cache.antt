-- ===== src/Docker/Cache.antt =====
-- docker.go: the cache of containers, and the search for the container of a service or router.
pub mod Covers
pub mod Fresh
pub mod Answers
pub mod Find
pub mod Upper
pub mod Settled
use traefik_kop.Prelude.{
  ℕ, ◌+◌, Bool, true, false, not, ◌&&◌, ◌||◌, Option, none, some, List, [], ◌∷◌, ◌++◌, ltb,
  if◌then◌else◌,
}
use traefik_kop.Prelude.Result.{Result, ok, err, panic}
use traefik_kop.Prelude.Exec.{Exec, pure, lift, gets, modify, ◌>>=◌, ◌>>◌, wrap}
use traefik_kop.Text.{Str, str, str_eq, has_prefix, to_lower}
use traefik_kop.Text.Dict.{Dict, lookup, insert}
use traefik_kop.Docker.Names.{strip_docker}
use traefik_kop.Docker.Types.{Container}

-- The daemon as the client sees it at a time: the identifiers of the running containers, and the
-- description of one.
pub record Daemon : Type 0 where
  pub container_list : Result (List Str)
  pub container_inspect : Str → Result Container
  -- `unicode.ToLower` beyond ASCII
  pub lower_other : ℕ → ℕ

-- `dockerCache`; times are in nanoseconds
pub record DockerCache : Type 0 where
  pub list : Option (List Str)
  pub details : Dict Container
  pub expires : ℕ

unfoldable pub lower_keys : (ℕ → ℕ) → Dict Str → Dict Str → Dict Str
lower_keys other [] out = out
lower_keys other ((key, v) ∷ rest) out = lower_keys other rest (insert (to_lower other key) v out)

-- the labels of a container under lower-case keys
unfoldable pub normalize : (ℕ → ℕ) → Container → Container
normalize other c = record c { labels = lower_keys other c.labels [] }

unfoldable pub wrapped : Str → Str → Str
wrapped message e = message ++ (str ": " ++ e)

-- `5 * time.Second`
abbrev pub five_seconds : ℕ
five_seconds = 5_000_000_000

unfoldable pub forget_expired : ℕ → DockerCache → DockerCache
forget_expired now dc = if ltb dc.expires now then record dc { list = none; details = [] } else dc

-- The loop over the list: each container that is not in the cache is inspected, and its labels are
-- normalized in place.
unfoldable pub inspect_all : Daemon → List Str → Exec DockerCache (Unit {0})
inspect_all d [] = pure tt
inspect_all d (id ∷ rest) = do
  known ← gets (λ dc. lookup id dc.details)
  c ←
      wrap (wrapped (str "failed to inspect container " ++ id))
        (elim known [ some c ↦ pure c | none ↦ lift (d.container_inspect id) ])
  modify (λ dc. record dc { details = insert id (normalize d.lower_other c) dc.details })
  inspect_all d rest

unfoldable pub list_containers : Daemon → Option (List Str) → Exec DockerCache (List Str)
list_containers d (some l) = pure l
list_containers d none = do
  l ← wrap (wrapped (str "failed to list containers")) (lift d.container_list)
  modify (λ dc. record dc { list = some l })
  pure l

-- `populate`, which begins at `now` and ends at `later`
unfoldable pub populate : Daemon → ℕ → ℕ → Exec DockerCache (Unit {0})
populate d now later = do
  modify (forget_expired now)
  known ← gets (λ dc. dc.list)
  l ← list_containers d known
  inspect_all d l
  modify (λ dc. record dc { expires = later + five_seconds })

-- what the labels of a service or router of this type and name start with
unfoldable pub service_needle : Str → Str → Str
service_needle type name = str "traefik." ++ (type ++ (str ".services." ++ (name ++ str ".")))

unfoldable pub router_needle : Str → Str → Str
router_needle type name = str "traefik." ++ (type ++ (str ".routers." ++ (name ++ str ".")))

unfoldable pub label_matches : Str → Str → Str → Str → Bool
label_matches type service router key =
    has_prefix (service_needle type service) key
    || (not (str_eq router []) && has_prefix (router_needle type router) key)

unfoldable pub any_label : Str → Str → Str → Dict Str → Bool
any_label type service router [] = false
any_label type service router ((key, v) ∷ rest) =
    label_matches type service router key || any_label type service router rest

unfoldable pub search_details : Str → Str → Str → Dict Container → Option Container
search_details type service router [] = none
search_details type service router ((id, c) ∷ rest) =
    if any_label type service router c.labels
    then some c
    else search_details type service router rest

unfoldable pub not_found : Str → Str → Str
not_found type service = str "service label not found for " ++ (type ++ (str "/" ++ service))

unfoldable pub found : Str → Str → Option Container → Result Container
found type service none = err (not_found type service)
found type service (some c) = ok c

-- `findContainerByServiceName`
unfoldable pub find_container_by_service_name :
    Daemon → ℕ → ℕ → Str → Str → Str → Exec DockerCache Container
find_container_by_service_name d now later type service router = do
  populate d now later
  o ← gets (λ dc. search_details type (strip_docker service) (strip_docker router) dc.details)
  lift (found type (strip_docker service) o)
