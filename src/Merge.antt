-- ===== src/Merge.antt =====
-- traefik_kop.go: `mergeLoadBalancers` and `mergeGenericLoadBalancers`, which add the servers that
-- the store has for a service.
pub mod Keys
pub mod Services
pub mod Ends
pub mod Across
use traefik_kop.Prelude.{
  Bool, true, false, not, ◌&&◌, ◌||◌, Option, none, some, List, [], ◌∷◌, ◌++◌, map, if◌then◌else◌,
}
use traefik_kop.Prelude.Result.{Result, ok, err, panic}
use traefik_kop.Prelude.Exec.{Exec, pure, lift, attempt, ◌>>=◌}
use traefik_kop.Text.{Str, str, str_eq, elem}
use traefik_kop.Text.Dict.{Dict, text_at}
use traefik_kop.Dynamic.{Server, StreamServer, LoadBalancer, Service, Section, Configuration}
use traefik_kop.Docker.Types.{Container}
use traefik_kop.Docker.Names.{strip_docker}
use traefik_kop.Namespace.{get_router_of_service}
use traefik_kop.Proxy.{parse_bool}

-- `merge, _ = strconv.ParseBool(labels[key])`
unfoldable pub is_set : Str → Dict Str → Bool
is_set key labels = elim (parse_bool (text_at key labels)) [ none ↦ false | some b ↦ b ]

unfoldable pub is_merged : Dict Str → Bool
is_merged labels = is_set (str "kop.merge-lbs") labels || is_set (str "traefik.merge-lbs") labels

-- the pattern of the servers of a service in the store
unfoldable pub store_key : Str → Str → Str
store_key type service =
    str "traefik/"
    ++ (type
        ++ (str "/services/"
            ++ (strip_docker service
                ++ (str "/loadBalancer/servers/*/"
                    ++ (if str_eq type (str "http") then str "url" else str "address")))))

-- a set of keys, each once
unfoldable pub add_key : Str → List Str → List Str
add_key k set = if elem k set then set else k ∷ set

unfoldable pub stored_keys : Dict Str → List Str → List Str
stored_keys [] set = set
stored_keys ((key, v) ∷ rest) set = stored_keys rest (add_key v set)

-- `s` is the type of the servers, with their URL or address
module _ {S : Type 0} (get_key : S → Str) where
  unfoldable pub own_keys : List S → List Str → List Str
  own_keys [] set = set
  own_keys (s ∷ rest) set =
      own_keys rest (if str_eq (get_key s) [] then set else add_key (get_key s) set)

  unfoldable pub merged_servers : (Str → S) → Dict Str → List S → List S
  merged_servers make_server existing servers =
      map make_server (own_keys servers (stored_keys existing []))

module _ {R S : Type 0} (get_key : S → Str) (make_server : Str → S) where
  -- what the servers of the store make of a service: nothing where they could not be read, where
  -- there are none, and where the service has no load balancer
  unfoldable pub merge_with : Option (Dict Str) → Service R S → Service R S
  merge_with none svc = svc
  merge_with (some []) svc = svc
  merge_with (some (x ∷ xs)) svc = elim svc.load_balancer [
    | none ↦ svc
    | some b ↦ record svc {
      load_balancer =
          some (record b { servers = merged_servers get_key make_server (x ∷ xs) b.servers });
    }
  ]

  module _ {C : Type 0} (find : Str → Str → Str → Exec C Container) (gets : Str → Exec C (Dict Str))
      (conf : Configuration R) (type : Str) where
    unfoldable pub merge_found : Option Container → Str → Service R S → Exec C (Service R S)
    merge_found none name svc = pure svc
    merge_found (some c) name svc =
        if is_merged c.labels
        then (attempt (gets (store_key type name)) >>= λ existing. pure (merge_with existing svc))
        else pure svc

    -- the loop of `mergeGenericLoadBalancers` over the services
    unfoldable pub merge_services : Dict (Service R S) → Exec C (Dict (Service R S))
    merge_services [] = pure []
    merge_services ((name, svc) ∷ rest) = do
      router ← lift (get_router_of_service conf name type)
      o ← attempt (find type name router)
      merged ← merge_found o name svc
      others ← merge_services rest
      pure ((name, merged) ∷ others)

    -- `mergeGenericLoadBalancers`; a section that is a nil pointer is not a nil interface, and
    -- reading through it panics
    unfoldable pub merge_section : Option (Section R S) → Exec C (Option (Section R S))
    merge_section none = lift panic
    merge_section (some s) = do
      services ← merge_services s.services
      pure (some (record s { services = services }))

-- `mergeLoadBalancers`; `rest` is the zero value of what else a server has
module _ {C R : Type 0} (find : Str → Str → Str → Exec C Container) (gets : Str → Exec C (Dict Str))
    (zero_rest : R) where
  unfoldable pub make_url_server : Str → Server R
  make_url_server url = record { url = url; scheme = []; port = []; rest = zero_rest }

  unfoldable pub make_stream_server : Str → StreamServer R
  make_stream_server address = record { address = address; port = []; rest = zero_rest }

  unfoldable pub merge_load_balancers : Configuration R → Exec C (Configuration R)
  merge_load_balancers conf = do
    http ←
        merge_section (λ (s : Server R). s.url) make_url_server find gets conf (str "http")
          conf.http
    tcp ←
        merge_section (λ (s : StreamServer R). s.address) make_stream_server find gets conf
          (str "tcp") conf.tcp
    udp ←
        merge_section (λ (s : StreamServer R). s.address) make_stream_server find gets conf
          (str "udp") conf.udp
    pure (record conf { http = http; tcp = tcp; udp = udp })
