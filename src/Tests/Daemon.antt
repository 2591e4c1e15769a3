-- ===== src/Tests/Daemon.antt =====
-- A docker daemon with two containers.
use traefik_kop.Prelude.{none, some, [], ◌∷◌, if◌then◌else◌}
use traefik_kop.Prelude.Exec.{pure, lift, gets, modify, ◌>>=◌, wrap, attempt}
use traefik_kop.Prelude.Result.{ok, err}
use traefik_kop.Text
use traefik_kop.Text.{Str, str, str_eq}
use traefik_kop.Text.Dict
use traefik_kop.Docker.Types.{Container}
use traefik_kop.Docker.Names.{strip_docker}
use traefik_kop.Docker.Cache
use traefik_kop.Docker.Cache.{Daemon, DockerCache}

abbrev pub web : Container
web = record {
  id = str "c1";
  name = str "/web";
  labels =
      (str "traefik.http.services.app.loadBalancer.server.port", str "80")
      ∷ (str "kop.namespace", str "prod, staging")
      ∷ [];
  network_settings = some (record {
    ports = (str "80/tcp", record { host_port = str "32768" } ∷ []) ∷ [];
    networks = [];
  });
  host_config =
      some (record { port_bindings = (str "80/tcp", record { host_port = str "0" } ∷ []) ∷ [] });
}

-- as `web`, with labels that spell the service with an upper-case letter
abbrev pub web_upper : Container
web_upper = record web {
  labels = (str "traefik.http.services.App.loadbalancer.server.port", str "80") ∷ [];
}

abbrev pub daemon_of : Container → Daemon
daemon_of c = record {
  container_list = ok (str "c1" ∷ []);
  container_inspect = λ id. if str_eq id (str "c1") then ok c else err (str "no such container");
  lower_other = λ c. 0;
}

abbrev pub down : Daemon
down = record (daemon_of web) {
  container_list = err (str "connection refused");
  container_inspect = λ id. err (str "connection refused");
}

abbrev pub cold : DockerCache
cold = record { list = none; details = []; expires = 0 }

-- Opening this runs the cache.
unfoldable pub running : Unit {0}
unfolding pure lift gets modify ◌>>=◌ wrap attempt str Text.str_eq Text.elem Text.has_prefix
    Text.trim_suffix Text.to_lower Dict.lookup Dict.insert Dict.has strip_docker Cache.lower_keys
    Cache.normalize Cache.wrapped Cache.forget_expired Cache.inspect_all Cache.list_containers
    Cache.populate Cache.service_needle Cache.router_needle Cache.label_matches Cache.any_label
    Cache.search_details Cache.not_found Cache.found Cache.find_container_by_service_name
running = tt
