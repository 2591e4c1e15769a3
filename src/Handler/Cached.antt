-- ===== src/Handler/Cached.antt =====
-- The handler on its own cache: the searches of one run answer what its first `populate` has read.
use traefik_kop.Prelude.{
  ℕ, ◌*◌, ◌≡◌, ◌⊎◌, inl, inr, refl, sym, ap, subst, ◌∙◌, Bool, true, ◌&&◌, Option, arith,
}
use traefik_kop.Prelude.Result.{ok}
use traefik_kop.Prelude.Exec.{lift, gets, attempt, ◌>>=◌}
use traefik_kop.Prelude.Exec.Rules.{bind_ok}
use traefik_kop.Text.{Str}
use traefik_kop.Text.Dict.{Dict, lookup}
use traefik_kop.Dynamic.{Configuration}
use traefik_kop.Config.{Config}
use traefik_kop.Kv.Under.{IsNamed}
use traefik_kop.Docker.Types.{Container}
use traefik_kop.Docker.Names.{strip_docker}
use traefik_kop.Docker.Cache.{
  Daemon, DockerCache, search_details, found, populate, find_container_by_service_name,
}
use traefik_kop.Docker.Cache.Fresh.{populate-IsCovered}
use traefik_kop.Docker.Cache.Answers.{IsSettled, IsFresh, attempt-found, find-Answers}
use traefik_kop.Docker.Cache.Settled.{IsIdempotent, populate-AllSettled}
use traefik_kop.Namespace.Filter.{Answers}
use traefik_kop.Namespace.Sections.{has_maps}
use traefik_kop.Redis.Laws.{Laws}
use traefik_kop.Store.{Deps, RedisStore, World}
use traefik_kop.Handler.{new_cache, create_config_handler}
use traefik_kop.Handler.Publish.{AllTrimmed, IsPublished, handle_config-publishes}

module _ (daemon : Daemon) (now : ℕ) where
  -- what a first `populate` reads
  abbrev pub read_details : Dict Container
  read_details = (populate daemon now now new_cache).1.details

  -- the container that these details have for a service or a router
  abbrev pub in_details : Str → Str → Str → Option Container
  in_details type service router =
      search_details type (strip_docker service) (strip_docker router) read_details

  abbrev pub BeginsOrFresh : DockerCache → Type 0
  BeginsOrFresh dc = (dc ≡ new_cache) ⊎ IsFresh read_details now dc

  module _ (idempotent : IsIdempotent daemon.lower_other)
      (reads : (populate daemon now now new_cache).0 ≡ ok tt) where
    read-IsSettled : IsSettled daemon read_details
    unfolding new_cache lookup
    read-IsSettled = (populate-AllSettled daemon idempotent now now).at new_cache (λ id c e. cc)

    read-IsFresh : IsFresh read_details now (populate daemon now now new_cache).1
    read-IsFresh =
        let (covered, expires) = populate-IsCovered daemon now now new_cache reads in
        (refl, covered, rw expires (omega arith))

    first-find :
        (type service router : Str)
        → find_container_by_service_name daemon now now type service router new_cache ≡ (
          found type (strip_docker service) (in_details type service router),
          (populate daemon now now new_cache).1,
        )
    unfolding find_container_by_service_name gets lift ◌>>=◌
    first-find type service router = bind_ok (populate daemon now now) _ new_cache tt reads

    pub cached-Answers :
        Answers (find_container_by_service_name daemon now now) BeginsOrFresh in_details
    cached-Answers type service router = record { at = λ dc h. either_way dc h }
      where
        either_way :
            (dc : DockerCache)
            → BeginsOrFresh dc
            → ((attempt (find_container_by_service_name daemon now now type service router) dc).0
                ≡ ok (in_details type service router))
              × BeginsOrFresh
                  (attempt (find_container_by_service_name daemon now now type service router) dc).1
        either_way dc (inl begins) =
            let e =
              attempt-found (find_container_by_service_name daemon now now type service router)
                new_cache (populate daemon now now new_cache).1 type (strip_docker service)
                (in_details type service router) (first-find type service router) in
            (
              ap
                    (λ c.
                      (attempt (find_container_by_service_name daemon now now type service router)
                        c).0)
                    begins
                  ∙ ap (λ p. p.0) e,
              inr (
                  subst (IsFresh read_details now)
                    (sym (
                      ap
                        (λ c.
                          (attempt
                            (find_container_by_service_name daemon now now type service router)
                            c).1)
                        begins
                      ∙ ap (λ p. p.1) e))
                    read-IsFresh),
            )
        either_way dc (inr fresh) =
            let (e, later) =
              (find-Answers daemon read_details now now read-IsSettled (omega arith) type service
                  router).at
                dc fresh in
            (e, inr later)

-- A run of the handler that ends without a panic, from an empty cache and a daemon that can be read
-- at its beginning, has published one configuration: the server holds each key of its flattening
-- with its text and the TTL, and the time under the sentinel, and the store remembers it. By their
-- names, its services are those of the given configuration for which the containers read at the
-- beginning have no match, or one that is kept; so are its routers, and its middlewares are the
-- given ones. (A container is kept that has a configured namespace, or none where none is
-- configured. Lower-casing twice is lower-casing once, a map has each key once, and a configuration
-- is a struct without embedded fields.)
pub create_config_handler-publishes :
    {R : Type 0} (d : Deps R) (zero_rest : R) (config : Config) (use_bind_port_ip : Bool)
    (daemon : Daemon) (conf : Configuration R) (s : RedisStore) (now : ℕ) (w : World d)
    → Laws d.redis
    → IsIdempotent daemon.lower_other
    → (populate daemon (now * 1_000_000_000) (now * 1_000_000_000) new_cache).0 ≡ ok tt
    → has_maps conf.http && (has_maps conf.tcp && has_maps conf.udp) ≡ true
    → ((c : Configuration R) → IsNamed (d.fields_of c))
    → (create_config_handler d zero_rest config use_bind_port_ip daemon s now conf w).0 ≡ ok tt
    → (out : Configuration R) × AllTrimmed config.namespace
        (in_details daemon (now * 1_000_000_000))
        conf
        out
      × IsPublished d s now out
          (create_config_handler d zero_rest config use_bind_port_ip daemon s now conf w).1.1
unfolding create_config_handler
create_config_handler-publishes d zero_rest config use_bind_port_ip daemon conf s now w laws
      idempotent reads maps named h =
    let t = now * 1_000_000_000 in
    handle_config-publishes (find_container_by_service_name daemon t t) d zero_rest config
      use_bind_port_ip (BeginsOrFresh daemon t) (in_details daemon t) conf s now new_cache w laws
      (cached-Answers daemon t idempotent reads) (inl refl) maps named h
