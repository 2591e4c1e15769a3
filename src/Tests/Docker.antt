-- ===== src/Tests/Docker.antt =====
-- The cache and the ports on a daemon with one container.
use traefik_kop.Prelude.{
  ℕ, ◌≡◌, ◌≢◌, refl, inl, true, false, none, [], ◌∷◌, arith, Bool, some, ◌∙◌, subst, if◌then◌else◌,
}
use mathlib.Core.List.{Memᴰ}
use traefik_kop.Prelude.Result.{ok}
use traefik_kop.Text.{Str, str, str_eq}
use traefik_kop.Docker.Types.{Container}
use traefik_kop.Docker.Names.{strip_docker}
use traefik_kop.Docker.Cache.{populate, find_container_by_service_name}
use traefik_kop.Docker.Cache.{normalize, search_details}
use traefik_kop.Text.Dict.{lookup}
use traefik_kop.Namespace.Filter.{Answers}
use traefik_kop.Docker.Cache.Answers.{IsSettled, IsFresh, find-Answers}
use traefik_kop.Docker.Cache.Fresh.{populate-fresh}
use traefik_kop.Docker.Cache.Upper.{is_upper, has_upper, details_upper, find-misses_upper}
use traefik_kop.Tests.Daemon.{web, web_upper, daemon_of, down, cold, running}

http : Str
http = str "http"

populates : (populate (daemon_of web) 1 2 cold).0 ≡ ok tt
unfolding running
populates = refl

populate-fresh_example :
    (populate down 3_000_000_000 3_000_000_001 (populate (daemon_of web) 1 2 cold).1).0 ≡ ok tt
populate-fresh_example =
    populate-fresh (daemon_of web) down 1 2 3_000_000_000 3_000_000_001 cold populates (omega arith)

-- while the cache is fresh, a daemon that is down is not asked
still_there : (populate down 3 4 (populate (daemon_of web) 1 2 cold).1).0 ≡ ok tt
unfolding running
still_there = refl

-- `web` as it stands in the cache
abbrev cached : Container
cached = record web {
  labels =
      (str "traefik.http.services.app.loadbalancer.server.port", str "80")
      ∷ (str "kop.namespace", str "prod, staging")
      ∷ [];
}

no_upper : (c : ℕ) → is_upper ((daemon_of web_upper).lower_other c) ≡ false
unfolding is_upper
no_upper c = refl

upper_app : has_upper (strip_docker (str "App@docker")) ≡ true
unfolding running has_upper is_upper
upper_app = refl

none_upper : details_upper cold.details ≡ false
unfolding details_upper
none_upper = refl

no_router : strip_docker [] ≡ []
unfolding running
no_router = refl

-- the service of a container whose label has an upper-case letter
find-misses_upper_example :
    (find_container_by_service_name (daemon_of web_upper) 1 2 http (str "App@docker") [] cold).0
    ≢ ok web_upper
find-misses_upper_example =
    find-misses_upper (daemon_of web_upper) no_upper 1 2 http (str "App@docker") [] cold web_upper
      none_upper (upper_app, inl no_router)

settled : IsSettled (daemon_of web) ((str "c1", cached) ∷ [])
unfolding running
settled id c h = of_id (str_eq (str "c1") id) c (one id ∙ h)
  where
    one :
        (id : Str)
        → (if str_eq (str "c1") id then some cached else none) ≡ lookup id ((str "c1", cached) ∷ [])
    one id = refl

    lower : normalize (daemon_of web).lower_other cached ≡ cached
    lower = refl

    of_id :
        (b : Bool) (c : Container)
        → (if b then some cached else none) ≡ some c
        → normalize (daemon_of web).lower_other c ≡ c
    of_id true c h = subst (λ x. normalize (daemon_of web).lower_other x ≡ x) (ground arith) lower
    of_id false c h = cc

find-Answers_example :
    Answers
      (find_container_by_service_name (daemon_of web) 1 2)
      (IsFresh ((str "c1", cached) ∷ []) 1)
      (λ type service router.
        search_details type (strip_docker service) (strip_docker router) ((str "c1", cached) ∷ []))
find-Answers_example =
    find-Answers (daemon_of web) ((str "c1", cached) ∷ []) 1 2 settled (omega arith)
