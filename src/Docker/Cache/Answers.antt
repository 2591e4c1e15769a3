-- ===== src/Docker/Cache/Answers.antt =====
-- docker.go: a fresh cache answers every search of `findContainerByServiceName` the same.
use traefik_kop.Prelude.{
  ℕ, ◌+◌, ◌≤◌, ◌≡◌, refl, sym, ap, ◌∙◌, subst, true, Option, none, some, List, [], ◌∷◌, arith,
}
use traefik_kop.Prelude.Result.{ok}
use traefik_kop.Prelude.Exec.{Exec, pure, lift, gets, modify, attempt, ◌>>=◌}
use traefik_kop.Prelude.Exec.Rules.{bind_ok}
use traefik_kop.Text.{Str, elem}
use traefik_kop.Text.Equality.{eq_iff, eq_refl}
use traefik_kop.Text.Dict.{Dict, lookup, insert}
use traefik_kop.Docker.Types.{Container}
use traefik_kop.Docker.Names.{strip_docker}
use traefik_kop.Docker.Cache.{
  Daemon, DockerCache, normalize, five_seconds, inspect_all, list_containers, search_details, found,
  populate, find_container_by_service_name,
}
use traefik_kop.Docker.Cache.Covers.{Holds, IsCovered, inspect-step}
use traefik_kop.Docker.Cache.Fresh.{has-some, forget-fresh}
use traefik_kop.Namespace.Filter.{Answers}

insert-same : {V : Type 0} (k : Str) (v : V) (m : Dict V) → lookup k m ≡ some v → insert k v m ≡ m
unfolding lookup insert
insert-same k v [] h = cc
insert-same k v ((j, w) ∷ m) h = ground (arith, insert-same k v m, eq_iff j k)

-- The labels of the cached containers are lower-cased already.
abbrev pub IsSettled : Daemon → Dict Container → Type 0
IsSettled d details =
    (id : Str) (c : Container) → lookup id details ≡ some c → normalize d.lower_other c ≡ c

-- The cache holds these details, and it is fresh at a time.
abbrev pub IsFresh : Dict Container → ℕ → DockerCache → Type 0
IsFresh details now dc = (dc.details ≡ details) × IsCovered dc × (now ≤ dc.expires)

module _ (d : Daemon) (details : Dict Container) (settled : IsSettled d details) where
  inspect-same :
      (l : List Str) (dc : DockerCache)
      → dc.details ≡ details
      → ((id : Str) → elem id l ≡ true → Holds id dc)
      → inspect_all d l dc ≡ (ok tt, dc)
  unfolding inspect_all elem pure
  inspect-same [] dc e h = refl
  inspect-same (j ∷ l) dc e h =
      let (c, there) = has-some j dc (h j (ground (arith, eq_refl j))) in
      let same =
        ap (λ x. insert j x dc.details) (settled j c (ap (lookup j) (sym e) ∙ there))
        ∙ insert-same j c dc.details there in
      inspect-step d j l dc c there
      ∙ ap (λ m. inspect_all d l (record dc { details = m })) same
      ∙ inspect-same l dc e (λ id m. h id (ground arith))

  populate-listed :
      (now later : ℕ) (l : List Str) (dc : DockerCache)
      → dc.details ≡ details
      → ((id : Str) → elem id l ≡ true → Holds id dc)
      → now ≤ dc.expires
      → populate d now later (record dc { list = some l })
        ≡ (ok tt, record dc { list = some l; expires = later + five_seconds })
  unfolding populate ◌>>=◌ gets modify list_containers pure
  populate-listed now later l dc e all fresh =
      let same = inspect-same l (record dc { list = some l }) e all in
      rw (forget-fresh now (record dc { list = some l }) fresh) (
        bind_ok (inspect_all d l) _ (record dc { list = some l }) tt (ap (λ p. p.0) same)
        ∙ ap (λ p. (ok tt, record p.1 { expires = later + five_seconds })) same)

  populate-same :
      (now later : ℕ) (dc : DockerCache)
      → IsFresh details now dc
      → populate d now later dc ≡ (ok tt, record dc { expires = later + five_seconds })
  populate-same now later dc (e, (l, q, all), fresh) =
      subst
        (λ o.
          populate d now later (record dc { list = o })
          ≡ (ok tt, record dc { list = o; expires = later + five_seconds }))
        (sym q) (populate-listed now later l dc e all fresh)

  find-same :
      (now later : ℕ) (type service router : Str) (dc : DockerCache)
      → IsFresh details now dc
      → find_container_by_service_name d now later type service router dc ≡ (
        found type
            (strip_docker service)
            (search_details type (strip_docker service) (strip_docker router) details),
        record dc { expires = later + five_seconds },
      )
  unfolding find_container_by_service_name gets lift ◌>>=◌
  find-same now later type service router dc h =
      let same = populate-same now later dc h in
      bind_ok (populate d now later) _ dc tt (ap (λ p. p.0) same)
      ∙ ap
          (λ p. (
            found type (strip_docker service)
                (search_details type (strip_docker service) (strip_docker router) p.1.details),
            p.1,
          ))
          same
      ∙ ap
          (λ m. (
            found type (strip_docker service)
                (search_details type (strip_docker service) (strip_docker router) m),
            record dc { expires = later + five_seconds },
          ))
          h.0

pub attempt-found :
    {S : Type 0} (m : Exec S Container) (s t : S) (type service : Str) (o : Option Container)
    → m s ≡ (found type service o, t)
    → attempt m s ≡ (ok o, t)
unfolding attempt found
attempt-found m s t type service none h = rw h
attempt-found m s t type service (some c) h = rw h

-- While a cache is fresh and its labels are lower-cased, a search answers what its details say and
-- leaves it like that, whatever the daemon would say.
pub find-Answers :
    (d : Daemon) (details : Dict Container) (now later : ℕ)
    → IsSettled d details
    → now ≤ later
    → Answers
        (find_container_by_service_name d now later)
        (IsFresh details now)
        (λ type service router.
          search_details type (strip_docker service) (strip_docker router) details)
find-Answers d details now later settled order type service router = record {
  at = λ dc h.
      let o = search_details type (strip_docker service) (strip_docker router) details in
      let e =
        attempt-found (find_container_by_service_name d now later type service router) dc
          (record dc { expires = later + five_seconds }) type (strip_docker service) o
          (find-same d details settled now later type service router dc h) in
      subst (λ p. (p.0 ≡ ok o) × IsFresh details now p.1) (sym e) (refl, (h.0, h.1, omega arith));
}
