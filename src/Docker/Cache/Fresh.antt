-- ===== src/Docker/Cache/Fresh.antt =====
-- docker.go: `populate` asks the daemon nothing while what it cached is fresh.
use traefik_kop.Prelude.{
  ℕ, ◌+◌, ◌≤◌, ◌≡◌, refl, true, some, List, [], ◌∷◌, arith, Option-cases, inl, inr, ap, ◌∙◌,
}
use traefik_kop.Prelude.Result.{ok}
use traefik_kop.Prelude.Exec.{pure, gets, modify, ◌>>=◌}
use traefik_kop.Prelude.Exec.Rules.{bind_ok}
use traefik_kop.Text.{Str, elem}
use traefik_kop.Text.Equality.{eq_refl}
use traefik_kop.Text.Dict.{lookup, has}
use traefik_kop.Docker.Types.{Container}
use traefik_kop.Docker.Cache.{
  Daemon, DockerCache, normalize, five_seconds, forget_expired, inspect_all, list_containers,
  populate,
}
use traefik_kop.Docker.Cache.Covers.{Holds, IsCovered, has-insert, populate-Yields, inspect-step}

pub has-some :
    (id : Str) (dc : DockerCache) → Holds id dc → (c : Container) × (lookup id dc.details ≡ some c)
unfolding has
has-some id dc h = elim (Option-cases (lookup id dc.details)) [ inl e ↦ cc | inr (c, e) ↦ (c, e) ]

-- Where every container of the list is cached, each daemon will do.
inspect-ok :
    (d : Daemon) (l : List Str) (dc : DockerCache)
    → ((id : Str) → elem id l ≡ true → Holds id dc)
    → (inspect_all d l dc).0 ≡ ok tt
unfolding inspect_all elem pure
inspect-ok d [] dc h = refl
inspect-ok d (j ∷ l) dc h =
    let (c, e) = has-some j dc (h j (ground (arith, eq_refl j))) in
    ap (λ p. p.0) (inspect-step d j l dc c e)
    ∙ inspect-ok d l _
        (λ id m. ground (arith, has-insert j id (normalize d.lower_other c) dc.details, h id))

pub forget-fresh : (now : ℕ) (dc : DockerCache) → now ≤ dc.expires → forget_expired now dc ≡ dc
unfolding forget_expired
forget-fresh now dc h = ground arith

populate-ok :
    (d : Daemon) (now later : ℕ) (dc : DockerCache)
    → IsCovered dc
    → now ≤ dc.expires
    → (populate d now later dc).0 ≡ ok tt
unfolding populate ◌>>=◌ gets modify list_containers pure
populate-ok d now later dc (l, e, all) fresh =
    rw (forget-fresh now dc fresh, e)
      (ap (λ p. p.0)
        (bind_ok (inspect_all d l) _ _ tt (inspect-ok d l (record dc { list = some l }) all)))

pub populate-IsCovered :
    (d : Daemon) (now later : ℕ) (dc : DockerCache)
    → (populate d now later dc).0 ≡ ok tt
    → IsCovered (populate d now later dc).1
      × ((populate d now later dc).1.expires ≡ later + five_seconds)
populate-IsCovered d now later dc h = (populate-Yields d now later).at dc tt tt h

-- Until five seconds after `populate` succeeded it succeeds again, whatever the daemon would
-- answer.
pub populate-fresh :
    (d other : Daemon) (now later soon after : ℕ) (dc : DockerCache)
    → (populate d now later dc).0 ≡ ok tt
    → soon ≤ later + five_seconds
    → (populate other soon after (populate d now later dc).1).0 ≡ ok tt
populate-fresh d other now later soon after dc h e =
    let (covered, expires) = populate-IsCovered d now later dc h in
    populate-ok other soon after _ covered (rw expires e)
