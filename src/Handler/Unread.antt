-- ===== src/Handler/Unread.antt =====
-- The handler on a daemon that cannot be read: no search of the run finds a container.
use traefik_kop.Prelude.{
  ℕ, ◌<◌, ◌*◌, ◌&&◌, ◌≡◌, ◌≢◌, refl, sym, ap, ◌∙◌, subst, Bool, true, false, Option, none, some,
  List, [], ◌∷◌, ltb, arith, if◌then◌else◌,
}
use traefik_kop.Prelude.Result.{Result, ok, err, panic}
use traefik_kop.Prelude.Exec.{Exec, pure, lift, gets, modify, attempt, ◌>>=◌}
use traefik_kop.Prelude.Exec.Rules.{
  Keeps, Keeps-pure, Keeps-lift, Keeps-gets, Keeps-wrap, Keeps-bind, Fails, Fails-bind,
}
use traefik_kop.Prelude.Exec.Ends.{Calm, Calm-pure, Calm-wrap, Calm-bind}
use traefik_kop.Text.{Str}
use traefik_kop.Docker.Types.{Container}
use traefik_kop.Docker.Cache.{
  Daemon, DockerCache, forget_expired, inspect_all, list_containers, populate,
  find_container_by_service_name,
}
use traefik_kop.Docker.Cache.Settled.{IsIdempotent}
use traefik_kop.Namespace.Filter.{Answers}
use traefik_kop.Namespace.Sections.{has_maps}
use traefik_kop.Config.{Config}
use traefik_kop.Dynamic.{Configuration}
use traefik_kop.Kv.Under.{IsNamed}
use traefik_kop.Redis.Laws.{Laws}
use traefik_kop.Store.{Deps, RedisStore, World}
use traefik_kop.Handler.{new_cache, create_config_handler}
use traefik_kop.Handler.Publish.{AllTrimmed, IsPublished, handle_config-publishes}
use traefik_kop.Handler.Cached.{in_details, create_config_handler-publishes}

-- The client of the daemon returns a reply or an error.
pub record IsCalm (daemon : Daemon) : Type 0 where
  pub list_calm : daemon.container_list ≢ panic
  pub inspect_calm : (id : Str) → daemon.container_inspect id ≢ panic

-- the cache has never been filled
abbrev Unfilled : DockerCache → Type 0
Unfilled dc = dc.expires ≡ 0

known_or-Keeps :
    (o : Option Container) (r : Result Container)
    → Keeps Unfilled (elim o [ some c ↦ pure c | none ↦ lift r ])
known_or-Keeps none r = Keeps-lift r
known_or-Keeps (some c) r = Keeps-pure c

known_or-Calm :
    (o : Option Container) (r : Result Container)
    → r ≢ panic
    → Calm {S = DockerCache} (elim o [ some c ↦ pure c | none ↦ lift r ])
unfolding lift
known_or-Calm none r h = record { at = λ s. h }
known_or-Calm (some c) r h = Calm-pure c

module _ (d : Daemon) where
  inspect_all-Keeps : (l : List Str) → Keeps Unfilled (inspect_all d l)
  unfolding inspect_all modify
  inspect_all-Keeps [] = Keeps-pure tt
  inspect_all-Keeps (id ∷ l) = Keeps-bind _ _ (Keeps-gets _) (λ known.
      Keeps-bind _ _ (Keeps-wrap _ _ (known_or-Keeps known (d.container_inspect id)))
        (λ c. Keeps-bind _ _ (record { at = λ dc h. h }) (λ _. inspect_all-Keeps l)))

  list_containers-Keeps : (o : Option (List Str)) → Keeps Unfilled (list_containers d o)
  unfolding list_containers modify
  list_containers-Keeps (some l) = Keeps-pure l
  list_containers-Keeps none =
      Keeps-bind _ _ (Keeps-wrap _ _ (Keeps-lift _))
        (λ l. Keeps-bind _ _ (record { at = λ dc h. h }) (λ _. Keeps-pure l))

  forget_expired-Keeps : (now : ℕ) → Keeps Unfilled (modify (forget_expired now))
  unfolding modify forget_expired
  forget_expired-Keeps now = record { at = λ dc h. either_way (ltb dc.expires now) dc h }
    where
      either_way :
          (b : Bool) (dc : DockerCache)
          → dc.expires ≡ 0
          → (if b then record dc { list = none; details = [] } else dc).expires ≡ 0
      either_way true dc h = h
      either_way false dc h = h

  -- what fails does not fill the cache
  populate-Fails : (now later : ℕ) → Fails Unfilled (populate d now later) Unfilled
  unfolding populate modify
  populate-Fails now later = Fails-bind _ _ (forget_expired-Keeps now) (λ _.
      Fails-bind _ _ (Keeps-gets _) (λ known. Fails-bind _ _ (list_containers-Keeps known) (λ l.
        Fails-bind _ _ (inspect_all-Keeps l) (λ _. record { at = λ dc h n. absurd (n tt refl) }))))

  module _ (calm : IsCalm d) where
    inspect_all-Calm : (l : List Str) → Calm (inspect_all d l)
    unfolding inspect_all modify gets
    inspect_all-Calm [] = Calm-pure tt
    inspect_all-Calm (id ∷ l) =
        Calm-bind _ _ (record { at = λ s e. cc })
          (λ known.
            Calm-bind _ _ (Calm-wrap _ _ (known_or-Calm known _ (calm.inspect_calm id)))
              (λ c. Calm-bind _ _ (record { at = λ s e. cc }) (λ _. inspect_all-Calm l)))

    list_containers-Calm : (o : Option (List Str)) → Calm (list_containers d o)
    unfolding list_containers modify lift
    list_containers-Calm (some l) = Calm-pure l
    list_containers-Calm none =
        Calm-bind _ _ (Calm-wrap _ _ (record { at = λ s. calm.list_calm }))
          (λ l. Calm-bind _ _ (record { at = λ s e. cc }) (λ _. Calm-pure l))

    populate-Calm : (now later : ℕ) → Calm (populate d now later)
    unfolding populate modify gets
    populate-Calm now later =
        Calm-bind _ _ (record { at = λ s e. cc })
          (λ _.
            Calm-bind _ _ (record { at = λ s e. cc })
              (λ known.
                Calm-bind _ _ (list_containers-Calm known)
                  (λ l. Calm-bind _ _ (inspect_all-Calm l) (λ _. record { at = λ s e. cc }))))

-- what the containers say, where they have been read
abbrev seen_of :
    Result (Unit {0}) → (Str → Str → Str → Option Container) → Str → Str → Str → Option Container
seen_of (ok a) f = f
seen_of (err e) f = λ type service router. none
seen_of panic f = λ type service router. none

-- The container that a run of the handler sees for a service or a router: the one that a first
-- reading of the daemon has for it, and none where the daemon cannot be read.
abbrev pub seen : Daemon → ℕ → Str → Str → Str → Option Container
seen daemon t = seen_of (populate daemon t t new_cache).0 (in_details daemon t)

failed_find :
    {S A B : Type 0} (m : Exec S A) (f : A → Exec S B) (s : S) (e : Str)
    → (m s).0 ≡ err e
    → (attempt (m >>= f) s) ≡ (ok none, (m s).1)
unfolding attempt ◌>>=◌
failed_find m f s e h = rw h refl

module _ (d : Daemon) (t : ℕ) (begun : 0 < t) (e : Str)
    (fails : (populate d t t new_cache).0 ≡ err e) where
  forget_expired-Unfilled : (dc : DockerCache) → Unfilled dc → forget_expired t dc ≡ new_cache
  unfolding forget_expired new_cache
  forget_expired-Unfilled dc h =
      let late : ltb dc.expires t ≡ true = ground arith in
      rw late (ap (λ x. record { list = none; details = []; expires = x }) h)

  populate-again : (dc : DockerCache) → Unfilled dc → populate d t t dc ≡ populate d t t new_cache
  unfolding populate modify ◌>>=◌ new_cache
  populate-again dc h =
      let fresh = forget_expired-Unfilled new_cache refl in
      rw (forget_expired-Unfilled dc h, fresh) refl

  unread-Answers :
      Answers (find_container_by_service_name d t t) Unfilled (λ type service router. none)
  unfolding find_container_by_service_name
  unread-Answers type service router = record {
    at = λ dc h.
        let same = populate-again dc h in
        let failed : (populate d t t dc).0 ≡ err e = ap (λ p. p.0) same ∙ fails in
        let ends = failed_find (populate d t t) _ dc e failed in
        (
          ap (λ p. p.0) ends,
          subst Unfilled (sym (ap (λ p. p.1) ends)) ((populate-Fails d t t).at dc h (λ a done. cc)),
        );
  }

module _ {R : Type 0} (d : Deps R) (zero_rest : R) (config : Config) (use_bind_port_ip : Bool)
    (daemon : Daemon) (conf : Configuration R) (s : RedisStore) (now : ℕ) (w : World d)
    (laws : Laws d.redis) (idempotent : IsIdempotent daemon.lower_other) (calm : IsCalm daemon)
    (begun : 0 < now) (maps : has_maps conf.http && (has_maps conf.tcp && has_maps conf.udp) ≡ true)
    (named : (c : Configuration R) → IsNamed (d.fields_of c))
    (done : (create_config_handler d zero_rest config use_bind_port_ip daemon s now conf w).0
      ≡ ok tt) where
  abbrev time : ℕ
  time = now * 1_000_000_000

  abbrev Published : Result (Unit {0}) → Type 0
  Published r =
      (out : Configuration R) × AllTrimmed config.namespace (seen_of r (in_details daemon time))
        conf out
      × IsPublished d s now out
          (create_config_handler d zero_rest config use_bind_port_ip daemon s now conf w).1.1

  populate-Published :
      (r : Result (Unit {0})) → (populate daemon time time new_cache).0 ≡ r → Published r
  unfolding create_config_handler new_cache
  populate-Published (ok a) e =
      create_config_handler-publishes d zero_rest config use_bind_port_ip daemon conf s now w laws
        idempotent e maps named done
  populate-Published (err x) e =
      handle_config-publishes (find_container_by_service_name daemon time time) d zero_rest config
        use_bind_port_ip Unfilled (λ type service router. none) conf s now new_cache w laws
        (unread-Answers daemon time (omega arith) x e) refl maps named done
  populate-Published panic e = absurd ((populate-Calm daemon calm time time).at new_cache e)

  -- With any daemon, a run that ends without a panic has published what its own reading of the
  -- daemon keeps.
  pub create_config_handler-seen :
      (out : Configuration R) × AllTrimmed config.namespace (seen daemon time) conf out
      × IsPublished d s now out
          (create_config_handler d zero_rest config use_bind_port_ip daemon s now conf w).1.1
  create_config_handler-seen = populate-Published (populate daemon time time new_cache).0 refl
