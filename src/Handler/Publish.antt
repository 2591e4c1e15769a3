-- ===== src/Handler/Publish.antt =====
-- What a run of the handler has published when it ends without a panic.
use traefik_kop.Prelude.{
  ℕ, ◌≡◌, refl, sym, ap, ◌∙◌, subst, not, Bool, true, false, ◌&&◌, Option, none, some, List, arith,
  ◌↔◌, if◌then◌else◌,
}
use traefik_kop.Prelude.Result.{ok}
use traefik_kop.Prelude.Exec.{Exec, pure, attempt}
use traefik_kop.Prelude.Exec.Rules.{Yields, Yields-bind}
use traefik_kop.Prelude.Exec.Returns.{Returns}
use traefik_kop.Prelude.Exec.Gives.{Gives, Gives-pure, Gives-bind, ok-injective}
use traefik_kop.Text.{Str, str, elem}
use traefik_kop.Text.Dict.{Dict, lookup, keys, has, elem-keys, has-lookup, has-some}
use traefik_kop.Dynamic.{Router, Section, Configuration}
use traefik_kop.Docker.Types.{Container}
use traefik_kop.Config.{Config}
use traefik_kop.Kv.Under.{IsNamed}
use traefik_kop.Kv.Walk.{config_to_kv}
use traefik_kop.Namespace.{filter_services}
use traefik_kop.Namespace.Filter.{Answers}
use traefik_kop.Namespace.Kept.{IsOurs, IsOurService, filtered-KeepsOurs}
use traefik_kop.Namespace.Sections.{has_maps, IsFiltered, filter_services-IsFiltered}
use traefik_kop.Addresses.Http.{replace_ips}
use traefik_kop.Store.{Deps, RedisStore, World, store, sentinel}
use traefik_kop.Store.Publish.{item, store-publishes}
use traefik_kop.Redis.Laws.{Laws}
use traefik_kop.Text.Decimal.{format_uint}
use traefik_kop.Handler.{on_first, on_second, must, search, replace_unless, prepared, handle_config}
use traefik_kop.Handler.Names.{
  SameSection, SameSection-refl, SameSection-trans, SameNames, replace_ips-same,
  merge_load_balancers-same,
}

keys-has :
    {V W : Type 0} (name : Str) (m : Dict V) (n : Dict W)
    → keys n ≡ keys m
    → has name n ≡ has name m
keys-has name m n h = sym (elem-keys name n) ∙ ap (elem name) h ∙ elem-keys name m

module _ {R S : Type 0} where
  -- One section with the names of the services and with the routers whose containers are not found
  -- or are kept, and with its middlewares.
  abbrev pub IsTrimmed :
      List Str
      → (Str → Str → Str → Option Container)
      → Str
      → Option (Section R S)
      → Option (Section R S)
      → Type 0
  IsTrimmed ns answer type none none = Unit
  IsTrimmed ns answer type (some s) (some t) =
      ((name : Str)
        → (has name t.services ≡ true)
          ↔ ((has name s.services ≡ true) × IsOurService ns answer type s name))
      × ((name : Str) (r : Router R)
          → (lookup name t.routers ≡ some r)
            ↔ ((lookup name s.routers ≡ some r) × IsOurs ns (answer type r.service name)))
      × (t.middlewares ≡ s.middlewares)
  IsTrimmed ns answer type none (some t) = ⊥
  IsTrimmed ns answer type (some s) none = ⊥

  trim-section :
      (ns : List Str) (answer : Str → Str → Str → Option Container) (type : Str)
      (a b c : Option (Section R S))
      → IsFiltered ns answer type a b
      → SameSection b c
      → IsTrimmed ns answer type a c
  trim-section ns answer type none none none h k = tt
  trim-section ns answer type (some a) (some b) (some c) h (k1, k2, k3) =
      let (services, routers, same) = filtered-KeepsOurs ns answer type (some a) (some b) h in
      (
        λ name. (
          λ e.
              let there = sym (keys-has name b.services c.services k1) ∙ e in
              let (v, found) = has-some name b.services there in
              let (before, ours) = (services name v).0 found in
              (has-lookup name a.services v before, ours),
          λ u.
              let (v, found) = has-some name a.services u.0 in
              keys-has name b.services c.services k1
              ∙ has-lookup name b.services v ((services name v).1 (found, u.1)),
        ),
        λ name r. (
          λ e. (routers name r).0 (sym (ap (lookup name) k2) ∙ e),
          λ u. ap (lookup name) k2 ∙ (routers name r).1 u,
        ),
        k3 ∙ same,
      )
  trim-section ns answer type none none (some c) h k = k
  trim-section ns answer type none (some b) c h k = absurd h
  trim-section ns answer type (some a) none c h k = absurd h
  trim-section ns answer type (some a) (some b) none h k = k

module _ {C W A : Type 0} (P : C → Type 0) where
  pub on_first-Returns :
      (m : Exec C A) (a : Option A)
      → Returns P (attempt m) a
      → Returns (λ (s : C × W). P s.0) (attempt (on_first m)) a
  unfolding attempt on_first
  on_first-Returns m a r = record { at = λ s h. r.at s.0 h }

module _ {R : Type 0} where
  abbrev pub AllTrimmed :
      List Str → (Str → Str → Str → Option Container) → Configuration R → Configuration R → Type 0
  AllTrimmed ns answer conf out =
      IsTrimmed ns answer (str "http") conf.http out.http
      × IsTrimmed ns answer (str "tcp") conf.tcp out.tcp
      × IsTrimmed ns answer (str "udp") conf.udp out.udp
      × (out.rest ≡ conf.rest)

  abbrev AllFiltered :
      List Str → (Str → Str → Str → Option Container) → Configuration R → Configuration R → Type 0
  AllFiltered ns answer conf out =
      IsFiltered ns answer (str "http") conf.http out.http
      × IsFiltered ns answer (str "tcp") conf.tcp out.tcp
      × IsFiltered ns answer (str "udp") conf.udp out.udp
      × (out.rest ≡ conf.rest)

  trim :
      (ns : List Str) (answer : Str → Str → Str → Option Container) (a b c : Configuration R)
      → AllFiltered ns answer a b
      → SameNames b c
      → AllTrimmed ns answer a c
  trim ns answer a b c (h1, h2, h3, h4) (k1, k2, k3, k4) = (
    trim-section ns answer (str "http") a.http b.http c.http h1 k1,
    trim-section ns answer (str "tcp") a.tcp b.tcp c.tcp h2 k2,
    trim-section ns answer (str "udp") a.udp b.udp c.udp h3 k3,
    k4 ∙ h4,
  )

  SameNames-trans : (a b c : Configuration R) → SameNames a b → SameNames b c → SameNames a c
  SameNames-trans a b c (h1, h2, h3, h4) (k1, k2, k3, k4) = (
    SameSection-trans a.http b.http c.http h1 k1,
    SameSection-trans a.tcp b.tcp c.tcp h2 k2,
    SameSection-trans a.udp b.udp c.udp h3 k3,
    k4 ∙ h4,
  )

module _ {R : Type 0} (d : Deps R) where
  -- The server holds each key of the configuration's flattening with its text and the TTL, and the
  -- time under the sentinel; the store remembers the configuration.
  abbrev pub IsPublished : RedisStore → ℕ → Configuration R → World d → Type 0
  IsPublished s now out w =
      (kv : Dict Str) × (config_to_kv d.directive (d.fields_of out) ≡ ok kv)
      × ((key v : Str) → lookup key kv ≡ some v → d.redis.view w.server key ≡ item v s.ttl)
      × (d.redis.view w.server (sentinel s) ≡ item (format_uint now) s.ttl)
      × (w.last_config ≡ some out)

must-ok : {S A : Type 0} (m : Exec S A) (s : S) (a : A) → (must m s).0 ≡ ok a → (m s).0 ≡ ok a
unfolding must
must-ok m s a h = ground arith

module _ {C R : Type 0} (find : Str → Str → Str → Exec C Container) (d : Deps R) (zero_rest : R)
    (config : Config) (use_bind_port_ip : Bool) where
  replace_unless-same :
      (conf : Configuration R)
      → Gives (replace_unless find d config use_bind_port_ip conf) (SameNames conf)
  unfolding replace_unless
  replace_unless-same conf = either_way (not use_bind_port_ip && not config.skip_replace)
    where
      either_way :
          (b : Bool)
          → Gives
              (if b then replace_ips (search find d) conf config.bind_ip else pure conf)
              (SameNames conf)
      either_way true = replace_ips-same (search find d) conf config.bind_ip
      either_way false =
          Gives-pure conf
            (SameSection-refl conf.http, SameSection-refl conf.tcp, SameSection-refl conf.udp, refl)

  module _ (P : C → Type 0) (answer : Str → Str → Str → Option Container)
      (answers : Answers find P answer) (conf : Configuration R)
      (maps : has_maps conf.http && (has_maps conf.tcp && has_maps conf.udp) ≡ true) where
    search-Answers : Answers (search find d) (λ s. P s.0) answer
    unfolding search
    search-Answers type service router =
        on_first-Returns P (find type service router) _ (answers type service router)

    filter-Yields :
        Yields
          (λ (s : C × World d). P s.0)
          (filter_services (search find d) config.namespace conf)
          (λ out s. AllFiltered config.namespace answer conf out)
    filter-Yields = record {
      at = λ s p out e.
          let (kept, q, http, tcp, udp, rest) =
            filter_services-IsFiltered (search find d) (λ s. P s.0) answer config.namespace conf s
              search-Answers p maps in
          subst (AllFiltered config.namespace answer conf) (ok-injective (sym q ∙ e))
            (http, tcp, udp, rest);
    }

    pub prepared-Yields :
        Yields
          (λ (s : C × World d). P s.0)
          (prepared find d zero_rest config use_bind_port_ip conf)
          (λ out s. AllTrimmed config.namespace answer conf out)
    unfolding prepared
    prepared-Yields = Yields-bind _ _ filter-Yields (λ kept. record {
      at = λ s all out e. trim config.namespace answer conf kept out all (
          (Gives-bind _ _ (replace_unless-same kept) (λ replaced same. record {
            at = λ t b q.
                SameNames-trans kept replaced b same
                  ((merge_load_balancers-same _ _ zero_rest replaced).at t b q);
          })).at
            s out e);
    })

    store-Yields :
        (laws : Laws d.redis) (s : RedisStore) (now : ℕ)
        → ((c : Configuration R) → IsNamed (d.fields_of c))
        → (out : Configuration R)
        → Yields
            (λ (t : C × World d). AllTrimmed config.namespace answer conf out)
            (must (on_second (store d s now out)))
            (λ u t.
              (out : Configuration R) × AllTrimmed config.namespace answer conf out
              × IsPublished d s now out t.1)
    unfolding on_second must
    store-Yields laws s now named out = record {
      at = λ t all u e. (
        out,
        all,
        store-publishes d laws s now out t.1 (named out)
            (must-ok (on_second (store d s now out)) t u e),
      );
    }

-- Where each search has an answer, a run of the handler that ends without a panic has published one
-- configuration, for the server holds each key of its flattening with its text and the TTL, and the
-- time under the sentinel, and the store remembers it. Its services are, by their names, those of
-- the given configuration whose container is not found or is kept; so are its routers, and its
-- middlewares are the given ones. (A map has each key once, and a configuration is a struct without
-- embedded fields.)
pub handle_config-publishes :
    {C R : Type 0} (find : Str → Str → Str → Exec C Container) (d : Deps R) (zero_rest : R)
    (config : Config) (use_bind_port_ip : Bool) (P : C → Type 0)
    (answer : Str → Str → Str → Option Container) (conf : Configuration R) (s : RedisStore)
    (now : ℕ) (c : C) (w : World d)
    → Laws d.redis
    → Answers find P answer
    → P c
    → has_maps conf.http && (has_maps conf.tcp && has_maps conf.udp) ≡ true
    → ((c : Configuration R) → IsNamed (d.fields_of c))
    → (handle_config find d zero_rest config use_bind_port_ip s now conf (c, w)).0 ≡ ok tt
    → (out : Configuration R) × AllTrimmed config.namespace answer conf out
      × IsPublished d s now out
          (handle_config find d zero_rest config use_bind_port_ip s now conf (c, w)).1.1
unfolding handle_config
handle_config-publishes find d zero_rest config use_bind_port_ip P answer conf s now c w laws
      answers p maps named h =
    (Yields-bind _ _
        (prepared-Yields find d zero_rest config use_bind_port_ip P answer answers conf maps)
        (λ out.
          store-Yields find d zero_rest config use_bind_port_ip P answer answers conf maps laws s
            now named out)).at
      (c, w) p tt h
