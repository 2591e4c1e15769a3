-- ===== src/Namespace/Kept.antt =====
-- traefik_kop.go: what `filterServices` keeps, told by the namespaces of the containers.
use traefik_kop.Prelude.{
  ◌≡◌, ◌≢◌, ◌⊎◌, ◌↔◌, inl, inr, refl, sym, ap, ◌∙◌, subst, Bool, true, false, ◌&&◌, Option, none,
  some, List, [], ◌∷◌, arith, Bool-cases, if◌then◌else◌,
}
use traefik_kop.Prelude.Result.{ok}
use traefik_kop.Prelude.Exec.{Exec}
use traefik_kop.Text.{Str, str, str_eq}
use traefik_kop.Text.Equality.{eq_iff}
use traefik_kop.Text.Dict.{Dict, lookup}
use traefik_kop.Dynamic.{Router, Service, Section, Configuration}
use traefik_kop.Docker.Types.{Container}
use traefik_kop.Docker.Names.{strip_docker}
use traefik_kop.Namespace.{namespaces, kept, router_named, filter_services}
use traefik_kop.Namespace.Keep.{Shared, keep_container_iff}
use traefik_kop.Namespace.Filter.{Answers, if_kept, keeps_names, service_stays, router_stays}
use traefik_kop.Namespace.Sections.{has_maps, IsFiltered, filter_services-IsFiltered}

-- No container is found, or one without a namespace where none is configured, or one that has a
-- configured namespace.
abbrev pub IsOurs : List Str → Option Container → Type 0
IsOurs ns none = Unit
IsOurs ns (some c) = ((ns ≡ []) × (namespaces c ≡ [])) ⊎ Shared ns (namespaces c)

-- the name of the first router of a service, and the empty name where it has none
abbrev pub IsRouterOf : {R : Type 0} → Str → Dict (Router R) → Str → Type 0
IsRouterOf service [] name = name ≡ []
IsRouterOf service ((other, r) ∷ rest) name =
    ((r.service ≡ service) × (name ≡ other))
    ⊎ ((r.service ≢ service) × IsRouterOf service rest name)

module _ {R S : Type 0} (ns : List Str) (answer : Str → Str → Str → Option Container)
    (type : Str) where
  abbrev pub IsOurService : Section R S → Str → Type 0
  IsOurService s name =
      (router : Str) × IsRouterOf (strip_docker name) s.routers router
      × IsOurs ns (answer type name router)

  -- One section with exactly its services and routers whose containers are ours, and its
  -- middlewares.
  abbrev pub KeepsOurs : Option (Section R S) → Option (Section R S) → Type 0
  KeepsOurs none none = Unit
  KeepsOurs (some s) (some t) =
      ((name : Str) (v : Service R S)
        → (lookup name t.services ≡ some v)
          ↔ ((lookup name s.services ≡ some v) × IsOurService s name))
      × ((name : Str) (r : Router R)
          → (lookup name t.routers ≡ some r)
            ↔ ((lookup name s.routers ≡ some r) × IsOurs ns (answer type r.service name)))
      × (t.middlewares ≡ s.middlewares)
  KeepsOurs none (some t) = ⊥
  KeepsOurs (some s) none = ⊥

kept-IsOurs : (ns : List Str) (o : Option Container) → (kept ns o ≡ true) ↔ IsOurs ns o
unfolding kept
kept-IsOurs ns none = (λ h. tt, λ u. refl)
kept-IsOurs ns (some c) = keep_container_iff ns c

router_named-IsRouterOf :
    {R : Type 0} (service : Str) (rs : Dict (Router R))
    → IsRouterOf service rs (router_named service rs)
unfolding router_named
router_named-IsRouterOf service [] = refl
router_named-IsRouterOf service ((other, r) ∷ rs) = elim (Bool-cases (str_eq r.service service)) [
  | inl e ↦ inl ((eq_iff r.service service).0 e, rw e refl)
  | inr e ↦
      inr (λ q. ground (arith, eq_iff r.service service), rw e (router_named-IsRouterOf service rs))
]

IsRouterOf-unique :
    {R : Type 0} (service name : Str) (rs : Dict (Router R))
    → IsRouterOf service rs name
    → name ≡ router_named service rs
unfolding router_named
IsRouterOf-unique service name [] h = h
IsRouterOf-unique service name ((other, r) ∷ rs) (inl (same, e)) =
    let b : str_eq r.service service ≡ true = (eq_iff r.service service).1 same in rw b e
IsRouterOf-unique service name ((other, r) ∷ rs) (inr (apart, later)) =
    let b : str_eq r.service service ≡ false = ground (arith, eq_iff r.service service) in
    rw b (IsRouterOf-unique service name rs later)

some-injective : {V : Type 0} {v w : V} → some v ≡ some w → v ≡ w
some-injective h = cc

none-some : {V : Type 0} {v : V} → none ≢ some v
none-some h = cc

true-false : {b : Bool} → b ≡ true → b ≢ false
true-false h e = cc

if_kept_iff :
    {V : Type 0} (test : Str → V → Bool) (name : Str) (o : Option V) (v : V)
    → (if_kept test name o ≡ some v) ↔ ((o ≡ some v) × (test name v ≡ true))
unfolding if_kept
if_kept_iff test name none v = (λ e. cc, λ u. cc)
if_kept_iff test name (some w) v = elim (Bool-cases (test name w)) [
  | inl e ↦ (
    λ h.
        let same : some w ≡ some v = sym (ap (λ b. if b then some w else none) e) ∙ h in
        (same, subst (λ x. test name x ≡ true) (some-injective same) e),
    λ u. rw e u.0,
  )
  | inr e ↦ (
    λ h. absurd (none-some (sym (ap (λ b. if b then some w else none) e) ∙ h)),
    λ u. absurd (true-false (subst (λ x. test name x ≡ true) (sym (some-injective u.0)) u.1) e),
  )
]

module _ {R S : Type 0} (ns : List Str) (answer : Str → Str → Str → Option Container)
    (type : Str) where
  service_stays-IsOurService :
      (s : Section R S) (name : Str) (v : Service R S)
      → (service_stays ns answer type s name v ≡ true) ↔ IsOurService ns answer type s name
  unfolding service_stays keeps_names
  service_stays-IsOurService s name v =
      let router = router_named (strip_docker name) s.routers in
      let iff = kept-IsOurs ns (answer type name router) in
      (
        λ h. (router, router_named-IsRouterOf (strip_docker name) s.routers, iff.0 h),
        λ u.
            let (other, found, ours) = u in
            iff.1 (
              subst (λ n. IsOurs ns (answer type name n))
                (IsRouterOf-unique (strip_docker name) other s.routers found) ours),
      )

  pub filtered-KeepsOurs :
      (o t : Option (Section R S)) → IsFiltered ns answer type o t → KeepsOurs ns answer type o t
  unfolding router_stays keeps_names
  filtered-KeepsOurs none none h = tt
  filtered-KeepsOurs none (some t) h = h
  filtered-KeepsOurs (some s) none h = h
  filtered-KeepsOurs (some s) (some t) (services, routers, same) = (
    λ name v.
        let iff = if_kept_iff (service_stays ns answer type s) name (lookup name s.services) v in
        let ours = service_stays-IsOurService s name v in
        (
          λ h. let (there, stays) = iff.0 (sym (services name) ∙ h) in (there, ours.0 stays),
          λ u. services name ∙ iff.1 (u.0, ours.1 u.1),
        ),
    λ name r.
        let iff = if_kept_iff (router_stays ns answer type) name (lookup name s.routers) r in
        let ours = kept-IsOurs ns (answer type r.service name) in
        (
          λ h. let (there, stays) = iff.0 (sym (routers name) ∙ h) in (there, ours.0 stays),
          λ u. routers name ∙ iff.1 (u.0, ours.1 u.1),
        ),
    same,
  )

-- Where each search has an answer, the filter returns a configuration: in each protocol it has
-- exactly the given services, and the given routers, for which no container is found, or one
-- without a namespace where none is configured, or one that has a configured namespace; it changes
-- nothing else. The container of a service is searched with the name of its first router, that of a
-- router with its service. (Each map has each key once.)
pub filter_services-KeepsOurs :
    {C R : Type 0} (find : Str → Str → Str → Exec C Container) (P : C → Type 0)
    (answer : Str → Str → Str → Option Container) (ns : List Str) (conf : Configuration R) (c : C)
    → Answers find P answer
    → P c
    → has_maps conf.http && (has_maps conf.tcp && has_maps conf.udp) ≡ true
    → (out : Configuration R) × ((filter_services find ns conf c).0 ≡ ok out)
      × KeepsOurs ns answer (str "http") conf.http out.http
      × KeepsOurs ns answer (str "tcp") conf.tcp out.tcp
      × KeepsOurs ns answer (str "udp") conf.udp out.udp
      × (out.rest ≡ conf.rest)
filter_services-KeepsOurs find P answer ns conf c answers p maps =
    let (out, e, http, tcp, udp, rest) =
      filter_services-IsFiltered find P answer ns conf c answers p maps in
    (
      out,
      e,
      filtered-KeepsOurs ns answer (str "http") conf.http out.http http,
      filtered-KeepsOurs ns answer (str "tcp") conf.tcp out.tcp tcp,
      filtered-KeepsOurs ns answer (str "udp") conf.udp out.udp udp,
      rest,
    )
