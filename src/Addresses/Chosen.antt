-- ===== src/Addresses/Chosen.antt =====
-- traefik_kop.go: which port `getContainerPort` gives to a service.
use traefik_kop.Prelude.{
  ◌≡◌, ◌≢◌, ◌↔◌, ◌⊎◌, inl, inr, refl, subst, Bool, true, false, not, Option, none, some, List, [],
  ◌∷◌, ◌++◌, arith, Bool-cases, if◌then◌else◌,
}
use traefik_kop.Prelude.Result.{Result, ok, err, panic}
use traefik_kop.Text.{Str, str, str_eq}
use traefik_kop.Text.Equality.{eq_iff, nonempty}
use traefik_kop.Text.Dict.{Dict, lookup, text_at}
use traefik_kop.Docker.Names.{strip_docker}
use traefik_kop.Docker.Types.{Binding, NetworkSettings, HostConfig, Container}
use traefik_kop.Docker.Ports.{
  is_bound, first_bound, bindings_at, runtime_ports, configured_ports, port_key, is_port_set,
  get_service_port_binding, get_port_binding,
}
use traefik_kop.Docker.Ports.Sole.{
  IsUnused, IsSole, unused, used, get_port_binding_iff, IsSole-nonempty,
}
use traefik_kop.Addresses.{or_else, single_port, port_in}

abbrev pub NoneUsed : List Binding → Type 0
NoneUsed [] = Unit
NoneUsed (b ∷ bs) = IsUnused b.host_port × NoneUsed bs

-- the first host port of some bindings that stands for a port
abbrev pub IsFirstUsed : Str → List Binding → Type 0
IsFirstUsed p [] = ⊥
IsFirstUsed p (b ∷ bs) =
    ((p ≡ b.host_port) × (b.host_port ≢ []) × (b.host_port ≢ str "0"))
    ⊎ (IsUnused b.host_port × IsFirstUsed p bs)

-- the bindings of a key, none where it is missing
abbrev listed_at : Option (List Binding) → List Binding
listed_at none = []
listed_at (some bs) = bs

-- what docker reports of a running container, and what it was started with
abbrev pub at_runtime : Container → Str → List Binding
at_runtime c key = elim c.network_settings [ none ↦ [] | some n ↦ listed_at (lookup key n.ports) ]

abbrev pub at_start : Container → Str → List Binding
at_start c key = elim c.host_config [ none ↦ [] | some h ↦ listed_at (lookup key h.port_bindings) ]

-- the port of the label for a service
abbrev pub label_port : Container → Str → Str → Str
label_port c type service =
    text_at
      (str "traefik."
        ++ (type
            ++ (str ".services." ++ (strip_docker service ++ str ".loadbalancer.server.port"))))
      c.labels

-- the key of the bindings: the label's port, or else traefik's, with the protocol
abbrev pub IsKey : Str → Str → Str → Str → Type 0
IsKey label type port key =
    (wanted : Str) × (((label ≢ []) × (wanted ≡ label)) ⊎ ((label ≡ []) × (wanted ≡ port)))
    × (((type ≡ str "udp") × (key ≡ wanted ++ str "/udp"))
        ⊎ ((type ≢ str "udp") × (key ≡ wanted ++ str "/tcp")))

-- the single binding of a container, or traefik's port where there is none
abbrev pub IsSoleOr : Container → Str → Str → Type 0
IsSoleOr c port p = IsSole c p ⊎ ((p ≡ port) × ((q : Str) → IsSole c q → ⊥))

-- The port is the first of four that there is: one that docker reports for the running container,
-- one that it was started with, the label's, and the single binding or else traefik's.
abbrev pub IsChosen : Container → Str → Str → Str → Str → Str → Type 0
IsChosen c label type port key p =
    IsFirstUsed p (at_runtime c key)
    ⊎ (NoneUsed (at_runtime c key) × IsFirstUsed p (at_start c key))
    ⊎ (NoneUsed (at_runtime c key)
        × NoneUsed (at_start c key)
        × (((label ≢ []) × (p ≡ label)) ⊎ ((label ≡ []) × IsSoleOr c port p)))

-- a host port is the first of some bindings that is used, or there is none
abbrev IsFirstOrNone : List Binding → Str → Type 0
IsFirstOrNone bs g = (IsFirstUsed g bs × (g ≢ [])) ⊎ (NoneUsed bs × (g ≡ []))

first_bound_step :
    (b : Binding) (bs : List Binding) (g : Str)
    → is_bound b.host_port ≡ false
    → IsFirstOrNone bs g
    → IsFirstOrNone (b ∷ bs) g
first_bound_step b bs g e (inl (first, there)) = inl (inr (unused b.host_port e, first), there)
first_bound_step b bs g e (inr (nothing, nil)) = inr ((unused b.host_port e, nothing), nil)

first_bound-cases : (bs : List Binding) → IsFirstOrNone bs (first_bound bs)
unfolding first_bound
first_bound-cases [] = inr (tt, refl)
first_bound-cases (b ∷ bs) = elim (Bool-cases (is_bound b.host_port)) [
  | inl e ↦
      let (there, other) = used b.host_port e in
      let same : b.host_port ≡ first_bound (b ∷ bs) = ground arith in
      subst (IsFirstOrNone (b ∷ bs)) same (inl (inl (refl, there, other), there))
  | inr e ↦
      let same : first_bound bs ≡ first_bound (b ∷ bs) = ground arith in
      subst (IsFirstOrNone (b ∷ bs)) same (first_bound_step b bs _ e (first_bound-cases bs))
]

-- the search of one list of bindings, then of another
abbrev bound_in : List Binding → List Binding → Str
bound_in rs qs = if str_eq (first_bound rs) [] then first_bound qs else first_bound rs

abbrev BoundIn : List Binding → List Binding → Str → Type 0
BoundIn rs qs g =
    ((g ≢ []) × (IsFirstUsed g rs ⊎ (NoneUsed rs × IsFirstUsed g qs)))
    ⊎ ((g ≡ []) × NoneUsed rs × NoneUsed qs)

bound_in-cases : (rs qs : List Binding) → BoundIn rs qs (bound_in rs qs)
bound_in-cases rs qs = elim (first_bound-cases rs) [
  | inl (first, there) ↦
      let e : str_eq (first_bound rs) [] ≡ false = ground (arith, eq_iff (first_bound rs) []) in
      rw e (inl (there, inl first))
  | inr (nothing, nil) ↦
      let e : str_eq (first_bound rs) [] ≡ true = (eq_iff (first_bound rs) []).1 nil in
      rw e (elim (first_bound-cases qs) [
        | inl (first, there) ↦ inl (there, inr (nothing, first))
        | inr (neither, nil) ↦ inr (nil, nothing, neither)
      ])
]

listed-same : (key : Str) (m : Dict (List Binding)) → bindings_at key m ≡ listed_at (lookup key m)
unfolding bindings_at
listed-same key m = of_found (lookup key m)
  where
    of_found : (o : Option (List Binding)) → (elim o [ none ↦ [] | some bs ↦ bs ]) ≡ listed_at o
    of_found none = refl
    of_found (some bs) = refl

runtime-same : (c : Container) (key : Str) → bindings_at key (runtime_ports c) ≡ at_runtime c key
unfolding runtime_ports bindings_at lookup
runtime-same c key = of_settings c.network_settings
  where
    of_settings :
        (o : Option NetworkSettings)
        → bindings_at key (elim o [ none ↦ [] | some n ↦ n.ports ])
          ≡ elim o [ none ↦ [] | some n ↦ listed_at (lookup key n.ports) ]
    of_settings none = refl
    of_settings (some n) = listed-same key n.ports

start-same : (c : Container) (key : Str) → bindings_at key (configured_ports c) ≡ at_start c key
unfolding configured_ports bindings_at lookup
start-same c key = of_host c.host_config
  where
    of_host :
        (o : Option HostConfig)
        → bindings_at key (elim o [ none ↦ [] | some h ↦ h.port_bindings ])
          ≡ elim o [ none ↦ [] | some h ↦ listed_at (lookup key h.port_bindings) ]
    of_host none = refl
    of_host (some h) = listed-same key h.port_bindings

service_port-BoundIn :
    (c : Container) (type port : Str)
    → BoundIn
        (at_runtime c (port_key type port))
        (at_start c (port_key type port))
        (get_service_port_binding c type port)
unfolding get_service_port_binding
service_port-BoundIn c type port =
    let key = port_key type port in
    let rs = bindings_at key (runtime_ports c) in
    let qs = bindings_at key (configured_ports c) in
    let found = bound_in rs qs in
    subst (λ l. BoundIn l (at_start c key) found) (runtime-same c key)
      (subst (λ l. BoundIn rs l found) (start-same c key) (bound_in-cases rs qs))

wanted-IsKey : (label type port : Str) → IsKey label type port (port_key type (or_else label port))
unfolding port_key or_else str
wanted-IsKey label type port = (
  or_else label port,
  of_label label,
  of_type (str_eq type (str "udp")) (eq_iff type (str "udp")),
)
  where
    of_label : (l : Str) → ((l ≢ []) × (or_else l port ≡ l)) ⊎ ((l ≡ []) × (or_else l port ≡ port))
    of_label [] = inr (refl, refl)
    of_label (c ∷ cs) = inl (λ e. cc, refl)

    of_type :
        (b : Bool)
        → (b ≡ true) ↔ (type ≡ str "udp")
        → ((type ≡ str "udp")
            × (or_else label port ++ (str "/" ++ (if b then str "udp" else str "tcp"))
                ≡ or_else label port ++ str "/udp"))
          ⊎ ((type ≢ str "udp")
              × (or_else label port ++ (str "/" ++ (if b then str "udp" else str "tcp"))
                  ≡ or_else label port ++ str "/tcp"))
    of_type true (f, g) = inl (f refl, refl)
    of_type false (f, g) = inr (λ e. let no = g e in cc, refl)

single_port-IsSoleOr :
    (c : Container) (r : Result Str) (port p : Str)
    → ((q : Str) → (r ≡ ok q) ↔ IsSole c q)
    → single_port port r ≡ ok p
    → IsSoleOr c port p
unfolding single_port or_else
single_port-IsSoleOr c (ok []) port p sole h = absurd (IsSole-nonempty c [] ((sole []).0 refl) refl)
single_port-IsSoleOr c (ok (x ∷ xs)) port p sole h = inl ((sole p).0 (ground arith))
single_port-IsSoleOr c (err e) port p sole h =
    inr (ground arith, λ q only. let no = (sole q).1 only in cc)
single_port-IsSoleOr c panic port p sole h = cc

chosen-label :
    (c : Container) (label port : Str) (r : Result Str) (p : Str)
    → ((q : Str) → (r ≡ ok q) ↔ IsSole c q)
    → (if not (str_eq label []) then ok label else single_port port r) ≡ ok p
    → ((label ≢ []) × (p ≡ label)) ⊎ ((label ≡ []) × IsSoleOr c port p)
chosen-label c label port r p sole h = elim (Bool-cases (str_eq label [])) [
  | inl e ↦ inr ((eq_iff label []).0 e, single_port-IsSoleOr c r port p sole (ground arith))
  | inr e ↦ inl (nonempty e, ground arith)
]

chosen :
    (c : Container) (rs qs : List Binding) (bound label port : Str) (r : Result Str) (p : Str)
    → ((q : Str) → (r ≡ ok q) ↔ IsSole c q)
    → BoundIn rs qs bound
    → (if not (str_eq bound [])
        then ok bound
        else if not (str_eq label [])
        then ok label
        else single_port port r)
      ≡ ok p
    → IsFirstUsed p rs
      ⊎ (NoneUsed rs × IsFirstUsed p qs)
      ⊎ (NoneUsed rs
          × NoneUsed qs
          × (((label ≢ []) × (p ≡ label)) ⊎ ((label ≡ []) × IsSoleOr c port p)))
chosen c rs qs bound label port r p sole (inl (there, which)) h =
    let same : bound ≡ p = ground (arith, eq_iff bound []) in
    elim which [
      | inl first ↦ inl (subst (λ g. IsFirstUsed g rs) same first)
      | inr (nothing, first) ↦ inr (inl (nothing, subst (λ g. IsFirstUsed g qs) same first))
    ]
chosen c rs qs bound label port r p sole (inr (nil, nothing, neither)) h =
    inr
      (inr (nothing, neither, chosen-label c label port r p sole (ground (arith, eq_iff bound []))))

-- Where a found container gives a port, it is the first of these that there is: the first host
-- port, neither empty nor 0, that docker reports under the port of the label, or under traefik's
-- where no label is set, with the protocol of the service; the first such port that the container
-- was started with under the same key; the label's port; the container's single binding; and the
-- port that traefik had. (The single binding is the only one that the container was started with,
-- where its port is neither empty nor 0; where none is set, it is the first of the only port that
-- docker reports, unless it is empty.)
pub port_in-IsChosen :
    (c : Container) (type service port p : Str)
    → port_in c type service port ≡ ok p
    → (key : Str) × IsKey (label_port c type service) type port key
      × IsChosen c (label_port c type service) type port key p
unfolding port_in is_port_set
port_in-IsChosen c type service port p h =
    let label = label_port c type service in
    let at = or_else label port in
    (
      port_key type at,
      wanted-IsKey label type port,
      chosen c _ _ _ label port (get_port_binding c) p (get_port_binding_iff c)
          (service_port-BoundIn c type at) h,
    )
