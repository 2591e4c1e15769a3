-- ===== src/Addresses/Port.antt =====
-- traefik_kop.go: `getContainerPort` has a port for each container with a host configuration.
use traefik_kop.Prelude.{
  ◌≡◌, ◌≢◌, inl, inr, refl, Bool, true, false, not, Option, none, some, List, [], ◌∷◌, arith,
  Bool-cases, Option-cases, if◌then◌else◌,
}
use traefik_kop.Prelude.Result.{Result, ok}
use traefik_kop.Text.{Str, str_eq}
use traefik_kop.Text.Dict.{Dict}
use traefik_kop.Docker.Types.{Binding, HostConfig, Container}
use traefik_kop.Docker.Ports.{
  is_bound, runtime_ports, is_port_set, published, configured, get_service_port_binding,
  get_port_binding,
}
use traefik_kop.Addresses.{or_else, single_port, port_in, port_from}

published-total :
    (c : Container) (d : Dict (List Binding)) (port : Str)
    → (p : Str) × (single_port port (published c d) ≡ ok p)
unfolding published single_port
published-total c [] port = (port, refl)
published-total c ((k, []) ∷ []) port = (port, refl)
published-total c ((k, b ∷ bs) ∷ []) port = elim (Bool-cases (str_eq b.host_port [])) [
  | inl e ↦ (port, rw e)
  | inr e ↦ (or_else b.host_port port, rw e)
]
published-total c (x ∷ y ∷ rest) port = (port, refl)

configured-total :
    (c : Container) (d : Dict (List Binding)) (port : Str)
    → (p : Str) × (single_port port (configured c d) ≡ ok p)
unfolding configured single_port
configured-total c [] port = published-total c (runtime_ports c) port
configured-total c ((k, []) ∷ []) port = published-total c (runtime_ports c) port
configured-total c ((k, b ∷ []) ∷ []) port = elim (Bool-cases (is_bound b.host_port)) [
  | inl e ↦ (or_else b.host_port port, rw e)
  | inr e ↦ let (p, h) = published-total c (runtime_ports c) port in (p, rw e h)
]
configured-total c ((k, b ∷ b2 ∷ bs) ∷ []) port = (port, refl)
configured-total c (x ∷ y ∷ rest) port = (port, refl)

get_port_binding-some :
    (c : Container) (host : HostConfig)
    → c.host_config ≡ some host
    → get_port_binding c ≡ configured c host.port_bindings
unfolding get_port_binding
get_port_binding-some c host e = ground arith

single-total :
    (c : Container) (port : Str)
    → c.host_config ≢ none
    → (p : Str) × (single_port port (get_port_binding c) ≡ ok p)
single-total c port h = elim (Option-cases c.host_config) [
  | inl e ↦ absurd (h e)
  | inr (host, e) ↦
      let (p, q) = configured-total c host.port_bindings port in
      (p, rw (get_port_binding-some c host e) q)
]

ifs-total :
    (a b : Bool) (x y : Str) (r : Result Str) (p : Str)
    → r ≡ ok p
    → (q : Str) × ((if a then ok x else if b then ok y else r) ≡ ok q)
ifs-total true b x y r p h = (x, refl)
ifs-total false true x y r p h = (y, refl)
ifs-total false false x y r p h = (p, h)

-- A host configuration is all that a container needs to have a port.
pub port_from-total :
    (o : Option Container) (type service port : Str)
    → ((c : Container) → o ≡ some c → c.host_config ≢ none)
    → (p : Str) × (port_from o type service port ≡ ok p)
unfolding port_from port_in
port_from-total none type service port h = (port, refl)
port_from-total (some c) type service port h =
    let (p, e) = single-total c port (h c refl) in
    let explicit = is_port_set c type service in
    let bound = get_service_port_binding c type (or_else explicit port) in
    ifs-total (not (str_eq bound [])) (not (str_eq explicit [])) bound explicit _ p e
