-- ===== src/Docker/Ports.antt =====
-- docker.go: the ports of a container: `isPortSet`, `getServicePortBinding`, `getPortBinding`.
pub mod Sole
use traefik_kop.Prelude.{
  Bool, true, false, not, ◌&&◌, Option, none, some, List, [], ◌∷◌, ◌++◌, if◌then◌else◌,
}
use traefik_kop.Prelude.Result.{Result, ok, err, panic}
use traefik_kop.Text.{Str, str, str_eq, trim_suffix, join}
use traefik_kop.Text.Dict.{Dict, lookup, text_at}
use traefik_kop.Docker.Names.{strip_docker}
use traefik_kop.Docker.Types.{Binding, Container}

-- `isPortSet`
unfoldable pub is_port_set : Container → Str → Str → Str
is_port_set c type service =
    text_at
      (str "traefik."
        ++ (type
            ++ (str ".services." ++ (strip_docker service ++ str ".loadbalancer.server.port"))))
      c.labels

-- a host port that is bound: not empty and not 0
unfoldable pub is_bound : Str → Bool
is_bound p = not (str_eq p []) && not (str_eq p (str "0"))

-- the first bound port of the bindings, or nothing
unfoldable pub first_bound : List Binding → Str
first_bound [] = []
first_bound (b ∷ bs) = if is_bound b.host_port then b.host_port else first_bound bs

-- `m[k]` where the values are slices
unfoldable pub bindings_at : Str → Dict (List Binding) → List Binding
bindings_at k m = elim (lookup k m) [ none ↦ [] | some bs ↦ bs ]

unfoldable pub runtime_ports : Container → Dict (List Binding)
runtime_ports c = elim c.network_settings [ none ↦ [] | some n ↦ n.ports ]

unfoldable pub configured_ports : Container → Dict (List Binding)
configured_ports c = elim c.host_config [ none ↦ [] | some h ↦ h.port_bindings ]

unfoldable pub port_key : Str → Str → Str
port_key type port = port ++ (str "/" ++ (if str_eq type (str "udp") then str "udp" else str "tcp"))

-- `getServicePortBinding`: the bindings at run time come before the configured ones
unfoldable pub get_service_port_binding : Container → Str → Str → Str
get_service_port_binding c type port =
    let p = first_bound (bindings_at (port_key type port) (runtime_ports c)) in
    if str_eq p [] then first_bound (bindings_at (port_key type port) (configured_ports c)) else p

unfoldable pub binding_texts : Dict (List Binding) → List Str
binding_texts [] = []
binding_texts ((k, []) ∷ rest) = binding_texts rest
binding_texts ((k, b ∷ bs) ∷ rest) =
    (b.host_port ++ (str ":" ++ trim_suffix (str "/udp") (trim_suffix (str "/tcp") k)))
    ∷ binding_texts rest

-- `portBindingString`
unfoldable pub port_binding_string : Dict (List Binding) → Str
port_binding_string bindings = join (str ", ") (binding_texts bindings)

unfoldable pub too_many : Container → Dict (List Binding) → Str
too_many c bindings =
    str "found more than one host-port binding for container '"
    ++ (c.name ++ (str "' (" ++ (port_binding_string bindings ++ str ")")))

unfoldable pub no_binding : Container → Str
no_binding c = str "no host-port binding found for container '" ++ (c.name ++ str "'")

-- the port of `--publish-all`: only where exactly one port is published
unfoldable pub published : Container → Dict (List Binding) → Result Str
published c ((k, b ∷ bs) ∷ []) =
    if str_eq b.host_port [] then err (no_binding c) else ok b.host_port
published c ((k, []) ∷ []) = err (no_binding c)
published c [] = err (no_binding c)
published c (x ∷ y ∷ rest) = err (no_binding c)

-- the loop over the configured bindings, then the published port
unfoldable pub configured : Container → Dict (List Binding) → Result Str
configured c [] = published c (runtime_ports c)
configured c ((k, []) ∷ []) = published c (runtime_ports c)
configured c ((k, b ∷ []) ∷ []) =
    if is_bound b.host_port then ok b.host_port else published c (runtime_ports c)
configured c ((k, b ∷ b2 ∷ bs) ∷ []) = err (too_many c ((k, b ∷ b2 ∷ bs) ∷ []))
configured c (x ∷ y ∷ rest) = err (too_many c (x ∷ y ∷ rest))

-- `getPortBinding`, which reads through a nil host configuration
unfoldable pub get_port_binding : Container → Result Str
get_port_binding c = elim c.host_config [ none ↦ panic | some h ↦ configured c h.port_bindings ]
