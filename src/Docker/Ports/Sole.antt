-- ===== src/Docker/Ports/Sole.antt =====
-- docker.go: which port `getPortBinding` answers, told by the bindings alone.
use traefik_kop.Prelude.{
  ◌≡◌, ◌≢◌, ◌⊎◌, ◌↔◌, inl, inr, sym, ◌∙◌, subst, none, some, List, [], ◌∷◌, arith, Option-cases,
  Bool-cases, true, false,
}
use traefik_kop.Prelude.Result.{ok}
use traefik_kop.Text.{Str, str, str_eq}
use traefik_kop.Text.Equality.{eq_iff}
use traefik_kop.Text.Dict.{Dict}
use traefik_kop.Docker.Types.{Binding, HostConfig, Container}
use traefik_kop.Docker.Ports.{is_bound, runtime_ports, published, configured, get_port_binding}

-- A host port stands for no port where it is empty or 0.
abbrev pub IsUnused : Str → Type 0
IsUnused p = (p ≡ []) ⊎ (p ≡ str "0")

pub unused : (h : Str) → is_bound h ≡ false → IsUnused h
unfolding is_bound
unused h e = elim (Bool-cases (str_eq h [])) [
  | inl nil ↦ inl ((eq_iff h []).0 nil)
  | inr there ↦ inr ((eq_iff h (str "0")).0 (ground arith))
]

pub used : (h : Str) → is_bound h ≡ true → (h ≢ []) × (h ≢ str "0")
unfolding is_bound
used h e = (λ z. ground (arith, eq_iff h []), λ z. ground (arith, eq_iff h (str "0")))

some-injective : {V : Type 0} {v w : V} → some v ≡ some w → v ≡ w
some-injective h = cc

-- one key with one binding, whose host port stands for a port
abbrev pub IsOnly : Dict (List Binding) → Str → Type 0
IsOnly [] p = ⊥
IsOnly ((key, []) ∷ []) p = ⊥
IsOnly ((key, b ∷ []) ∷ []) p = (b.host_port ≡ p) × (p ≢ []) × (p ≢ str "0")
IsOnly ((key, b ∷ b2 ∷ bs) ∷ []) p = ⊥
IsOnly (x ∷ y ∷ rest) p = ⊥

-- one key at most, with one binding at most, whose host port stands for none
abbrev pub NoneSet : Dict (List Binding) → Type 0
NoneSet [] = Unit
NoneSet ((key, []) ∷ []) = Unit
NoneSet ((key, b ∷ []) ∷ []) = IsUnused b.host_port
NoneSet ((key, b ∷ b2 ∷ bs) ∷ []) = ⊥
NoneSet (x ∷ y ∷ rest) = ⊥

-- one key, whose first binding has a host port
abbrev pub IsFirstOfOne : Dict (List Binding) → Str → Type 0
IsFirstOfOne [] p = ⊥
IsFirstOfOne ((key, []) ∷ []) p = ⊥
IsFirstOfOne ((key, b ∷ bs) ∷ []) p = (b.host_port ≡ p) × (p ≢ [])
IsFirstOfOne (x ∷ y ∷ rest) p = ⊥

-- the ports that docker reports of a running container
abbrev pub reported : Container → Dict (List Binding)
reported c = elim c.network_settings [ none ↦ [] | some n ↦ n.ports ]

-- The single binding of a container: the only one that it was started with, or, where none is set,
-- the first of the only port that docker reports of it.
abbrev pub IsSole : Container → Str → Type 0
IsSole c p =
    (h : HostConfig) × (c.host_config ≡ some h)
    × (IsOnly h.port_bindings p ⊎ (NoneSet h.port_bindings × IsFirstOfOne (reported c) p))

published_iff :
    (c : Container) (d : Dict (List Binding)) (p : Str) → (published c d ≡ ok p) ↔ IsFirstOfOne d p
unfolding published
published_iff c [] p = (λ h. cc, λ u. absurd u)
published_iff c ((k, []) ∷ []) p = (λ h. cc, λ u. absurd u)
published_iff c ((k, b ∷ bs) ∷ []) p = (
  λ h. (ground (arith, eq_iff b.host_port []), λ z. ground (arith, eq_iff b.host_port [])),
  λ u. let (e, there) = u in ground (arith, eq_iff b.host_port []),
)
published_iff c (x ∷ y ∷ rest) p = (λ h. cc, λ u. absurd u)

configured_iff :
    (c : Container) (d : Dict (List Binding)) (p : Str)
    → (configured c d ≡ ok p) ↔ (IsOnly d p ⊎ (NoneSet d × IsFirstOfOne (runtime_ports c) p))
unfolding configured
configured_iff c [] p =
    let (f, g) = published_iff c (runtime_ports c) p in
    (λ h. inr (tt, f h), λ u. elim u [ inl z ↦ absurd z | inr v ↦ g v.1 ])
configured_iff c ((k, []) ∷ []) p =
    let (f, g) = published_iff c (runtime_ports c) p in
    (λ h. inr (tt, f h), λ u. elim u [ inl z ↦ absurd z | inr v ↦ g v.1 ])
configured_iff c ((k, b ∷ []) ∷ []) p =
    let (f, g) = published_iff c (runtime_ports c) p in
    elim (Bool-cases (is_bound b.host_port)) [
      | inl e ↦
          let (there, other) = used b.host_port e in
          (
            λ h.
                let same : b.host_port ≡ p = ground arith in
                inl (same, subst (λ q. q ≢ []) same there, subst (λ q. q ≢ str "0") same other),
            λ u. elim u [
              | inl v ↦ ground arith
              | inr v ↦ absurd (elim v.0 [ inl z ↦ there z | inr z ↦ other z ])
            ],
          )
      | inr e ↦ (
        λ h. inr (unused b.host_port e, f (ground arith)),
        λ u. elim u [
          | inl v ↦ absurd (elim (unused b.host_port e) [
            | inl z ↦ v.1 (sym v.0 ∙ z)
            | inr z ↦ v.2 (sym v.0 ∙ z)
          ])
          | inr v ↦ let q = g v.1 in ground arith
        ],
      )
    ]
configured_iff c ((k, b ∷ b2 ∷ bs) ∷ []) p =
    (λ h. cc, λ u. elim u [ inl z ↦ absurd z | inr v ↦ absurd v.0 ])
configured_iff c (x ∷ y ∷ rest) p = (λ h. cc, λ u. elim u [ inl z ↦ absurd z | inr v ↦ absurd v.0 ])

-- `getPortBinding` answers a port exactly where the container has it as its single binding.
pub get_port_binding_iff : (c : Container) (p : Str) → (get_port_binding c ≡ ok p) ↔ IsSole c p
unfolding get_port_binding runtime_ports
get_port_binding_iff c p = elim (Option-cases c.host_config) [
  | inl e ↦ (λ h. cc, λ u. let (h, there, rest) = u in cc)
  | inr (h, e) ↦
      let (f, g) = configured_iff c h.port_bindings p in
      (
        λ r. (h, e, f (ground arith)),
        λ u.
            let (h2, there, rest) = u in
            let same : h2 ≡ h = some-injective (sym there ∙ e) in
            let again = g (
              subst
                (λ x.
                  IsOnly x.port_bindings p
                  ⊎ (NoneSet x.port_bindings × IsFirstOfOne (reported c) p))
                same rest) in
            ground arith,
      )
]

only-nonempty : (d : Dict (List Binding)) (p : Str) → IsOnly d p → p ≢ []
only-nonempty [] p h = absurd h
only-nonempty ((k, []) ∷ []) p h = absurd h
only-nonempty ((k, b ∷ []) ∷ []) p h = h.1
only-nonempty ((k, b ∷ b2 ∷ bs) ∷ []) p h = absurd h
only-nonempty (x ∷ y ∷ rest) p h = absurd h

first-nonempty : (d : Dict (List Binding)) (p : Str) → IsFirstOfOne d p → p ≢ []
first-nonempty [] p h = absurd h
first-nonempty ((k, []) ∷ []) p h = absurd h
first-nonempty ((k, b ∷ bs) ∷ []) p h = h.1
first-nonempty (x ∷ y ∷ rest) p h = absurd h

pub IsSole-nonempty : (c : Container) (p : Str) → IsSole c p → p ≢ []
IsSole-nonempty c p (h, e, inl only) = only-nonempty h.port_bindings p only
IsSole-nonempty c p (h, e, inr (nothing, first)) = first-nonempty (reported c) p first
