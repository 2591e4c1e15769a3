-- ===== src/Cli/Interface.antt =====
-- bin/traefik-kop/main.go: which address of an interface `GetInterfaceIP` returns.
use traefik_kop.Prelude.{
  ◌≡◌, ◌⊎◌, inl, inr, refl, ap, true, false, Option, none, some, List, [], ◌∷◌, ◌++◌, arith,
  Bool-cases, Option-cases,
}
use traefik_kop.Cli.Address.{Ip, Addr, ip_of, is_loopback, to_4, usable, first_of, first_ipv4}

-- An address has no IP, or it is one of the machine itself, or not one of IPv4.
abbrev pub IsSkipped : Addr → Type 0
IsSkipped a = (x : Ip) → ip_of a ≡ some x → (is_loopback x ≡ true) ⊎ (to_4 x ≡ none)

abbrev pub AllSkipped : List Addr → Type 0
AllSkipped [] = Unit
AllSkipped (a ∷ l) = IsSkipped a × AllSkipped l

-- The IPv4 address is that of the first address in the list that is not skipped.
abbrev pub IsFirst : List Addr → Ip → Type 0
IsFirst l ip =
    (before : List Addr) × (a : Addr) × (after : List Addr) × (x : Ip) × (l ≡ before ++ (a ∷ after))
    × AllSkipped before
    × (ip_of a ≡ some x)
    × (is_loopback x ≡ false)
    × (to_4 x ≡ some ip)

usable-some :
    (o : Option Ip) (ip : Ip)
    → usable o ≡ some ip
    → (x : Ip) × (o ≡ some x) × (is_loopback x ≡ false) × (to_4 x ≡ some ip)
unfolding usable
usable-some none ip h = cc
usable-some (some x) ip h = (x, refl, ground arith, ground arith)

usable-none :
    (o : Option Ip) (x : Ip)
    → usable o ≡ none
    → o ≡ some x
    → (is_loopback x ≡ true) ⊎ (to_4 x ≡ none)
unfolding usable
usable-none none x h e = cc
usable-none (some y) x h e = elim (Bool-cases (is_loopback y)) [
  | inl l ↦ inl (ground arith)
  | inr l ↦ inr (ground arith)
]

-- `GetInterfaceIP` returns the IPv4 address of the first address of the interface that has one and
-- is not of the machine itself; and where it returns none, no address of the interface is like
-- that.
pub first_ipv4-cases :
    (l : List Addr)
    → ((ip : Ip) × (first_ipv4 l ≡ some ip) × IsFirst l ip) ⊎ ((first_ipv4 l ≡ none) × AllSkipped l)
unfolding first_ipv4 first_of
first_ipv4-cases [] = inr (refl, tt)
first_ipv4-cases (a ∷ l) = elim (Option-cases (usable (ip_of a))) [
  | inr (ip, e) ↦
      let (x, q, out, four) = usable-some (ip_of a) ip e in
      inl (ip, rw e, ([], a, l, x, refl, tt, q, out, four))
  | inl e ↦ elim (first_ipv4-cases l) [
    | inl (ip, found, (before, b, after, x, split, skipped, q, out, four)) ↦ inl (
      ip,
      rw (e, found),
      (
        a ∷ before,
        b,
        after,
        x,
        ap (λ r. a ∷ r) split,
        ((λ y h. usable-none (ip_of a) y e h), skipped),
        q,
        out,
        four,
      ),
    )
    | inr (missing, skipped) ↦
        inr (rw (e, missing), ((λ y h. usable-none (ip_of a) y e h), skipped))
  ]
]
