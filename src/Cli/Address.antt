-- ===== src/Cli/Address.antt =====
-- `net.IP`, of which `GetInterfaceIP` uses `IsLoopback`, `To4` and `String`, and its loop.
use traefik_kop.Prelude.{
  ℕ, Bool, true, false, ◌&&◌, Option, none, some, List, [], ◌∷◌, ◌++◌, ◌==◌, if◌then◌else◌,
}
use traefik_kop.Text.{Str, str}
use traefik_kop.Text.Decimal.{format_uint}

-- the bytes of an address, in network order
abbrev pub Ip : Type 0
Ip = List ℕ

unfoldable pub all_zero : List ℕ → Bool
all_zero [] = true
all_zero (b ∷ bs) = (b == 0) && all_zero bs

-- an IPv4 address among the IPv6 ones: ten zeros, two times 255, and its bytes
unfoldable pub mapped_ipv4 : Ip → Option Ip
mapped_ipv4 (a ∷ b ∷ c ∷ d ∷ e ∷ f ∷ g ∷ h ∷ i ∷ j ∷ k ∷ l ∷ w ∷ x ∷ y ∷ z ∷ []) =
    if all_zero (a ∷ b ∷ c ∷ d ∷ e ∷ f ∷ g ∷ h ∷ i ∷ j ∷ []) && ((k == 255) && (l == 255))
    then some (w ∷ x ∷ y ∷ z ∷ [])
    else none
mapped_ipv4 other = none

-- `IP.To4`
unfoldable pub to_4 : Ip → Option Ip
to_4 (w ∷ x ∷ y ∷ z ∷ []) = some (w ∷ x ∷ y ∷ z ∷ [])
to_4 other = mapped_ipv4 other

unfoldable pub starts_127 : Ip → Bool
starts_127 [] = false
starts_127 (b ∷ bs) = b == 127

-- `::1`
unfoldable pub is_ipv6_loopback : Ip → Bool
is_ipv6_loopback (a ∷ b ∷ c ∷ d ∷ e ∷ f ∷ g ∷ h ∷ i ∷ j ∷ k ∷ l ∷ w ∷ x ∷ y ∷ z ∷ []) =
    all_zero (a ∷ b ∷ c ∷ d ∷ e ∷ f ∷ g ∷ h ∷ i ∷ j ∷ k ∷ l ∷ w ∷ x ∷ y ∷ []) && (z == 1)
is_ipv6_loopback other = false

unfoldable pub is_loopback_of : Option Ip → Ip → Bool
is_loopback_of (some ip4) ip = starts_127 ip4
is_loopback_of none ip = is_ipv6_loopback ip

-- `IP.IsLoopback`
unfoldable pub is_loopback : Ip → Bool
is_loopback ip = is_loopback_of (to_4 ip) ip

-- the numbers of an address with dots between them
unfoldable pub dotted : Ip → Str
dotted [] = []
dotted (b ∷ []) = format_uint b
dotted (b ∷ c ∷ rest) = format_uint b ++ (str "." ++ dotted (c ∷ rest))

-- `IP.String`
unfoldable pub ip_string : (Ip → Str) → Ip → Str
ip_string other ip = elim (to_4 ip) [ some ip4 ↦ dotted ip4 | none ↦ other ip ]

-- an address of an interface: of a network, of a host, or of another kind
pub data Addr : Type 0 where
  ip_net : Option Ip → Addr
  ip_addr : Option Ip → Addr
  other_addr : Addr

unfoldable pub ip_of : Addr → Option Ip
ip_of (ip_net ip) = ip
ip_of (ip_addr ip) = ip
ip_of other_addr = none

-- the IPv4 address that the loop returns at an address, unless it goes on
unfoldable pub usable : Option Ip → Option Ip
usable none = none
usable (some ip) = if is_loopback ip then none else to_4 ip

unfoldable pub first_of : Option Ip → Option Ip → Option Ip
first_of (some ip) rest = some ip
first_of none rest = rest

-- the loop of `GetInterfaceIP`
unfoldable pub first_ipv4 : List Addr → Option Ip
first_ipv4 [] = none
first_ipv4 (a ∷ rest) = first_of (usable (ip_of a)) (first_ipv4 rest)
