-- ===== src/Cli/Checks.antt =====
-- bin/traefik-kop/main.go: with which flags `doStart` starts the program.
use traefik_kop.Prelude.{
  ◌≡◌, ◌≢◌, ◌⊎◌, ◌↔◌, inl, inr, refl, sym, Bool, true, false, not, ◌&&◌, ◌||◌, List, [], ◌∷◌, arith,
  Bool-cases,
}
use traefik_kop.Prelude.Result.{ok, ◌>>◌, bind_inverse}
use traefik_kop.Prelude.Exec.Gives.{ok-injective}
use traefik_kop.Text.{Str, str_eq, trim_space}
use traefik_kop.Text.Equality.{eq_iff, nonempty}
use traefik_kop.Config.{Config}
use traefik_kop.Namespace.{is_empty}
use traefik_kop.Cli.{Flags, Machine, bind_ip_of, config_of, fatal_if, check_config, do_start}

-- There is an address to bind to, sentinels are named with their master, and labels have no prefix
-- where the environment has a docker host.
abbrev pub IsStartable : Machine → Config → Type 0
IsStartable m c =
    (c.bind_ip ≢ [])
    × ((c.redis_sentinel_addrs ≡ []) ↔ (c.redis_sentinel_master ≡ []))
    × ((m.docker_host_env ≡ []) ⊎ (c.docker_prefix ≡ []))

is_empty_iff : (l : List Str) → (is_empty l ≡ true) ↔ (l ≡ [])
unfolding is_empty
is_empty_iff [] = (λ h. refl, λ h. refl)
is_empty_iff (x ∷ xs) = (λ h. cc, λ h. cc)

-- a chain of checks passes where each of them does
checks_iff :
    (a b c d : Bool) (e f g h : Str)
    → ((fatal_if a e >> (fatal_if b f >> (fatal_if c g >> fatal_if d h))) ≡ ok tt)
      ↔ (a || (b || (c || d)) ≡ false)
unfolding fatal_if
checks_iff true b c d e f g h = (λ p. cc, λ p. cc)
checks_iff false true c d e f g h = (λ p. cc, λ p. cc)
checks_iff false false true d e f g h = (λ p. cc, λ p. cc)
checks_iff false false false true e f g h = (λ p. cc, λ p. cc)
checks_iff false false false false e f g h = (λ p. refl, λ p. refl)

-- the test of `check_config`, in one
unfoldable is_refused : Machine → Config → Bool
is_refused m c =
    str_eq c.bind_ip []
    || ((not (is_empty c.redis_sentinel_addrs) && str_eq c.redis_sentinel_master [])
        || ((not (str_eq c.redis_sentinel_master []) && is_empty c.redis_sentinel_addrs)
            || (not (str_eq m.docker_host_env []) && not (str_eq c.docker_prefix []))))

passed-IsStartable : (m : Machine) (c : Config) → is_refused m c ≡ false → IsStartable m c
unfolding is_refused
passed-IsStartable m c h = (
  nonempty (ground arith),
  (
    (λ e. ground (arith, is_empty_iff c.redis_sentinel_addrs, eq_iff c.redis_sentinel_master [])),
    (λ e. ground (arith, is_empty_iff c.redis_sentinel_addrs, eq_iff c.redis_sentinel_master [])),
  ),
  elim (Bool-cases (str_eq m.docker_host_env [])) [
    | inl e ↦ inl ((eq_iff m.docker_host_env []).0 e)
    | inr e ↦ inr (ground (arith, eq_iff c.docker_prefix []))
  ],
)

IsStartable-passed : (m : Machine) (c : Config) → IsStartable m c → is_refused m c ≡ false
unfolding is_refused
IsStartable-passed m c (ip, (to, from), inl e) = ground (
  arith,
  eq_iff c.bind_ip [],
  is_empty_iff c.redis_sentinel_addrs,
  eq_iff c.redis_sentinel_master [],
  eq_iff m.docker_host_env [],
  eq_iff c.docker_prefix [],
)
IsStartable-passed m c (ip, (to, from), inr e) = ground (
  arith,
  eq_iff c.bind_ip [],
  is_empty_iff c.redis_sentinel_addrs,
  eq_iff c.redis_sentinel_master [],
  eq_iff m.docker_host_env [],
  eq_iff c.docker_prefix [],
)

check_config_iff : (m : Machine) (c : Config) → (check_config m c ≡ ok tt) ↔ IsStartable m c
unfolding check_config is_refused
check_config_iff m c = (
  (λ h. passed-IsStartable m c ((checks_iff _ _ _ _ _ _ _ _).0 h)),
  λ h. (checks_iff _ _ _ _ _ _ _ _).1 (IsStartable-passed m c h),
)

given-bind_ip :
    (m : Machine) (f : Flags)
    → trim_space f.bind_ip ≢ []
    → (config_of m f).bind_ip ≡ trim_space f.bind_ip
unfolding config_of bind_ip_of
given-bind_ip m f n = ground (arith, eq_iff (trim_space f.bind_ip) [])

-- `doStart` starts the program exactly where there is an address to bind to, sentinels are named
-- with their master and a master with sentinels, and not both DOCKER_HOST and a prefix of labels
-- are set. It starts it with the configuration of the flags, whose address is the flag's, where
-- that is given.
pub do_start_iff :
    (m : Machine) (f : Flags)
    → ((c : Config) → do_start m f ≡ ok c → c ≡ config_of m f)
      × ((do_start m f ≡ ok (config_of m f)) ↔ IsStartable m (config_of m f))
      × (trim_space f.bind_ip ≢ [] → (config_of m f).bind_ip ≡ trim_space f.bind_ip)
unfolding do_start
do_start_iff m f = (
  (λ c h.
      let (u, q, e) = bind_inverse (check_config m (config_of m f)) _ c h in sym (ok-injective e)),
  (
    (λ h.
        let (u, q, e) = bind_inverse (check_config m (config_of m f)) _ _ h in
        (check_config_iff m (config_of m f)).0 q),
    λ h. rw ((check_config_iff m (config_of m f)).1 h),
  ),
  given-bind_ip m f,
)
