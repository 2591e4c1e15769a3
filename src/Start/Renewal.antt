-- ===== src/Start/Renewal.antt =====
-- traefik_kop.go: how often a started program renews its keys.
use traefik_kop.Prelude.{
  ℕ, ◌+◌, ◌*◌, ◌≤◌, ◌<◌, ◌≡◌, inl, inr, sym, ap, ◌∙◌, arith, Option, some, true, subst,
}
use traefik_kop.Prelude.Result.{ok}
use traefik_kop.Int64.{ℤ, pos, is_positive, seconds-pos, third-seconds}
use traefik_kop.Config.{Config}
use traefik_kop.Start.{Outside, Started, ttl_of, new_redis_store, renewal_of, start}
use traefik_kop.Start.Proxied.{start-IsStarted, start-IsProxied}

store_ttl :
    (c : Config) (n : ℕ) → c.redis_ttl ≡ pos n → n ≤ 9_223_372_036 → (new_redis_store c).ttl ≡ n
unfolding new_redis_store ttl_of
store_ttl c n e h = rw (e, seconds-pos n h) (omega arith)

-- The interval is positive, and three of them fit in the TTL, and a fourth nanosecond of each does
-- not.
abbrev pub IsThird : ℕ → Option ℤ → Type 0
IsThird n renewal =
    (d : ℕ) × (renewal ≡ some (pos d))
    × (0 < d)
    × (3 * d ≤ n * 1_000_000_000)
    × (n * 1_000_000_000 < 3 * (d + 1))

is_positive-pos : (n : ℕ) → 0 < n → is_positive (pos n) ≡ true
unfolding is_positive
is_positive-pos n p = ground arith

renewal-IsThird :
    (c : Config) (n : ℕ)
    → c.redis_ttl ≡ pos n
    → 0 < n
    → n ≤ 9_223_372_036
    → IsThird n (renewal_of c)
unfolding renewal_of
renewal-IsThird c n e p h =
    let (d, same, positive, below, lower, upper) = third-seconds n p h in
    (d, rw (e, is_positive-pos n p, same), positive, lower, upper)

-- Where the program is started with a positive TTL of at most 9223372036 seconds, whose nanoseconds
-- fit in an integer, its store has this TTL, and the ticker of its renewal gets a positive
-- interval: a third of the TTL, rounded down to nanoseconds.
pub start-renewal :
    {R Client Pool Pair : Type 0} (o : Outside R Client Pool Pair) (c : Config)
    (s : Started R Client Pool Pair) (n : ℕ)
    → start o c ≡ ok s
    → c.redis_ttl ≡ pos n
    → 0 < n
    → n ≤ 9_223_372_036
    → (s.store.ttl ≡ n) × IsThird n s.renewal
start-renewal o c s n started e p h =
    let done = start-IsStarted o c s started in
    let same : s.config.redis_ttl ≡ pos n = elim (start-IsProxied o c s started).2 [
      | inl facts ↦ ap (λ x. x.redis_ttl) facts.1 ∙ e
      | inr facts ↦ ap (λ x. x.redis_ttl) facts.1 ∙ e
    ] in
    (
      ap (λ x. x.ttl) done.9 ∙ store_ttl s.config n same h,
      subst (IsThird n) (sym done.10) (renewal-IsThird s.config n same p h),
    )
