-- ===== src/Text/Decimal.antt =====
-- `strconv.FormatUint(n, 10)` and `strconv.FormatInt(n, 10)`.
use traefik_kop.Prelude.{ℕ, zero, suc, ◌+◌, ◌/◌, ◌%◌, [], ◌∷◌, if◌then◌else◌, ltb}
use traefik_kop.Text.{Str}
use traefik_kop.Int64.{ℤ, pos, negsuc}

-- The digits of `n` in front of `acc`; `n + 1` rounds are more than the digits of `n`.
unfoldable pub digits : ℕ → ℕ → Str → Str
digits zero n acc = acc
digits (suc fuel) n acc =
    let rest = digits fuel (n / 10) ((48 + n % 10) ∷ acc) in
    if ltb n 10 then (48 + n) ∷ acc else rest

unfoldable pub format_uint : ℕ → Str
unfolding digits
format_uint n = digits (suc n) n []

unfoldable pub format_int : ℤ → Str
unfolding format_uint
format_int (pos n) = format_uint n
format_int (negsuc n) = b'-' ∷ format_uint (suc n)
