-- ===== src/Tests/Providers.antt =====
-- Three providers, of which the second fails.
use traefik_kop.Prelude.{ℕ, ◌+◌, ◌≡◌, refl, [], ◌∷◌}
use traefik_kop.Prelude.Result.{Result, ok, err}
use traefik_kop.Prelude.Exec.{Exec, pure, ignore, ◌>>=◌}
use traefik_kop.Text.{str}
use traefik_kop.Providers
use traefik_kop.Providers.{Provider, new_multi_provider}

abbrev counted : Result (Unit {0}) → Exec ℕ (Unit {0})
counted r n = (r, n + 1)

abbrev good : Provider ℕ
good = record { init = counted (ok tt); provide = counted (ok tt) }

abbrev bad : Provider ℕ
bad = record { init = counted (err (str "down")); provide = counted (err (str "down")) }

abbrev multi : Provider ℕ
multi = new_multi_provider (good ∷ bad ∷ good ∷ [])

stops : multi.init 0 ≡ (err (str "down"), 2)
unfolding new_multi_provider Providers.init_all ◌>>=◌ pure
stops = refl

goes_on : multi.provide 0 ≡ (ok tt, 3)
unfolding new_multi_provider Providers.provide_all ◌>>=◌ pure ignore
goes_on = refl
