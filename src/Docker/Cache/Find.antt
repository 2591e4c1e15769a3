-- ===== src/Docker/Cache/Find.antt =====
-- docker.go: which container `findContainerByServiceName` finds.
use traefik_kop.Prelude.{◌≡◌, true}
use mathlib.Core.List.{Memᴰ}
use traefik_kop.Text.{Str}
use traefik_kop.Text.Dict.{Dict}
use traefik_kop.Docker.Types.{Container}
use traefik_kop.Docker.Cache.{label_matches}

-- A container carries the service or router: the key of one of its labels matches.
abbrev pub Carries : Str → Str → Str → Container → Type 0
Carries type service router c =
    (key : Str) × (v : Str) × Memᴰ (key, v) c.labels
    × (label_matches type service router key ≡ true)
