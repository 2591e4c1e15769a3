-- ===== src/Docker/Names.antt =====
-- docker.go: `stripDocker`.
use traefik_kop.Text.{Str, str, trim_suffix}

unfoldable pub strip_docker : Str → Str
strip_docker name = trim_suffix (str "@docker") name
