-- ===== src/Tests/Namespace.antt =====
-- The filter of namespaces on a configuration with one service.
use traefik_kop.Prelude.{
  ◌≡◌, refl, Bool, true, false, ◌&&◌, Option, none, some, List, [], ◌∷◌, if◌then◌else◌, ◌++◌,
}
use traefik_kop.Prelude.Result.{Result, ok, err}
use traefik_kop.Prelude.Exec.{Exec, lift, attempt}
use traefik_kop.Prelude.Exec.Returns.{Returns}
use traefik_kop.Text
use traefik_kop.Text.{Str, str, has_prefix}
use traefik_kop.Text.Dict
use traefik_kop.Dynamic.{Configuration}
use traefik_kop.Docker.Types.{Container}
use traefik_kop.Namespace
use traefik_kop.Namespace.{namespaces, keep_container, filter_services}
use traefik_kop.Namespace.Comma.{keep_container-comma}
use traefik_kop.Namespace.Filter.{Answers}
use traefik_kop.Namespace.Sections.{has_maps}
use traefik_kop.Namespace.Kept.{KeepsOurs, filter_services-KeepsOurs}
use traefik_kop.Tests.Examples.{Rest, two_servers}
use traefik_kop.Tests.Daemon.{web, running}

test_ns : List Str
test_ns = str "test" ∷ []

keeps_web : keep_container (str "staging" ∷ []) web ≡ true
unfolding running Namespace.keep_container Namespace.namespaces Namespace.split_string_arr
    Namespace.any_shared Namespace.is_empty Text.split Text.trim_space Text.trim_left Text.is_space
    Dict.text_at
keeps_web = refl

-- Every service and router whose name starts with app is of one container.
abbrev answer : Str → Str → Str → Option Container
answer type service router = if has_prefix (str "app") service then some web else none

abbrev find_web : Bool → Result Container
find_web true = ok web
find_web false = err (str "service label not found")

abbrev find : Str → Str → Str → Exec (Unit {0}) Container
find type service router = lift (find_web (has_prefix (str "app") service))

found-Returns :
    (b : Bool)
    → Returns
        (λ (c : Unit {0}). Unit {0})
        (attempt (lift (find_web b)))
        (if b then some web else none)
unfolding attempt lift
found-Returns true = record { at = λ s h. (refl, h) }
found-Returns false = record { at = λ s h. (refl, h) }

find-Answers : Answers find (λ _. Unit {0}) answer
find-Answers type service router = found-Returns (has_prefix (str "app") service)

maps : has_maps two_servers.http && (has_maps two_servers.tcp && has_maps two_servers.udp) ≡ true
unfolding has_maps Dict.is_distinct Dict.has Dict.lookup
maps = refl

filter_services-KeepsOurs_example :
    (out : Configuration Rest) × ((filter_services find test_ns two_servers tt).0 ≡ ok out)
    × KeepsOurs test_ns answer (str "http") two_servers.http out.http
    × KeepsOurs test_ns answer (str "tcp") two_servers.tcp out.tcp
    × KeepsOurs test_ns answer (str "udp") two_servers.udp out.udp
    × (out.rest ≡ two_servers.rest)
filter_services-KeepsOurs_example =
    filter_services-KeepsOurs find (λ _. Unit {0}) answer test_ns two_servers tt find-Answers tt
      maps

-- a list that ends with a comma
abbrev web_comma : Container
web_comma = record web { labels = (str "kop.namespace", str "prod,") ∷ [] }

ends_with_comma :
    Text.trim_space (Dict.text_at (str "kop.namespace") web_comma.labels) ≡ str "prod" ++ (44 ∷ [])
unfolding running Text.trim_space Text.trim_left Text.is_space Dict.text_at
ends_with_comma = refl

-- the namespaces of a configuration `test,`
abbrev test_comma : List Str
test_comma = str "test" ∷ [] ∷ []

has_empty : Text.elem [] test_comma ≡ true
unfolding running
has_empty = refl

keep_container-comma_example : keep_container test_comma web_comma ≡ true
keep_container-comma_example =
    keep_container-comma test_comma web_comma (str "prod") ends_with_comma has_empty
