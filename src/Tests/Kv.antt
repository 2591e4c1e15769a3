-- ===== src/Tests/Kv.antt =====
-- The flattening of small configurations.
use traefik_kop.Prelude.{◌≡◌, refl, false, none, [], ◌∷◌, if◌then◌else◌}
use traefik_kop.Prelude.Result.{ok}
use traefik_kop.Text.{Str, str, has_prefix}
use traefik_kop.Text.Dict
use traefik_kop.Text.Dict.{Dict}
use traefik_kop.Kv.Value.{
  string_key, pointer, struct, map_of, Fields, no_field, field, no_entry, entry,
}
use traefik_kop.Kv.Walk.{new_kv, walk_typed_value, config_to_kv}
use traefik_kop.Kv.Listing.{Listed, listing, add_all, some_listed, walk-eq-listing}
use traefik_kop.Kv.Keys.{last_text, lookup-config_to_kv}
use traefik_kop.Prelude.Result.{◌>>=◌}
use traefik_kop.Tests.Examples.{tagged, text_field, directive}
use traefik_kop.Tests.Run.{opened}

-- a router with an empty TLS section, which its tag allows
abbrev secure : Fields
secure =
    field (tagged (str "HTTP") (str "http,omitempty") [])
      (pointer (
        struct (
          field (tagged (str "Routers") (str "routers,omitempty") [])
            (map_of string_key (
              entry (str "web@docker")
                (pointer (
                  struct (
                    text_field (str "Rule") (str "rule,omitempty") (str "Host(`a`)") (
                      field (tagged (str "TLS") (str "tls,omitempty") (str "allowEmpty"))
                        (pointer (
                          struct
                            (text_field (str "Options") (str "options,omitempty") [] no_field)))
                        no_field))))
                no_entry))
            no_field)))
      no_field

abbrev flat : Dict Str
flat =
    (str "traefik/http/routers/web/rule", str "Host(`a`)")
    ∷ (str "traefik/http/routers/web/tls", str "true")
    ∷ []

flattens : config_to_kv directive secure ≡ ok flat
unfolding opened
flattens = refl

walk-eq-listing_example :
    walk_typed_value directive new_kv (str "traefik") (struct secure) false ≡ (
      listing (str "traefik") (struct secure) false >>= λ l.
      ok (add_all directive l new_kv, some_listed l))
walk-eq-listing_example = walk-eq-listing directive new_kv (str "traefik") (struct secure) false

lookup-config_to_kv_example :
    (l : Listed) × (listing (str "traefik") (struct secure) false ≡ ok l)
    × ((k : Str)
        → Dict.lookup k flat
          ≡ (if has_prefix (str "traefik/tls/") k then none else last_text directive k l))
lookup-config_to_kv_example = lookup-config_to_kv directive secure flattens
