-- ===== src/Handler/Watcher.antt =====
-- configuration_watcher.go: the listener that takes the temporary default entry point away again.
use traefik_kop.Prelude.{
  ◌≡◌, ◌≢◌, ◌⊎◌, Bool, false, Option, none, some, List, [], ◌∷◌, if◌then◌else◌,
}
use traefik_kop.Text.{Str, str, str_eq}
use traefik_kop.Text.Dict.{Dict}
use traefik_kop.Dynamic.{Router, Section, Configuration}

-- `defaultEntryPoint`
unfoldable pub default_entry_point : Str
default_entry_point = str "traefik-kop-default-internal"

unfoldable pub only_default : List Str → Bool
only_default [] = false
only_default (e ∷ []) = str_eq e default_entry_point
only_default (e ∷ f ∷ rest) = false

module _ {R : Type 0} where
  unfoldable pub forget_default : Router R → Router R
  forget_default r = if only_default r.entry_points then record r { entry_points = [] } else r

  unfoldable pub forget_all : Dict (Router R) → Dict (Router R)
  forget_all [] = []
  forget_all ((name, r) ∷ rest) = (name, forget_default r) ∷ forget_all rest

  unfoldable pub forget_section : {S : Type 0} → Option (Section R S) → Option (Section R S)
  forget_section none = none
  forget_section (some s) = some (record s { routers = forget_all s.routers })

  -- the listener of `newConfigurationWatcher`
  unfoldable pub forget_defaults : Configuration R → Configuration R
  forget_defaults conf = record conf {
    http = forget_section conf.http;
    tcp = forget_section conf.tcp;
  }

  -- A router as the watcher passes it on: with the default where it has no entry point, else as it
  -- is.
  abbrev pub IsDefaulted : Router R → Router R → Type 0
  IsDefaulted r given =
      ((r.entry_points ≡ []) × (given ≡ record r { entry_points = default_entry_point ∷ [] }))
      ⊎ ((r.entry_points ≢ []) × (given ≡ r))

  -- The routers of a map, none of which names only the default itself, as the watcher passes them
  -- on.
  abbrev pub AllDefaulted : Dict (Router R) → Dict (Router R) → Type 0
  AllDefaulted [] [] = Unit
  AllDefaulted ((name, r) ∷ d) ((other, given) ∷ e) =
      (other ≡ name)
      × (only_default r.entry_points ≡ false)
      × IsDefaulted r given
      × AllDefaulted d e
  AllDefaulted [] (x ∷ e) = ⊥
  AllDefaulted (x ∷ d) [] = ⊥

  abbrev pub IsDefaultedSection :
      {S : Type 0} → Option (Section R S) → Option (Section R S) → Type 0
  IsDefaultedSection none none = Unit
  IsDefaultedSection (some s) (some t) =
      AllDefaulted s.routers t.routers × (t.services ≡ s.services) × (t.middlewares ≡ s.middlewares)
  IsDefaultedSection none (some t) = ⊥
  IsDefaultedSection (some s) none = ⊥
