-- ===== src/Kv/Keys.antt =====
-- The keys and values that `ConfigToKV` returns, for every key.
use traefik_kop.Prelude.{
  ◌≡◌, ◌≢◌, refl, subst, ◌∙◌, Bool, true, false, not, ◌&&◌, Option, none, some, [], ◌∷◌, arith,
  ◌==◌, if◌then◌else◌,
}
use traefik_kop.Prelude.Result.{Result, ok, err, panic}
use traefik_kop.Text.{Str, str, str_eq, has_prefix}
use traefik_kop.Text.Equality.{eq_iff}
use traefik_kop.Text.Dict.{Dict, lookup, lookup-insert}
use traefik_kop.Kv.Value.{struct, Fields}
use traefik_kop.Kv.Walk.{Kv, new_kv, sprintf, add, config_to_kv}
use traefik_kop.Kv.Listing.{Listed, listing, add_all, walk-eq-listing}
use traefik_kop.Kv.Under.{Under, UnderResult, IsNamed, Under_root}

-- No character of a format is a `%`.
unfoldable pub no_percent : Str → Bool
no_percent [] = true
no_percent (c ∷ cs) = not (c == b'%') && no_percent cs

-- the first that is there
abbrev or_else : Option Str → Option Str → Option Str
or_else (some t) o = some t
or_else none o = o

module _ (directive : Str → Str) where
  -- The text that stands last in a listing under a path that prints as `k`; empty texts count for
  -- nothing.
  unfoldable pub last_text : Str → Listed → Option Str
  last_text k [] = none
  last_text k ((path, s) ∷ l) =
      or_else (last_text k l)
        (if not (str_eq s []) && str_eq (sprintf directive path) k then some s else none)

  abbrev tls_prefix : Str
  tls_prefix = str "traefik/tls/"

  base-add : (s path : Str) (kv : Kv) → (add directive s path kv).base ≡ kv.base
  unfolding add
  base-add s path kv = ground arith

  lookup-add :
      (k s path : Str) (kv : Kv)
      → kv.base ≡ []
      → lookup k (add directive s path kv).entries ≡ (
          if not (has_prefix tls_prefix k)
            && (not (str_eq s []) && str_eq (sprintf directive path) k)
          then some s
          else lookup k kv.entries)
  unfolding add str_eq
  lookup-add k s path kv h =
      rw (h, str_eq)
        (ground (
          arith,
          lookup-insert (sprintf directive path) k s kv.entries,
          eq_iff (sprintf directive path) k,
        ))

  lookup-add_all :
      (k : Str) (l : Listed) (kv : Kv)
      → kv.base ≡ []
      → lookup k (add_all directive l kv).entries ≡ (
          if has_prefix tls_prefix k
          then lookup k kv.entries
          else or_else (last_text k l) (lookup k kv.entries))
  unfolding add_all last_text
  lookup-add_all k [] kv h = ground arith
  lookup-add_all k ((path, s) ∷ l) kv h = ground (
    arith,
    lookup-add_all k l (add directive s path kv) (base-add s path kv ∙ h),
    lookup-add k s path kv h,
  )

  config_to_kv-inv :
      (conf : Fields) (r : Result Listed) {m : Dict Str}
      → listing (str "traefik") (struct conf) false ≡ r
      → config_to_kv directive conf ≡ ok m
      → (l : Listed) × (r ≡ ok l) × (m ≡ (add_all directive l new_kv).entries)
  unfolding config_to_kv
  config_to_kv-inv conf (ok l) e h =
      let w = walk-eq-listing directive new_kv (str "traefik") (struct conf) false in
      (l, refl, ground (arith, w))
  config_to_kv-inv conf (err x) e h =
      let w = walk-eq-listing directive new_kv (str "traefik") (struct conf) false in
      absurd (ground (arith, w))
  config_to_kv-inv conf panic e h =
      let w = walk-eq-listing directive new_kv (str "traefik") (struct conf) false in
      absurd (ground (arith, w))

  -- When `ConfigToKV` succeeds, so does the listing of the configuration, and a key maps to the
  -- last nonempty text that is listed under a path that prints as the key, or to nothing if there
  -- is no such path or the key starts with traefik/tls/.
  pub lookup-config_to_kv :
      (conf : Fields) {m : Dict Str}
      → config_to_kv directive conf ≡ ok m
      → (l : Listed) × (listing (str "traefik") (struct conf) false ≡ ok l)
        × ((k : Str)
            → lookup k m ≡ (if has_prefix (str "traefik/tls/") k then none else last_text k l))
  unfolding new_kv lookup
  lookup-config_to_kv conf h =
      let (l, e, p) = config_to_kv-inv conf _ refl h in
      (l, e, λ k. rw p (ground (arith, lookup-add_all k l new_kv refl)))

  -- A prefix of a format without a `%` is printed as it is.
  has_prefix-sprintf :
      (p q : Str)
      → no_percent p ≡ true
      → has_prefix p q ≡ true
      → has_prefix p (sprintf directive q) ≡ true
  unfolding no_percent has_prefix sprintf
  has_prefix-sprintf [] q n h = refl
  has_prefix-sprintf (c ∷ cs) [] n h = cc
  has_prefix-sprintf (c ∷ cs) (d ∷ ds) n h = ground (arith, has_prefix-sprintf cs ds)

  -- The conditions on a key that can be listed under a prefix without a `%`.
  last_text-Under :
      (p k : Str) (l : Listed) (v : Str)
      → no_percent p ≡ true
      → Under p l
      → last_text k l ≡ some v
      → (has_prefix p k ≡ true) × (v ≢ [])
  unfolding last_text
  last_text-Under p k [] v n u h = cc
  last_text-Under p k ((q, s) ∷ l) v n u h = ground (
    arith,
    last_text-Under p k l v n u.1,
    has_prefix-sprintf p q n u.0,
    eq_iff (sprintf directive q) k,
    eq_iff s [],
  )

  -- Where the configuration is a struct with no embedded field, every key that `ConfigToKV` returns
  -- starts with traefik/ and not with traefik/tls/, and its value is not empty.
  pub config_to_kv-keys :
      (conf : Fields) {m : Dict Str} (k : Str) {v : Str}
      → IsNamed conf
      → config_to_kv directive conf ≡ ok m
      → lookup k m ≡ some v
      → (has_prefix (str "traefik/") k ≡ true)
        × (has_prefix (str "traefik/tls/") k ≡ false)
        × (v ≢ [])
  unfolding str no_percent listing
  config_to_kv-keys conf k {v} named h found =
      let (l, e, p) = lookup-config_to_kv conf h in
      let u : Under (str "traefik/") l =
        subst (λ r. UnderResult (str "traefik/") r) e (Under_root (str "traefik") conf named) in
      let t : (has_prefix (str "traefik/tls/") k ≡ false) × (last_text k l ≡ some v) =
        ground (arith, p k) in
      let (starts, nonempty) = last_text-Under (str "traefik/") k l v refl u t.1 in
      (starts, t.0, nonempty)
