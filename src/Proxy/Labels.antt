-- ===== src/Proxy/Labels.antt =====
-- docker_proxy.go: which labels a container has behind the proxy.
use traefik_kop.Prelude.{
  ◌≡◌, ◌≢◌, refl, sym, ◌∙◌, ap, subst, true, false, Option, none, some, [], ◌∷◌, ◌++◌, arith,
  Bool-cases, inl, inr, if◌then◌else◌,
}
use traefik_kop.Text.{Str, str, str_eq, has_prefix, trim_prefix, after}
use traefik_kop.Text.Equality.{eq_iff}
use traefik_kop.Text.Prefix.{split_at_prefix, has_prefix-append}
use traefik_kop.Text.Dict.{Dict, lookup, insert, has, is_distinct, lookup-insert}
use traefik_kop.Proxy.{DockerProxyServer, enabled_by, should_expose, filter_into, filter_labels}

after-append : (p r : Str) → after p (p ++ r) ≡ some r
unfolding after
after-append [] r = refl
after-append (c ∷ cs) r = ground (arith, after-append cs r)

trim_prefix-append : (p r : Str) → trim_prefix p (p ++ r) ≡ r
unfolding trim_prefix
trim_prefix-append p r = ground (arith, after-append p r)

str_eq-append : (p a b : Str) → str_eq (p ++ a) (p ++ b) ≡ str_eq a b
unfolding str_eq
str_eq-append [] a b = refl
str_eq-append (c ∷ cs) a b = ground (arith, str_eq-append cs a b)

-- what is found, or else something other
or_found : Option Str → Option Str → Option Str
or_found none o = o
or_found (some v) o = some v

has-none : (k : Str) (m : Dict Str) → has k m ≡ false → lookup k m ≡ none
unfolding has
has-none k m h = ground arith

-- the new labels after one label
unfoldable pub put : Str → Str → Str → Dict Str → Dict Str
put p j v out =
    if has_prefix p j
    then insert (trim_prefix p j) v out
    else if has_prefix (str "traefik.") j
    then out
    else insert j v out

lookup-put_prefixed :
    (p k r v : Str) (out : Dict Str)
    → lookup k (put p (p ++ r) v out) ≡ (if str_eq (p ++ r) (p ++ k) then some v else lookup k out)
unfolding put
lookup-put_prefixed p k r v out =
    rw (has_prefix-append p r, trim_prefix-append p r, str_eq-append p r k)
      (lookup-insert r k v out)

lookup-put :
    (p k j v : Str) (out : Dict Str)
    → has_prefix (str "traefik.") k ≡ true
    → lookup k (put p j v out) ≡ (if str_eq j (p ++ k) then some v else lookup k out)
unfolding put
lookup-put p k j v out dotted = elim (Bool-cases (has_prefix p j)) [
  | inl e ↦
      let (r, q) = split_at_prefix p j e in
      subst (λ i. lookup k (put p i v out) ≡ (if str_eq i (p ++ k) then some v else lookup k out))
        (sym q) (lookup-put_prefixed p k r v out)
  | inr e ↦
      ground (arith, has_prefix-append p k, eq_iff j (p ++ k), eq_iff j k, lookup-insert j k v out)
]

found-first :
    (p k j v : Str) (rest : Dict Str) (o : Option Str)
    → has j rest ≡ false
    → or_found (lookup (p ++ k) rest) (if str_eq j (p ++ k) then some v else o)
      ≡ or_found (if str_eq j (p ++ k) then some v else lookup (p ++ k) rest) o
unfolding or_found
found-first p k j v rest o h = elim (Bool-cases (str_eq j (p ++ k))) [
  | inl e ↦
      rw (e, has-none (p ++ k) rest (subst (λ i. has i rest ≡ false) ((eq_iff j (p ++ k)).0 e) h))
  | inr e ↦ rw e
]

lookup-filter_into :
    (p k : Str) (labels out : Dict Str)
    → has_prefix (str "traefik.") k ≡ true
    → is_distinct labels ≡ true
    → lookup k (filter_into p labels out) ≡ or_found (lookup (p ++ k) labels) (lookup k out)
unfolding filter_into is_distinct lookup or_found put
lookup-filter_into p k [] out dotted distinct = refl
lookup-filter_into p k ((j, v) ∷ rest) out dotted distinct =
    lookup-filter_into p k rest (put p j v out) dotted (ground arith)
    ∙ ap (or_found (lookup (p ++ k) rest)) (lookup-put p k j v out dotted)
    ∙ found-first p k j v rest (lookup k out) (ground arith)

found-nothing : (o : Option Str) → or_found o none ≡ o
unfolding or_found
found-nothing none = refl
found-nothing (some v) = refl

dotted : has_prefix (str "traefik.") (str "traefik.enable") ≡ true
unfolding has_prefix str
dotted = refl

-- Behind a prefix, a label whose key begins with traefik. is exactly the container's label of that
-- key after the prefix.
pub lookup-filter_labels :
    (s : DockerProxyServer) (labels : Dict Str) (k : Str)
    → s.label_prefix ≢ []
    → is_distinct labels ≡ true
    → has_prefix (str "traefik.") k ≡ true
    → lookup k (filter_labels s labels) ≡ lookup (s.label_prefix ++ k) labels
unfolding filter_labels lookup
lookup-filter_labels s labels k prefixed distinct dotted =
    elim (Bool-cases (str_eq s.label_prefix [])) [
      | inl e ↦ absurd (prefixed ((eq_iff s.label_prefix []).0 e))
      | inr e ↦
          rw e (lookup-filter_into s.label_prefix k labels [] dotted distinct ∙ found-nothing _)
    ]

-- Behind a prefix, a container is exposed as its label for that under the prefix says.
pub should_expose-prefixed :
    (s : DockerProxyServer) (labels : Dict Str)
    → s.label_prefix ≢ []
    → is_distinct labels ≡ true
    → should_expose s (filter_labels s labels)
      ≡ enabled_by s.exposed_by_default (lookup (s.label_prefix ++ str "traefik.enable") labels)
unfolding should_expose
should_expose-prefixed s labels prefixed distinct =
    ap (enabled_by s.exposed_by_default)
      (lookup-filter_labels s labels (str "traefik.enable") prefixed distinct dotted)
