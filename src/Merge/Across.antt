-- ===== src/Merge/Across.antt =====
-- traefik_kop.go with store.go: what one instance has published reaches the services of another.
use traefik_kop.Prelude.{ℕ, ◌≡◌, refl, sym, ap, ◌∙◌, true, some, [], ◌∷◌, arith}
use traefik_kop.Prelude.Result.{ok}
use traefik_kop.Prelude.Exec.{Exec, pure, attempt}
use traefik_kop.Prelude.Exec.Rules.{bind_ok}
use traefik_kop.Prelude.Exec.Gives.{ok-injective}
use traefik_kop.Text.{Str, elem}
use traefik_kop.Text.Equality.{eq_refl}
use traefik_kop.Text.Dict.{Dict, lookup}
use traefik_kop.Dynamic.{LoadBalancer, Service, Configuration}
use traefik_kop.Docker.Types.{Container}
use traefik_kop.Kv.Under.{IsNamed}
use traefik_kop.Kv.Walk.{config_to_kv}
use traefik_kop.Redis.Laws.{Laws}
use traefik_kop.Store.{Deps, RedisStore, World, gets_matching, store}
use traefik_kop.Store.Publish.{store-publishes}
use traefik_kop.Store.Gets.{text_of, gets_matching-lookup}
use traefik_kop.Merge.{is_merged, store_key, merged_servers, merge_with, merge_found}
use traefik_kop.Merge.Keys.{values, keys_of, merged_servers-keys}

elem-values : (k v : Str) (m : Dict Str) → lookup k m ≡ some v → elem v (values m) ≡ true
unfolding lookup values elem
elem-values k v [] h = cc
elem-values k v ((j, w) ∷ m) h = ground (arith, elem-values k v m, eq_refl v)

module _ {R S : Type 0} (get_key : S → Str) where
  -- The service has a server of this key.
  abbrev pub HasServer : Str → Service R S → Type 0
  HasServer v out =
      (b : LoadBalancer R S) × (out.load_balancer ≡ some b)
      × (elem v (keys_of get_key b.servers) ≡ true)

module _ {R S : Type 0} (get_key : S → Str) (make_server : Str → S)
    (made : (k : Str) → get_key (make_server k) ≡ k) where
  merge_with-HasServer :
      (key v : Str) (kv : Dict Str) (svc : Service R S) (b : LoadBalancer R S)
      → svc.load_balancer ≡ some b
      → lookup key kv ≡ some v
      → HasServer get_key v (merge_with get_key make_server (some kv) svc)
  unfolding merge_with lookup
  merge_with-HasServer key v [] svc b h e = cc
  merge_with-HasServer key v (x ∷ xs) svc b h e = (
    record b { servers = merged_servers get_key make_server (x ∷ xs) b.servers },
    rw h refl,
    ground (
      arith,
      (merged_servers-keys get_key make_server made (x ∷ xs) b.servers v).0,
      elem-values key v (x ∷ xs),
    ),
  )

attempt-ok :
    {A C : Type 0} (m : Exec C A) (s : C) (a : A) → (m s).0 ≡ ok a → (attempt m s).0 ≡ ok (some a)
unfolding attempt
attempt-ok m s a h = rw h refl

-- Where one instance has stored a configuration without an error, and its flattening has a key that
-- the pattern of a service matches and that the server still holds when another instance merges
-- this service: if the label of the service's container asks for it, the keys can be read and the
-- service has a load balancer, the merge returns the service with a server for the text of that
-- key. (The configuration is a struct without embedded fields, and a server is made of its key.)
pub merge_found-HasServer :
    {R S : Type 0} (get_key : S → Str) (make_server : Str → S) (d : Deps R)
    (find : Str → Str → Str → Exec (World d) Container) (s : RedisStore) (now : ℕ)
    (theirs ours : Configuration R) (w t : World d) (type name key v : Str) (c : Container)
    (svc : Service R S) (b : LoadBalancer R S) {flat kv : Dict Str}
    → ((k : Str) → get_key (make_server k) ≡ k)
    → Laws d.redis
    → IsNamed (d.fields_of theirs)
    → (store d s now theirs w).0 ≡ ok tt
    → config_to_kv d.directive (d.fields_of theirs) ≡ ok flat
    → lookup key flat ≡ some v
    → d.redis.glob (store_key type name) key ≡ true
    → d.redis.view t.server key ≡ d.redis.view (store d s now theirs w).1.server key
    → is_merged c.labels ≡ true
    → (gets_matching d (store_key type name) t).0 ≡ ok kv
    → svc.load_balancer ≡ some b
    → (out : Service R S) × ((merge_found get_key make_server find
          (gets_matching d)
          ours
          type
          (some c)
          name
          svc
          t).0
        ≡ ok out)
      × HasServer get_key v out
unfolding merge_found pure
merge_found-HasServer get_key make_server d find s now theirs ours w t type name key v c svc b
      {flat} {kv} made laws named stored flattened here matched kept asked read loaded =
    let (other, e, published, _, _) = store-publishes d laws s now theirs w named stored in
    let same : lookup key other ≡ some v =
      ap (lookup key) (ok-injective (sym e ∙ flattened)) ∙ here in
    let held : text_of (d.redis.view t.server key) ≡ some v =
      ap text_of (kept ∙ published key v same) in
    let answered : lookup key kv ≡ some v =
      gets_matching-lookup d laws (store_key type name) key t read ∙ rw matched held in
    let ran =
      bind_ok (attempt (gets_matching d (store_key type name)))
        (λ existing. pure (merge_with get_key make_server existing svc)) t (some kv)
        (attempt-ok _ t kv read) in
    (
      merge_with get_key make_server (some kv) svc,
      rw asked (ap (λ p. p.0) ran),
      merge_with-HasServer get_key make_server made key v kv svc b loaded answered,
    )
