-- ===== src/Merge/Services.antt =====
-- traefik_kop.go: what `mergeGenericLoadBalancers` makes of the services of a section.
use traefik_kop.Prelude.{
  ◌≡◌, ◌⊎◌, inl, inr, refl, Bool, true, false, not, ◌&&◌, ◌||◌, Option, none, some, [], ◌∷◌, arith,
  Bool-cases, Option-cases,
}
use traefik_kop.Prelude.Result.{ok}
use traefik_kop.Prelude.Exec.{Exec, attempt}
use traefik_kop.Prelude.Exec.Returns.{Returns, Returns-pure, Returns-lift, Returns-bind}
use traefik_kop.Text.{Str, str_eq, elem}
use traefik_kop.Text.Dict.{Dict}
use traefik_kop.Dynamic.{LoadBalancer, Service, Configuration}
use traefik_kop.Docker.Types.{Container}
use traefik_kop.Namespace.{get_router_of_service}
use traefik_kop.Namespace.Filter.{Answers}
use traefik_kop.Merge.{
  is_merged, store_key, merged_servers, merge_with, merge_found, merge_services,
}
use traefik_kop.Merge.Keys.{values, keys_of, merged_servers-keys}

-- Does the label ask for a merge?
unfoldable pub asks : Option Container → Bool
asks none = false
asks (some c) = is_merged c.labels

module _ {R S : Type 0} (get_key : S → Str) where
  -- A service gets the servers of the store beside its own: its label asks for it, and the store
  -- has some.
  abbrev pub GetsServers : Option Container → Option (Dict Str) → Service R S → Service R S → Type 0
  GetsServers o stored svc out =
      (kv : Dict Str) × (b : LoadBalancer R S) × (c : LoadBalancer R S) × (asks o ≡ true)
      × (stored ≡ some kv)
      × (svc.load_balancer ≡ some b)
      × (out ≡ record svc { load_balancer = some c })
      × (c.rest ≡ b.rest)
      × ((k : Str)
          → elem k (keys_of get_key c.servers)
            ≡ elem k (values kv) || (not (str_eq k []) && elem k (keys_of get_key b.servers)))

  -- A service stays as it is, for one of the reasons for that.
  abbrev pub IsLeft : Option Container → Option (Dict Str) → Service R S → Service R S → Type 0
  IsLeft o stored svc out =
      (out ≡ svc)
      × ((asks o ≡ false) ⊎ (stored ≡ none) ⊎ (stored ≡ some []) ⊎ (svc.load_balancer ≡ none))

  abbrev pub AllMerged :
      (Str → Option Container)
      → (Str → Option (Dict Str))
      → Dict (Service R S)
      → Dict (Service R S)
      → Type 0
  AllMerged of_service stored [] [] = Unit
  AllMerged of_service stored ((name, svc) ∷ d) ((other, out) ∷ e) =
      (other ≡ name)
      × (GetsServers (of_service name) (stored name) svc out
          ⊎ IsLeft (of_service name) (stored name) svc out)
      × AllMerged of_service stored d e
  AllMerged of_service stored [] (x ∷ e) = ⊥
  AllMerged of_service stored (x ∷ d) [] = ⊥

module _ {R S : Type 0} (get_key : S → Str) (make_server : Str → S)
    (made : (k : Str) → get_key (make_server k) ≡ k) where
  with-cases :
      (o : Option Container) (stored : Option (Dict Str)) (svc : Service R S)
      → asks o ≡ true
      → GetsServers get_key o stored svc (merge_with get_key make_server stored svc)
        ⊎ IsLeft get_key o stored svc (merge_with get_key make_server stored svc)
  unfolding merge_with
  with-cases o none svc h = inr (refl, inr (inl refl))
  with-cases o (some []) svc h = inr (refl, inr (inr (inl refl)))
  with-cases o (some (x ∷ xs)) svc h = elim (Option-cases svc.load_balancer) [
    | inl e ↦ inr (ground arith, inr (inr (inr e)))
    | inr (b, e) ↦ inl (
      x ∷ xs,
      b,
      record b { servers = merged_servers get_key make_server (x ∷ xs) b.servers },
      h,
      refl,
      e,
      ground arith,
      refl,
      λ k. (merged_servers-keys get_key make_server made (x ∷ xs) b.servers k).0,
    )
  ]

  module _ {C : Type 0} (find : Str → Str → Str → Exec C Container) (gets : Str → Exec C (Dict Str))
      (conf : Configuration R) (type : Str) (P : C → Type 0)
      (answer : Str → Str → Str → Option Container) (answers : Answers find P answer)
      (stored : Str → Option (Dict Str))
      (reads : (key : Str) → Returns P (attempt (gets key)) (stored key)) where
    found-Returns :
        (o : Option Container) (name : Str) (svc : Service R S)
        → (out : Service R S) × Returns P
            (merge_found get_key make_server find gets conf type o name svc)
            out
          × (GetsServers get_key o (stored (store_key type name)) svc out
              ⊎ IsLeft get_key o (stored (store_key type name)) svc out)
    unfolding merge_found asks
    found-Returns none name svc = (svc, Returns-pure svc, inr (refl, inl refl))
    found-Returns (some c) name svc = elim (Bool-cases (is_merged c.labels)) [
      | inl e ↦ (
        merge_with get_key make_server (stored (store_key type name)) svc,
        rw e (Returns-bind _ _ _ _ (reads (store_key type name)) (Returns-pure _)),
        with-cases (some c) (stored (store_key type name)) svc e,
      )
      | inr e ↦ (svc, rw e (Returns-pure svc), inr (refl, inl e))
    ]

    module _ (router_of : Str → Str)
        (routed : (name : Str) → get_router_of_service conf name type ≡ ok (router_of name)) where
      pub services-Returns :
          (d : Dict (Service R S))
          → (e : Dict (Service R S)) × Returns P
              (merge_services get_key make_server find gets conf type d)
              e
            × AllMerged get_key
                (λ name. answer type name (router_of name))
                (λ name. stored (store_key type name))
                d
                e
      unfolding merge_services
      services-Returns [] = ([], Returns-pure _, tt)
      services-Returns ((name, svc) ∷ d) =
          let (out, r, how) = found-Returns (answer type name (router_of name)) name svc in
          let (e, rest, all) = services-Returns d in
          (
            (name, out) ∷ e,
            Returns-bind _ _ _ _ (Returns-lift _ (router_of name) (routed name)) (
                Returns-bind _ _ _ _ (answers type name (router_of name))
                  (Returns-bind _ _ _ _ r (Returns-bind _ _ _ _ rest (Returns-pure _)))),
            (refl, how, all),
          )
