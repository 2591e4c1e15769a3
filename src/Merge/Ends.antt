-- ===== src/Merge/Ends.antt =====
-- traefik_kop.go: `mergeLoadBalancers` ends with a configuration of the same sections, where none
-- is nil.
use traefik_kop.Prelude.{◌≡◌, ◌≢◌, refl, Option, none, some, [], ◌∷◌}
use traefik_kop.Prelude.Result.{ok}
use traefik_kop.Prelude.Exec.{Exec, attempt}
use traefik_kop.Prelude.Exec.Ends.{Ends, Ends-pure, Ends-lift, Ends-if, Ends-bind}
use traefik_kop.Text.{Str, str}
use traefik_kop.Text.Dict.{Dict}
use traefik_kop.Dynamic.{Service, Section, Configuration}
use traefik_kop.Docker.Types.{Container}
use traefik_kop.Namespace.{get_router_of_service}
use traefik_kop.Addresses.Ends.{HasSections}
use traefik_kop.Merge.{is_merged, merge_found, merge_services, merge_section, merge_load_balancers}

module _ {C R : Type 0} (find : Str → Str → Str → Exec C Container) (gets : Str → Exec C (Dict Str))
    (conf : Configuration R) (P : C → Type 0)
    (finds : (type service router : Str)
      → Ends P (attempt (find type service router)) (λ o. Unit {0}))
    (reads : (key : Str) → Ends P (attempt (gets key)) (λ o. Unit {0}))
    (routed : (name type : Str) → (r : Str) × (get_router_of_service conf name type ≡ ok r)) where
  module _ {S : Type 0} (get_key : S → Str) (make_server : Str → S) (type : Str) where
    found-Ends :
        (o : Option Container) (name : Str) (svc : Service R S)
        → Ends P (merge_found get_key make_server find gets conf type o name svc) (λ out. Unit {0})
    unfolding merge_found
    found-Ends none name svc = Ends-pure svc tt
    found-Ends (some c) name svc =
        Ends-if (is_merged c.labels) _ _
          (Ends-bind {R = λ x. Unit {0}} _ _ (reads _) (λ existing _. Ends-pure _ tt))
          (Ends-pure svc tt)

    services-Ends :
        (d : Dict (Service R S))
        → Ends P (merge_services get_key make_server find gets conf type d) (λ e. Unit {0})
    unfolding merge_services
    services-Ends [] = Ends-pure _ tt
    services-Ends ((name, svc) ∷ d) =
        let (r, e) = routed name type in
        Ends-bind {R = λ x. Unit {0}} _ _ (Ends-lift _ r e tt) (λ router _.
          Ends-bind {R = λ x. Unit {0}} _ _ (finds type name router) (λ o _.
            Ends-bind {R = λ x. Unit {0}} _ _ (found-Ends o name svc) (λ merged _.
              Ends-bind {R = λ x. Unit {0}} _ _ (services-Ends d) (λ others _. Ends-pure _ tt))))

    section-Ends :
        (o : Option (Section R S))
        → o ≢ none
        → Ends P (merge_section get_key make_server find gets conf type o) (λ out. out ≢ none)
    unfolding merge_section
    section-Ends none h = absurd (h refl)
    section-Ends (some s) h =
        Ends-bind {R = λ x. Unit {0}} _ _ (services-Ends s.services)
          (λ services _. Ends-pure _ (λ e. cc))

  pub merge_load_balancers-Ends :
      (zero_rest : R)
      → HasSections conf
      → Ends P (merge_load_balancers find gets zero_rest conf) HasSections
  unfolding merge_load_balancers
  merge_load_balancers-Ends zero_rest (http, tcp, udp) =
      Ends-bind _ _ (section-Ends _ _ (str "http") conf.http http) (λ h there.
        Ends-bind _ _ (section-Ends _ _ (str "tcp") conf.tcp tcp) (λ t also.
          Ends-bind _ _ (section-Ends _ _ (str "udp") conf.udp udp)
            (λ u too. Ends-pure _ (there, also, too))))
