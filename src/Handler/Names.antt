-- ===== src/Handler/Names.antt =====
-- What `replaceIPs` and `mergeLoadBalancers` leave of a configuration as it is: its names, its
-- routers and its middlewares.
use traefik_kop.Prelude.{◌≡◌, refl, ap, ◌∙◌, Option, none, some, [], ◌∷◌}
use traefik_kop.Prelude.Exec.{Exec, lift}
use traefik_kop.Prelude.Exec.Gives.{Gives, Gives-pure, Gives_any, Gives-bind}
use traefik_kop.Text.{Str, str}
use traefik_kop.Text.Dict.{Dict, keys}
use traefik_kop.Dynamic.{Server, StreamServer, Service, Section, Configuration}
use traefik_kop.Docker.Types.{Container}
use traefik_kop.Addresses.{replace_streams}
use traefik_kop.Addresses.Http.{
  replace_http, replace_http_section, replace_stream_section, replace_ips,
}
use traefik_kop.Merge.{merge_services, merge_section, merge_load_balancers}

module _ {R S : Type 0} where
  -- The same names of services, the same routers and the same middlewares.
  abbrev pub SameSection : Option (Section R S) → Option (Section R S) → Type 0
  SameSection none none = Unit
  SameSection (some s) (some t) =
      (keys t.services ≡ keys s.services)
      × (t.routers ≡ s.routers)
      × (t.middlewares ≡ s.middlewares)
  SameSection none (some t) = ⊥
  SameSection (some s) none = ⊥

  pub SameSection-refl : (o : Option (Section R S)) → SameSection o o
  SameSection-refl none = tt
  SameSection-refl (some s) = (refl, refl, refl)

  pub SameSection-trans :
      (a b c : Option (Section R S)) → SameSection a b → SameSection b c → SameSection a c
  SameSection-trans none none none h k = tt
  SameSection-trans (some a) (some b) (some c) (h1, h2, h3) (k1, k2, k3) =
      (k1 ∙ h1, k2 ∙ h2, k3 ∙ h3)
  SameSection-trans none none (some c) h k = k
  SameSection-trans none (some b) c h k = absurd h
  SameSection-trans (some a) none c h k = absurd h
  SameSection-trans (some a) (some b) none h k = k

-- All sections are the same in this sense, and all else is the same.
abbrev pub SameNames : {R : Type 0} → Configuration R → Configuration R → Type 0
SameNames a b =
    SameSection a.http b.http
    × SameSection a.tcp b.tcp
    × SameSection a.udp b.udp
    × (b.rest ≡ a.rest)

module _ {C R : Type 0} (find : Str → Str → Str → Exec C Container) (conf : Configuration R) where
  replace_http-keys :
      (host : Str) (d : Dict (Service R (Server R)))
      → Gives (replace_http find conf host d) (λ e. keys e ≡ keys d)
  unfolding replace_http keys
  replace_http-keys host [] = Gives-pure [] refl
  replace_http-keys host ((name, svc) ∷ d) = Gives-bind _ _ (Gives_any _) (λ b u.
      Gives-bind _ _ (Gives_any _) (λ servers u.
        Gives-bind _ _ (replace_http-keys host d) (λ e h. Gives-pure _ (ap (λ l. name ∷ l) h))))

  replace_streams-keys :
      (type host : Str) (d : Dict (Service R (StreamServer R)))
      → Gives (replace_streams find conf type host d) (λ out. keys out.1 ≡ keys d)
  unfolding replace_streams keys
  replace_streams-keys type host [] = Gives-pure _ refl
  replace_streams-keys type host ((name, svc) ∷ d) = Gives-bind _ _ (Gives_any _) (λ b u.
      Gives-bind _ _ (Gives_any _) (λ r u.
        Gives-bind _ _ (replace_streams-keys type r.0 d)
          (λ out h. Gives-pure _ (ap (λ l. name ∷ l) h))))

  replace_http_section-same :
      (host : Str) (o : Option (Section R (Server R)))
      → Gives (replace_http_section find conf host o) (SameSection o)
  unfolding replace_http_section
  replace_http_section-same host none = Gives-pure none tt
  replace_http_section-same host (some s) =
      Gives-bind _ _ (replace_http-keys host s.services) (λ e h. Gives-pure _ (h, refl, refl))

  replace_stream_section-same :
      (type host : Str) (o : Option (Section R (StreamServer R)))
      → Gives (replace_stream_section find conf type host o) (λ out. SameSection o out.1)
  unfolding replace_stream_section
  replace_stream_section-same type host none = Gives-pure _ tt
  replace_stream_section-same type host (some s) =
      Gives-bind _ _ (replace_streams-keys type host s.services)
        (λ e h. Gives-pure _ (h, refl, refl))

  pub replace_ips-same : (host : Str) → Gives (replace_ips find conf host) (SameNames conf)
  unfolding replace_ips
  replace_ips-same host = Gives-bind _ _ (replace_http_section-same host conf.http) (λ http h.
      Gives-bind _ _ (replace_stream_section-same (str "tcp") host conf.tcp) (λ tcp t.
        Gives-bind _ _ (replace_stream_section-same (str "udp") tcp.0 conf.udp)
          (λ udp u. Gives-pure _ (h, t, u, refl))))

module _ {R S : Type 0} (get_key : S → Str) (make_server : Str → S) {C : Type 0}
    (find : Str → Str → Str → Exec C Container) (gets : Str → Exec C (Dict Str))
    (conf : Configuration R) (type : Str) where
  merge_services-keys :
      (d : Dict (Service R S))
      → Gives (merge_services get_key make_server find gets conf type d) (λ e. keys e ≡ keys d)
  unfolding merge_services keys
  merge_services-keys [] = Gives-pure [] refl
  merge_services-keys ((name, svc) ∷ d) = Gives-bind _ _ (Gives_any _) (λ router u.
      Gives-bind _ _ (Gives_any _) (λ o u. Gives-bind _ _ (Gives_any _) (λ merged u.
        Gives-bind _ _ (merge_services-keys d) (λ e h. Gives-pure _ (ap (λ l. name ∷ l) h)))))

  merge_section-same :
      (o : Option (Section R S))
      → Gives (merge_section get_key make_server find gets conf type o) (SameSection o)
  unfolding merge_section lift
  merge_section-same none = record { at = λ s a e. cc }
  merge_section-same (some s) =
      Gives-bind _ _ (merge_services-keys s.services) (λ e h. Gives-pure _ (h, refl, refl))

module _ {C R : Type 0} (find : Str → Str → Str → Exec C Container) (gets : Str → Exec C (Dict Str))
    (zero_rest : R) where
  pub merge_load_balancers-same :
      (conf : Configuration R)
      → Gives (merge_load_balancers find gets zero_rest conf) (SameNames conf)
  unfolding merge_load_balancers
  merge_load_balancers-same conf =
      Gives-bind _ _ (merge_section-same _ _ find gets conf (str "http") conf.http) (λ http h.
        Gives-bind _ _ (merge_section-same _ _ find gets conf (str "tcp") conf.tcp) (λ tcp t.
          Gives-bind _ _ (merge_section-same _ _ find gets conf (str "udp") conf.udp)
            (λ udp u. Gives-pure _ (h, t, u, refl))))
