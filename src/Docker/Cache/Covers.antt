-- ===== src/Docker/Cache/Covers.antt =====
-- docker.go: what `populate` leaves in the cache, and that it needs no daemon while that is fresh.
use traefik_kop.Prelude.{
  ℕ, ◌+◌, ◌≡◌, inl, inr, refl, true, ◌||◌, Option, none, some, List, [], ◌∷◌, arith, Bool-cases,
}
use traefik_kop.Prelude.Exec.{pure, lift, gets, modify, wrap, ◌>>=◌}
use traefik_kop.Prelude.Exec.Rules.{
  Keeps, Keeps-pure, Keeps-lift, Keeps-gets, Keeps-wrap, Keeps-bind, Yields, Yields-Keeps,
  Yields-bind, Yields-bind_any,
}
use traefik_kop.Text.{Str, str_eq, elem}
use traefik_kop.Text.Equality.{eq_iff}
use traefik_kop.Text.Dict.{lookup, insert, has, lookup-insert}
use traefik_kop.Docker.Types.{Container}
use traefik_kop.Docker.Cache.{
  Daemon, DockerCache, normalize, five_seconds, inspect_all, list_containers, populate,
}

-- The cache holds the description of a container.
abbrev pub Holds : Str → DockerCache → Type 0
Holds id dc = has id dc.details ≡ true

pub has-insert :
    {V : Type 0} (k j : Str) (v : V) (m : List (Str × V))
    → has j (insert k v m) ≡ str_eq k j || has j m
unfolding has
has-insert k j v m = ground (arith, lookup-insert k j v m)

put-Holds :
    (id j : Str) (f : DockerCache → Container)
    → Keeps (Holds id) (modify (λ dc. record dc { details = insert j (f dc) dc.details }))
unfolding modify
put-Holds id j f = record { at = λ dc h. ground (arith, has-insert j id (f dc) dc.details) }

pub known-Keeps :
    {P : DockerCache → Type 0} (d : Daemon) (id : Str) (o : Option Container)
    → Keeps P (elim o [ some c ↦ pure c | none ↦ lift (d.container_inspect id) ])
known-Keeps d id none = Keeps-lift _
known-Keeps d id (some c) = Keeps-pure _

inspect-Holds : (id : Str) (d : Daemon) (l : List Str) → Keeps (Holds id) (inspect_all d l)
unfolding inspect_all
inspect-Holds id d [] = Keeps-pure _
inspect-Holds id d (j ∷ l) = Keeps-bind _ _ (Keeps-gets _) (λ o.
    Keeps-bind _ _ (Keeps-wrap _ _ (known-Keeps d j o))
      (λ c. Keeps-bind _ _ (put-Holds id j _) (λ _. inspect-Holds id d l)))

put-Yields :
    (id j : Str) (f : DockerCache → Container)
    → str_eq j id ≡ true
    → Yields
        (λ _. Unit {0})
        (modify (λ dc. record dc { details = insert j (f dc) dc.details }))
        (λ _. Holds id)
unfolding modify
put-Yields id j f e = record { at = λ dc h a q. ground (arith, has-insert j id (f dc) dc.details) }

inspect-Yields :
    (id : Str) (d : Daemon) (l : List Str)
    → elem id l ≡ true
    → Yields (λ _. Unit {0}) (inspect_all d l) (λ _. Holds id)
unfolding inspect_all elem
inspect-Yields id d [] h = cc
inspect-Yields id d (j ∷ l) h = Yields-bind_any _ _ (λ o. Yields-bind_any _ _ (λ c.
    elim (Bool-cases (str_eq j id)) [
      | inl e ↦ Yields-bind _ _ (put-Yields id j _ e) (λ _. Yields-Keeps _ (inspect-Holds id d l))
      | inr e ↦
          Yields-bind_any _ _
            (λ _. inspect-Yields id d l (ground (arith, eq_iff j id, eq_iff id j)))
    ]))

-- The cache holds the list of the containers and the description of each.
abbrev pub IsCovered : DockerCache → Type 0
IsCovered dc = (l : List Str) × (dc.list ≡ some l) × ((id : Str) → elem id l ≡ true → Holds id dc)

-- The cache holds this list of containers.
abbrev Lists : List Str → DockerCache → Type 0
Lists l dc = dc.list ≡ some l

put-list :
    (l : List Str) (j : Str) (f : DockerCache → Container)
    → Keeps (Lists l) (modify (λ dc. record dc { details = insert j (f dc) dc.details }))
unfolding modify
put-list l j f = record { at = λ dc h. h }

inspect-list : (l : List Str) (d : Daemon) (ids : List Str) → Keeps (Lists l) (inspect_all d ids)
unfolding inspect_all
inspect-list l d [] = Keeps-pure _
inspect-list l d (j ∷ ids) = Keeps-bind _ _ (Keeps-gets _) (λ o.
    Keeps-bind _ _ (Keeps-wrap _ _ (known-Keeps d j o))
      (λ c. Keeps-bind _ _ (put-list l j _) (λ _. inspect-list l d ids)))

inspect-IsCovered :
    (d : Daemon) (l : List Str) → Yields (Lists l) (inspect_all d l) (λ _. IsCovered)
inspect-IsCovered d l = record {
  at =
      λ dc h a e. (l, (inspect-list l d l).at dc h, λ id m. (inspect-Yields id d l m).at dc tt a e);
}

abbrev Known : Option (List Str) → DockerCache → Type 0
Known o dc = dc.list ≡ o

gets-list : Yields (λ _. Unit {0}) (gets (λ (dc : DockerCache). dc.list)) Known
unfolding gets
gets-list = record { at = λ dc h o e. ground arith }

modify-list :
    (l : List Str)
    → Yields (λ _. Unit {0}) (modify (λ dc. record dc { list = some l })) (λ _. Lists l)
unfolding modify
modify-list l = record { at = λ dc h a e. refl }

pure-Lists : (l : List Str) → Yields (Lists l) (pure l) Lists
unfolding pure
pure-Lists l = record { at = λ dc h a e. ground arith }

list-Lists : (d : Daemon) (o : Option (List Str)) → Yields (Known o) (list_containers d o) Lists
unfolding list_containers
list-Lists d none = Yields-bind_any _ _ (λ l. Yields-bind _ _ (modify-list l) (λ _. pure-Lists l))
list-Lists d (some l) = pure-Lists l

modify-expires :
    (t : ℕ)
    → Yields IsCovered
        (modify (λ dc. record dc { expires = t }))
        (λ _ dc. IsCovered dc × (dc.expires ≡ t))
unfolding modify
modify-expires t = record { at = λ dc h a e. (h, refl) }

pub populate-Yields :
    (d : Daemon) (now later : ℕ)
    → Yields
        (λ _. Unit {0})
        (populate d now later)
        (λ _ dc. IsCovered dc × (dc.expires ≡ later + five_seconds))
unfolding populate
populate-Yields d now later = Yields-bind_any _ _ (λ _. Yields-bind _ _ gets-list (λ o.
    Yields-bind _ _ (list-Lists d o)
      (λ l. Yields-bind _ _ (inspect-IsCovered d l) (λ _. modify-expires _))))

pub inspect-step :
    (d : Daemon) (j : Str) (l : List Str) (dc : DockerCache) (c : Container)
    → lookup j dc.details ≡ some c
    → inspect_all d (j ∷ l) dc
      ≡ inspect_all d l (record dc { details = insert j (normalize d.lower_other c) dc.details })
unfolding inspect_all ◌>>=◌ wrap gets modify pure
inspect-step d j l dc c h = rw h
