-- ===== src/Docker/Cache/Settled.antt =====
-- docker.go: `populate` leaves labels whose keys are lower-cased once and for all.
use traefik_kop.Prelude.{
  ℕ, ◌≡◌, refl, sym, ap, ◌∙◌, subst, Bool, true, false, not, ◌&&◌, ◌||◌, Option, none, some, List,
  [], ◌∷◌, ◌++◌, arith, Bool-cases, inl, inr, ltb, if◌then◌else◌,
}
use mathlib.Core.List.{append-nil, append_assoc}
use traefik_kop.Prelude.Exec.{modify}
use traefik_kop.Prelude.Exec.Rules.{
  Keeps, Keeps-pure, Keeps-lift, Keeps-gets, Keeps-wrap, Keeps-bind,
}
use traefik_kop.Text.{Str, str_eq, to_lower}
use traefik_kop.Text.Equality.{eq_iff}
use traefik_kop.Text.Dict.{Dict, lookup, insert, has, is_distinct, lookup-insert}
use traefik_kop.Docker.Types.{Container}
use traefik_kop.Docker.Cache.{
  Daemon, DockerCache, lower_keys, normalize, forget_expired, inspect_all, list_containers,
  populate,
}
use traefik_kop.Docker.Cache.Covers.{has-insert, known-Keeps}
use traefik_kop.Docker.Cache.Answers.{IsSettled}

-- `strings.ToLower` changes nothing in what it has lower-cased.
abbrev pub IsIdempotent : (ℕ → ℕ) → Type 0
IsIdempotent other = (s : Str) → to_lower other (to_lower other s) ≡ to_lower other s

-- no key of the one map is in the other
unfoldable disjoint : Dict Str → Dict Str → Bool
disjoint [] out = true
disjoint ((k, v) ∷ m) out = not (has k out) && disjoint m out

is_distinct-insert :
    (k v : Str) (m : Dict Str) → is_distinct m ≡ true → is_distinct (insert k v m) ≡ true
unfolding is_distinct insert has lookup
is_distinct-insert k v [] h = refl
is_distinct-insert k v ((j, w) ∷ m) h =
    ground (arith, is_distinct-insert k v m, has-insert k j v m, eq_iff j k, eq_iff k j)

has-snoc : (k j v : Str) (m : Dict Str) → has j (m ++ ((k, v) ∷ [])) ≡ has j m || str_eq k j
unfolding has lookup
has-snoc k j v [] = ground arith
has-snoc k j v ((i, w) ∷ m) = ground (arith, has-snoc k j v m)

insert-new : (k v : Str) (m : Dict Str) → has k m ≡ false → insert k v m ≡ m ++ ((k, v) ∷ [])
unfolding has lookup insert
insert-new k v [] h = refl
insert-new k v ((j, w) ∷ m) h = ground (arith, insert-new k v m)

disjoint-snoc :
    (k v : Str) (m out : Dict Str)
    → disjoint m out ≡ true
    → has k m ≡ false
    → disjoint m (out ++ ((k, v) ∷ [])) ≡ true
unfolding disjoint has lookup
disjoint-snoc k v [] out h n = refl
disjoint-snoc k v ((j, w) ∷ m) out h n =
    ground (arith, disjoint-snoc k v m out, has-snoc k j v out, eq_iff j k, eq_iff k j)

disjoint-nil : (m : Dict Str) → disjoint m [] ≡ true
unfolding disjoint has lookup
disjoint-nil [] = refl
disjoint-nil ((k, v) ∷ m) = disjoint-nil m

module _ (other : ℕ → ℕ) where
  is_distinct-lower_keys :
      (m out : Dict Str) → is_distinct out ≡ true → is_distinct (lower_keys other m out) ≡ true
  unfolding lower_keys
  is_distinct-lower_keys [] out h = h
  is_distinct-lower_keys ((k, v) ∷ m) out h =
      is_distinct-lower_keys m _ (is_distinct-insert (to_lower other k) v out h)

  -- Each key is lower-cased.
  abbrev AllLower : Dict Str → Type 0
  AllLower [] = Unit
  AllLower ((k, v) ∷ m) = (to_lower other k ≡ k) × AllLower m

  AllLower-insert :
      (k v : Str) (m : Dict Str) → to_lower other k ≡ k → AllLower m → AllLower (insert k v m)
  unfolding insert
  AllLower-insert k v [] e h = (e, tt)
  AllLower-insert k v ((j, w) ∷ m) e (f, h) = either_way (str_eq j k) (AllLower-insert k v m e h)
    where
      either_way :
          (b : Bool)
          → AllLower (insert k v m)
          → AllLower (if b then (k, v) ∷ m else (j, w) ∷ insert k v m)
      either_way true later = (e, h)
      either_way false later = (f, later)

  lower_keys-append :
      (m out : Dict Str)
      → AllLower m
      → is_distinct m ≡ true
      → disjoint m out ≡ true
      → lower_keys other m out ≡ out ++ m
  unfolding lower_keys is_distinct disjoint
  lower_keys-append [] out l d h = sym (append-nil out)
  lower_keys-append ((k, v) ∷ m) out (e, l) d h =
      rw (e, insert-new k v out (ground arith))
        (lower_keys-append m (out ++ ((k, v) ∷ [])) l (ground arith)
            (disjoint-snoc k v m out (ground arith) (ground arith))
          ∙ append_assoc out ((k, v) ∷ []) m)

  module _ (idempotent : IsIdempotent other) where
    AllLower-lower_keys : (m out : Dict Str) → AllLower out → AllLower (lower_keys other m out)
    unfolding lower_keys
    AllLower-lower_keys [] out h = h
    AllLower-lower_keys ((k, v) ∷ m) out h =
        AllLower-lower_keys m _ (AllLower-insert (to_lower other k) v out (idempotent k) h)

    normalize-twice : (c : Container) → normalize other (normalize other c) ≡ normalize other c
    unfolding normalize is_distinct
    normalize-twice c =
        ap (λ l. record c { labels = l })
          (lower_keys-append (lower_keys other c.labels []) [] (AllLower-lower_keys c.labels [] tt)
            (is_distinct-lower_keys c.labels [] refl) (disjoint-nil (lower_keys other c.labels [])))

module _ (d : Daemon) (idempotent : IsIdempotent d.lower_other) where
  -- The labels of all cached containers are lower-cased.
  abbrev AllSettled : DockerCache → Type 0
  AllSettled dc = IsSettled d dc.details

  put-AllSettled :
      (id : Str) (c : Container)
      → Keeps AllSettled
          (modify (λ dc. record dc { details = insert id (normalize d.lower_other c) dc.details }))
  unfolding modify
  put-AllSettled id c = record {
    at = λ dc h j x e.
        let found = sym (lookup-insert id j (normalize d.lower_other c) dc.details) ∙ e in
        elim (Bool-cases (str_eq id j)) [
          | inl b ↦
              subst (λ y. normalize d.lower_other y ≡ y) (ground (arith, found, b))
                (normalize-twice d.lower_other idempotent c)
          | inr b ↦ h j x (ground (arith, found, b))
        ];
  }

  inspect-AllSettled : (l : List Str) → Keeps AllSettled (inspect_all d l)
  unfolding inspect_all
  inspect-AllSettled [] = Keeps-pure _
  inspect-AllSettled (id ∷ l) = Keeps-bind _ _ (Keeps-gets _) (λ o.
      Keeps-bind _ _ (Keeps-wrap _ _ (known-Keeps d id o))
        (λ c. Keeps-bind _ _ (put-AllSettled id c) (λ _. inspect-AllSettled l)))

  set_list-AllSettled :
      (l : List Str) → Keeps AllSettled (modify (λ dc. record dc { list = some l }))
  unfolding modify
  set_list-AllSettled l = record { at = λ dc h. h }

  list-AllSettled : (o : Option (List Str)) → Keeps AllSettled (list_containers d o)
  unfolding list_containers
  list-AllSettled none =
      Keeps-bind _ _ (Keeps-wrap _ _ (Keeps-lift _))
        (λ l. Keeps-bind _ _ (set_list-AllSettled l) (λ _. Keeps-pure _))
  list-AllSettled (some l) = Keeps-pure _

  forget-AllSettled : (now : ℕ) → Keeps AllSettled (modify (forget_expired now))
  unfolding modify forget_expired lookup
  forget-AllSettled now = record { at = λ dc h. either_way (ltb dc.expires now) dc h }
    where
      either_way :
          (b : Bool) (dc : DockerCache)
          → AllSettled dc
          → AllSettled (if b then record dc { list = none; details = [] } else dc)
      either_way true dc h = λ id c e. cc
      either_way false dc h = h

  expires-AllSettled : (t : ℕ) → Keeps AllSettled (modify (λ dc. record dc { expires = t }))
  unfolding modify
  expires-AllSettled t = record { at = λ dc h. h }

  -- `populate` keeps the labels of all cached containers lower-cased.
  pub populate-AllSettled : (now later : ℕ) → Keeps AllSettled (populate d now later)
  unfolding populate
  populate-AllSettled now later = Keeps-bind _ _ (forget-AllSettled now) (λ _.
      Keeps-bind _ _ (Keeps-gets _) (λ o.
        Keeps-bind _ _ (list-AllSettled o)
          (λ l. Keeps-bind _ _ (inspect-AllSettled l) (λ _. expires-AllSettled _))))
