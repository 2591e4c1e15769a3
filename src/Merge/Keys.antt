-- ===== src/Merge/Keys.antt =====
-- traefik_kop.go: which servers a merged service has.
use traefik_kop.Prelude.{
  ◌≡◌, refl, Bool, true, false, not, ◌&&◌, ◌||◌, List, [], ◌∷◌, map, arith, if◌then◌else◌,
}
use traefik_kop.Text.{Str, str_eq, elem}
use traefik_kop.Text.Equality.{eq_iff}
use traefik_kop.Text.Dict.{Dict}
use traefik_kop.Merge.{add_key, stored_keys, own_keys, merged_servers}

unfoldable pub values : Dict Str → List Str
values [] = []
values ((k, v) ∷ m) = v ∷ values m

-- Each text stands once.
unfoldable pub is_unique : List Str → Bool
is_unique [] = true
is_unique (k ∷ ks) = not (elem k ks) && is_unique ks

unfoldable pub keys_of : {S : Type 0} → (S → Str) → List S → List Str
keys_of get_key [] = []
keys_of get_key (s ∷ ss) = get_key s ∷ keys_of get_key ss

elem-add_key : (k j : Str) (set : List Str) → elem k (add_key j set) ≡ str_eq k j || elem k set
unfolding add_key elem
elem-add_key k j set = ground (arith, eq_iff k j)

add_key_unique :
    (j : Str) (set : List Str) → is_unique set ≡ true → is_unique (add_key j set) ≡ true
unfolding add_key is_unique
add_key_unique j set h = ground arith

elem-stored_keys :
    (k : Str) (m : Dict Str) (set : List Str)
    → elem k (stored_keys m set) ≡ elem k (values m) || elem k set
unfolding stored_keys values elem
elem-stored_keys k [] set = refl
elem-stored_keys k ((j, v) ∷ m) set =
    ground (arith, elem-stored_keys k m (add_key v set), elem-add_key k v set)

stored_keys_unique :
    (m : Dict Str) (set : List Str) → is_unique set ≡ true → is_unique (stored_keys m set) ≡ true
unfolding stored_keys
stored_keys_unique [] set h = h
stored_keys_unique ((j, v) ∷ m) set h = stored_keys_unique m _ (add_key_unique v set h)

module _ {S : Type 0} (get_key : S → Str) where
  elem-own_keys :
      (k : Str) (ss : List S) (set : List Str)
      → elem k (own_keys get_key ss set)
        ≡ (not (str_eq k []) && elem k (keys_of get_key ss)) || elem k set
  unfolding own_keys keys_of elem
  elem-own_keys k [] set = ground arith
  elem-own_keys k (s ∷ ss) set = ground (
    arith,
    elem-own_keys k ss (if str_eq (get_key s) [] then set else add_key (get_key s) set),
    elem-add_key k (get_key s) set,
    eq_iff k (get_key s),
    eq_iff k [],
    eq_iff (get_key s) [],
  )

  own_keys_unique :
      (ss : List S) (set : List Str)
      → is_unique set ≡ true
      → is_unique (own_keys get_key ss set) ≡ true
  unfolding own_keys
  own_keys_unique [] set h = h
  own_keys_unique (s ∷ ss) set h =
      own_keys_unique ss _ (either_way (str_eq (get_key s) []) (get_key s) set h)
    where
      either_way :
          (b : Bool) (k : Str) (set : List Str)
          → is_unique set ≡ true
          → is_unique (if b then set else add_key k set) ≡ true
      either_way true k set h = h
      either_way false k set h = add_key_unique k set h

  module _ (make_server : Str → S) (made : (k : Str) → get_key (make_server k) ≡ k) where
    keys_of-map : (ks : List Str) → keys_of get_key (map make_server ks) ≡ ks
    unfolding keys_of
    keys_of-map [] = refl
    keys_of-map (k ∷ ks) = ground (arith, made k, keys_of-map ks)

    -- Where a server is made of its key, the merged servers have exactly the keys of the store and
    -- those of the configuration that are not empty, each once.
    pub merged_servers-keys :
        (existing : Dict Str) (ss : List S) (k : Str)
        → (elem k (keys_of get_key (merged_servers get_key make_server existing ss))
            ≡ elem k (values existing) || (not (str_eq k []) && elem k (keys_of get_key ss)))
          × (is_unique (keys_of get_key (merged_servers get_key make_server existing ss)) ≡ true)
    unfolding merged_servers is_unique elem
    merged_servers-keys existing ss k = (
      rw keys_of-map (
          ground
            (arith, elem-own_keys k ss (stored_keys existing []), elem-stored_keys k existing [])),
      rw keys_of-map (own_keys_unique ss _ (stored_keys_unique existing [] refl)),
    )
