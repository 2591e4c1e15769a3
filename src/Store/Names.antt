-- ===== src/Store/Names.antt =====
-- How the keys of the store are spelled: the sets of a host, and the key paths of names.
use traefik_kop.Prelude.{◌≡◌, refl, true, false, List, [], ◌∷◌, ◌++◌, arith}
use traefik_kop.Text.{Str, str, str_eq, elem, has_prefix, replace_all}
use traefik_kop.Text.Equality.{eq_iff}
use traefik_kop.Text.Prefix.{split_at_prefix}
use traefik_kop.Store.{RedisStore, sk, new_key, key_path, server_prefix, star, sentinel, set_names}

-- The keys of the sets are not keys under traefik/.
pub sk-outside :
    (s : RedisStore) (b j : Str) → has_prefix (str "traefik/") j ≡ true → str_eq (sk s b) j ≡ false
unfolding sk str str_eq
sk-outside s b j h = let (r, e) = split_at_prefix (str "traefik/") j h in rw e

pub new_key-outside :
    (s : RedisStore) (b j : Str)
    → has_prefix (str "traefik/") j ≡ true
    → str_eq (new_key (sk s b)) j ≡ false
unfolding new_key sk str str_eq
new_key-outside s b j h = let (r, e) = split_at_prefix (str "traefik/") j h in rw e

-- The pattern of a name begins with traefik/.
pub key_path-starts :
    (set name r : Str) → (q : Str) × (star (key_path set name ++ r) ≡ str "traefik/" ++ q)
unfolding key_path star str replace_all
key_path-starts set name r = (_, refl)

pub server_prefix-starts :
    (proto name r : Str) → (q : Str) × (server_prefix proto name ++ r ≡ str "traefik/" ++ q)
unfolding server_prefix str
server_prefix-starts proto name r = (_, refl)

-- Every key outside traefik/ that an instance writes: two for each set, and the sentinel.
unfoldable pub own_of : RedisStore → List Str → List Str
own_of s [] = sentinel s ∷ []
own_of s (set ∷ sets) = sk s set ∷ new_key (sk s set) ∷ own_of s sets

unfoldable pub own_keys : RedisStore → List Str
unfolding own_of sentinel sk new_key set_names str
own_keys s = own_of s set_names

own_of-sentinel :
    (s : RedisStore) (sets : List Str) (j : Str)
    → elem j (own_of s sets) ≡ false
    → str_eq (sentinel s) j ≡ false
unfolding own_of elem
own_of-sentinel s [] j h = ground (arith, eq_iff j (sentinel s), eq_iff (sentinel s) j)
own_of-sentinel s (set ∷ sets) j h = own_of-sentinel s sets j (ground arith)

pub own_keys-sentinel :
    (s : RedisStore) (j : Str) → elem j (own_keys s) ≡ false → str_eq (sentinel s) j ≡ false
own_keys-sentinel s j h = own_of-sentinel s set_names j (unfold own_keys in h)

own_of-set :
    (s : RedisStore) (sets : List Str) (j set : Str)
    → elem j (own_of s sets) ≡ false
    → elem set sets ≡ true
    → (str_eq (sk s set) j ≡ false) × (str_eq (new_key (sk s set)) j ≡ false)
unfolding own_of elem
own_of-set s [] j set h m = cc
own_of-set s (b ∷ sets) j set h m = ground (
  arith,
  own_of-set s sets j set,
  eq_iff set b,
  eq_iff j (sk s b),
  eq_iff (sk s b) j,
  eq_iff j (new_key (sk s b)),
  eq_iff (new_key (sk s b)) j,
)

pub own_keys-set :
    (s : RedisStore) (j set : Str)
    → elem j (own_keys s) ≡ false
    → elem set set_names ≡ true
    → (str_eq (sk s set) j ≡ false) × (str_eq (new_key (sk s set)) j ≡ false)
own_keys-set s j set h m = own_of-set s set_names j set (unfold own_keys in h) m
