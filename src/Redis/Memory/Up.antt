-- ===== src/Redis/Memory/Up.antt =====
-- The server in memory is always up.
use traefik_kop.Prelude.{◌≢◌, refl, Option, none, some, List, [], ◌∷◌}
use traefik_kop.Prelude.Result.{Result, ok, err, panic}
use traefik_kop.Text.{Str}
use traefik_kop.Text.Dict.{Dict}
use traefik_kop.Redis.{Content, text, members, Item}
use traefik_kop.Redis.Serves.{Serves}
use traefik_kop.Redis.Memory.{
  memory, get_of, members_of, unlink_of, add_members, difference, rename_of,
}

of_text : (c : Content) (ttl : _) → get_of (some (record { content = c; ttl = ttl })) ≢ panic
unfolding get_of
of_text (text v) ttl e = cc
of_text (members ms) ttl e = cc

get_of-calm : (o : Option Item) → get_of o ≢ panic
unfolding get_of
get_of-calm none e = cc
get_of-calm (some i) e = of_text i.content i.ttl e

of_members : (c : Content) (ttl : _) → members_of (some (record { content = c; ttl = ttl })) ≢ panic
unfolding members_of
of_members (text v) ttl e = cc
of_members (members ms) ttl e = cc

members_of-calm : (o : Option Item) → members_of o ≢ panic
unfolding members_of
members_of-calm none e = cc
members_of-calm (some i) e = of_members i.content i.ttl e

unlink_of-calm : (ks : List Str) (m : Dict Item) → (unlink_of ks m).0 ≢ panic
unfolding unlink_of
unlink_of-calm [] m e = cc
unlink_of-calm (k ∷ ks) m e = cc

added :
    (key : Str) (ms : List Str) (c : Content) (ttl : _) (m : Dict Item)
    → (add_members key ms (some (record { content = c; ttl = ttl })) m).0 ≢ panic
unfolding add_members
added key ms (text v) ttl m e = cc
added key ms (members old) ttl m e = cc

add_members-calm :
    (key : Str) (ms : List Str) (o : Option Item) (m : Dict Item)
    → (add_members key ms o m).0 ≢ panic
unfolding add_members
add_members-calm key ms none m e = cc
add_members-calm key ms (some i) m e = added key ms i.content i.ttl m e

difference-calm : (a b : Result (List Str)) → difference a b ≢ panic
unfolding difference
difference-calm (ok a) (ok b) e = cc
difference-calm (ok a) (err b) e = cc
difference-calm (ok a) panic e = cc
difference-calm (err a) b e = cc
difference-calm panic b e = cc

rename_of-calm :
    (from to : Str) (o : Option Item) (m : Dict Item) → (rename_of from to o m).0 ≢ panic
unfolding rename_of
rename_of-calm from to none m e = cc
rename_of-calm from to (some i) m e = cc

pub memory-Serves : Serves memory
memory-Serves = record {
  set_accepted = λ key v t s. refl;
  get_calm = λ key s. get_of-calm _;
  keys_calm = λ p s e. cc;
  unlink_calm = unlink_of-calm;
  sadd_calm = λ key ms s. add_members-calm key ms _ s;
  smembers_calm = λ key s. members_of-calm _;
  sdiff_calm = λ a b s. difference-calm _ _;
  rename_calm = λ from to s. rename_of-calm from to _ s;
}
