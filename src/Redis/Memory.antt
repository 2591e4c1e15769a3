-- ===== src/Redis/Memory.antt =====
-- A server that keeps its keys in memory and never fails but for its documented refusals: it shows
-- that the hypotheses of Redis/Laws can be met, and runs the examples.
pub mod Sound
pub mod Up
use traefik_kop.Prelude.{
  ℕ, Bool, true, false, not, ◌&&◌, ◌||◌, Option, none, some, List, [], ◌∷◌, ◌++◌, ◌==◌,
  if◌then◌else◌,
}
use traefik_kop.Prelude.Result.{Result, ok, err}
use traefik_kop.Text.{Str, str, elem}
use traefik_kop.Text.Dict
use traefik_kop.Text.Dict.{Dict}
use traefik_kop.Redis.{Content, text, members, Item, Redis}

is_nil : Str → Bool
is_nil [] = true
is_nil (c ∷ cs) = false

any_suffix : (Str → Bool) → Str → Bool
any_suffix f [] = f []
any_suffix f (c ∷ cs) = f (c ∷ cs) || any_suffix f cs

match_one : ℕ → (Str → Bool) → Str → Bool
match_one c f [] = false
match_one c f (d ∷ ds) = (c == d) && f ds

-- a star matches anything, any other character itself
unfoldable pub glob_of : Str → Str → Bool
unfolding is_nil any_suffix match_one
glob_of [] s = is_nil s
glob_of (c ∷ p) s = if c == b'*' then any_suffix (glob_of p) s else match_one c (glob_of p) s

wrong_type : Str
wrong_type = str "WRONGTYPE Operation against a key holding the wrong kind of value"

unfoldable pub get_of : Option Item → Result (Option Str)
unfolding wrong_type
get_of none = ok none
get_of (some i) = elim i.content [ text v ↦ ok (some v) | members ms ↦ err wrong_type ]

unfoldable pub members_of : Option Item → Result (List Str)
unfolding wrong_type
members_of none = ok []
members_of (some i) = elim i.content [ text v ↦ err wrong_type | members ms ↦ ok ms ]

unfoldable pub matching : Str → List Str → List Str
matching p [] = []
matching p (j ∷ js) = let rest = matching p js in if glob_of p j then j ∷ rest else rest

delete_all : List Str → Dict Item → Dict Item
delete_all [] m = m
delete_all (key ∷ rest) m = delete_all rest (Dict.delete key m)

unfoldable pub unlink_of : List Str → Dict Item → Result (Unit {0}) × Dict Item
unfolding delete_all
unlink_of [] m = (err (str "ERR wrong number of arguments for 'unlink' command"), m)
unlink_of (key ∷ rest) m = (ok tt, delete_all (key ∷ rest) m)

unfoldable pub add_members :
    Str → List Str → Option Item → Dict Item → Result (Unit {0}) × Dict Item
unfolding wrong_type
add_members key ms none m = (ok tt, Dict.insert key (record { content = members ms; ttl = 0 }) m)
add_members key ms (some i) m = elim i.content [
  | text v ↦ (err wrong_type, m)
  | members old ↦ (ok tt, Dict.insert key (record i { content = members (ms ++ old) }) m)
]

without : List Str → List Str → List Str
without [] b = []
without (m ∷ a) b = let rest = without a b in if elem m b then rest else m ∷ rest

unfoldable pub difference : Result (List Str) → Result (List Str) → Result (List Str)
unfolding without wrong_type
difference (ok a) (ok b) = ok (without a b)
difference (ok a) _ = err wrong_type
difference _ _ = err wrong_type

unfoldable pub rename_of : Str → Str → Option Item → Dict Item → Result (Unit {0}) × Dict Item
rename_of from to none m = (err (str "ERR no such key"), m)
rename_of from to (some i) m = (ok tt, Dict.insert to i (Dict.delete from m))

expire_one : Str → ℕ → Option Item → Dict Item → Bool × Dict Item
expire_one key t none m = (false, m)
expire_one key t (some i) m = (true, Dict.insert key (record i { ttl = t }) m)

unfoldable pub expire_all : List Str → ℕ → Dict Item → List Bool × Dict Item
unfolding expire_one
expire_all [] t m = ([], m)
expire_all (key ∷ rest) t m =
    let (b, m') = expire_one key t (Dict.lookup key m) m in
    let (bs, m'') = expire_all rest t m' in (b ∷ bs, m'')

abbrev pub memory : Redis
memory = record {
  State = Dict Item;
  view = λ m key. Dict.lookup key m;
  glob = glob_of;
  ping = λ m. (ok tt, m);
  get = λ key m. (get_of (Dict.lookup key m), m);
  keys = λ p m. (ok (matching p (Dict.keys m)), m);
  set = λ key v t m. (ok tt, Dict.insert key (record { content = text v; ttl = t }) m);
  exists = λ key m. (ok (Dict.has key m), m);
  unlink = unlink_of;
  sadd = λ key ms m. add_members key ms (Dict.lookup key m) m;
  smembers = λ key m. (members_of (Dict.lookup key m), m);
  sdiff = λ a b m. (difference (members_of (Dict.lookup a m)) (members_of (Dict.lookup b m)), m);
  rename = λ from to m. rename_of from to (Dict.lookup from m) m;
  pexpire = λ ks t m. let (bs, m') = expire_all ks t m in (ok bs, m');
}
