-- ===== src/Redis/Memory/Sound.antt =====
-- The server in memory has the documented behaviour.
use traefik_kop.Prelude.{
  ℕ, ◌≡◌, refl, ◌⊎◌, inl, inr, Option-cases, Bool, true, false, not, ◌&&◌, ◌||◌, Option, none, some,
  List, [], ◌∷◌, ◌++◌, if◌then◌else◌, arith,
}
use traefik_kop.Prelude.Result.{Result, ok, err, panic}
use traefik_kop.Text.{Str, str, str_eq, elem, has_prefix}
use traefik_kop.Text.Equality.{eq_iff, elem-append}
use traefik_kop.Text.Dict
use traefik_kop.Text.Dict.{Dict, lookup-insert, lookup-delete, elem-keys}
use traefik_kop.Redis.{Content, text, members, Item}
use traefik_kop.Redis.Laws.{Laws, is_plain, is_some, in_item, all_true, GetReply}
use traefik_kop.Redis.Memory.{
  memory, is_nil, any_suffix, match_one, glob_of, get_of, members_of, matching, delete_all,
  unlink_of, add_members, without, difference, rename_of, expire_one, expire_all,
}

any_suffix_nil : (s : Str) → any_suffix is_nil s ≡ true
unfolding any_suffix is_nil
any_suffix_nil [] = refl
any_suffix_nil (c ∷ cs) = ground (arith, any_suffix_nil cs)

glob_star_lem :
    (p j : Str) → is_plain p ≡ true → has_prefix p j ≡ true → glob_of (p ++ str "*") j ≡ true
unfolding glob_of is_plain has_prefix match_one str
glob_star_lem [] j h e = any_suffix_nil j
glob_star_lem (c ∷ p) [] h e = cc
glob_star_lem (c ∷ p) (d ∷ j) h e = ground (arith, glob_star_lem p j)

glob_head_lem :
    (p q j : Str) → is_plain p ≡ true → glob_of (p ++ q) j ≡ true → has_prefix p j ≡ true
unfolding glob_of is_plain has_prefix match_one
glob_head_lem [] q j h e = refl
glob_head_lem (c ∷ p) q [] h e = ground arith
glob_head_lem (c ∷ p) q (d ∷ j) h e = ground (arith, glob_head_lem p q j)

elem-matching : (p j : Str) (js : List Str) → elem j (matching p js) ≡ (glob_of p j && elem j js)
unfolding elem matching
elem-matching p j [] = ground arith
elem-matching p j (i ∷ js) = ground (arith, elem-matching p j js, eq_iff j i)

lookup-delete_all :
    (ks : List Str) (m : Dict Item) (j : Str)
    → Dict.lookup j (delete_all ks m) ≡ (if elem j ks then none else Dict.lookup j m)
unfolding delete_all elem
lookup-delete_all [] m j = refl
lookup-delete_all (k ∷ ks) m j =
    ground
      (arith, lookup-delete_all ks (Dict.delete k m) j, lookup-delete k j m, eq_iff k j, eq_iff j k)

elem-without : (m : Str) (a b : List Str) → elem m (without a b) ≡ (elem m a && not (elem m b))
unfolding elem without
elem-without m [] b = refl
elem-without m (x ∷ a) b = ground (arith, elem-without m a b, eq_iff m x)

has-lookup_some : (j : Str) (m : Dict Item) → Dict.has j m ≡ is_some (Dict.lookup j m)
unfolding Dict.has
has-lookup_some j m = ground arith

abbrev with_ttl : ℕ → Option Item → Option Item
with_ttl t none = none
with_ttl t (some i) = some (record i { ttl = t })

lookup-expire_one :
    (key : Str) (t : ℕ) (o : Option Item) (m : Dict Item) (j : Str)
    → Dict.lookup key m ≡ o
    → Dict.lookup j (expire_one key t o m).1
      ≡ (if str_eq key j then with_ttl t (Dict.lookup j m) else Dict.lookup j m)
unfolding expire_one
lookup-expire_one key t none m j h = ground (arith, eq_iff key j)
lookup-expire_one key t (some i) m j h =
    ground (arith, eq_iff key j, lookup-insert key j (record i { ttl = t }) m)

lookup-expire_all :
    (ks : List Str) (t : ℕ) (m : Dict Item) (j : Str)
    → Dict.lookup j (expire_all ks t m).1
      ≡ (if elem j ks then with_ttl t (Dict.lookup j m) else Dict.lookup j m)
unfolding expire_all elem
lookup-expire_all [] t m j = refl
lookup-expire_all (key ∷ ks) t m j = ground (
  arith,
  lookup-expire_all ks t (expire_one key t (Dict.lookup key m) m).1 j,
  lookup-expire_one key t (Dict.lookup key m) m j refl,
  eq_iff key j,
  eq_iff j key,
)

some-expire_all :
    (ks : List Str) (t : ℕ) (m : Dict Item) (j : Str)
    → all_true (expire_all ks t m).0 ≡ true
    → elem j ks ≡ true
    → is_some (Dict.lookup j m) ≡ true
unfolding expire_all elem all_true
some-expire_all [] t m j h e = cc
some-expire_all (key ∷ ks) t m j h e = ground (
  arith,
  some-expire_all ks t (expire_one key t (Dict.lookup key m) m).1 j,
  lookup-expire_one key t (Dict.lookup key m) m j refl,
  eq_iff j key,
  eq_iff key j,
)

Content-cases : (c : Content) → ((v : Str) × (c ≡ text v)) ⊎ ((ms : List Str) × (c ≡ members ms))
Content-cases (text v) = inl (v, refl)
Content-cases (members ms) = inr (ms, refl)

keys_reply :
    (p : Str) (s : Dict Item) (l : List Str) (j : Str)
    → matching p (Dict.keys s) ≡ l
    → elem j l ≡ (glob_of p j && is_some (Dict.lookup j s))
keys_reply p s l j h = rw (← h, elem-matching, elem-keys, has-lookup_some)

get_reply : (i : Option Item) (o : Option Str) → get_of i ≡ ok o → GetReply o i
unfolding get_of
get_reply none none h = refl
get_reply none (some v) h = cc
get_reply (some i) none h = ground arith
get_reply (some i) (some v) h = ground arith

smembers_reply :
    (i : Option Item) (l : List Str) (m : Str) → members_of i ≡ ok l → elem m l ≡ in_item m i
unfolding members_of elem
smembers_reply i l m h = ground arith

difference-ok :
    (a b : Result (List Str)) {l : List Str}
    → difference a b ≡ ok l
    → (x : List Str) × (y : List Str) × (a ≡ ok x) × (b ≡ ok y) × (without x y ≡ l)
unfolding difference
difference-ok (ok x) (ok y) h = (x, y, refl, refl, ground arith)
difference-ok (ok x) (err e) h = cc
difference-ok (ok x) panic h = cc
difference-ok (err e) b h = cc
difference-ok panic b h = cc

sdiff_reply :
    (a b : Option Item) (l : List Str) (m : Str)
    → difference (members_of a) (members_of b) ≡ ok l
    → elem m l ≡ (in_item m a && not (in_item m b))
sdiff_reply a b l m h =
    let (x, y, p, q, e) = difference-ok (members_of a) (members_of b) h in
    rw (← e, elem-without, smembers_reply a x m p, smembers_reply b y m q)

unlink_framed :
    (ks : List Str) (s : Dict Item) (j : Str)
    → elem j ks ≡ false
    → Dict.lookup j (unlink_of ks s).1 ≡ Dict.lookup j s
unfolding unlink_of
unlink_framed [] s j h = refl
unlink_framed (k ∷ ks) s j h = ground (arith, lookup-delete_all (k ∷ ks) s j)

unlink_removes :
    (ks : List Str) (s : Dict Item) (j : Str)
    → (unlink_of ks s).0 ≡ ok tt
    → elem j ks ≡ true
    → Dict.lookup j (unlink_of ks s).1 ≡ none
unfolding unlink_of
unlink_removes [] s j h e = cc
unlink_removes (k ∷ ks) s j h e = ground (arith, lookup-delete_all (k ∷ ks) s j)

unlink_creates_nothing :
    (ks : List Str) (s : Dict Item) (j : Str)
    → Dict.lookup j s ≡ none
    → Dict.lookup j (unlink_of ks s).1 ≡ none
unfolding unlink_of
unlink_creates_nothing [] s j h = h
unlink_creates_nothing (k ∷ ks) s j h = ground (arith, lookup-delete_all (k ∷ ks) s j)

unlink_refused : (s : Dict Item) → (e : Str) × ((unlink_of [] s).0 ≡ err e)
unfolding unlink_of
unlink_refused s = (_, refl)

add_framed :
    (key : Str) (ms : List Str) (o : Option Item) (s : Dict Item) (j : Str)
    → str_eq key j ≡ false
    → Dict.lookup j (add_members key ms o s).1 ≡ Dict.lookup j s
unfolding add_members
add_framed key ms none s j h =
    ground (arith, lookup-insert key j (record { content = members ms; ttl = 0 }) s)
add_framed key ms (some i) s j h = elim (Content-cases i.content) [
  | inl (v, e) ↦ rw (e, add_members)
  | inr (old, e) ↦
      rw (e, add_members)
        (ground (arith, lookup-insert key j (record i { content = members (ms ++ old) }) s))
]

add_adds :
    (key : Str) (ms : List Str) (o : Option Item) (s : Dict Item) (m : Str)
    → (add_members key ms o s).0 ≡ ok tt
    → in_item m (Dict.lookup key (add_members key ms o s).1) ≡ (elem m ms || in_item m o)
unfolding add_members elem
add_adds key ms none s m h =
    ground
      (arith, lookup-insert key key (record { content = members ms; ttl = 0 }) s, eq_iff key key)
add_adds key ms (some i) s m h = elim (Content-cases i.content) [
  | inl (v, e) ↦ absurd (ground arith)
  | inr (old, e) ↦ ground (
    arith,
    lookup-insert key key (record i { content = members (ms ++ old) }) s,
    eq_iff key key,
    elem-append m ms old,
  )
]

rename_framed :
    (from to : Str) (o : Option Item) (s : Dict Item) (j : Str)
    → str_eq from j ≡ false
    → str_eq to j ≡ false
    → Dict.lookup j (rename_of from to o s).1 ≡ Dict.lookup j s
unfolding rename_of
rename_framed from to none s j f t = refl
rename_framed from to (some i) s j f t =
    ground (arith, lookup-insert to j i (Dict.delete from s), lookup-delete from j s)

rename_moves :
    (from to : Str) (o : Option Item) (s : Dict Item)
    → str_eq from to ≡ false
    → (rename_of from to o s).0 ≡ ok tt
    → (Dict.lookup to (rename_of from to o s).1 ≡ o)
      × (Dict.lookup from (rename_of from to o s).1 ≡ none)
unfolding rename_of
rename_moves from to none s n h = cc
rename_moves from to (some i) s n h = (
  ground (arith, lookup-insert to to i (Dict.delete from s), eq_iff to to),
  ground (
    arith,
    lookup-insert to from i (Dict.delete from s),
    lookup-delete from from s,
    eq_iff from from,
    eq_iff to from,
    eq_iff from to,
  ),
)

expired_all :
    (ks : List Str) (t : ℕ) (m : Dict Item) (l : List Bool) (j : Str)
    → (expire_all ks t m).0 ≡ l
    → all_true l ≡ true
    → elem j ks ≡ true
    → (i : Item) × (Dict.lookup j m ≡ some i)
      × (Dict.lookup j (expire_all ks t m).1 ≡ some (record i { ttl = t }))
expired_all ks t m l j r h e = elim (Option-cases (Dict.lookup j m)) [
  | inl gone ↦ absurd (ground (arith, some-expire_all ks t m j))
  | inr (i, found) ↦ (i, found, ground (arith, lookup-expire_all ks t m j))
]

pub memory-Laws : Laws memory
unfolding get_of
memory-Laws = record {
  get_frame = λ key s j. refl;
  keys_frame = λ p s j. refl;
  exists_frame = λ key s j. refl;
  smembers_frame = λ key s j. refl;
  sdiff_frame = λ a b s j. refl;
  set_frame =
      λ key v t s j h. ground (arith, lookup-insert key j (record { content = text v; ttl = t }) s);
  unlink_frame = unlink_framed;
  sadd_frame = λ key ms s j h. add_framed key ms (Dict.lookup key s) s j h;
  rename_frame = λ from to s j f t. rename_framed from to (Dict.lookup from s) s j f t;
  pexpire_frame = λ ks t s j h. ground (arith, lookup-expire_all ks t s j);
  get_ok = λ key s o h. get_reply (Dict.lookup key s) o h;
  keys_ok = λ p s l j h. keys_reply p s l j (ground arith);
  exists_ok = λ key s b h. ground (arith, has-lookup_some key s);
  smembers_ok = λ key s l m h. smembers_reply (Dict.lookup key s) l m h;
  sdiff_ok = λ a b s l m h. sdiff_reply (Dict.lookup a s) (Dict.lookup b s) l m h;
  set_ok = λ key v t s h.
      ground
        (arith, lookup-insert key key (record { content = text v; ttl = t }) s, eq_iff key key);
  unlink_ok = unlink_removes;
  unlink_gone = unlink_creates_nothing;
  unlink_empty = λ s. unlink_refused s;
  sadd_ok = λ key ms s m h. add_adds key ms (Dict.lookup key s) s m h;
  rename_ok = λ from to s n h. rename_moves from to (Dict.lookup from s) s n h;
  pexpire_ok = λ ks t s l j p r h e. expired_all ks t s l j (ground arith) h e;
  glob_head = glob_head_lem;
  glob_star = glob_star_lem;
}
