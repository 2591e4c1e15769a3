-- ===== src/Redis/Laws.antt =====
-- What is documented of the redis commands, as hypotheses on the server. No key expires and no
-- other client writes between the commands of one call.
use traefik_kop.Prelude.{
  ℕ, ◌<◌, ◌≡◌, Bool, true, false, not, ◌&&◌, ◌||◌, Option, none, some, List, [], ◌∷◌, ◌++◌, ◌==◌,
}
use traefik_kop.Prelude.Result.{ok, err}
use traefik_kop.Text.{Str, str, str_eq, elem, has_prefix}
use traefik_kop.Redis.{text, members, Item, Redis}

-- No character of a pattern is special.
unfoldable pub is_plain : Str → Bool
is_plain [] = true
is_plain (c ∷ cs) =
    not (c == b'*') && (not (c == b'?') && (not (c == b'[') && (not (c == b'\\') && is_plain cs)))

abbrev pub is_some {ℓ} : {A : Type ℓ} → Option A → Bool
is_some none = false
is_some (some a) = true

-- Whether a set has a member; a missing key is an empty set.
abbrev pub in_item : Str → Option Item → Bool
in_item m none = false
in_item m (some i) = elem m (elim i.content [ text v ↦ [] | members ms ↦ ms ])

-- A reply to GET against what the key holds: an expiry does not show, and a set is no text.
abbrev pub GetReply : Option Str → Option Item → Type 0
GetReply none o = o ≡ none
GetReply (some v) none = ⊥
GetReply (some v) (some i) = i.content ≡ text v

-- every reply of a pipeline is 1
unfoldable pub all_true : List Bool → Bool
all_true [] = true
all_true (b ∷ bs) = b && all_true bs

pub record Laws (r : Redis) : Type 0 where
  -- Commands that read leave every key as it is.
  pub get_frame : (key : Str) (s : r.State) (j : Str) → r.view (r.get key s).1 j ≡ r.view s j
  pub keys_frame : (p : Str) (s : r.State) (j : Str) → r.view (r.keys p s).1 j ≡ r.view s j
  pub exists_frame : (key : Str) (s : r.State) (j : Str) → r.view (r.exists key s).1 j ≡ r.view s j
  pub smembers_frame :
      (key : Str) (s : r.State) (j : Str) → r.view (r.smembers key s).1 j ≡ r.view s j
  pub sdiff_frame : (a b : Str) (s : r.State) (j : Str) → r.view (r.sdiff a b s).1 j ≡ r.view s j
  -- A command that writes, also one that fails, touches its own keys only.
  pub set_frame :
      (key v : Str) (t : ℕ) (s : r.State) (j : Str)
      → str_eq key j ≡ false
      → r.view (r.set key v t s).1 j ≡ r.view s j
  pub unlink_frame :
      (ks : List Str) (s : r.State) (j : Str)
      → elem j ks ≡ false
      → r.view (r.unlink ks s).1 j ≡ r.view s j
  pub sadd_frame :
      (key : Str) (ms : List Str) (s : r.State) (j : Str)
      → str_eq key j ≡ false
      → r.view (r.sadd key ms s).1 j ≡ r.view s j
  pub rename_frame :
      (from to : Str) (s : r.State) (j : Str)
      → str_eq from j ≡ false
      → str_eq to j ≡ false
      → r.view (r.rename from to s).1 j ≡ r.view s j
  pub pexpire_frame :
      (ks : List Str) (t : ℕ) (s : r.State) (j : Str)
      → elem j ks ≡ false
      → r.view (r.pexpire ks t s).1 j ≡ r.view s j
  -- What a reply says.
  pub get_ok :
      (key : Str) (s : r.State) (o : Option Str)
      → (r.get key s).0 ≡ ok o
      → GetReply o (r.view s key)
  pub keys_ok :
      (p : Str) (s : r.State) (l : List Str) (j : Str)
      → (r.keys p s).0 ≡ ok l
      → elem j l ≡ (r.glob p j && is_some (r.view s j))
  pub exists_ok :
      (key : Str) (s : r.State) (b : Bool) → (r.exists key s).0 ≡ ok b → b ≡ is_some (r.view s key)
  pub smembers_ok :
      (key : Str) (s : r.State) (l : List Str) (m : Str)
      → (r.smembers key s).0 ≡ ok l
      → elem m l ≡ in_item m (r.view s key)
  pub sdiff_ok :
      (a b : Str) (s : r.State) (l : List Str) (m : Str)
      → (r.sdiff a b s).0 ≡ ok l
      → elem m l ≡ (in_item m (r.view s a) && not (in_item m (r.view s b)))
  -- What an accepted write does.
  pub set_ok :
      (key v : Str) (t : ℕ) (s : r.State)
      → (r.set key v t s).0 ≡ ok tt
      → r.view (r.set key v t s).1 key ≡ some (record { content = text v; ttl = t })
  pub unlink_ok :
      (ks : List Str) (s : r.State) (j : Str)
      → (r.unlink ks s).0 ≡ ok tt
      → elem j ks ≡ true
      → r.view (r.unlink ks s).1 j ≡ none
  pub unlink_gone :
      (ks : List Str) (s : r.State) (j : Str)
      → r.view s j ≡ none
      → r.view (r.unlink ks s).1 j ≡ none
  -- UNLINK wants at least one key, and does nothing without.
  pub unlink_empty : (s : r.State) → (e : Str) × ((r.unlink [] s).0 ≡ err e)
  pub sadd_ok :
      (key : Str) (ms : List Str) (s : r.State) (m : Str)
      → (r.sadd key ms s).0 ≡ ok tt
      → in_item m (r.view (r.sadd key ms s).1 key) ≡ (elem m ms || in_item m (r.view s key))
  pub rename_ok :
      (from to : Str) (s : r.State)
      → str_eq from to ≡ false
      → (r.rename from to s).0 ≡ ok tt
      → (r.view (r.rename from to s).1 to ≡ r.view s from)
        × (r.view (r.rename from to s).1 from ≡ none)
  pub pexpire_ok :
      (ks : List Str) (t : ℕ) (s : r.State) (l : List Bool) (j : Str)
      → 0 < t
      → (r.pexpire ks t s).0 ≡ ok l
      → all_true l ≡ true
      → elem j ks ≡ true
      → (i : Item) × (r.view s j ≡ some i)
        × (r.view (r.pexpire ks t s).1 j ≡ some (record i { ttl = t }))
  -- A pattern's part before its first special character is matched as it is, and a final star
  -- matches anything.
  pub glob_head :
      (p q j : Str) → is_plain p ≡ true → r.glob (p ++ q) j ≡ true → has_prefix p j ≡ true
  pub glob_star :
      (p j : Str) → is_plain p ≡ true → has_prefix p j ≡ true → r.glob (p ++ str "*") j ≡ true
