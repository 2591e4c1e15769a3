-- ===== src/Store/Cleanup.antt =====
-- The keys that the store deletes: those of names that are gone, and those of servers that are
-- gone.
use traefik_kop.Prelude.{
  ◌≡◌, ◌≢◌, refl, ap, sym, subst, ◌∙◌, true, false, none, List, [], ◌∷◌, ◌++◌, arith, ◌⊎◌, inl, inr,
  Bool-cases,
}
use traefik_kop.Prelude.Result.{ok}
use traefik_kop.Prelude.Exec.{Exec, ◌>>=◌, wrap}
use traefik_kop.Prelude.Exec.Rules.{
  Keeps, Keeps-pure, Keeps-bind, Keeps-wrap, Yields, Yields-Keeps, Yields-wrap, Yields-bind,
  Yields-bind_any, bind_ok,
}
use traefik_kop.Text.{Str, str, str_eq, elem, has_prefix}
use traefik_kop.Text.Equality.{eq_iff}
use traefik_kop.Redis.Laws.{Laws, is_plain}
use traefik_kop.Store.{Deps, World, on, key_path, star, wrapped, remove_keys}
use traefik_kop.Store.Steady.{Holds, on-Holds}

module _ {R : Type 0} (d : Deps R) (laws : Laws d.redis) (key : Str) where
  abbrev pub Gone : World d → Type 0
  Gone = Holds d laws key none

  pub unlink-Gone : (ks : List Str) → Keeps Gone (on d (d.redis.unlink ks))
  unfolding on
  unlink-Gone ks = record { at = λ w h. laws.unlink_gone ks w.server key h }

  pub keys-Gone : (p : Str) → Keeps Gone (on d (d.redis.keys p))
  keys-Gone p = on-Holds d laws key none (d.redis.keys p) (λ s. laws.keys_frame p s key)

  -- The keys that a pattern lists hold `key` where the pattern is for its prefix, if it is there.
  pub keys_listed :
      (p : Str)
      → is_plain p ≡ true
      → has_prefix p key ≡ true
      → Yields (λ _. Unit {0}) (on d (d.redis.keys (star p))) (λ l w. (elem key l ≡ true) ⊎ Gone w)
  unfolding on star
  keys_listed p plain starts = record {
    at = λ w h l e.
        let listed = laws.keys_ok (p ++ str "*") w.server l key (ground arith) in
        let matched = laws.glob_star p key plain starts in
        let same = laws.keys_frame (p ++ str "*") w.server key in ground arith;
  }

  pub unlink_listed :
      (l : List Str)
      → Yields (λ w. (elem key l ≡ true) ⊎ Gone w) (on d (d.redis.unlink l)) (λ _. Gone)
  unfolding on
  unlink_listed l = record {
    at = λ w h a e. elim h [
      | inl m ↦ laws.unlink_ok l w.server key (ground arith) m
      | inr g ↦ laws.unlink_gone l w.server key g
    ];
  }

  remove_keys-Gone : (set : Str) (names : List Str) → Keeps Gone (remove_keys d set names)
  unfolding remove_keys
  remove_keys-Gone set [] = Keeps-pure tt
  remove_keys-Gone set (n ∷ ns) =
      Keeps-bind _ _ (Keeps-wrap _ _ (keys-Gone _))
        (λ res. Keeps-bind _ _ (Keeps-wrap _ _ (unlink-Gone res)) (λ _. remove_keys-Gone set ns))

  remove_keys-Yields :
      (set name : Str) (names : List Str)
      → elem name names ≡ true
      → is_plain (key_path set name ++ str "/") ≡ true
      → has_prefix (key_path set name ++ str "/") key ≡ true
      → Yields (λ _. Unit {0}) (remove_keys d set names) (λ _. Gone)
  unfolding remove_keys elem
  remove_keys-Yields set name [] m plain starts = cc
  remove_keys-Yields set name (n ∷ ns) m plain starts = elim (Bool-cases (str_eq name n)) [
    | inl e ↦ rw (← (eq_iff name n).0 e) (
        Yields-bind _ _ (Yields-wrap _ _ (keys_listed _ plain starts)) (λ res.
          Yields-bind _ _ (Yields-wrap _ _ (unlink_listed res))
            (λ _. Yields-Keeps _ (remove_keys-Gone set ns))))
    | inr e ↦ Yields-bind_any _ _ (λ res.
        Yields-bind_any _ _ (λ _. remove_keys-Yields set name ns (ground arith) plain starts))
  ]

  -- Where `removeKeys` returns no error, no key is left under any of the names that it was given.
  -- (The name has no character that is special in a pattern.)
  pub remove_keys-removes :
      (set name : Str) (names : List Str) (w : World d)
      → elem name names ≡ true
      → is_plain (key_path set name ++ str "/") ≡ true
      → has_prefix (key_path set name ++ str "/") key ≡ true
      → (remove_keys d set names w).0 ≡ ok tt
      → d.redis.view (remove_keys d set names w).1.server key ≡ none
  remove_keys-removes set name names w m plain starts h =
      (remove_keys-Yields set name names m plain starts).at w tt tt h

module _ {R : Type 0} (d : Deps R) (laws : Laws d.redis) where
  no_elem : (l : List Str) → ((j : Str) → elem j l ≡ false) → l ≡ []
  unfolding elem
  no_elem [] h = refl
  no_elem (x ∷ l) h = absurd (ground (arith, h x, eq_iff x x))

  -- UNLINK of no key ends the action that it begins.
  unlink_none :
      (g : Str → Str) (rest : Exec (World d) (Unit {0})) (w : World d) (l : List Str)
      → l ≡ []
      → ((wrap g (on d (d.redis.unlink l)) >>= λ _. rest) w).0 ≢ ok tt
        × ((wrap g (on d (d.redis.unlink l)) >>= λ _. rest) w).1.server
          ≡ (d.redis.unlink [] w.server).1
  unfolding wrap on ◌>>=◌
  unlink_none g rest w l h = let (e, p) = laws.unlink_empty w.server in rw h (rw p (λ q. cc, refl))

  unlisted :
      (p : Str) (w : World d) (l : List Str) (j : Str)
      → (d.redis.keys p w.server).0 ≡ ok l
      → (d.redis.glob p j ≡ true → d.redis.view w.server j ≡ none)
      → elem j l ≡ false
  unlisted p w l j h e = ground (arith, laws.keys_ok p w.server l j h)

  keys_answered :
      (f : Str → Str) (w : World d) (p : Str) (l : List Str)
      → (d.redis.keys p w.server).0 ≡ ok l
      → (wrap f (on d (d.redis.keys p)) w).0 ≡ ok l
  unfolding wrap on
  keys_answered f w p l h = ground arith

  keys_left :
      (f : Str → Str) (w : World d) (p j : Str)
      → d.redis.view (wrap f (on d (d.redis.keys p)) w).1.server j ≡ d.redis.view w.server j
  unfolding wrap on
  keys_left f w p j = laws.keys_frame p w.server j

  -- Where KEYS is answered and no key is left under the first name, `removeKeys` fails there and
  -- deletes nothing, whatever keys there are under the names that follow.
  pub remove_keys-stops :
      (set name : Str) (names : List Str) (w : World d) (l : List Str)
      → (d.redis.keys (star (key_path set name ++ str "/")) w.server).0 ≡ ok l
      → ((j : Str)
          → d.redis.glob (star (key_path set name ++ str "/")) j ≡ true
          → d.redis.view w.server j ≡ none)
      → ((remove_keys d set (name ∷ names) w).0 ≢ ok tt)
        × ((j : Str)
            → d.redis.view (remove_keys d set (name ∷ names) w).1.server j
              ≡ d.redis.view w.server j)
  unfolding remove_keys elem
  remove_keys-stops set name names w l answered empty =
      let p = star (key_path set name ++ str "/") in
      let step =
        bind_ok (wrap (wrapped (str "fetch failed")) (on d (d.redis.keys p)))
          (λ res. wrap (wrapped (str "unlink failed")) (on d (d.redis.unlink res)) >>= λ _.
            remove_keys d set names)
          w l (keys_answered _ w p l answered) in
      let w' = (wrap (wrapped (str "fetch failed")) (on d (d.redis.keys p)) w).1 in
      let (fails, server) =
        unlink_none (wrapped (str "unlink failed")) (remove_keys d set names) w' l
          (no_elem l (λ j. unlisted p w l j answered (empty j))) in
      (
        subst (λ r. r.0 ≢ ok tt) (sym step) fails,
        λ j.
            subst (λ r. d.redis.view r.1.server j ≡ d.redis.view w.server j) (sym step)
              (ap (λ t. d.redis.view t j) server
                ∙ laws.unlink_frame [] w'.server j refl
                ∙ keys_left _ w p j),
      )
