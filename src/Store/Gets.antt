-- ===== src/Store/Gets.antt =====
-- store.go: what `Gets` answers.
use traefik_kop.Prelude.{
  ◌≡◌, refl, sym, ap, subst, ◌∙◌, Bool, true, false, ◌&&◌, Option, none, some, List, [], ◌∷◌, arith,
  Bool-cases, inl, inr, if◌then◌else◌,
}
use traefik_kop.Prelude.Result.{ok}
use traefik_kop.Prelude.Exec.{pure}
use traefik_kop.Prelude.Exec.Rules.{Yields, Yields-wrap, Yields-bind}
use traefik_kop.Prelude.Exec.Gives.{ok-injective}
use traefik_kop.Text.{Str, str_eq, elem}
use traefik_kop.Text.Equality.{eq_iff}
use traefik_kop.Text.Dict.{Dict, lookup, insert, lookup-insert}
use traefik_kop.Redis.{text, members, Item}
use traefik_kop.Redis.Laws.{Laws, is_some, GetReply}
use traefik_kop.Store.{Deps, World, on, get, gets_all, gets_matching}

-- the text that a key holds
abbrev pub text_of : Option Item → Option Str
text_of none = none
text_of (some i) = elim i.content [ text v ↦ some v | members ms ↦ none ]

-- what `Get` makes of a reply is the text of the key
read-text :
    (o : Option Str) (held : Option Item)
    → GetReply o held
    → is_some held ≡ true
    → text_of held ≡ some (elim o [ none ↦ [] | some v ↦ v ])
read-text none held h there = ground arith
read-text (some v) none h there = absurd h
read-text (some v) (some i) h there = rw h refl

module _ {R : Type 0} (d : Deps R) (laws : Laws d.redis) (held : Str → Option Item) where
  -- The server holds what `held` says.
  abbrev Held : World d → Type 0
  Held w = (j : Str) → d.redis.view w.server j ≡ held j

  abbrev AllRead : List Str → Dict Str → Dict Str → Type 0
  AllRead found vals kv =
      (key : Str)
      → (elem key found ≡ true → is_some (held key) ≡ true → lookup key kv ≡ text_of (held key))
        × (elem key found ≡ false → lookup key kv ≡ lookup key vals)

  get-Yields :
      (key : Str)
      → Yields Held
          (get d key)
          (λ v w. Held w × (is_some (held key) ≡ true → text_of (held key) ≡ some v))
  unfolding get on pure
  get-Yields key =
      Yields-bind {R = λ o w. Held w × GetReply o (held key)} _ _
        (Yields-wrap _ _ (record {
          at = λ w h o e. (
            λ j. laws.get_frame key w.server j ∙ h j,
            subst (GetReply o) (h key) (laws.get_ok key w.server o e),
          );
        }))
        (λ o. record {
          at = λ w h v e.
              (h.0, λ there. read-text o (held key) h.1 there ∙ ap some (ok-injective e));
        })

  read-step :
      (j key : Str) (rest : List Str) (vals kv : Dict Str) (v : Str)
      → (is_some (held key) ≡ true → text_of (held key) ≡ some v)
      → AllRead rest (insert key v vals) kv
      → (elem j (key ∷ rest) ≡ true → is_some (held j) ≡ true → lookup j kv ≡ text_of (held j))
        × (elem j (key ∷ rest) ≡ false → lookup j kv ≡ lookup j vals)
  unfolding elem
  read-step j key rest vals kv v one all = elim (Bool-cases (elem j rest)) [
    | inl later ↦ (λ f there. (all j).0 later there, λ n. absurd (ground arith))
    | inr only ↦ (
      λ f there.
          let same : key ≡ j = sym ((eq_iff j key).0 (ground arith)) in
          let here : (if str_eq key j then some v else lookup j vals) ≡ some v =
            ground (arith, eq_iff key j) in
          (all j).1 only
          ∙ lookup-insert key j v vals
          ∙ here
          ∙ sym (subst (λ i. is_some (held i) ≡ true → text_of (held i) ≡ some v) same one there),
      λ n. (all j).1 only ∙ lookup-insert key j v vals ∙ ground (arith, eq_iff key j, eq_iff j key),
    )
  ]

  gets_all-Yields :
      (found : List Str) (vals : Dict Str)
      → Yields Held (gets_all d found vals) (λ kv w. AllRead found vals kv)
  unfolding gets_all pure elem
  gets_all-Yields [] vals = record {
    at = λ w h kv e key. (λ f there. cc, λ n. ap (lookup key) (ok-injective (sym e)));
  }
  gets_all-Yields (key ∷ rest) vals = Yields-bind _ _ (Yields-wrap _ _ (get-Yields key)) (λ v.
      record {
        at = λ w h kv e j.
            read-step j key rest vals kv v h.1
              ((gets_all-Yields rest (insert key v vals)).at w h.0 kv e);
      })

  gets_matching-Yields :
      (pattern : Str)
      → Yields Held (gets_matching d pattern) (λ kv w.
        (key : Str)
        → lookup key kv ≡ (if d.redis.glob pattern key then text_of (held key) else none))
  unfolding gets_matching on lookup
  gets_matching-Yields pattern =
      Yields-bind
        {R = λ l w. Held w × ((j : Str) → elem j l ≡ (d.redis.glob pattern j && is_some (held j)))}
        _ _
        (Yields-wrap _ _ (record {
          at = λ w h l e. (
            λ j. laws.keys_frame pattern w.server j ∙ h j,
            λ j.
                laws.keys_ok pattern w.server l j e
                ∙ ap (λ o. d.redis.glob pattern j && is_some o) (h j),
          );
        }))
        (λ l. record {
          at = λ w h kv e key.
              settle (d.redis.glob pattern key) (held key) (elem key l) (lookup key kv) (h.1 key)
                ((gets_all-Yields l []).at w h.0 kv e key);
        })
    where
      settle :
          (b : Bool) (o : Option Item) (listed : Bool) (r : Option Str)
          → listed ≡ (b && is_some o)
          → (listed ≡ true → is_some o ≡ true → r ≡ text_of o) × (listed ≡ false → r ≡ none)
          → r ≡ (if b then text_of o else none)
      settle false o listed r h (listing, missing) = missing h
      settle true none listed r h (listing, missing) = missing h
      settle true (some i) listed r h (listing, missing) = listing h refl

-- Where `Gets` returns no error, a key is in its answer exactly where the pattern matches it and
-- the server holds it, with the text that it holds.
pub gets_matching-lookup :
    {R : Type 0} (d : Deps R) (laws : Laws d.redis) (pattern key : Str) (w : World d)
    {kv : Dict Str}
    → (gets_matching d pattern w).0 ≡ ok kv
    → lookup key kv
      ≡ (if d.redis.glob pattern key then text_of (d.redis.view w.server key) else none)
gets_matching-lookup d laws pattern key w {kv} e =
    (gets_matching-Yields d laws (d.redis.view w.server) pattern).at w (λ j. refl) kv e key
