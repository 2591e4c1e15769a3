-- ===== src/Prelude/Exec/Ends.antt =====
-- Actions that end with a value, and actions that end without a panic.
use traefik_kop.Prelude.{
  ◌≡◌, ◌≢◌, refl, subst, sym, Bool, true, false, Option, none, some, if◌then◌else◌,
}
use traefik_kop.Prelude.Result.{Result, ok, err, panic}
use traefik_kop.Prelude.Exec.{
  Exec, pure, lift, deref, ignore, attempt, wrap, forget, or_nothing, on_error, continue, ◌>>=◌,
}
use traefik_kop.Prelude.Exec.Rules.{bind_ok}
use traefik_kop.Prelude.Exec.Returns.{Returns}
use traefik_kop.Text.{Str}

-- From each state in `P`, `m` returns a value in `Q`, and preserves `P`.
pub record Ends {S A : Type 0} (P : S → Type 0) (m : Exec S A) (Q : A → Type 0) : Type 0 where
  pub at : (s : S) → P s → (a : A) × ((m s).0 ≡ ok a) × Q a × P (m s).1

-- `m` does not panic.
pub record Calm {S A : Type 0} (m : Exec S A) : Type 0 where
  pub at : (s : S) → (m s).0 ≢ panic

module _ {S A : Type 0} {P : S → Type 0} {Q : A → Type 0} where
  pub Ends-pure : (a : A) → Q a → Ends P (pure a) Q
  unfolding pure
  Ends-pure a q = record { at = λ s p. (a, refl, q, p) }

  pub Ends-lift : (r : Result A) (a : A) → r ≡ ok a → Q a → Ends P (lift r) Q
  unfolding lift
  Ends-lift r a e q = record { at = λ s p. (a, e, q, p) }

  pub Ends-if :
      (b : Bool) (m n : Exec S A) → Ends P m Q → Ends P n Q → Ends P (if b then m else n) Q
  Ends-if true m n em en = em
  Ends-if false m n em en = en

  pub Returns-Ends : (m : Exec S A) (a : A) → Returns P m a → Q a → Ends P m Q
  Returns-Ends m a r q = record { at = λ s p. let (e, k) = r.at s p in (a, e, q, k) }

module _ {S A B : Type 0} {P : S → Type 0} {Q : B → Type 0} where
  pub Ends-bind :
      {R : A → Type 0} (m : Exec S A) (f : A → Exec S B)
      → Ends P m R
      → ((a : A) → R a → Ends P (f a) Q)
      → Ends P (m >>= f) Q
  Ends-bind m f em ef = record {
    at = λ s p.
        let (a, e, r, k) = em.at s p in
        subst (λ x. (b : B) × (x.0 ≡ ok b) × Q b × P x.1) (sym (bind_ok m f s a e))
          ((ef a r).at _ k);
  }

  pub Ends-bind_deref :
      (o : Option A) (f : A → Exec S B)
      → o ≢ none
      → ((a : A) → o ≡ some a → Ends P (f a) Q)
      → Ends P (deref o >>= f) Q
  unfolding ◌>>=◌ deref
  Ends-bind_deref none f h ef = absurd (h refl)
  Ends-bind_deref (some a) f h ef = record { at = λ s p. (ef a refl).at s p }

module _ {S A : Type 0} where
  pub Calm-pure : (a : A) → Calm {S = S} (pure a)
  unfolding pure
  Calm-pure a = record { at = λ s e. cc }

  pub Calm-err : (e : Str) → Calm {S = S} (lift {A = A} (err e))
  unfolding lift
  Calm-err e = record { at = λ s h. cc }

  pub Calm-wrap : (f : Str → Str) (m : Exec S A) → Calm m → Calm (wrap f m)
  unfolding wrap
  Calm-wrap f m c = record { at = λ s. kept_calm (m s).0 (c.at s) }
    where
      kept_calm : (r : Result A) → r ≢ panic → on_error f r ≢ panic
      kept_calm (ok a) h e = cc
      kept_calm (err x) h e = cc
      kept_calm panic h e = h refl

  -- A caller that drops the error goes on, where there is no panic.
  pub ignore-Ends : (m : Exec S A) → Calm m → Ends (λ s. Unit {0}) (ignore m) (λ u. Unit {0})
  unfolding ignore
  ignore-Ends m c = record { at = λ s p. (tt, forgotten (m s).0 (c.at s), tt, tt) }
    where
      forgotten : (r : Result A) → r ≢ panic → forget r ≡ ok tt
      forgotten (ok a) h = refl
      forgotten (err x) h = refl
      forgotten panic h = absurd (h refl)

  pub attempt-Ends : (m : Exec S A) → Calm m → Ends (λ s. Unit {0}) (attempt m) (λ u. Unit {0})
  unfolding attempt
  attempt-Ends m c = record { at = λ s p. let (o, e) = tried (m s).0 (c.at s) in (o, e, tt, tt) }
    where
      tried : (r : Result A) → r ≢ panic → (o : Option A) × (or_nothing r ≡ ok o)
      tried (ok a) h = (some a, refl)
      tried (err x) h = (none, refl)
      tried panic h = absurd (h refl)

module _ {S A B : Type 0} where
  Calm-continue :
      (r : Result A) (f : A → Exec S B) (s : S)
      → r ≢ panic
      → ((a : A) → Calm (f a))
      → (continue r f s).0 ≢ panic
  Calm-continue (ok a) f s h c = (c a).at s
  Calm-continue (err x) f s h c = λ e. cc
  Calm-continue panic f s h c = absurd (h refl)

  pub Calm-bind :
      (m : Exec S A) (f : A → Exec S B) → Calm m → ((a : A) → Calm (f a)) → Calm (m >>= f)
  unfolding ◌>>=◌
  Calm-bind m f cm cf = record { at = λ s. Calm-continue (m s).0 f (m s).1 (cm.at s) cf }

module _ {S A : Type 0} where
  pub Ends-Calm : {Q : A → Type 0} (m : Exec S A) → Ends (λ s. Unit {0}) m Q → Calm m
  Ends-Calm m ends = record { at = λ s e. let (a, q, _, _) = ends.at s tt in cc }
