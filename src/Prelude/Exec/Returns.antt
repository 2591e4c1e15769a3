-- ===== src/Prelude/Exec/Returns.antt =====
-- Actions that return a known value, and preserve what holds of the state.
use traefik_kop.Prelude.{◌≡◌, refl, sym, subst}
use traefik_kop.Prelude.Result.{Result, ok}
use traefik_kop.Prelude.Exec.{Exec, pure, lift, ◌>>=◌}
use traefik_kop.Prelude.Exec.Rules.{bind_ok}

-- `m` returns `a` from each state in `P`, and preserves `P`.
pub record Returns {S A : Type 0} (P : S → Type 0) (m : Exec S A) (a : A) : Type 0 where
  pub at : (s : S) → P s → ((m s).0 ≡ ok a) × P (m s).1

module _ {S A : Type 0} {P : S → Type 0} where
  pub Returns-pure : (a : A) → Returns P (pure a) a
  unfolding pure
  Returns-pure a = record { at = λ s h. (refl, h) }

  pub Returns-lift : (r : Result A) (a : A) → r ≡ ok a → Returns P (lift r) a
  unfolding lift
  Returns-lift r a e = record { at = λ s h. (e, h) }

module _ {S A B : Type 0} {P : S → Type 0} where
  pub Returns-bind :
      (m : Exec S A) (f : A → Exec S B) (a : A) (b : B)
      → Returns P m a
      → Returns P (f a) b
      → Returns P (m >>= f) b
  Returns-bind m f a b rm rf = record {
    at = λ s h.
        let (e, k) = rm.at s h in
        subst (λ r. (r.0 ≡ ok b) × P r.1) (sym (bind_ok m f s a e)) (rf.at _ k);
  }
