-- ===== src/Prelude/Exec/Gives.antt =====
-- What holds of the values that actions return, in whatever state they run.
use traefik_kop.Prelude.{◌≡◌, refl, subst, Option, none, some}
use traefik_kop.Prelude.Result.{Result, ok, err, panic}
use traefik_kop.Prelude.Exec.{Exec, pure, deref, continue, ◌>>=◌}
use traefik_kop.Prelude.Exec.Rules.{Yields}

-- Each value that `m` returns satisfies `Q`.
pub record Gives {S A : Type 0} (m : Exec S A) (Q : A → Type 0) : Type 0 where
  pub at : (s : S) (a : A) → (m s).0 ≡ ok a → Q a

pub ok-injective : {A : Type 0} {a b : A} → ok a ≡ ok b → a ≡ b
ok-injective h = cc

module _ {S A : Type 0} where
  pub Gives-pure : {Q : A → Type 0} (a : A) → Q a → Gives {S = S} (pure a) Q
  unfolding pure
  Gives-pure {Q} a q = record { at = λ s b e. subst Q (ok-injective e) q }

  pub Gives_any : (m : Exec S A) → Gives m (λ a. Unit {0})
  Gives_any m = record { at = λ s a e. tt }

  pub Yields-Gives :
      {P : S → Type 0} {Q : A → Type 0} (m : Exec S A) → Gives m Q → Yields P m (λ a s. Q a)
  Yields-Gives m g = record { at = λ s h a e. g.at s a e }

module _ {S A B : Type 0} {Q : B → Type 0} where
  Gives-continue :
      (r : Result A) (f : A → Exec S B) (s : S)
      → ((a : A) → r ≡ ok a → Gives (f a) Q)
      → (b : B) → (continue r f s).0 ≡ ok b
      → Q b
  Gives-continue (ok a) f s g b e = (g a refl).at s b e
  Gives-continue (err x) f s g b e = cc
  Gives-continue panic f s g b e = cc

  pub Gives-bind :
      {R : A → Type 0} (m : Exec S A) (f : A → Exec S B)
      → Gives m R
      → ((a : A) → R a → Gives (f a) Q)
      → Gives (m >>= f) Q
  unfolding ◌>>=◌
  Gives-bind m f gm gf = record {
    at = λ s b e. Gives-continue (m s).0 f (m s).1 (λ a q. gf a (gm.at s a q)) b e;
  }

  pub Gives-bind_deref :
      (o : Option A) (f : A → Exec S B)
      → ((a : A) → o ≡ some a → Gives (f a) Q)
      → Gives (deref o >>= f) Q
  unfolding ◌>>=◌ deref
  Gives-bind_deref none f g = record { at = λ s b e. cc }
  Gives-bind_deref (some a) f g = record { at = λ s b e. (g a refl).at s b e }
