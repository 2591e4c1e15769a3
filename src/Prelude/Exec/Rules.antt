-- ===== src/Prelude/Exec/Rules.antt =====
-- What actions preserve and what holds when they succeed: one rule for each way to build an action.
use traefik_kop.Prelude.{
  ℕ, ◌≡◌, ◌≢◌, refl, Option, none, some, List, Bool, true, false, arith, if◌then◌else◌,
}
use traefik_kop.Prelude.Result.{Result, ok, err, panic}
use traefik_kop.Prelude.Exec.{Exec, pure, lift, deref, gets, ignore, attempt, continue, ◌>>=◌, wrap}

-- `m` preserves `P`, however it ends.
pub record Keeps {S A : Type 0} (P : S → Type 0) (m : Exec S A) : Type 0 where
  pub at : (s : S) → P s → P (m s).1

-- Where `m` starts in `P` and returns `a`, `Q a` holds of the state that it leaves.
pub record Yields {S A : Type 0} (P : S → Type 0) (m : Exec S A) (Q : A → S → Type 0) : Type 0 where
  pub at : (s : S) → P s → (a : A) → (m s).0 ≡ ok a → Q a (m s).1

module _ {S A : Type 0} {P : S → Type 0} where
  pub Keeps-pure : (value : A) → Keeps P (pure value)
  unfolding pure
  Keeps-pure value = record { at = λ _ held. held }

  pub Keeps-lift : (r : Result A) → Keeps P (lift r)
  unfolding lift
  Keeps-lift r = record { at = λ _ held. held }

  pub Keeps-if : (b : Bool) (m n : Exec S A) → Keeps P m → Keeps P n → Keeps P (if b then m else n)
  Keeps-if true m n km kn = km
  Keeps-if false m n km kn = kn

  pub Keeps-deref : (o : Option A) → Keeps P (deref o)
  unfolding deref
  Keeps-deref none = record { at = λ _ held. held }
  Keeps-deref (some a) = record { at = λ _ held. held }

  pub Keeps-gets : (f : S → A) → Keeps P (gets f)
  unfolding gets
  Keeps-gets f = record { at = λ _ held. held }

  pub Keeps-ignore : (m : Exec S A) → Keeps P m → Keeps P (ignore m)
  unfolding ignore
  Keeps-ignore m k = record { at = λ s h. k.at s h }

  pub Keeps-attempt : (m : Exec S A) → Keeps P m → Keeps P (attempt m)
  unfolding attempt
  Keeps-attempt m k = record { at = λ s h. k.at s h }

  pub Keeps-wrap : (f : List ℕ → List ℕ) (m : Exec S A) → Keeps P m → Keeps P (wrap f m)
  unfolding wrap
  Keeps-wrap f m k = record { at = λ s h. k.at s h }

  pub Yields-Keeps : (m : Exec S A) → Keeps P m → Yields P m (λ _. P)
  Yields-Keeps m k = record { at = λ s h a e. k.at s h }

  pub Yields-if :
      {Q : A → S → Type 0} (b : Bool) (m n : Exec S A)
      → (b ≡ true → Yields P m Q)
      → (b ≡ false → Yields P n Q)
      → Yields P (if b then m else n) Q
  Yields-if true m n ym yn = ym refl
  Yields-if false m n ym yn = yn refl

  pub Yields_anywhere :
      {Q : A → S → Type 0} (m : Exec S A) → Yields (λ _. Unit {0}) m Q → Yields P m Q
  Yields_anywhere m y = record { at = λ s h. y.at s tt }

  -- an error that is only reworded is still an error
  pub Yields-wrap :
      {Q : A → S → Type 0} (f : List ℕ → List ℕ) (m : Exec S A)
      → Yields P m Q
      → Yields P (wrap f m) Q
  unfolding wrap
  Yields-wrap f m y = record { at = λ s h a e. y.at s h a (ground arith) }

module _ {S A B : Type 0} {P : S → Type 0} where
  Keeps-continue :
      (r : Result A) (f : A → Exec S B) (s : S)
      → P s
      → ((a : A) → Keeps P (f a))
      → P (continue r f s).1
  Keeps-continue (ok a) f s h k = (k a).at s h
  Keeps-continue (err e) f s h k = h
  Keeps-continue panic f s h k = h

  pub Keeps-bind :
      (first : Exec S A) (next : A → Exec S B)
      → Keeps P first
      → ((a : A) → Keeps P (next a))
      → Keeps P (first >>= next)
  unfolding ◌>>=◌
  Keeps-bind first next kept rest = record {
    at = λ s p. Keeps-continue (first s).0 next (first s).1 (kept.at s p) rest;
  }

module _ {S A B : Type 0} where
  Yields-continue :
      {R : A → S → Type 0} {Q : B → S → Type 0} (r : Result A) (f : A → Exec S B) (s : S)
      → ((a : A) → Yields (R a) (f a) Q)
      → ((a : A) → r ≡ ok a → R a s)
      → (b : B) → (continue r f s).0 ≡ ok b
      → Q b (continue r f s).1
  Yields-continue (ok a) f s y h b e = (y a).at s (h a refl) b e
  Yields-continue (err x) f s y h b e = cc
  Yields-continue panic f s y h b e = cc

  pub Yields-bind :
      {P : S → Type 0} {R : A → S → Type 0} {Q : B → S → Type 0} (m : Exec S A) (f : A → Exec S B)
      → Yields P m R
      → ((a : A) → Yields (R a) (f a) Q)
      → Yields P (m >>= f) Q
  unfolding ◌>>=◌
  Yields-bind m f ym yf = record { at = λ s h. Yields-continue (m s).0 f (m s).1 yf (ym.at s h) }

module _ {S A B : Type 0} {P : S → Type 0} where
  Keeps-continue_reply :
      {Q : A → Type 0} (r : Result A) (f : A → Exec S B) (s : S)
      → ((a : A) → r ≡ ok a → Q a)
      → ((a : A) → Q a → Keeps P (f a))
      → P s
      → P (continue r f s).1
  Keeps-continue_reply (ok a) f s q k h = (k a (q a refl)).at s h
  Keeps-continue_reply (err e) f s q k h = h
  Keeps-continue_reply panic f s q k h = h

  -- what follows may use what a returned value says
  pub Keeps-bind_reply :
      {Q : A → Type 0} (m : Exec S A) (f : A → Exec S B)
      → Keeps P m
      → ((s : S) → P s → (a : A) → (m s).0 ≡ ok a → Q a)
      → ((a : A) → Q a → Keeps P (f a))
      → Keeps P (m >>= f)
  unfolding ◌>>=◌
  Keeps-bind_reply m f km q kf = record {
    at = λ s h. Keeps-continue_reply (m s).0 f (m s).1 (q s h) kf (km.at s h);
  }

-- Wrapping an error changes no value that is returned.
pub wrap_ok {ℓ} :
    {S A : Type ℓ} (f : List ℕ → List ℕ) (m : Exec S A) (s : S) (a : A)
    → (wrap f m s).0 ≡ ok a
    → (m s).0 ≡ ok a
unfolding wrap
wrap_ok f m s a h = ground arith

module _ {S A B : Type 0} where
  -- a value that is at hand
  pub Yields-lift_ok :
      {P : S → Type 0} {Q : B → S → Type 0} (a : A) (f : A → Exec S B)
      → Yields P (f a) Q
      → Yields P (lift (ok a) >>= f) Q
  unfolding ◌>>=◌
  Yields-lift_ok a f y = record { at = λ s h b e. y.at s h b e }

  -- the result of a computation without the state, with its equation
  pub Yields-bind_lift :
      {P : S → Type 0} {Q : B → S → Type 0} (r : Result A) (f : A → Exec S B)
      → ((a : A) → r ≡ ok a → Yields P (f a) Q)
      → Yields P (lift r >>= f) Q
  unfolding ◌>>=◌
  Yields-bind_lift (ok a) f y = record { at = λ s h b e. (y a refl).at s h b e }
  Yields-bind_lift (err x) f y = record { at = λ s h b e. cc }
  Yields-bind_lift panic f y = record { at = λ s h b e. cc }

  pub Keeps-bind_lift :
      {P : S → Type 0} (r : Result A) (f : A → Exec S B)
      → ((a : A) → r ≡ ok a → Keeps P (f a))
      → Keeps P (lift r >>= f)
  unfolding ◌>>=◌
  Keeps-bind_lift (ok a) f k = record { at = λ s h. (k a refl).at s h }
  Keeps-bind_lift (err x) f k = record { at = λ _ held. held }
  Keeps-bind_lift panic f k = record { at = λ _ held. held }

  -- a pointer that is read through, with what it points to
  pub Yields-bind_deref :
      {P : S → Type 0} {Q : B → S → Type 0} (o : Option A) (f : A → Exec S B)
      → ((a : A) → o ≡ some a → Yields P (f a) Q)
      → Yields P (deref o >>= f) Q
  unfolding ◌>>=◌
  Yields-bind_deref none f y = record { at = λ s h b e. cc }
  Yields-bind_deref (some a) f y = record { at = λ s h b e. (y a refl).at s h b e }

  -- a first step of which nothing is needed
  pub Yields-bind_any :
      {P : S → Type 0} {Q : B → S → Type 0} (m : Exec S A) (f : A → Exec S B)
      → ((a : A) → Yields (λ _. Unit {0}) (f a) Q)
      → Yields P (m >>= f) Q
  Yields-bind_any m f y = Yields-bind m f (record { at = λ s h a e. tt }) y

  -- a first step that preserves what holds
  pub Yields-bind_Keeps :
      {P : S → Type 0} {Q : B → S → Type 0} (m : Exec S A) (f : A → Exec S B)
      → Keeps P m
      → ((a : A) → Yields P (f a) Q)
      → Yields P (m >>= f) Q
  Yields-bind_Keeps m f k y = Yields-bind m f (Yields-Keeps m k) y

-- After a step that returns a value the rest runs on that value.
pub bind_ok {ℓ} :
    {S A B : Type ℓ} (m : Exec S A) (f : A → Exec S B) (s : S) (a : A)
    → (m s).0 ≡ ok a
    → (m >>= f) s ≡ f a (m s).1
unfolding ◌>>=◌
bind_ok m f s a h = rw (h, continue)

-- Where `m` starts in `P` and returns no value, `Q` holds of the state that it leaves.
pub record Fails {S A : Type 0} (P : S → Type 0) (m : Exec S A) (Q : S → Type 0) : Type 0 where
  pub at : (s : S) → P s → ((a : A) → (m s).0 ≢ ok a) → Q (m s).1

module _ {S A B : Type 0} {P : S → Type 0} where
  Fails-continue :
      {Q : S → Type 0} (r : Result A) (f : A → Exec S B) (s : S)
      → ((s : S) → P s → Q s)
      → ((a : A) → Fails P (f a) Q)
      → P s
      → ((b : B) → (continue r f s).0 ≢ ok b)
      → Q (continue r f s).1
  Fails-continue (ok a) f s w k h n = (k a).at s h n
  Fails-continue (err e) f s w k h n = w s h
  Fails-continue panic f s w k h n = w s h

  pub Fails-bind :
      (m : Exec S A) (f : A → Exec S B)
      → Keeps P m
      → ((a : A) → Fails P (f a) P)
      → Fails P (m >>= f) P
  unfolding ◌>>=◌
  Fails-bind m f km kf = record {
    at = λ s h n. Fails-continue (m s).0 f (m s).1 (λ s h. h) kf (km.at s h) n;
  }

pub ruleset keeps_rules =
    (Keeps-pure, Keeps-lift, Keeps-deref, Keeps-gets, Keeps-ignore, Keeps-wrap, Keeps-bind)
