-- ===== src/Prelude/Exec.antt =====
-- Actions on a state that may fail. What was written before an error stays written, so the state
-- comes back beside the error too.
pub mod Rules
pub mod Returns
pub mod Gives
pub mod Ends
use traefik_kop.Prelude.Result.{Result, ok, err, panic}
use mathlib.Core.Option.{Option, none, some}
use mathlib.Core.List.{List}
use Prim.Native.Nat.{ℕ}

abbrev pub Exec {ℓ} : Type ℓ → Type ℓ → Type ℓ
Exec S A = S → Result A × S

module _ {ℓ} {S A : Type ℓ} where
  unfoldable pub pure : A → Exec S A
  pure a s = (ok a, s)

  -- a result that was computed without the state
  unfoldable pub lift : Result A → Exec S A
  lift r s = (r, s)

  -- a pointer that is read through: nil panics
  unfoldable pub deref : Option A → Exec S A
  deref none s = (panic, s)
  deref (some a) s = (ok a, s)

  unfoldable pub gets : (S → A) → Exec S A
  gets f s = (ok (f s), s)

abbrev pub forget {ℓ} : {A : Type ℓ} → Result A → Result (Unit {0})
forget (ok a) = ok tt
forget (err e) = ok tt
forget panic = panic

module _ {A S : Type 0} where
  -- a call whose error the caller drops
  unfoldable pub ignore : Exec S A → Exec S (Unit {0})
  ignore m s = let (r, s') = m s in (forget r, s')

module _ {S : Type 0} where
  unfoldable pub modify : (S → S) → Exec S (Unit {0})
  modify f s = (ok tt, f s)

abbrev pub or_nothing {ℓ} : {A : Type ℓ} → Result A → Result (Option A)
or_nothing (ok a) = ok (some a)
or_nothing (err e) = ok none
or_nothing panic = panic

module _ {ℓ} {S A : Type ℓ} where
  -- a call after whose error the caller goes on without the value
  unfoldable pub attempt : Exec S A → Exec S (Option A)
  attempt m s = let (r, s') = m s in (or_nothing r, s')

module _ {ℓ} {S A B : Type ℓ} where
  abbrev pub continue : Result A → (A → Exec S B) → Exec S B
  continue (ok a) f s = f a s
  continue (err e) f s = (err e, s)
  continue panic f s = (panic, s)

  infixl 10 ◌>>=◌ ◌>>◌
  unfoldable pub ◌>>=◌ : Exec S A → (A → Exec S B) → Exec S B
  unfolding pure lift deref gets
  ◌>>=◌ m f s = let (r, s') = m s in continue r f s'

  abbrev pub ◌>>◌ : Exec S A → Exec S B → Exec S B
  m >> n = m >>= λ _. n

abbrev pub on_error {ℓ} : {A : Type ℓ} → (List ℕ → List ℕ) → Result A → Result A
on_error f (ok a) = ok a
on_error f (err e) = err (f e)
on_error f panic = panic

module _ {ℓ} {S A : Type ℓ} where
  -- `errors.Wrap`: the message of an error is changed by `f`
  unfoldable pub wrap : (List ℕ → List ℕ) → Exec S A → Exec S A
  wrap f m s = let (r, s') = m s in (on_error f r, s')
