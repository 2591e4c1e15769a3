-- ===== src/Prelude/Result.antt =====
-- What a Go function returns: a value, an `error` (its text), or a panic that ends the call. A
-- stateful function is an action of `Exec`: what it wrote before an error stays written.
use mathlib.Core.List.{List}
use mathlib.Core.Path.{◌≡◌, refl}
use Prim.Native.Nat.{ℕ}

pub data Result {ℓ} (A : Type ℓ) : Type ℓ where
  ok : A → Result A
  err : List ℕ → Result A
  panic : Result A

infixl 5 ◌>>=◌ ◌>>◌
abbrev pub ◌>>=◌ {ℓ κ} : {A : Type ℓ} {B : Type κ} → Result A → (A → Result B) → Result B
ok a >>= f = f a
err e >>= f = err e
panic >>= f = panic

abbrev pub ◌>>◌ {ℓ κ} : {A : Type ℓ} {B : Type κ} → Result A → Result B → Result B
m >> n = m >>= λ _. n

-- Where a chain returns a value, its first step has returned one too.
pub bind_inverse :
    {A B : Type 0} (r : Result A) (f : A → Result B) (b : B)
    → (r >>= f) ≡ ok b
    → (a : A) × (r ≡ ok a) × (f a ≡ ok b)
bind_inverse (ok a) f b h = (a, refl, h)
bind_inverse (err e) f b h = cc
bind_inverse panic f b h = cc
