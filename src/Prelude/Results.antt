-- ===== src/Prelude/Results.antt =====
-- Code that may throw: a value or the error, with `do` blocks.
use mathlib.Core.Bool.{Bool, true, false, not}
use mathlib.Core.Path.{◌≡◌, refl}
use native.Mathlib.Omega.{arith}

pub data Result {ℓ} (E : Type 0) (A : Type ℓ) : Type ℓ where
  ok : A → Result E A
  err : E → Result E A

-- A statement that throws ends the function; any other hands its value on.
infixl 5 ◌>>=◌ ◌>>◌
module _ {ℓ κ} {E : Type 0} {A : Type ℓ} {B : Type κ} where
  abbrev pub ◌>>=◌ : Result E A → (A → Result E B) → Result E B
  ◌>>=◌ (err thrown) rest = err thrown
  ◌>>=◌ (ok value) rest = rest value

module _ {κ} {E : Type 0} {B : Type κ} where
  abbrev pub ◌>>◌ : Result E (Unit {0}) → Result E B → Result E B
  ◌>>◌ (err thrown) rest = err thrown
  ◌>>◌ (ok done) rest = rest

-- `if (test) throw e`.
abbrev pub throw_if : {E : Type 0} → Bool → E → Result E (Unit {0})
throw_if false e = ok tt
throw_if true e = err e

-- What a result says of the guard before it.
pub guarded :
    {E A : Type 0} {x w : A} (b : Bool) (e : E)
    → (throw_if (not b) e >> ok x) ≡ ok w
    → (b ≡ true) × (x ≡ w)
guarded b e h = ground arith

-- What a result says of the computation before it.
pub bound :
    {E A B : Type 0} {w : B} (m : Result E A) (rest : A → Result E B)
    → (m >>= rest) ≡ ok w
    → (a : A) × (m ≡ ok a) × (rest a ≡ ok w)
bound (ok a) rest h = (a, refl, h)
bound (err e) rest h = absurd (ground arith)

-- A statement before the rest has passed.
pub passed :
    {E B : Type 0} {w : B} (m : Result E (Unit {0})) (rest : Result E B)
    → (m >> rest) ≡ ok w
    → (m ≡ ok tt) × (rest ≡ ok w)
passed (ok tt) rest h = (refl, h)
passed (err e) rest h = absurd (ground arith)

pub not_thrown : {E : Type 0} (b : Bool) (e : E) → throw_if b e ≡ ok tt → b ≡ false
not_thrown b e h = ground arith
