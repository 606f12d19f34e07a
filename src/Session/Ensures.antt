-- ===== src/Session/Ensures.antt =====
-- Postconditions of the session's functions (site/flash-session.js): what holds if a run returns,
-- with a rule for each way to compose runs.
use frogalert.Protocol.{Fault}
use frogalert.Session.{State, M, SessionError, resume, ◌>>=◌, ◌>>◌, throw_if, checked, Fault}
use frogalert.Prelude.{◌≡◌, refl, Result, ok, err, Bool, false, true}

-- A postcondition of a run that returns.
abbrev pub Post : {W A : Type 0} → (A → State W → Type 0) → Result SessionError A × State W → Type 0
Post Q (ok a, s) = Q a s
Post Q (err e, s) = Unit

abbrev pub Ensures : {W A : Type 0} → (State W → Type 0) → M W A → (A → State W → Type 0) → Type 0
Ensures {W} P m Q = (s : State W) → P s → Post Q (m s)

pub Post-resume :
    {W A B : Type 0} (Q : A → State W → Type 0) (R : B → State W → Type 0)
    (r : Result SessionError A × State W) (f : A → M W B)
    → Post Q r
    → ((a : A) → Ensures (Q a) (f a) R)
    → Post R (resume r f)
Post-resume Q R (ok a, s) f q k = k a s q
Post-resume Q R (err e, s) f q k = tt

pub Ensures-bind :
    {W A B : Type 0} (P : State W → Type 0) (Q : A → State W → Type 0) (R : B → State W → Type 0)
    (m : M W A) (f : A → M W B)
    → Ensures P m Q
    → ((a : A) → Ensures (Q a) (f a) R)
    → Ensures P (m >>= f) R
Ensures-bind P Q R m f h k s p = Post-resume Q R (m s) f (h s p) k

pub Post-always :
    {W A : Type 0} (Q : A → State W → Type 0) (r : Result SessionError A) (s : State W)
    → ((a : A) → r ≡ ok a → Q a s)
    → Post Q (r, s)
Post-always Q (ok a) s q = q a refl
Post-always Q (err e) s q = tt

pub Ensures-checked-bind :
    {W A B : Type 0} (P : State W → Type 0) (R : B → State W → Type 0) (r : Result Fault A)
    (f : A → M W B)
    → ((a : A) → r ≡ ok a → Ensures P (f a) R)
    → Ensures P (checked r >>= f) R
Ensures-checked-bind P R (ok a) f k s p = k a refl s p
Ensures-checked-bind P R (err e) f k s p = tt

pub Ensures-throw_if-bind :
    {W B : Type 0} (P : State W → Type 0) (R : B → State W → Type 0) (b : Bool) (e : SessionError)
    (m : M W B)
    → (b ≡ false → Ensures P m R)
    → Ensures P (throw_if b e >> m) R
Ensures-throw_if-bind P R true e m k s p = tt
Ensures-throw_if-bind P R false e m k s p = k refl s p

pub Ensures-nothing : {W A : Type 0} (m : M W A) → Ensures (λ _. Unit {0}) m (λ _ _. Unit {0})
Ensures-nothing {W} {A} m s p = all (m s)
  where
    all : (r : Result SessionError A × State W) → Post (λ _ _. Unit {0}) r
    all (ok a, s') = tt
    all (err e, s') = tt
