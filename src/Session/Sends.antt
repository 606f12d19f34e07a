-- ===== src/Session/Sends.antt =====
-- What a function of the session sends, whatever the environment does: its whole script if it
-- returns, and a first part of it if it throws. The padding byte is random, so packets are compared
-- with the byte at its place cleared.
use frogalert.Session.{State, M, ◌>>=◌, ◌>>◌, throw_if, SessionError, resume, return, checked}
use frogalert.Protocol.{Fault}
use frogalert.Prelude.{
  ℕ, ◌≡◌, refl, ap, sym, ◌∙◌, List, [], ◌++◌, map, set, Result, ok, err, append-nil, append_assoc,
  Bool, false, true,
}

abbrev pub clear_padding : List ℕ → List ℕ
clear_padding packet = set packet 7 0

abbrev pub cleared : List (List ℕ) → List (List ℕ)
cleared packets = map clear_padding packets

-- `sent` is `before` and then the script, or a part of it when the run threw.
pub data Follows (script : List (List ℕ)) (before after : List (List ℕ)) {A : Type 0}
    : Result SessionError A → Type 0 where
  finished : {a : A} → after ≡ before ++ script → Follows script before after (ok a)
  stopped :
      {e : SessionError} (first rest : List (List ℕ))
      → script ≡ first ++ rest
      → after ≡ before ++ first
      → Follows script before after (err e)

abbrev pub Sends : {W A : Type 0} → List (List ℕ) → M W A → Type 0
Sends {W} script m = (s : State W) → Follows script (cleared s.sent) (cleared (m s).1.sent) (m s).0

-- A later part follows a part that was sent in full.
Follows-after :
    {A : Type 0} (p q before mid : List (List ℕ)) {after : List (List ℕ)}
    {r : Result SessionError A}
    → mid ≡ before ++ p
    → Follows q mid after r
    → Follows (p ++ q) before after r
Follows-after p q before mid h (finished e) =
    finished (e ∙ ap (λ l. l ++ q) h ∙ append_assoc before p q)
Follows-after p q before mid h (stopped first rest split e) =
    stopped (p ++ first) rest (ap (λ l. p ++ l) split ∙ sym (append_assoc p first rest))
      (e ∙ ap (λ l. l ++ first) h ∙ append_assoc before p first)

Follows-resume :
    {W A B : Type 0} (p q before : List (List ℕ)) (r : Result SessionError A × State W)
    (f : A → M W B)
    → Follows p before (cleared r.1.sent) r.0
    → ((a : A) → Sends q (f a))
    → Follows (p ++ q) before (cleared (resume r f).1.sent) (resume r f).0
Follows-resume p q before (ok a, s) f (finished e) k =
    Follows-after p q before (cleared s.sent) e (k a s)
Follows-resume p q before (err x, s) f (stopped first rest split e) k =
    stopped first (rest ++ q) (ap (λ l. l ++ q) split ∙ append_assoc first rest q) e

-- The rules: a sequence sends the two scripts one after the other.
pub Sends-bind :
    {W A B : Type 0} (p q : List (List ℕ)) (m : M W A) (f : A → M W B)
    → Sends p m
    → ((a : A) → Sends q (f a))
    → Sends (p ++ q) (m >>= f)
Sends-bind p q m f h k s = Follows-resume p q (cleared s.sent) (m s) f (h s) k

-- What only reads the state, or changes the world, sends nothing.
pub Sends-nothing :
    {W A : Type 0} (m : M W A) → ((s : State W) → (m s).1.sent ≡ s.sent) → Sends [] m
Sends-nothing {A} m quiet s = keep (m s).0
  where
    same : cleared (m s).1.sent ≡ cleared s.sent ++ []
    same = ap cleared (quiet s) ∙ sym (append-nil (cleared s.sent))

    keep : (r : Result SessionError A) → Follows [] (cleared s.sent) (cleared (m s).1.sent) r
    keep (ok a) = finished same
    keep (err e) = stopped [] [] refl same

pub Sends-return : {W A : Type 0} (a : A) → Sends [] (return {W = W} a)
Sends-return {W} a = Sends-nothing (return {W = W} a) (λ s. refl)

pub Sends-checked : {W A : Type 0} (r : Result Fault A) → Sends [] (checked {W = W} r)
Sends-checked {W} (ok a) = Sends-nothing (checked {W = W} (ok a)) (λ s. refl)
Sends-checked {W} {A} (err e) = Sends-nothing (checked {W = W} {A = A} (err e)) (λ s. refl)

pub Sends-throw_if : {W : Type 0} (b : Bool) (e : SessionError) → Sends [] (throw_if {W = W} b e)
Sends-throw_if {W} true e = Sends-nothing (throw_if {W = W} true e) (λ s. refl)
Sends-throw_if {W} false e = Sends-nothing (throw_if {W = W} false e) (λ s. refl)

-- A run that throws instead of going on still follows a longer script.
pub Sends-checked-bind :
    {W A B : Type 0} (script : List (List ℕ)) (r : Result Fault A) (f : A → M W B)
    → ((a : A) → r ≡ ok a → Sends script (f a))
    → Sends script (checked r >>= f)
Sends-checked-bind script (ok a) f k s = k a refl s
Sends-checked-bind script (err e) f k s = stopped [] script refl (sym (append-nil (cleared s.sent)))

pub Sends-throw_if-bind :
    {W B : Type 0} (script : List (List ℕ)) (b : Bool) (e : SessionError) (m : M W B)
    → (b ≡ false → Sends script m)
    → Sends script (throw_if b e >> m)
Sends-throw_if-bind script true e m k s = stopped [] script refl (sym (append-nil (cleared s.sent)))
Sends-throw_if-bind script false e m k s = k refl s
