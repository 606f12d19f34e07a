-- ===== src/Session.antt =====
-- site/flash-session.js: the session that reads the bootloader and the one that programs it. The
-- callbacks (`transfer`, `reset`, `randomByte`, `wait`, `onEvent`) are an environment over a world
-- that they change, which holds the USB device; each may throw. The session keeps a log of the
-- packets that it hands to `transfer` and of the events that it emits.
pub mod Silent
pub mod Steps
pub mod Sends
pub mod Script
pub mod Ensures
pub mod Runs
pub mod Confirm
pub mod Verified
use frogalert.Prelude.{ℕ, Bool, List, [], ◌∷◌, ◌++◌, Result, ok, err, true, false}
use frogalert.Protocol.{Fault}

pub data SessionError : Type 0 where
  empty_image misaligned_image bad_erase_count erase_exceeds_flash : SessionError
  reset_not_accepted bad_key_checksum : SessionError
  verify_mismatch : ℕ → SessionError
  fault : Fault → SessionError
  thrown : ℕ → SessionError

pub data Event : Type 0 where
  config_reset config_verified : ℕ → Event
  erase : ℕ → ℕ → Event
  program_key program_finalized verify_key verified : ℕ → Event
  program verify : ℕ → ℕ → Event
  complete : ℕ → Bool → Event

pub record Environment (W : Type 0) : Type 0 where
  pub transfer : List ℕ → W → Result SessionError (List ℕ) × W
  pub reset : W → Result SessionError Bool × W
  pub random_byte : W → Result SessionError ℕ × W
  pub wait : ℕ → W → Result SessionError (Unit {0}) × W
  pub on_event : Event → W → Result SessionError (Unit {0}) × W

pub record State (W : Type 0) : Type 0 where
  pub world : W
  pub sent : List (List ℕ)
  pub events : List Event

-- An asynchronous function: its value or what it throws, and the state after it.
abbrev pub M : Type 0 → Type 0 → Type 0
M W A = State W → Result SessionError A × State W

abbrev pub resume :
    {W A B : Type 0}
    → Result SessionError A × State W
    → (A → M W B)
    → Result SessionError B × State W
resume (ok a, s) f = f a s
resume (err e, s) f = (err e, s)

infixl 5 ◌>>=◌ ◌>>◌
abbrev pub ◌>>=◌ : {W A B : Type 0} → M W A → (A → M W B) → M W B
◌>>=◌ m f s = resume (m s) f

abbrev pub ◌>>◌ : {W B : Type 0} → M W (Unit {0}) → M W B → M W B
m >> k = m >>= λ _. k

abbrev pub return : {W A : Type 0} → A → M W A
return a s = (ok a, s)

abbrev pub throw_if : {W : Type 0} → Bool → SessionError → M W (Unit {0})
throw_if true e s = (err e, s)
throw_if false e s = (ok tt, s)

-- A call of the protocol module.
abbrev pub checked : {W A : Type 0} → Result Fault A → M W A
checked (ok a) s = (ok a, s)
checked (err e) s = (err (fault e), s)
