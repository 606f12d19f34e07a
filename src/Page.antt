-- ===== src/Page.antt =====
-- site/app.js: the flashing part of the page. The page's `state` is split: `flashing`,
-- `activeFlashDevice` and `buttonFlashPending` are written by the functions of this module alone; the
-- rest is shared with the other event handlers, which may run whenever an asynchronous function
-- waits. What they do then is a part of the browser and arbitrary. An object that the code compares
-- by identity carries a number, its tag; a USB device is its number.
pub mod Gate
pub mod Usb
pub mod Quiet
pub mod Wire
pub mod Traffic
pub mod Load
pub mod Flash
pub mod Choose
pub mod LoadLaws
pub mod ChooseLaws
pub mod ButtonFlow
pub mod Press
pub mod FlashLaws
pub mod FlashWire
pub mod Locks
use frogalert.Prelude.{ℕ, Bool, List, Result, ok, err, true, false, Option}
use frogalert.Prelude.Text.{Text}
use frogalert.Prelude.Json.{Json}
use frogalert.Protocol.{Fault}
use frogalert.Protocol.Responses.{BootConfig}
use frogalert.Session.{SessionError, fault, thrown}
use frogalert.Flasher.State.{ArtifactKind, Board, HintCopy}

-- `state.config`
pub record Captured : Type 0 where
  pub tag : ℕ
  pub registers : BootConfig

-- `state.firmware`
pub record Firmware : Type 0 where
  pub tag : ℕ
  pub hash : Text
  pub board : Board
  pub padded : List ℕ
  pub erase_sectors : ℕ
  pub artifact_kind : ArtifactKind
  pub hardware_verified : Bool
  pub hardware_verified_by_frogalert : Bool
  pub flash_approved : Bool
  pub release_id : Option Text
  pub release_version : Option Text

-- `state.buttonReleaseIds`
pub record ButtonReleaseIds : Type 0 where
  pub top : Text
  pub bottom : Text

pub record Shared : Type 0 where
  pub usb_device : Option ℕ
  pub chip : Option ℕ
  pub config : Option Captured
  pub firmware : Option Firmware
  pub artifact_generation : ℕ
  pub releases : List Json
  pub release_prefetch_ready : Bool
  pub release_prefetch_version : Option Text
  pub button_release_ids : Option ButtonReleaseIds
  pub monitor_dirty : Bool
  pub application_profile_hint : HintCopy
  pub pcb_revision : Text
  pub pcb_marking : Text
  pub recovery_board_confirmed : Bool
  pub flash_button_disabled : Bool
  pub quarantined_firmware_hashes : Option (List Json)
  pub release_artifacts : List (Text × List ℕ)
  pub next_tag : ℕ

-- A packet that a function modelled here handed to a device.
pub record Write : Type 0 where
  pub device : ℕ
  pub packet : List ℕ

-- The page. `wire` is the log of what the functions modelled here handed to devices. The other
-- handlers can send too while no flash runs, such as `connectUsb` during a download: what they do to
-- a device is a change of the world, and is not in this log.
pub record Tab (W : Type 0) : Type 0 where
  pub flashing : Bool
  pub active_flash_device : Option ℕ
  pub button_flash_pending : Bool
  pub shared : Shared
  pub wire : List Write
  pub world : W

-- What `transferOut` and `transferIn` return.
pub record Written : Type 0 where
  pub is_ok : Bool
  pub bytes_written : ℕ

pub record Received : Type 0 where
  pub is_ok : Bool
  pub bytes : Option (List ℕ)

pub record Fetched : Type 0 where
  pub is_ok : Bool
  pub bytes : List ℕ

-- The browser: the digest and the download of a file, WebUSB with `withTimeout` around it, the lock
-- and wake lock, the dialogs, and the other handlers of the page, which see the state and change the
-- shared part of it and the world, devices included.
pub record Browser (W : Type 0) : Type 0 where
  pub destructive_page : Bool
  pub has_locks : Bool
  pub opened : ℕ → W → Bool
  pub transfer_out : ℕ → List ℕ → ℕ → W → Result SessionError Written × W
  pub transfer_in : ℕ → ℕ → W → Result SessionError Received × W
  pub release_interface : ℕ → W → Result SessionError (Unit {0}) × W
  pub close : ℕ → W → Result SessionError (Unit {0}) × W
  pub random_byte : W → Result SessionError ℕ × W
  pub delay : ℕ → W → Result SessionError (Unit {0}) × W
  pub confirm : W → Bool × W
  pub acquire_wake_lock : W → Result SessionError (Unit {0}) × W
  pub release_wake_lock : W → Result SessionError (Unit {0}) × W
  pub sha256 : List ℕ → W → Result SessionError Text × W
  pub fetch : Text → W → Result SessionError Fetched × W
  pub request_lock : W → Result SessionError Bool × W
  pub other_handlers : Bool → Bool → Shared → W → Shared × W

-- What the functions of the page throw, by number.
abbrev pub device_changed : SessionError
device_changed = thrown 1

abbrev pub not_open : SessionError
not_open = thrown 2

abbrev pub write_failed : SessionError
write_failed = thrown 3

abbrev pub read_failed : SessionError
read_failed = thrown 4

abbrev pub no_config : SessionError
no_config = thrown 5

abbrev pub session_changed : SessionError
session_changed = thrown 6

-- A function of the page: what it returns or throws, and the page after it.
abbrev pub Async : Type 0 → Type 0 → Type 0
Async W A = Tab W → Result SessionError A × Tab W

abbrev pub resume :
    {W A B : Type 0}
    → Result SessionError A × Tab W
    → (A → Async W B)
    → Result SessionError B × Tab W
resume (ok a, t) f = f a t
resume (err e, t) f = (err e, t)

infixl 5 ◌>>=◌ ◌>>◌
abbrev pub ◌>>=◌ : {W A B : Type 0} → Async W A → (A → Async W B) → Async W B
◌>>=◌ m f t = resume (m t) f

abbrev pub ◌>>◌ : {W B : Type 0} → Async W (Unit {0}) → Async W B → Async W B
m >> k = m >>= λ _. k

abbrev pub return : {W A : Type 0} → A → Async W A
return a t = (ok a, t)

abbrev pub throw_if : {W : Type 0} → Bool → SessionError → Async W (Unit {0})
throw_if true e t = (err e, t)
throw_if false e t = (ok tt, t)

abbrev pub checked : {W A : Type 0} → Result Fault A → Async W A
checked (ok a) t = (ok a, t)
checked (err e) t = (err (fault e), t)

-- `try`, with what was thrown as a value.
abbrev pub attempt : {W A : Type 0} → Async W A → Async W (Result SessionError A)
attempt m t = let (r, t') = m t in (ok r, t')

abbrev pub shared_of : {W : Type 0} → Async W Shared
shared_of t = (ok t.shared, t)
