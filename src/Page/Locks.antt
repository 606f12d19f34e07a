-- ===== src/Page/Locks.antt =====
-- site/app.js: the lock fields after a flash, the lock that a flash needs, and the device that a
-- transfer needs.
use frogalert.Prelude.{
  ℕ, ◌≡◌, refl, ap, ◌⊎◌, inl, inr, Bool, true, false, not, ◌||◌, List, Result, ok, err, Option,
  none, some, if◌then◌else◌, if_cases, arith, ◌&&◌, ==_iff,
}
use frogalert.Session.{SessionError}
use frogalert.Session.Steps.{Done}
use frogalert.Page.{
  Tab, Firmware, Browser, Async, resume, throw_if, device_changed, not_open, ◌>>=◌, ◌>>◌,
}
use frogalert.Page.Usb.{
  await_call, await_quietly, hand_over, same_object, still_captured, captured_or_absent, target_of,
  opened_device, exchange, usb_transfer,
}
use frogalert.Page.Gate.{update_flash_button}
use frogalert.Page.Wire.{sending, Same-exchange}
use frogalert.Page.Quiet.{Same, Quiet-await_call}
use frogalert.Page.FlashWire.{Same-finish_flash}
use frogalert.Page.Flash.{
  ButtonFlash, lost_binding, not_ready, confirm_flash, begin_flash, flash_session, settle,
  end_flash, finish_flash, flash_device_with, flash_confirmed, flash_loaded, flash_firmware,
  flash_under_lock, request_and_flash, start_flash,
}

-- No flash is in progress.
abbrev pub IsReleased : {W : Type 0} → Tab W → Type 0
IsReleased t = (t.flashing ≡ false) × (t.active_flash_device ≡ none)

module _ {W : Type 0} (b : Browser W) where
  flash_device_with-IsReleased :
      (final : Bool) (expected : Option ButtonFlash) (firmware : Firmware) (device : Option ℕ)
      (t : Tab W)
      → IsReleased (flash_device_with b final expected firmware device t).1
  unfolding flash_device_with begin_flash end_flash update_flash_button await_quietly finish_flash
  flash_device_with-IsReleased final expected firmware device t =
      let begun : Tab W = (update_flash_button (begin_flash b t)).1 in
      let awake : Tab W = (await_quietly b b.acquire_wake_lock begun).1 in
      let x : Result SessionError Done × Tab W =
        flash_session b final expected firmware device awake in
      let (_, own) = Same-finish_flash b (settle b x.0 x.1).1 in (own.0, own.1)

  flash_confirmed-IsReleased :
      (final : Bool) (expected : Option ButtonFlash) (firmware : Firmware) (t : Tab W)
      → IsReleased t
      → IsReleased (flash_confirmed b final expected firmware t).1
  unfolding flash_confirmed confirm_flash
  flash_confirmed-IsReleased true expected firmware t h =
      flash_device_with-IsReleased true expected firmware t.shared.usb_device t
  flash_confirmed-IsReleased false expected firmware t h =
      if_cases (λ (x : Result SessionError Bool × Tab W). IsReleased x.1) (b.confirm t.world).0 _ _
        (λ _. flash_device_with-IsReleased false expected firmware t.shared.usb_device _) (λ _. h)

  flash_loaded-IsReleased :
      (final : Bool) (expected : Option ButtonFlash) (loaded : Option Firmware) (t : Tab W)
      → IsReleased t
      → IsReleased (flash_loaded b final expected loaded t).1
  unfolding flash_loaded update_flash_button
  flash_loaded-IsReleased final expected none t h = h
  flash_loaded-IsReleased final expected (some firmware) t h =
      if_cases (λ (x : Result SessionError Bool × Tab W). IsReleased x.1) (not_ready b t.shared) _ _
        (λ _. h)
        λ _.
          if_cases (λ (x : Result SessionError Bool × Tab W). IsReleased x.1)
            (lost_binding b final expected t) _ _ (λ _. h)
            λ _. flash_confirmed-IsReleased final expected firmware t h

  -- However a flash ends, by an early return, a success or a failure at any place, no flash is in
  -- progress after it and no device is captured, if that was so before it.
  pub flash_firmware-IsReleased :
      (final : Bool) (expected : Option ButtonFlash) (t : Tab W)
      → IsReleased t
      → IsReleased (flash_firmware b final expected t).1
  unfolding flash_firmware
  flash_firmware-IsReleased final expected t h =
      flash_loaded-IsReleased final expected t.shared.firmware t h

  -- What a transfer with a captured device has done: it wrote the packet to this device, which was
  -- connected, captured and open; or it wrote nothing and threw.
  pub data TransferClaim (packet : List ℕ) (device : ℕ) (t : Tab W)
      : Result SessionError (List ℕ) × Tab W → Type 0 where
    written :
        {x : Result SessionError (List ℕ) × Tab W}
        → t.shared.usb_device ≡ some device
        → t.active_flash_device ≡ some device
        → b.opened device t.world ≡ true
        → Same (sending device packet t) x.1
        → TransferClaim packet device t x
    changed :
        still_captured b (some device) t ≡ false
        → TransferClaim packet device t (err device_changed, t)
    closed : b.opened device t.world ≡ false → TransferClaim packet device t (err not_open, t)

  same_object-eq :
      (a : Option ℕ) (device : ℕ) → same_object a (some device) ≡ true → a ≡ some device
  unfolding same_object
  same_object-eq none device h = absurd (ground arith)
  same_object-eq (some d) device h = ap some ((==_iff d device).0 h)

  both_true : (c d : Bool) → (c && d) ≡ true → (c ≡ true) × (d ≡ true)
  both_true c d h = ground arith

  transfer-opened :
      (packet : List ℕ) (device : ℕ) (t : Tab W) (c : Bool)
      → still_captured b (some device) t ≡ true
      → b.opened device t.world ≡ c
      → TransferClaim packet device t
          (resume (if c then ok device else err not_open, t) (exchange b packet))
  unfolding still_captured
  transfer-opened packet device t false h e = closed e
  transfer-opened packet device t true h e =
      let (connected, captured) =
        both_true (same_object t.shared.usb_device (some device))
          (same_object t.active_flash_device (some device)) h in
      written (same_object-eq t.shared.usb_device device connected)
        (same_object-eq t.active_flash_device device captured) e (Same-exchange b packet device t)

  transfer-captured :
      (packet : List ℕ) (device : ℕ) (t : Tab W) (c : Bool)
      → still_captured b (some device) t ≡ c
      → TransferClaim packet device t (
          (throw_if (not c) device_changed >> (opened_device b (some device) >>= exchange b packet))
            t)
  unfolding opened_device
  transfer-captured packet device t false h = changed h
  transfer-captured packet device t true h =
      transfer-opened packet device t (b.opened device t.world) h refl

  -- A transfer of a flash session writes its packet to the captured device, and only while this
  -- device is the connected one, is captured by the flash and is open. Otherwise it throws and
  -- changes nothing.
  pub usb_transfer_lem :
      (packet : List ℕ) (device : ℕ) (t : Tab W)
      → TransferClaim packet device t (usb_transfer b packet (some device) t)
  unfolding usb_transfer captured_or_absent target_of opened_device
  usb_transfer_lem packet device t =
      transfer-captured packet device t (still_captured b (some device) t) refl

  neither : (c d : Bool) → (not c || not d) ≡ false → (c ≡ true) × (d ≡ true)
  neither c d h = ground arith

  flash_under_lock-wire :
      (final : Bool) (expected : Option ButtonFlash) (t : Tab W)
      (x : Result SessionError Bool × Tab W)
      → x.1.wire ≡ t.wire
      → ((resume x (flash_under_lock b final expected)).1.wire ≡ t.wire) ⊎ (x.0 ≡ ok true)
  unfolding flash_under_lock
  flash_under_lock-wire final expected t (ok true, u) h = inr refl
  flash_under_lock-wire final expected t (ok false, u) h = inl h
  flash_under_lock-wire final expected t (err e, u) h = inl h

  -- The flash page alone, in a browser that has locks and grants this tab the exclusive one, sends
  -- anything at all: otherwise `startFlash` leaves the wire as it was.
  pub start_flash_locked :
      (final : Bool) (expected : Option ButtonFlash) (t : Tab W)
      → ((start_flash b final expected t).1.wire ≡ t.wire)
        ⊎ ((b.destructive_page ≡ true)
            × (b.has_locks ≡ true)
            × ((b.request_lock t.world).0 ≡ ok true))
  unfolding start_flash request_and_flash await_call hand_over
  start_flash_locked final expected t =
      if_cases
        (λ (m : Async W Bool).
          ((m t).1.wire ≡ t.wire)
          ⊎ ((b.destructive_page ≡ true)
              × (b.has_locks ≡ true)
              × ((b.request_lock t.world).0 ≡ ok true)))
        (not b.destructive_page || not b.has_locks) _ _ (λ _. inl refl)
        λ locked.
          let (page, locks) = neither b.destructive_page b.has_locks locked in
          elim (flash_under_lock-wire final expected t (await_call b b.request_lock t)
            (Quiet-await_call b b.request_lock t).0) [
              | inl same ↦ inl same
              | inr granted ↦ inr (page, locks, granted)
            ]
