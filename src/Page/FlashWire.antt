-- ===== src/Page/FlashWire.antt =====
-- site/app.js: which packets `flashFirmware` and `startFlash` send, and to which device.
use frogalert.Prelude.{
  ℕ, ◌≡◌, refl, sym, ◌∙◌, ap, ◌⊎◌, inl, inr, Bool, true, false, List, [], ◌++◌, Result, ok, err,
  Option, none, some, append-nil, subst, if_cases,
}
use frogalert.Session.{SessionError}
use frogalert.Session.Steps.{Done}
use frogalert.Page.{Tab, Firmware, Captured, Browser, Async, throw_if, ◌>>◌}
use frogalert.Page.Usb.{await_quietly, close_usb}
use frogalert.Page.Gate.{update_flash_button}
use frogalert.Page.Wire.{written_to}
use frogalert.Page.FlashLaws.{IsTraffic, session-Traffic, nothing}
use frogalert.Page.Quiet.{Same, Quiet, Same-refl, Quiet-bind, Quiet-await_quietly, Quiet-close_usb}
use frogalert.Page.Flash.{
  ButtonFlash, lost_binding, not_ready, confirm_flash, begin_flash, run_on, flash_session,
  withdraw_confirmation, settle, end_flash, finish_flash, flash_device_with, flash_confirmed,
  flash_loaded, flash_firmware,
}

module _ {W : Type 0} (b : Browser W) where
  -- The UID of the captured configuration. The empty one gives no key.
  abbrev pub uid_of : Option Captured → List ℕ
  uid_of none = []
  uid_of (some config) = config.registers.uid

  -- What goes to the device in a run that ends with the page `u`, where the session starts with the
  -- configuration.
  abbrev pub Sends : Option Captured → ℕ → Firmware → Tab W → Tab W → Type 0
  Sends config device firmware t u =
      (packets : List (List ℕ)) × IsTraffic (uid_of config) firmware.padded firmware.erase_sectors
        packets
      × (u.wire ≡ t.wire ++ written_to device packets)

  Sends-nothing :
      (config : Option Captured) (device : ℕ) (firmware : Firmware) (t u : Tab W)
      → u.wire ≡ t.wire
      → Sends config device firmware t u
  Sends-nothing config device firmware t u e = ([], nothing, e ∙ sym (append-nil t.wire))

  -- What a quiet end adds.
  Sends-then :
      (config : Option Captured) (device : ℕ) (firmware : Firmware) (t u v : Tab W)
      → Sends config device firmware t u
      → v.wire ≡ u.wire
      → Sends config device firmware t v
  Sends-then config device firmware t u v (packets, traffic, e) f = (packets, traffic, f ∙ e)

  Sends-run_on :
      (config : Option Captured) (firmware : Firmware) (device : ℕ) (t : Tab W)
      → Sends config device firmware t (run_on b config firmware (some device) t).1
  unfolding run_on
  Sends-run_on none firmware device t = Sends-nothing none device firmware t t refl
  Sends-run_on (some config) firmware device t =
      let (packets, traffic, on_wire) =
        session-Traffic b device t firmware.padded firmware.erase_sectors config.registers.uid in
      (packets, traffic, on_wire.0)

  Sends-throw_if :
      {A : Type 0} (config : Option Captured) (device : ℕ) (firmware : Firmware) (t : Tab W)
      (c : Bool) (e : SessionError) (m : Async W A)
      → Sends config device firmware t (m t).1
      → Sends config device firmware t ((throw_if c e >> m) t).1
  Sends-throw_if config device firmware t true e m h = Sends-nothing config device firmware t t refl
  Sends-throw_if config device firmware t false e m h = h

  Sends-flash_session :
      (final : Bool) (expected : Option ButtonFlash) (firmware : Firmware) (device : ℕ) (t : Tab W)
      → Sends t.shared.config device firmware t
          (flash_session b final expected firmware (some device) t).1
  unfolding flash_session
  Sends-flash_session final expected firmware device t =
      Sends-throw_if t.shared.config device firmware t (lost_binding b final expected t) _
        (run_on b t.shared.config firmware (some device))
        (Sends-run_on t.shared.config firmware device t)

  Quiet-settle : (r : Result SessionError Done) → Quiet (settle b r)
  unfolding settle withdraw_confirmation
  Quiet-settle (ok done) = Quiet-close_usb b
  Quiet-settle (err e) =
      Quiet-bind (close_usb b) (λ _. withdraw_confirmation b) (Quiet-close_usb b) λ _ t. Same-refl t

  -- The `finally` block, after which the page is as `end_flash` leaves it.
  pub Same-finish_flash : (t : Tab W) → Same (end_flash b t) (finish_flash b t).1
  unfolding finish_flash update_flash_button await_quietly end_flash
  Same-finish_flash t = Quiet-await_quietly b b.release_wake_lock (end_flash b t)

  -- The page when the session starts, after the wake lock.
  abbrev pub awake_tab : Tab W → Tab W
  awake_tab t = (await_quietly b b.acquire_wake_lock (update_flash_button (begin_flash b t)).1).1

  Sends-flash_device_with :
      (final : Bool) (expected : Option ButtonFlash) (firmware : Firmware) (device : ℕ) (t : Tab W)
      → Sends
          (awake_tab t).shared.config
          device
          firmware
          t
          (flash_device_with b final expected firmware (some device) t).1
  unfolding flash_device_with begin_flash end_flash update_flash_button await_quietly finish_flash
  Sends-flash_device_with final expected firmware device t =
      let begun : Tab W = (update_flash_button (begin_flash b t)).1 in
      let awake : Tab W = (await_quietly b b.acquire_wake_lock begun).1 in
      let x : Result SessionError Done × Tab W =
        flash_session b final expected firmware (some device) awake in
      let settled : Tab W = (settle b x.0 x.1).1 in
      let start = (Quiet-await_quietly b b.acquire_wake_lock begun).0 in
      let (packets, traffic, e) = Sends-flash_session final expected firmware device awake in
      (
        packets,
        traffic,
        (Same-finish_flash settled).0
            ∙ (Quiet-settle x.0 x.1).0
            ∙ e
            ∙ ap (λ l. l ++ written_to device packets) start,
      )

  -- The conditions under which a flash starts.
  pub record IsAllowed (final : Bool) (expected : Option ButtonFlash) (firmware : Firmware)
      (t : Tab W) : Type 0 where
    pub loaded : t.shared.firmware ≡ some firmware
    pub ready : not_ready b t.shared ≡ false
    pub bound_to_button : lost_binding b final expected t ≡ false
    pub confirmed : (final ≡ true) ⊎ ((b.confirm t.world).0 ≡ true)

  -- The configuration when the session starts, after the question to the user and the wake lock.
  abbrev pub session_config : Bool → Tab W → Option Captured
  session_config final t = (awake_tab (confirm_flash b final t).1).shared.config

  abbrev pub FlashClaim : Bool → Option ButtonFlash → ℕ → Tab W → Tab W → Type 0
  FlashClaim final expected device t u =
      (u.wire ≡ t.wire)
      ⊎ ((firmware : Firmware) × IsAllowed final expected firmware t
          × Sends (session_config final t) device firmware t u)

  -- After the tests, by what the user answers.
  flash_confirmed-Sends :
      (final : Bool) (expected : Option ButtonFlash) (firmware : Firmware) (device : ℕ) (t : Tab W)
      → t.shared.usb_device ≡ some device
      → let u = (flash_confirmed b final expected firmware t).1 in
        (u.wire ≡ t.wire)
        ⊎ (((final ≡ true) ⊎ ((b.confirm t.world).0 ≡ true))
            × Sends (session_config final t) device firmware t u)
  unfolding flash_confirmed confirm_flash
  flash_confirmed-Sends true expected firmware device t e = inr (
    inl refl,
    subst
        (λ d.
          Sends (session_config true t) device firmware t
            (flash_device_with b true expected firmware d t).1)
        (sym e) (Sends-flash_device_with true expected firmware device t),
  )
  flash_confirmed-Sends false expected firmware device t e =
      if_cases
        (λ (x : Result SessionError Bool × Tab W).
          (x.1.wire ≡ t.wire)
          ⊎ (((false ≡ true) ⊎ ((b.confirm t.world).0 ≡ true))
              × Sends (session_config false t) device firmware t x.1))
        (b.confirm t.world).0 _ _
        (λ yes. inr (
          inr yes,
          subst
              (λ d.
                Sends (session_config false t) device firmware t
                  (flash_device_with b false expected firmware d
                    (record t { world = (b.confirm t.world).1 })).1)
              (sym e)
              (Sends-flash_device_with false expected firmware device
                (record t { world = (b.confirm t.world).1 })),
        ))
        (λ no. inl refl)

  flash_loaded-Sends :
      (final : Bool) (expected : Option ButtonFlash) (loaded : Option Firmware) (device : ℕ)
      (t : Tab W)
      → t.shared.firmware ≡ loaded
      → t.shared.usb_device ≡ some device
      → FlashClaim final expected device t (flash_loaded b final expected loaded t).1
  unfolding flash_loaded update_flash_button
  flash_loaded-Sends final expected none device t e d = inl refl
  flash_loaded-Sends final expected (some firmware) device t e d =
      if_cases (λ (x : Result SessionError Bool × Tab W). FlashClaim final expected device t x.1)
        (not_ready b t.shared) _ _ (λ _. inl refl)
        λ ready.
          if_cases
            (λ (x : Result SessionError Bool × Tab W). FlashClaim final expected device t x.1)
            (lost_binding b final expected t) _ _ (λ _. inl refl)
            λ bound. elim (flash_confirmed-Sends final expected firmware device t d) [
              | inl same ↦ inl same
              | inr (confirmed, sends) ↦ inr (
                firmware,
                record {
                  loaded = e;
                  ready = ready;
                  bound_to_button = bound;
                  confirmed = confirmed;
                },
                sends,
              )
            ]

  -- With a device connected when it is called, and whatever the browser, the device and the other
  -- handlers do, a call of `flashFirmware` either sends nothing, or there is a firmware loaded that
  -- passed all tests and was confirmed (by the button or in the dialog), and all it sends goes to
  -- that device and is nothing or a first part of the script of a session for this firmware, perhaps
  -- with the reset command at the end, enciphered with the key of the UID that the configuration has
  -- when the session starts.
  pub flash_firmware_wire :
      (final : Bool) (expected : Option ButtonFlash) (device : ℕ) (t : Tab W)
      → t.shared.usb_device ≡ some device
      → FlashClaim final expected device t (flash_firmware b final expected t).1
  unfolding flash_firmware
  flash_firmware_wire final expected device t d =
      flash_loaded-Sends final expected t.shared.firmware device t refl d
