-- ===== src/Page/ButtonFlow.antt =====
-- site/app.js: from the button that the user chose to the packets of the flash.
use frogalert.Prelude.{
  ℕ, ◌≡◌, sym, ◌∙◌, ap, ◌⊎◌, Bool, true, ◌&&◌, Option, some, none, arith, ==_iff, Result, not,
  subst, inl, false, if_cases, inr, refl, ◌++◌, ◌||◌,
}
use frogalert.Page.Quiet.{Quiet-await_call}
use frogalert.Page.Wire.{written_to}
use frogalert.Session.{SessionError}
use frogalert.Page.Gate.{update_flash_button}
use frogalert.Prelude.Text.{lower_case}
use frogalert.Prelude.Bytes.{same_bytes}
use frogalert.Page.{Firmware, Tab, Browser, Result, false, SessionError, resume, Async, ok, err}
use frogalert.Page.Usb.{same_object, await_call}
use frogalert.Page.FlashWire.{Sends, flash_firmware_wire, session_config}
use frogalert.Page.Flash.{
  ButtonFlash, expected_button_flash_matches, firmware_is, is_opened, config_tag, is_text_value,
  device_matches, flash_under_lock, flash_firmware, lost_binding, start_flash, flash_loaded,
  release_matches, request_and_flash, board_matches, not_ready,
}

four_true : (a b c d : Bool) → (a && b && c && d) ≡ true → (a ≡ true) × (b ≡ true)
four_true a b c d h = ground arith

three_true : (a b c : Bool) → (a && b && c) ≡ true → c ≡ true
three_true a b c h = ground arith

negated : (c : Bool) → not c ≡ false → c ≡ true
negated c h = ground arith

five_true : (a b c d e : Bool) → (a && b && c && d && e) ≡ true → (b ≡ true) × (d ≡ true)
five_true a b c d e h = ground arith

-- What the button has bound: the device and the hash of the image.
abbrev pub IsBound : ButtonFlash → ℕ → Firmware → Type 0
IsBound expected device firmware =
    (expected.device ≡ some device)
    × (same_bytes (lower_case firmware.hash) (lower_case expected.firmware_hash) ≡ true)

module _ {W : Type 0} (b : Browser W) where
  -- What a call puts on the wire, if anything: a session with the firmware of the page `v`.
  abbrev pub Delivers : ButtonFlash → Tab W → Tab W → Tab W → Type 0
  Delivers expected v t u =
      (u.wire ≡ t.wire)
      ⊎ ((device : ℕ) × (firmware : Firmware) × (v.shared.firmware ≡ some firmware)
          × IsBound expected device firmware
          × Sends b (session_config b true v) device firmware t u)

  same_object-eq :
      (a c : Option ℕ) (device : ℕ) → a ≡ some device → same_object a c ≡ true → c ≡ some device
  unfolding same_object
  same_object-eq none c device e h = absurd (ground arith)
  same_object-eq (some d) none device e h = absurd (ground arith)
  same_object-eq (some d) (some c) device e h = sym (ap some ((==_iff d c).0 h)) ∙ e

  matches-parts :
      (expected : ButtonFlash) (t : Tab W)
      → expected_button_flash_matches b expected t ≡ true
      → (same_object t.shared.usb_device expected.device ≡ true)
        × (is_opened b expected.device t.world ≡ true)
        × (firmware_is t.shared.firmware expected ≡ true)
  unfolding expected_button_flash_matches device_matches
  matches-parts expected t h =
      let (device, firmware) =
        five_true t.button_flash_pending (device_matches b expected t)
          (release_matches b expected t.shared) (firmware_is t.shared.firmware expected)
          (board_matches b expected t.shared) h in
      let (same, opened) =
        four_true (same_object t.shared.usb_device expected.device)
          (is_opened b expected.device t.world) (same_object t.shared.chip expected.chip)
          (same_object (config_tag t.shared.config) expected.config) device in
      (same, opened, firmware)

  firmware_is-hash :
      (loaded : Option Firmware) (firmware : Firmware) (expected : ButtonFlash)
      → loaded ≡ some firmware
      → firmware_is loaded expected ≡ true
      → same_bytes (lower_case firmware.hash) (lower_case expected.firmware_hash) ≡ true
  unfolding firmware_is
  firmware_is-hash none firmware expected e h = absurd (ground arith)
  firmware_is-hash (some loaded) firmware expected e h =
      let same : loaded ≡ firmware = cc e in
      subst (λ f. same_bytes (lower_case f.hash) (lower_case expected.firmware_hash) ≡ true) same
        (three_true (is_text_value loaded.release_id expected.release_id)
          (is_text_value loaded.release_version expected.release_version)
          (same_bytes (lower_case loaded.hash) (lower_case expected.firmware_hash)) h)

  no_device :
      (found expected : Option ℕ) (w : W)
      → found ≡ none
      → same_object found expected ≡ true
      → is_opened b expected w ≡ true
      → ⊥
  unfolding same_object is_opened
  no_device (some d) expected w e same opened = ground arith
  no_device none (some d) w e same opened = ground arith
  no_device none none w e same opened = ground arith

  -- With a device.
  flash_connected-Delivers :
      (expected : ButtonFlash) (t : Tab W) (device : ℕ)
      → t.shared.usb_device ≡ some device
      → Delivers expected t t (flash_firmware b true (some expected) t).1
  unfolding lost_binding
  flash_connected-Delivers expected t device e =
      elim (flash_firmware_wire b true (some expected) device t e) [
        | inl same ↦ inl same
        | inr (firmware, allowed, sends) ↦
            let matched : expected_button_flash_matches b expected t ≡ true =
              negated (expected_button_flash_matches b expected t) allowed.bound_to_button in
            let (same, opened, image) = matches-parts expected t matched in
            inr (
              device,
              firmware,
              allowed.loaded,
              (
                same_object-eq t.shared.usb_device expected.device device e same,
                firmware_is-hash t.shared.firmware firmware expected allowed.loaded image,
              ),
              sends,
            )
      ]

  -- Without one, the binding is lost.
  flash_loaded-none :
      (expected : ButtonFlash) (loaded : Option Firmware) (t : Tab W)
      → t.shared.usb_device ≡ none
      → (flash_loaded b true (some expected) loaded t).1.wire ≡ t.wire
  unfolding flash_loaded lost_binding update_flash_button
  flash_loaded-none expected none t e = refl
  flash_loaded-none expected (some firmware) t e =
      if_cases (λ (x : Result SessionError Bool × Tab W). x.1.wire ≡ t.wire) (not_ready b t.shared)
        _ _ (λ _. refl)
        λ _.
          if_cases (λ (x : Result SessionError Bool × Tab W). x.1.wire ≡ t.wire)
            (not (expected_button_flash_matches b expected t)) _ _ (λ _. refl)
            λ bound.
              let (same, opened, image) =
                matches-parts expected t
                  (negated (expected_button_flash_matches b expected t) bound) in
              absurd (no_device t.shared.usb_device expected.device t.world e same opened)

  flash_firmware-Delivers :
      (expected : ButtonFlash) (t : Tab W)
      → Delivers expected t t (flash_firmware b true (some expected) t).1
  unfolding flash_firmware
  flash_firmware-Delivers expected t = by_device t.shared.usb_device refl
    where
      by_device :
          (device : Option ℕ)
          → t.shared.usb_device ≡ device
          → Delivers expected t t (flash_firmware b true (some expected) t).1
      by_device (some device) e = flash_connected-Delivers expected t device e
      by_device none e = inl (flash_loaded-none expected t.shared.firmware t e)

  -- Nothing was sent before, and nothing after.
  Delivers-from :
      (expected : ButtonFlash) (o t u v : Tab W)
      → u.wire ≡ t.wire
      → Delivers expected o u v
      → Delivers expected o t v
  Delivers-from expected o t u v e (inl same) = inl (same ∙ e)
  Delivers-from expected o t u v e (inr (device, firmware, loaded, bound, (packets, traffic, f))) =
      inr (
        device,
        firmware,
        loaded,
        bound,
        (packets, traffic, f ∙ ap (λ l. l ++ written_to device packets) e),
      )

  pub Delivers-to :
      (expected : ButtonFlash) (o t u v : Tab W)
      → Delivers expected o t u
      → v.wire ≡ u.wire
      → Delivers expected o t v
  Delivers-to expected o t u v (inl same) e = inl (e ∙ same)
  Delivers-to expected o t u v (inr (device, firmware, loaded, bound, (packets, traffic, f))) e =
      inr (device, firmware, loaded, bound, (packets, traffic, e ∙ f))

  flash_under_lock-Delivers :
      (expected : ButtonFlash) (t : Tab W) (x : Result SessionError Bool × Tab W)
      → x.1.wire ≡ t.wire
      → Delivers expected x.1 t (resume x (flash_under_lock b true (some expected))).1
  unfolding flash_under_lock
  flash_under_lock-Delivers expected t (ok true, u) e =
      Delivers-from expected u t u (flash_firmware b true (some expected) u).1 e
        (flash_firmware-Delivers expected u)
  flash_under_lock-Delivers expected t (ok false, u) e = inl e
  flash_under_lock-Delivers expected t (err x, u) e = inl e

  pub start_flash-Delivers :
      (expected : ButtonFlash) (t : Tab W)
      → Delivers expected
          (await_call b b.request_lock t).1
          t
          (start_flash b true (some expected) t).1
  unfolding start_flash request_and_flash
  start_flash-Delivers expected t =
      if_cases (λ (m : Async W Bool). Delivers expected (await_call b b.request_lock t).1 t (m t).1)
        (not b.destructive_page || not b.has_locks) _ _ (λ _. inl refl)
        λ _.
          flash_under_lock-Delivers expected t (await_call b b.request_lock t)
            (Quiet-await_call b b.request_lock t).0
