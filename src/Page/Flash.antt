-- ===== src/Page/Flash.antt =====
-- site/app.js: `expectedButtonFlashMatches`, `flashFirmware` and `startFlash`. The texts that are
-- shown and logged, and the states of the controls other than the flash button, are left out.
use frogalert.Prelude.{
  ℕ, Bool, true, false, not, ◌&&◌, ◌||◌, [], Option, none, some, Result, ok, err, if◌then◌else◌,
  ◌==◌,
}
use frogalert.Prelude.Text.{Text, lower_case, trim, codes}
use frogalert.Prelude.Bytes.{same_bytes}
use frogalert.Flasher.State.{HintCopy, missing, blank, copied}
use frogalert.Session.{SessionError}
use frogalert.Session.Steps.{Done, program_and_verify_firmware}
use frogalert.Page.{
  Shared, Firmware, Captured, ButtonReleaseIds, Tab, Browser, no_config, session_changed, Async,
  ◌>>=◌, ◌>>◌, return, throw_if, attempt,
}
use frogalert.Page.Gate.{
  present, selected_revision, revision_matches_artifact, physical_marking_matches_artifact,
  is_recovery, artifact_programming_allowed, update_flash_button,
}
use frogalert.Page.Usb.{same_object, await_call, await_quietly, close_usb, session_environment}

-- `expectedButtonFlash`, which is always frozen.
pub record ButtonFlash : Type 0 where
  pub device : Option ℕ
  pub chip : Option ℕ
  pub config : Option ℕ
  pub firmware : Option ℕ
  pub artifact_generation : ℕ
  pub position : Text
  pub release_id : Text
  pub release_version : Text
  pub firmware_hash : Text
  pub profile : Text
  pub marking : Text

-- A text or `undefined`, against a text.
unfoldable pub is_text_value : Option Text → Text → Bool
is_text_value none t = false
is_text_value (some s) t = same_bytes s t

unfoldable pub id_at : Text → ButtonReleaseIds → Option Text
id_at position ids =
    if same_bytes position (codes "top")
    then some ids.top
    else if same_bytes position (codes "bottom")
    then some ids.bottom
    else none

unfoldable pub button_release_id : Shared → Text → Option Text
button_release_id s position = elim s.button_release_ids [
  | none ↦ none
  | some ids ↦ id_at position ids
]

unfoldable pub config_tag : Option Captured → Option ℕ
config_tag none = none
config_tag (some c) = some c.tag

unfoldable pub firmware_tag : Option Firmware → Option ℕ
firmware_tag none = none
firmware_tag (some f) = some f.tag

unfoldable pub firmware_is : Option Firmware → ButtonFlash → Bool
firmware_is none expected = false
firmware_is (some f) expected =
    is_text_value f.release_id expected.release_id
    && is_text_value f.release_version expected.release_version
    && same_bytes (lower_case f.hash) (lower_case expected.firmware_hash)

unfoldable pub hint_is : HintCopy → ButtonFlash → Bool
hint_is missing expected = false
hint_is blank expected = false
hint_is (copied h) expected =
    same_bytes h.position expected.position
    && same_bytes h.profile expected.profile
    && same_bytes h.marking expected.marking

unfoldable pub has_started : Result SessionError Bool → Bool
has_started (ok started) = started
has_started (err e) = false

module _ {W : Type 0} (b : Browser W) where
  unfoldable pub is_opened : Option ℕ → W → Bool
  is_opened none w = false
  is_opened (some device) w = b.opened device w

  unfoldable pub device_matches : ButtonFlash → Tab W → Bool
  device_matches expected t =
      same_object t.shared.usb_device expected.device
      && is_opened expected.device t.world
      && same_object t.shared.chip expected.chip
      && same_object (config_tag t.shared.config) expected.config

  unfoldable pub release_matches : ButtonFlash → Shared → Bool
  release_matches expected s =
      s.release_prefetch_ready
      && same_object (firmware_tag s.firmware) expected.firmware
      && (s.artifact_generation == expected.artifact_generation)
      && is_text_value s.release_prefetch_version expected.release_version
      && is_text_value (button_release_id s expected.position) expected.release_id

  unfoldable pub board_matches : ButtonFlash → Shared → Bool
  board_matches expected s =
      hint_is s.application_profile_hint expected
      && same_bytes (selected_revision s) expected.profile
      && same_bytes (trim s.pcb_marking) expected.marking

  unfoldable pub expected_button_flash_matches : ButtonFlash → Tab W → Bool
  expected_button_flash_matches expected t =
      t.button_flash_pending
      && device_matches expected t
      && release_matches expected t.shared
      && firmware_is t.shared.firmware expected
      && board_matches expected t.shared

  -- `finalActionConfirmed && !expectedButtonFlashMatches(expectedButtonFlash)`
  unfoldable pub lost_binding : Bool → Option ButtonFlash → Tab W → Bool
  lost_binding final_action_confirmed none t = final_action_confirmed
  lost_binding final_action_confirmed (some expected) t =
      final_action_confirmed && not (expected_button_flash_matches expected t)

  unfoldable pub not_ready : Shared → Bool
  not_ready s =
      s.flash_button_disabled
      || not (present s.firmware)
      || not (present s.config)
      || not (artifact_programming_allowed s)
      || not (revision_matches_artifact s)
      || not (physical_marking_matches_artifact s)

  -- `window.confirm` stops all other handlers.
  unfoldable pub confirm_flash : Bool → Async W Bool
  confirm_flash true t = (ok true, t)
  confirm_flash false t =
      let (confirmed, w) = b.confirm t.world in (ok confirmed, record t { world = w })

  unfoldable pub begin_flash : Tab W → Tab W
  begin_flash t = record t { flashing = true; active_flash_device = t.shared.usb_device }

  -- `programAndVerifyFirmware({ padded, eraseSectors, uid: state.config.uid, … })`
  unfoldable pub run_on : Option Captured → Firmware → Option ℕ → Async W Done
  run_on none firmware flash_device t = (err no_config, t)
  run_on (some config) firmware flash_device t =
      let (r, s) =
        program_and_verify_firmware (session_environment b flash_device) firmware.padded
          firmware.erase_sectors config.registers.uid
          (record { world = t; sent = []; events = [] }) in
      (r, s.world)

  -- The body of the `try` block, up to the session's end.
  unfoldable pub flash_session : Bool → Option ButtonFlash → Firmware → Option ℕ → Async W Done
  flash_session final_action_confirmed expected firmware flash_device t =
      (do
        throw_if (lost_binding final_action_confirmed expected t) session_changed
        run_on t.shared.config firmware flash_device)
        t

  unfoldable pub withdrawn : Option Firmware → Shared → Shared
  withdrawn none s = s
  withdrawn (some firmware) s =
      if is_recovery firmware.artifact_kind
      then record s { recovery_board_confirmed = false }
      else s

  unfoldable pub withdraw_confirmation : Async W (Unit {0})
  withdraw_confirmation t =
      let shared = withdrawn t.shared.firmware t.shared in (ok tt, record t { shared = shared })

  -- The rest of the `try` block, or the `catch` block.
  unfoldable pub settle : Result SessionError Done → Async W (Unit {0})
  settle (ok done) = close_usb b
  settle (err e) = close_usb b >> withdraw_confirmation

  unfoldable pub end_flash : Tab W → Tab W
  end_flash t = record t { flashing = false; active_flash_device = none }

  -- The `finally` block.
  unfoldable pub finish_flash : Async W (Unit {0})
  finish_flash t = (await_quietly b b.release_wake_lock >> update_flash_button) (end_flash t)

  -- All that follows the last question. The `finally` block runs whatever happens.
  unfoldable pub flash_device_with : Bool → Option ButtonFlash → Firmware → Option ℕ → Async W Bool
  flash_device_with final_action_confirmed expected firmware flash_device = do
    (λ t. (ok tt, begin_flash t))
    update_flash_button
    await_quietly b b.acquire_wake_lock
    outcome ← attempt (flash_session final_action_confirmed expected firmware flash_device)
    _ ← attempt (settle outcome)
    finish_flash
    return true

  unfoldable pub flash_confirmed : Bool → Option ButtonFlash → Firmware → Async W Bool
  flash_confirmed final_action_confirmed expected firmware =
      confirm_flash final_action_confirmed >>= λ confirmed t.
      if confirmed
      then flash_device_with final_action_confirmed expected firmware t.shared.usb_device t
      else (ok false, t)

  unfoldable pub flash_loaded : Bool → Option ButtonFlash → Option Firmware → Async W Bool
  flash_loaded final_action_confirmed expected none t = (update_flash_button >> return false) t
  flash_loaded final_action_confirmed expected (some firmware) t =
      if not_ready t.shared
      then (update_flash_button >> return false) t
      else if lost_binding final_action_confirmed expected t
      then (ok false, t)
      else flash_confirmed final_action_confirmed expected firmware t

  -- `false` is every return without `true`.
  unfoldable pub flash_firmware : Bool → Option ButtonFlash → Async W Bool
  flash_firmware final_action_confirmed expected t =
      flash_loaded final_action_confirmed expected t.shared.firmware t

  -- The callback of the lock request.
  unfoldable pub flash_under_lock : Bool → Option ButtonFlash → Bool → Async W Bool
  flash_under_lock final_action_confirmed expected granted =
      if granted then flash_firmware final_action_confirmed expected else return false

  unfoldable pub request_and_flash : Bool → Option ButtonFlash → Async W Bool
  request_and_flash final_action_confirmed expected = do
    granted ← await_call b b.request_lock
    flash_under_lock final_action_confirmed expected granted

  unfoldable pub start_flash : Bool → Option ButtonFlash → Async W Bool
  start_flash final_action_confirmed expected =
      if not b.destructive_page || not b.has_locks
      then return false
      else (attempt (request_and_flash final_action_confirmed expected) >>= λ started.
          return (has_started started))
