-- ===== src/Page/Choose.antt =====
-- site/app.js: `loadReleaseArtifact` and `chooseIspButtonAndFlash`. A release is a descriptor of the
-- manifest.
use frogalert.Prelude.{
  ℕ, ◌==◌, Bool, true, false, not, ◌&&◌, ◌||◌, List, [], ◌∷◌, map, Option, none, some, Result, ok,
  err, if◌then◌else◌,
}
use frogalert.Prelude.Bytes.{same_bytes}
use frogalert.Prelude.Text.{Text}
use frogalert.Prelude.Json.{Json, get, is_true, is_the_text, is_single, array}
use frogalert.Catalog.Release.{text_of, validate_release_descriptor}
use frogalert.Catalog.Sort.{items_of}
use frogalert.Flasher.State.{
  Hint, items, frogalert_release, profile_hint_for_isp_button, HintCopy, missing, blank, copied,
}
use frogalert.Session.{SessionError, thrown}
use frogalert.Page.{Shared, Tab, Browser, Async, ◌>>=◌, ◌>>◌, return, throw_if, attempt, shared_of}
use frogalert.Page.Gate.{present, artifact_ready_for_wizard}
use frogalert.Page.Usb.{same_object}
use frogalert.Page.Load.{
  of_module, Options, begin_artifact_preparation, clear_firmware, set_firmware,
  verified_release_artifact_bytes,
}
use frogalert.Page.Flash.{
  ButtonFlash, is_text_value, button_release_id, config_tag, firmware_tag, is_opened, start_flash,
}

-- The texts of an array that the descriptor's checks have accepted.
unfoldable pub texts_of : Json → List Text
texts_of (array values) = map text_of (items_of values)
texts_of other = []

unfoldable pub release_options : Json → ℕ → Options
release_options release generation = record {
  expected_hash = some (text_of (get release "sha256"));
  generation = generation;
  hardware_revisions = texts_of (get release "hardware_revisions");
  pcb_markings = items (texts_of (get release "pcb_markings"));
  artifact_kind = frogalert_release;
  hardware_verified = is_true (get release "hardware_verified");
  hardware_verified_by_frogalert = false;
  flash_approved = is_true (get release "flash_approved");
  release_id = some (text_of (get release "id"));
  release_version = some (text_of (get release "version"));
}

abbrev pub release_changed : SessionError
release_changed = thrown 12

abbrev pub not_started : SessionError
not_started = thrown 13

-- `state.buttonReleaseIds[position]` and the release that it stands for.
unfoldable pub is_release_for : Text → Option Text → Hint → Json → Bool
is_release_for release_id version hint candidate =
    is_the_text release_id (get candidate "id")
    && is_text_value version (text_of (get candidate "version"))
    && is_single (is_the_text hint.profile) (get candidate "hardware_revisions")
    && is_single (is_the_text hint.marking) (get candidate "pcb_markings")

unfoldable pub same_version : Option Text → Option Text → Bool
same_version none none = true
same_version none (some v) = false
same_version (some u) none = false
same_version (some u) (some v) = same_bytes u v

unfoldable pub find_release : (Json → Bool) → List Json → Option Json
find_release test [] = none
find_release test (candidate ∷ releases) =
    if test candidate then some candidate else find_release test releases

unfoldable pub release_for : Shared → Hint → Option Text → Option Json
release_for s hint none = none
release_for s hint (some release_id) =
    find_release (is_release_for release_id s.release_prefetch_version hint) s.releases

module _ {W : Type 0} (b : Browser W) where
  -- The `try` block.
  unfoldable pub load_release : Json → ℕ → Async W Bool
  load_release release generation = do
    shared ← shared_of
    of_module (validate_release_descriptor release shared.pcb_revision shared.pcb_marking)
    bytes ← verified_release_artifact_bytes b release
    set_firmware b bytes (text_of (get release "file")) (release_options release generation)

  -- The `catch` block.
  unfoldable pub drop_release : ℕ → Async W Bool
  drop_release generation t =
      if generation == t.shared.artifact_generation
      then (clear_firmware b >> return false) t
      else (ok false, t)

  unfoldable pub loaded_or_dropped : ℕ → Result SessionError Bool → Async W Bool
  loaded_or_dropped generation (ok loaded) = return loaded
  loaded_or_dropped generation (err e) = drop_release generation

  unfoldable pub load_idle : Json → Async W Bool
  load_idle release = do
    generation ← begin_artifact_preparation b
    clear_firmware b
    outcome ← attempt (load_release release generation)
    loaded_or_dropped generation outcome

  unfoldable pub load_release_artifact : Json → Async W Bool
  load_release_artifact release t = if t.flashing then (ok false, t) else load_idle release t

  -- The first test.
  unfoldable pub cannot_choose : Tab W → Bool
  cannot_choose t =
      t.button_flash_pending
      || t.flashing
      || not (present t.shared.usb_device)
      || not (present t.shared.chip)
      || not (present t.shared.config)
      || not t.shared.release_prefetch_ready
      || not (present t.shared.button_release_ids)

  unfoldable pub begin_button_flash : Hint → Tab W → Tab W
  begin_button_flash hint t =
      let shared = record t.shared { pcb_revision = hint.profile; pcb_marking = hint.marking } in
      record t { button_flash_pending = true; shared = shared }

  unfoldable pub end_button_flash : Tab W → Tab W
  end_button_flash t = record t { button_flash_pending = false }

  -- Whether what was captured before the download is still there; `before` is the state then.
  unfoldable pub is_unchanged : Shared → Text → Text → Tab W → Bool
  is_unchanged before position release_id t =
      artifact_ready_for_wizard t.shared
      && same_object t.shared.usb_device before.usb_device
      && same_object t.shared.chip before.chip
      && same_object (config_tag t.shared.config) (config_tag before.config)
      && is_opened b before.usb_device t.world
      && same_version t.shared.release_prefetch_version before.release_prefetch_version
      && is_text_value (button_release_id t.shared position) release_id
      && t.shared.release_prefetch_ready

  unfoldable pub button_flash_of : Shared → Text → Hint → Json → Shared → ButtonFlash
  button_flash_of before position hint release now = record {
    device = before.usb_device;
    chip = before.chip;
    config = config_tag before.config;
    firmware = firmware_tag now.firmware;
    artifact_generation = now.artifact_generation;
    position = position;
    release_id = text_of (get release "id");
    release_version = text_of (get release "version");
    firmware_hash = text_of (get release "sha256");
    profile = hint.profile;
    marking = hint.marking;
  }

  -- The `try` block. During the download the other handlers run and can use a device, since `flashing`
  -- is not set yet: all that they do is in the world, and `wire` has what this function sends.
  unfoldable pub load_and_flash : Shared → Text → Hint → Json → Async W (Unit {0})
  load_and_flash before position hint release = do
    loaded ← load_release_artifact release
    unchanged ← (λ t. (ok (is_unchanged before position (text_of (get release "id")) t), t))
    throw_if (not (loaded && unchanged)) release_changed
    now ← shared_of
    started ← start_flash b true (some (button_flash_of before position hint release now))
    throw_if (not started) not_started

  -- With the `finally` block; what is thrown is shown.
  unfoldable pub flash_release : Shared → Text → Hint → Json → Async W (Unit {0})
  flash_release before position hint release = do
    (λ t. (ok tt, begin_button_flash hint t))
    _ ← attempt (load_and_flash before position hint release)
    (λ t. (ok tt, end_button_flash t))

  unfoldable pub flash_found : Text → Hint → Option Json → Async W (Unit {0})
  flash_found position hint none t = (ok tt, t)
  flash_found position hint (some release) t = flash_release t.shared position hint release t

  -- No release fits the copy `{}`: no element of a parsed array is undefined.
  unfoldable pub choose_hint : Text → HintCopy → Async W (Unit {0})
  choose_hint position missing t = (ok tt, t)
  choose_hint position blank t =
      (ok tt, record t { shared = record t.shared { application_profile_hint = blank } })
  choose_hint position (copied hint) t =
      flash_found position hint (release_for t.shared hint (button_release_id t.shared position))
        (record t { shared = record t.shared { application_profile_hint = copied hint } })

  unfoldable pub choose_isp_button_and_flash : Text → Async W (Unit {0})
  choose_isp_button_and_flash position t =
      if cannot_choose t
      then (ok tt, t)
      else choose_hint position (profile_hint_for_isp_button position) t
