-- ===== src/Examples/Page.antt =====
-- The flashing part of the page (site/app.js) with a simulated badge: its code flash, and the answer
-- that is still to be read.
use frogalert.Prelude.{
  ℕ, ◌≡◌, refl, true, false, List, [], ◌∷◌, length, some, none, ok, ◌%◌, ◌/◌, ◌==◌, Result, ◌⊎◌,
  err, replicate,
}
use frogalert.Prelude.Patterns.{is_sha256, exactly_of, all_of}
use frogalert.Quarantine.{assert_firmware_hash_not_quarantined, has_hash}
use frogalert.Config.Image.{
  find_unique_firmware_config_block, unique_offset, offsets_from, matches_at,
}
use frogalert.Protocol.Image.{validate_firmware, is_bin_name, pad_firmware}
use frogalert.Page.Load.{
  set_firmware, Options, of_module, inspect_firmware_config, inspect_at, is_no_block, profile_fits,
  accept_current, accept_firmware, hash_differs, store_firmware,
}
use frogalert.Page.LoadLaws.{IsAccepted, set_firmware_lem}
use frogalert.Page.Gate.{
  selected_revision, present, artifact_programming_allowed, revision_matches_artifact,
  revision_matches, physical_marking_matches_artifact, marking_matches, update_flash_button,
}
use frogalert.Session.{SessionError}
use frogalert.Prelude.Text.{Text, codes, trim, trim_start, is_space, lower_case}
use frogalert.Prelude.Bytes.{byte_at, same_bytes, every_eq}
use frogalert.Protocol.Packets.{identify_packet}
use frogalert.Flasher.State.{
  frogalert_release, has, can_program_artifact, items, artifact_board_binding, copied,
}
use frogalert.Page.{Firmware, Shared, Tab, Browser}
use frogalert.Page.Usb.{usb_transfer, same_object, await_quietly, await_call, hand_over}
use frogalert.Page.Flash.{
  ButtonFlash, flash_firmware, start_flash, flash_loaded, not_ready, lost_binding,
  expected_button_flash_matches, is_opened, config_tag, firmware_tag, is_text_value,
  button_release_id, id_at, firmware_is, hint_is, flash_confirmed, confirm_flash, flash_device_with,
  begin_flash, finish_flash, end_flash, device_matches, release_matches, board_matches,
}
use frogalert.Page.FlashWire.{FlashClaim, flash_firmware_wire}
use frogalert.Page.Locks.{
  IsReleased, TransferClaim, usb_transfer_lem, flash_firmware-IsReleased, start_flash_locked,
}
use frogalert.Examples.Session.{answer, image, uid}

pub record Badge : Type 0 where
  pub flash : List ℕ
  pub reply : List ℕ

unfoldable pub framed : List ℕ → List ℕ → List ℕ
framed packet payload = byte_at packet 0 ∷ 0 ∷ length payload % 256 ∷ length payload / 256 ∷ payload

unfoldable pub payload_of : Result SessionError (List ℕ) → List ℕ
payload_of (ok payload) = payload
payload_of (err e) = []

unfoldable pub browser : Browser Badge
browser = record {
  destructive_page = true;
  has_locks = true;
  opened = λ device w. device == 7;
  transfer_out = λ device packet ms w.
      let (r, flash) = answer packet w.flash in
      (
        ok (record { is_ok = true; bytes_written = length packet }),
        record { flash = flash; reply = framed packet (payload_of r) },
      );
  transfer_in = λ device ms w. (ok (record { is_ok = true; bytes = some w.reply }), w);
  release_interface = λ device w. (ok tt, w);
  close = λ device w. (ok tt, w);
  random_byte = λ w. (ok 7, w);
  delay = λ ms w. (ok tt, w);
  confirm = λ w. (true, w);
  acquire_wake_lock = λ w. (ok tt, w);
  release_wake_lock = λ w. (ok tt, w);
  sha256 = λ bytes w. (ok (replicate 64 b'a'), w);
  fetch = λ file w. (ok (record { is_ok = true; bytes = image }), w);
  request_lock = λ w. (ok true, w);
  other_handlers = λ flashing pending shared w. (shared, w);
}

abbrev profile : Text
profile = codes "B1144C_260404_USB_C"

abbrev marking : Text
marking = codes "B1144C_260404"

abbrev firmware : Firmware
firmware = record {
  tag = 3;
  hash = codes "ab";
  board = record { hardware_revisions = profile ∷ []; pcb_markings = some (marking ∷ []) };
  padded = image;
  erase_sectors = 8;
  artifact_kind = frogalert_release;
  hardware_verified = false;
  hardware_verified_by_frogalert = false;
  flash_approved = true;
  release_id = some (codes "top");
  release_version = some (codes "1.0.0");
}

abbrev pub page : Shared
page = record {
  usb_device = some 7;
  chip = some 1;
  config = some (record {
    tag = 2;
    registers = record { bootloader_version = 2 ∷ 6 ∷ 0 ∷ 0 ∷ []; uid = uid; registers = [] };
  });
  firmware = some firmware;
  artifact_generation = 4;
  releases = [];
  release_prefetch_ready = true;
  release_prefetch_version = some (codes "1.0.0");
  button_release_ids = some (record { top = codes "top"; bottom = codes "bottom" });
  monitor_dirty = false;
  application_profile_hint = copied (record {
    position = codes "top";
    profile = profile;
    marking = marking;
    image_label = codes "top-button image";
  });
  pcb_revision = profile;
  pcb_marking = marking;
  recovery_board_confirmed = false;
  flash_button_disabled = false;
  quarantined_firmware_hashes = some [];
  release_artifacts = [];
  next_tag = 5;
}

abbrev tab : Tab Badge
tab = record {
  flashing = false;
  active_flash_device = none;
  button_flash_pending = true;
  shared = page;
  wire = [];
  world = record { flash = []; reply = [] };
}

abbrev expected : ButtonFlash
expected = record {
  device = some 7;
  chip = some 1;
  config = some 2;
  firmware = some 3;
  artifact_generation = 4;
  position = codes "top";
  release_id = codes "top";
  release_version = codes "1.0.0";
  firmware_hash = codes "AB";
  profile = profile;
  marking = marking;
}

flash_firmware_wire_example :
    FlashClaim browser true
      (some expected)
      7
      tab
      (flash_firmware browser true (some expected) tab).1
flash_firmware_wire_example = flash_firmware_wire browser true (some expected) 7 tab refl

flash_firmware-IsReleased_example : IsReleased (flash_firmware browser true (some expected) tab).1
flash_firmware-IsReleased_example =
    flash_firmware-IsReleased browser true (some expected) tab (refl, refl)

usb_transfer_lem_example :
    TransferClaim browser
      (identify_packet 0 0)
      7
      tab
      (usb_transfer browser (identify_packet 0 0) (some 7) tab)
usb_transfer_lem_example = usb_transfer_lem browser (identify_packet 0 0) 7 tab

start_flash_locked_example :
    ((start_flash browser true (some expected) tab).1.wire ≡ [])
    ⊎ ((browser.destructive_page ≡ true)
        × (browser.has_locks ≡ true)
        × ((browser.request_lock tab.world).0 ≡ ok true))
start_flash_locked_example = start_flash_locked browser true (some expected) tab

-- The session starts, and ends with the whole image in the flash.
starts : (flash_firmware browser true (some expected) tab).0 ≡ ok true
unfolding flash_firmware flash_loaded not_ready lost_binding expected_button_flash_matches
    device_matches release_matches board_matches is_opened same_object browser config_tag
    firmware_tag is_text_value button_release_id id_at firmware_is hint_is selected_revision present
    artifact_programming_allowed revision_matches_artifact revision_matches
    physical_marking_matches_artifact marking_matches has can_program_artifact same_bytes trim
    trim_start is_space lower_case flash_confirmed confirm_flash flash_device_with begin_flash
    update_flash_button await_quietly finish_flash end_flash
starts = refl

abbrev options : Options
options = record {
  expected_hash = some (replicate 64 b'A');
  generation = 4;
  hardware_revisions = profile ∷ [];
  pcb_markings = items (marking ∷ []);
  artifact_kind = frogalert_release;
  hardware_verified = false;
  hardware_verified_by_frogalert = false;
  flash_approved = true;
  release_id = some (codes "top");
  release_version = some (codes "1.0.0");
}

abbrev loaded : Tab Badge
loaded = (set_firmware browser image (codes "top.bin") options tab).1

loads : set_firmware browser image (codes "top.bin") options tab ≡ (ok true, loaded)
unfolding set_firmware of_module validate_firmware is_bin_name every_eq pad_firmware await_call
    hand_over browser inspect_firmware_config find_unique_firmware_config_block unique_offset
    offsets_from matches_at inspect_at is_no_block profile_fits accept_current accept_firmware
    assert_firmware_hash_not_quarantined has_hash is_sha256 exactly_of all_of hash_differs
    same_bytes lower_case artifact_board_binding store_firmware update_flash_button
loads = refl

set_firmware_lem_example :
    (f : Firmware) × (loaded.shared.firmware ≡ some f)
    × ((hash : Text) × ((browser.sha256 image tab.world).0 ≡ ok hash)
        × IsAccepted image
            (codes "top.bin")
            options
            hash
            (await_call browser (browser.sha256 image) tab).1.shared.quarantined_firmware_hashes
            f)
set_firmware_lem_example = set_firmware_lem browser image (codes "top.bin") options tab loaded loads
