-- ===== src/Page/Gate.antt =====
-- site/app.js: the tests of the artifact against the board, and the state of the flash button.
use frogalert.Prelude.{
  Bool, true, false, not, ◌&&◌, ◌||◌, List, [], Option, none, some, ◌==◌, length, ok,
}
use frogalert.Prelude.Text.{Text, trim}
use frogalert.Flasher.State.{
  has, ArtifactKind, open_badgemagic_recovery, local_developer, frogalert_release, frogalert_lab,
  other, can_program_artifact, can_enable_flash, physical_marking_matches_profiles,
}
use frogalert.Page.{Shared, Firmware, Async, ok}

-- `Boolean(x)` of an object or `null`.
unfoldable pub present : {A : Type 0} → Option A → Bool
present none = false
present (some a) = true

unfoldable pub selected_revision : Shared → Text
selected_revision s = trim s.pcb_revision

unfoldable pub has_board_record : Shared → Bool
has_board_record s = not (length (trim s.pcb_marking) == 0)

unfoldable pub revision_matches : Firmware → Text → Bool
revision_matches firmware revision =
    not (length revision == 0) && has firmware.board.hardware_revisions revision

unfoldable pub revision_matches_artifact : Shared → Bool
revision_matches_artifact s = elim s.firmware [
  | none ↦ false
  | some firmware ↦ revision_matches firmware (selected_revision s)
]

unfoldable pub marking_matches : Option (List Text) → List Text → Text → Bool
marking_matches (some declared_markings) revisions marking = has declared_markings (trim marking)
marking_matches none revisions marking = physical_marking_matches_profiles revisions marking

unfoldable pub physical_marking_matches_artifact : Shared → Bool
physical_marking_matches_artifact s = elim s.firmware [
  | none ↦ physical_marking_matches_profiles [] s.pcb_marking
  | some firmware ↦
      marking_matches firmware.board.pcb_markings firmware.board.hardware_revisions s.pcb_marking
]

unfoldable pub is_recovery : ArtifactKind → Bool
is_recovery open_badgemagic_recovery = true
is_recovery local_developer = false
is_recovery frogalert_release = false
is_recovery frogalert_lab = false
is_recovery other = false

unfoldable pub recovery_artifact_confirmation_complete : Shared → Bool
recovery_artifact_confirmation_complete s = elim s.firmware [
  | none ↦ true
  | some firmware ↦ not (is_recovery firmware.artifact_kind) || s.recovery_board_confirmed
]

unfoldable pub artifact_programming_allowed : Shared → Bool
artifact_programming_allowed s = elim s.firmware [
  | none ↦ false
  | some firmware ↦
      can_program_artifact firmware.artifact_kind firmware.hardware_verified
        firmware.hardware_verified_by_frogalert firmware.flash_approved
]

unfoldable pub artifact_ready_for_wizard : Shared → Bool
artifact_ready_for_wizard s =
    present s.usb_device
    && present s.chip
    && present s.config
    && present s.firmware
    && not s.monitor_dirty
    && has_board_record s
    && revision_matches_artifact s
    && physical_marking_matches_artifact s
    && artifact_programming_allowed s

unfoldable pub flash_enabled : Bool → Shared → Bool
flash_enabled flashing s = can_enable_flash (record {
  flashing = flashing;
  has_usb_device = present s.usb_device;
  has_chip_identity = present s.chip;
  has_config = present s.config;
  has_firmware = present s.firmware && not s.monitor_dirty;
  has_board_record = has_board_record s && physical_marking_matches_artifact s;
  artifact_matches_revision = revision_matches_artifact s;
  confirmations_complete = true;
  artifact_confirmation_complete = recovery_artifact_confirmation_complete s;
  artifact_programming_allowed = artifact_programming_allowed s;
  typed_phrase_complete = true;
})

unfoldable pub update_flash_button : {W : Type 0} → Async W (Unit {0})
update_flash_button t =
    let shared = record t.shared {
      flash_button_disabled = not (flash_enabled t.flashing t.shared);
    } in
    (ok tt, record t { shared = shared })
