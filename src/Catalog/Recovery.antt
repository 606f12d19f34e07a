-- ===== src/Catalog/Recovery.antt =====
-- site/wchisp-protocol.js, the recovery image: `OPEN_BADGEMAGIC_RECOVERY` and
-- `validateRecoveryDescriptor`.
use frogalert.Prelude.{ℕ, Bool, ◌&&◌, not, ◌++◌, Result, throw_if, ◌>>◌}
use frogalert.Prelude.Bytes.{same_bytes}
use frogalert.Catalog.{
  CatalogError, badge_target, no_descriptor, not_the_reviewed_image, not_unverified, wrong_hardware,
  wrong_revision, wrong_artifact, wrong_provenance,
}
use frogalert.Prelude.Json.{
  Json, is_the_text, get, is_not_object, is_the_number, is_false, is_single,
}
use frogalert.Prelude.Text.{Text, codes, trim}

abbrev pub recovery_id : Text
recovery_id = codes "fossasia-badgemagic-v0.1-hardware-rev1"

abbrev pub recovery_hardware_revision : Text
recovery_hardware_revision = codes "HARDWARE_REV1"

abbrev pub recovery_file : Text
recovery_file = codes "badgemagic-open-v0.1-hardware-rev1.bin"

abbrev pub recovery_bytes : ℕ
recovery_bytes = 155672

abbrev pub recovery_sha256 : Text
recovery_sha256 = codes "7beebae130d36aa3b975d03019bb2027abf2f030295bd0f9daa625f04fb1e6b9"

abbrev pub recovery_repository : Text
recovery_repository = codes "https://github.com/fossasia/badgemagic-firmware"

abbrev pub recovery_source_commit : Text
recovery_source_commit = codes "68e4ce488d0a011c2e03c631b5cc0c24dff7e1f8"

unfoldable pub is_reviewed_image : Json → Bool
is_reviewed_image recovery =
    is_the_text recovery_id (get recovery "id")
    && is_the_text (codes "open-badgemagic-recovery") (get recovery "kind")
    && is_the_text (codes "FOSSASIA open BadgeMagic firmware") (get recovery "label")
    && is_the_text (codes "v0.1") (get recovery "version")
    && is_the_text badge_target (get recovery "target")

unfoldable pub is_reviewed_artifact : Json → Bool
is_reviewed_artifact recovery =
    is_the_text recovery_file (get recovery "file")
    && is_the_number recovery_bytes (get recovery "bytes")
    && is_the_text recovery_sha256 (get recovery "sha256")

unfoldable pub is_reviewed_upstream : Json → Bool
is_reviewed_upstream upstream =
    is_the_text recovery_repository (get upstream "repository")
    && is_the_text (recovery_repository ++ codes "/releases/tag/v0.1") (get upstream "release_url")
    && is_the_text (recovery_repository ++ codes "/releases/download/v0.1/badgemagic-ch582.bin")
        (get upstream "artifact_url")
    && is_the_text recovery_source_commit (get upstream "source_commit")
    && is_the_text (recovery_repository ++ (codes "/commit/" ++ recovery_source_commit))
        (get upstream "source_url")
    && is_the_text (codes "Apache-2.0") (get upstream "license")

unfoldable pub validate_recovery_descriptor : Json → Text → Result CatalogError (Unit {0})
validate_recovery_descriptor recovery pcb_revision = do
  throw_if (is_not_object recovery) no_descriptor
  throw_if (not (is_reviewed_image recovery)) not_the_reviewed_image
  throw_if (not (is_false (get recovery "hardware_verified_by_frogalert"))) not_unverified
  throw_if
      (not (is_single (is_the_text recovery_hardware_revision) (get recovery "hardware_revisions")))
      wrong_hardware
  throw_if (not (same_bytes (trim pcb_revision) recovery_hardware_revision)) wrong_revision
  throw_if (not (is_reviewed_artifact recovery)) wrong_artifact
  throw_if (not (is_reviewed_upstream (get recovery "upstream"))) wrong_provenance
