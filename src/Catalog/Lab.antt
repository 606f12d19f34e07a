-- ===== src/Catalog/Lab.antt =====
-- site/wchisp-protocol.js, the lab images: `validateManifestArtifactMetadata`, `validateLabDescriptor`
-- and `validateLabHardwareBinding`.
use frogalert.Prelude.{Bool, ◌&&◌, ◌||◌, not, leb, ◌==◌, length, Result, throw_if, ◌>>◌}
use frogalert.Catalog.{
  CatalogError, no_descriptor, bad_id, unsupported_revision, unsupported_marking, bad_kind,
  badge_target, no_label, wrong_target, no_version, no_purpose, not_one_profile, not_one_marking,
  bad_marking, bad_profile, bad_connector, bad_file, bad_verified_status, bad_bytes, bad_sha256,
  bad_commit,
}
use frogalert.Prelude.Json.{
  Json, is_text, is_not_object, get, is_the_text, is_single, is_boolean, is_integer_from,
}
use frogalert.Prelude.Patterns.{
  headed, is_lower, is_upper, is_digit, is_bin_file, is_sha256, is_commit,
}
use frogalert.Prelude.Bytes.{same_bytes}
use frogalert.Catalog.Release.{is_not_blank, supports, is_anything}
use frogalert.Prelude.Text.{Text, codes, trim}

-- `/^[A-Z0-9][A-Z0-9_-]{2,63}$/`
unfoldable pub is_profile : Text → Bool
is_profile s =
    headed (λ c. is_upper c || is_digit c) (λ c. is_upper c || is_digit c || c == b'_' || c == b'-')
      2 63 s

-- `artifact` is not `null`, and has the properties of an object.
unfoldable pub validate_manifest_artifact_metadata : Json → Result CatalogError (Unit {0})
validate_manifest_artifact_metadata artifact = do
  throw_if (is_not_object artifact) no_descriptor
  throw_if (not (is_the_text badge_target (get artifact "target"))) wrong_target
  throw_if (not (is_single is_anything (get artifact "hardware_revisions"))) not_one_profile
  throw_if (not (is_single (is_text is_profile) (get artifact "hardware_revisions"))) bad_profile
  throw_if (not (is_text is_bin_file (get artifact "file"))) bad_file
  throw_if (not (is_integer_from 1 (get artifact "bytes"))) bad_bytes
  throw_if (not (is_text is_sha256 (get artifact "sha256"))) bad_sha256
  throw_if (not (is_text is_commit (get artifact "source_commit"))) bad_commit

-- `/^[a-z0-9][a-z0-9._-]{2,95}$/`
unfoldable pub is_lab_id : Text → Bool
is_lab_id s =
    headed (λ c. is_lower c || is_digit c)
      (λ c. is_lower c || is_digit c || c == b'.' || c == b'_' || c == b'-') 2 95 s

unfoldable pub is_marking : Text → Bool
is_marking s = is_not_blank s && leb (length (trim s)) 120

unfoldable pub is_connector : Text → Bool
is_connector s = same_bytes s (codes "usb-c") || same_bytes s (codes "micro-usb")

unfoldable pub validate_lab_descriptor : Json → Result CatalogError (Unit {0})
validate_lab_descriptor lab = do
  validate_manifest_artifact_metadata lab
  throw_if (not (is_text is_lab_id (get lab "id"))) bad_id
  throw_if (not (is_the_text (codes "frogalert-lab") (get lab "kind"))) bad_kind
  throw_if (not (is_text is_not_blank (get lab "label"))) no_label
  throw_if (not (is_text is_not_blank (get lab "version"))) no_version
  throw_if (not (is_text is_not_blank (get lab "purpose"))) no_purpose
  throw_if (not (is_single is_anything (get lab "pcb_markings"))) not_one_marking
  throw_if (not (is_single (is_text is_marking) (get lab "pcb_markings"))) bad_marking
  throw_if (not (is_text is_connector (get lab "connector"))) bad_connector
  throw_if (not (is_boolean (get lab "hardware_verified"))) bad_verified_status

unfoldable pub validate_lab_hardware_binding : Json → Text → Text → Result CatalogError (Unit {0})
validate_lab_hardware_binding lab pcb_revision pcb_marking = do
  validate_lab_descriptor lab
  throw_if (not (supports (get lab "hardware_revisions") pcb_revision)) unsupported_revision
  throw_if (not (supports (get lab "pcb_markings") pcb_marking)) unsupported_marking
