-- ===== src/Catalog/Release.antt =====
-- site/wchisp-protocol.js, `validateReleaseCatalogDescriptor`. Its checks stand in groups that follow
-- one another; a group ends at the first one that throws. `release` is an object: the first test
-- refuses the falsy values, and a property of any other is `undefined`.
use frogalert.Prelude.{
  Bool, true, false, ◌&&◌, ◌||◌, not, List, [], ◌∷◌, ◌++◌, ◌==◌, length, if◌then◌else◌, Result,
  throw_if, ◌>>◌,
}
use frogalert.Prelude.Patterns.{
  holds_of, is_alphanumeric, is_sha256, before_suffix, all_of, headed, after_prefix, is_file_name,
  is_digit, is_name_character, is_lower, is_bin_file, is_commit,
}
use frogalert.Prelude.Json.{
  Json, includes_text, is_text, is_integer_from, is_the_text, is_false, text, is_falsy, get, print,
  is_true, is_single,
}
use frogalert.Catalog.Versions.{split, is_version}
use frogalert.Catalog.{
  frogalert_github_repository, CatalogError, badge_target, bad_notes, unsupported_revision,
  ci_audited_release_basis, wrong_target, bad_debug, unsupported_marking, bad_version,
  neither_verified_nor_audited, bad_channel, wrong_repository, not_one_profile, channel_mismatch,
  bad_id, not_one_marking, wrong_tag, bad_kind, wrong_url, no_label, bad_file, bad_bytes,
  bad_sha256, bad_commit,
}
use frogalert.Prelude.Bytes.{same_bytes}
use frogalert.Prelude.Text.{Text, codes, trim, lower_case, starts_with}

-- `/^sha256:[a-f0-9]{64}$/.test(value || "")`: the value is coerced to a string.
unfoldable pub is_digest : Json → Bool
is_digest value =
    holds_of is_sha256 (after_prefix (codes "sha256:") (if is_falsy value then [] else print value))

unfoldable pub is_printed_sha256 : Json → Bool
is_printed_sha256 value = is_sha256 (if is_falsy value then [] else print value)

unfoldable pub is_workflow : Json → Bool
is_workflow provenance =
    is_the_text (codes "github-actions-candidate") (get provenance "kind")
    && is_integer_from 1 (get provenance "workflow_run_id")
    && is_the_text (codes ".github/workflows/ci.yml") (get provenance "workflow_path")
    && is_integer_from 1 (get provenance "workflow_run_attempt")

unfoldable pub is_candidate_artifact : Json → Json → Bool
is_candidate_artifact release provenance =
    is_integer_from 1 (get provenance "artifact_id")
    && is_the_text (codes "frogalert-candidate-" ++ print (get release "source_commit"))
        (get provenance "artifact_name")
    && is_digest (get provenance "artifact_digest")
    && is_printed_sha256 (get provenance "candidate_metadata_sha256")
    && is_the_text (codes "survey") (get provenance "build_lane")

unfoldable pub ci_audited : Json → Bool
ci_audited release =
    is_false (get release "hardware_verified")
    && is_the_text ci_audited_release_basis (get release "verification_basis")
    && is_true (get release "flash_approved")
    && is_the_text (codes "counter") (get release "firmware_variant")
    && is_workflow (get release "build_provenance")
    && is_candidate_artifact release (get release "build_provenance")

-- `/^frogalert-[a-z0-9][a-z0-9.-]{2,95}$/`
unfoldable pub is_release_id : Text → Bool
is_release_id id =
    holds_of
      (headed (λ c. is_digit c || is_lower c)
        (λ c. is_digit c || is_lower c || c == b'.' || c == b'-') 2 95)
      (after_prefix (codes "frogalert-") id)

-- `value.trim()` is not empty.
unfoldable pub is_not_blank : Text → Bool
is_not_blank s = not (length (trim s) == 0)

unfoldable pub check_origin : Json → Text → Result CatalogError (Unit {0})
check_origin release github_repository = do
  throw_if (not (is_the_text badge_target (get release "target"))) wrong_target
  throw_if (not (is_true (get release "hardware_verified")) && not (ci_audited release))
      neither_verified_nor_audited
  throw_if (not (same_bytes github_repository frogalert_github_repository)) wrong_repository
  throw_if (not (is_text is_release_id (get release "id"))) bad_id
  throw_if (not (is_the_text (codes "frogalert-release") (get release "kind"))) bad_kind
  throw_if (not (is_text is_not_blank (get release "label"))) no_label

-- The text of a field that the checks before have found to be one.
unfoldable pub text_of : Json → Text
text_of (text s) = s
text_of other = []

unfoldable pub second_part : List Text → Text
second_part (a ∷ b ∷ parts) = b
second_part parts = []

-- `version.split("-", 2)[1] || ""`
unfoldable pub prerelease_of : Text → Text
prerelease_of version = second_part (split b'-' version)

unfoldable pub channel_fits : Text → Text → Bool
channel_fits channel prerelease =
    if same_bytes channel (codes "stable")
    then length prerelease == 0
    else starts_with (lower_case prerelease) (channel ++ (b'.' ∷ []))
      || same_bytes (lower_case prerelease) channel

unfoldable pub is_channel : Text → Bool
is_channel s =
    same_bytes s (codes "alpha") || same_bytes s (codes "beta") || same_bytes s (codes "stable")

unfoldable pub expected_tag : Text → Text
expected_tag version = b'v' ∷ version

unfoldable pub expected_url : Text → Text
expected_url version =
    codes "https://github.com/"
    ++ (frogalert_github_repository ++ (codes "/releases/tag/" ++ expected_tag version))

unfoldable pub check_version : Json → Result CatalogError (Unit {0})
check_version release = do
  let version = text_of (get release "version")
  throw_if (not (is_text is_version (get release "version"))) bad_version
  throw_if (not (is_text is_channel (get release "channel"))) bad_channel
  throw_if (not (channel_fits (text_of (get release "channel")) (prerelease_of version)))
      channel_mismatch
  throw_if (not (is_the_text (expected_tag version) (get release "release_tag"))) wrong_tag
  throw_if (not (is_the_text (expected_url version) (get release "release_url"))) wrong_url

-- `/^firmware\/releases\/notes\/[a-zA-Z0-9][a-zA-Z0-9._-]*\.md$/`
unfoldable pub is_notes_stem : Text → Bool
is_notes_stem [] = false
is_notes_stem (c ∷ s) = is_alphanumeric c && all_of is_name_character s

unfoldable pub is_notes_name : Text → Bool
is_notes_name s = holds_of is_notes_stem (before_suffix (codes ".md") s)

unfoldable pub is_notes_path : Text → Bool
is_notes_path s = holds_of is_notes_name (after_prefix (codes "firmware/releases/notes/") s)

unfoldable pub is_debug : Json → Bool
is_debug release =
    is_text (is_file_name (codes ".elf")) (get release "debug_file")
    && is_integer_from 64 (get release "debug_bytes")
    && is_text is_sha256 (get release "debug_sha256")

unfoldable pub is_anything : Json → Bool
is_anything value = true

unfoldable pub check_artifact : Json → Result CatalogError (Unit {0})
check_artifact release = do
  throw_if (not (is_text is_notes_path (get release "release_notes"))) bad_notes
  throw_if (not (is_debug release)) bad_debug
  throw_if (not (is_single is_anything (get release "hardware_revisions"))) not_one_profile
  throw_if (not (is_single is_anything (get release "pcb_markings"))) not_one_marking
  throw_if (not (is_text is_bin_file (get release "file"))) bad_file
  throw_if (not (is_integer_from 1 (get release "bytes"))) bad_bytes
  throw_if (not (is_text is_sha256 (get release "sha256"))) bad_sha256
  throw_if (not (is_text is_commit (get release "source_commit"))) bad_commit

unfoldable pub validate_release_catalog_descriptor : Json → Text → Result CatalogError (Unit {0})
validate_release_catalog_descriptor release github_repository = do
  check_origin release github_repository
  check_version release
  check_artifact release

-- The profile and the marking that the user entered, against a list of the descriptor.
unfoldable pub supports : Json → Text → Bool
supports list entered = not (length (trim entered) == 0) && includes_text (trim entered) list

unfoldable pub validate_release_descriptor : Json → Text → Text → Result CatalogError (Unit {0})
validate_release_descriptor release pcb_revision pcb_marking = do
  validate_release_catalog_descriptor release frogalert_github_repository
  throw_if (not (supports (get release "hardware_revisions") pcb_revision)) unsupported_revision
  throw_if (not (supports (get release "pcb_markings") pcb_marking)) unsupported_marking
