-- ===== src/Catalog/Kinds.antt =====
-- site/wchisp-protocol.js: lab images are bound to a board as releases are, and no descriptor is of
-- two kinds.
use frogalert.Prelude.{◌≡◌, arith, ok, true, not, passed, throw_if, subst, ◌≢◌}
use frogalert.Catalog.ReleaseLaws.{supported, guard_holds, bin_file-plain}
use frogalert.Catalog.{unsupported_revision}
use frogalert.Prelude.Patterns.{is_bin_file}
use frogalert.Prelude.JsonLaws.{the_text_value, text_value}
use frogalert.Catalog.Release.{
  validate_release_catalog_descriptor, check_origin, is_anything, supports,
}
use frogalert.Catalog.Lab.{
  validate_lab_hardware_binding, validate_lab_descriptor, validate_manifest_artifact_metadata,
}
use frogalert.Catalog.Recovery.{validate_recovery_descriptor, is_reviewed_image}
use frogalert.Prelude.Bytes.{same_bytes, All}
use frogalert.Prelude.Json.{is_the_text, Json, is_single, get, array, is_text, item, text, nil}
use frogalert.Prelude.Text.{Text, codes, trim}

check_origin-kind :
    (release : Json) (repository : Text)
    → check_origin release repository ≡ ok tt
    → is_the_text (codes "frogalert-release") (get release "kind") ≡ true
unfolding check_origin
check_origin-kind release repository h = ground arith

release-kind :
    (release : Json) (repository : Text)
    → validate_release_catalog_descriptor release repository ≡ ok tt
    → is_the_text (codes "frogalert-release") (get release "kind") ≡ true
unfolding validate_release_catalog_descriptor
release-kind release repository h =
    check_origin-kind release repository (passed (check_origin release repository) _ h).0

-- What a valid lab descriptor says of its board and its kind.
lab_facts :
    (lab : Json)
    → validate_lab_descriptor lab ≡ ok tt
    → (validate_manifest_artifact_metadata lab ≡ ok tt)
      × (is_the_text (codes "frogalert-lab") (get lab "kind") ≡ true)
      × (is_single is_anything (get lab "pcb_markings") ≡ true)
unfolding validate_lab_descriptor
lab_facts lab h =
    let (first, h1) = passed (validate_manifest_artifact_metadata lab) _ h in
    (first, ground arith, ground arith)

metadata_facts :
    (artifact : Json)
    → validate_manifest_artifact_metadata artifact ≡ ok tt
    → (is_single is_anything (get artifact "hardware_revisions") ≡ true)
      × (is_text is_bin_file (get artifact "file") ≡ true)
unfolding validate_manifest_artifact_metadata
metadata_facts artifact h = ground arith

recovery-kind :
    (recovery : Json) (revision : Text)
    → validate_recovery_descriptor recovery revision ≡ ok tt
    → is_the_text (codes "open-badgemagic-recovery") (get recovery "kind") ≡ true
unfolding validate_recovery_descriptor is_reviewed_image
recovery-kind recovery revision h = ground arith

two_texts :
    (a b : Text) (value : Json)
    → is_the_text a value ≡ true
    → is_the_text b value ≡ true
    → same_bytes a b ≡ true
unfolding is_the_text
two_texts a b value h k =
    let e = the_text_value a value h in subst (λ v. is_the_text b v ≡ true) e k

-- A descriptor that is accepted as a release is neither a lab image nor the recovery image, and one
-- that is accepted as a lab image is not the recovery image.
pub kinds_disjoint :
    (descriptor : Json) (repository revision : Text)
    → (validate_release_catalog_descriptor descriptor repository ≡ ok tt
        → validate_lab_descriptor descriptor ≡ ok tt
        → ⊥)
      × (validate_release_catalog_descriptor descriptor repository ≡ ok tt
          → validate_recovery_descriptor descriptor revision ≡ ok tt
          → ⊥)
      × (validate_lab_descriptor descriptor ≡ ok tt
          → validate_recovery_descriptor descriptor revision ≡ ok tt
          → ⊥)
unfolding same_bytes
kinds_disjoint d repository revision = (
  λ h k.
      let e = two_texts _ _ (get d "kind") (release-kind d repository h) (lab_facts d k).1 in cc e,
  λ h k.
      let e =
        two_texts _ _ (get d "kind") (release-kind d repository h) (recovery-kind d revision k) in
      cc e,
  λ h k.
      let e = two_texts _ _ (get d "kind") (lab_facts d h).1 (recovery-kind d revision k) in cc e,
)

-- A lab image that is accepted for what the user entered is bound to that board alone, and its file
-- name has no "/".
pub validate_lab_hardware_binding_lem :
    (lab : Json) (revision marking : Text)
    → validate_lab_hardware_binding lab revision marking ≡ ok tt
    → (get lab "hardware_revisions" ≡ array (item (text (trim revision)) nil))
      × (get lab "pcb_markings" ≡ array (item (text (trim marking)) nil))
      × (file : Text) × (get lab "file" ≡ text file)
      × All (λ c. c ≢ b'/') file
unfolding validate_lab_hardware_binding
validate_lab_hardware_binding_lem lab revision marking h =
    let (valid, h1) = passed (validate_lab_descriptor lab) _ h in
    let (h2, h3) =
      passed
        (throw_if (not (supports (get lab "hardware_revisions") revision)) unsupported_revision) _
        h1 in
    let (metadata, _, markings) = lab_facts lab valid in
    let (profiles, named) = metadata_facts lab metadata in
    let (file, is_file, plain) = text_value is_bin_file (get lab "file") named in
    (
      supported is_anything (get lab "hardware_revisions") revision profiles (guard_holds _ _ h2),
      supported is_anything (get lab "pcb_markings") marking markings (guard_holds _ _ h3),
      file,
      is_file,
      bin_file-plain file plain,
    )
