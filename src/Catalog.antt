-- ===== src/Catalog.antt =====
-- The catalog part of site/wchisp-protocol.js: descriptors of releases, lab images and the recovery
-- image as they come from the manifest. Here are the errors, one for each `throw`, and constants.
pub mod Release
pub mod ReleaseLaws
pub mod Versions
pub mod VersionOrder
pub mod ParsedOrder
pub mod Lab
pub mod Recovery
pub mod Kinds
pub mod Sort
pub mod SortLaws
pub mod Paired
pub mod Groups
pub mod PairedLaws
use frogalert.Prelude.Text.{Text, codes}

pub data CatalogError : Type 0 where
  wrong_target neither_verified_nor_audited wrong_repository bad_id bad_kind no_label : CatalogError
  bad_version bad_channel channel_mismatch wrong_tag wrong_url bad_notes bad_debug : CatalogError
  not_one_profile not_one_marking bad_file bad_bytes bad_sha256 bad_commit : CatalogError
  unsupported_revision unsupported_marking catalog_not_array : CatalogError
  not_a_pair : Text → CatalogError
  missing_image : Text → Text → CatalogError
  no_descriptor bad_profile no_version no_purpose bad_marking bad_connector : CatalogError
  bad_verified_status : CatalogError
  not_the_reviewed_image not_unverified wrong_hardware wrong_revision wrong_artifact : CatalogError
  wrong_provenance : CatalogError

abbrev pub frogalert_github_repository : Text
frogalert_github_repository = codes "pierce403/frogalert"

abbrev pub ci_audited_release_basis : Text
ci_audited_release_basis = codes "ci-audited"

abbrev pub badge_target : Text
badge_target = codes "ch582m-badgemagic-11x44"
