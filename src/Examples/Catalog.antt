-- ===== src/Examples/Catalog.antt =====
-- Two betas of the firmware for both boards, and a lab image.
use mathlib.Core.List.{Perm}
use frogalert.Prelude.Patterns.{
  is_file_name, is_bin_file, is_sha256, is_commit, holds_of, after_prefix, before_suffix, headed,
  all_of, some_of, exactly_of,
}
use frogalert.Catalog.SortLaws.{Ordered, sort_release_catalog_newest_first-Ordered}
use frogalert.Prelude.{◌≡◌, ◌↔◌, ◌⊎◌, refl, List, [], ◌∷◌, ◌++◌, ok, replicate, length, ◌≢◌, true}
use frogalert.Catalog.Versions.{
  is_version, parse_version, parsed_with, core_of, split, prepend, before_first, after_first,
  is_numeral, is_prerelease,
}
use frogalert.Catalog.Kinds.{kinds_disjoint}
use frogalert.Catalog.ReleaseLaws.{validate_release_descriptor_lem}
use frogalert.Catalog.Recovery.{validate_recovery_descriptor}
use frogalert.Catalog.PairedLaws.{IsPair, validate_paired_usb_c_release_catalog_iff}
use frogalert.Catalog.Groups.{of_version}
use frogalert.Catalog.Lab.{validate_lab_descriptor}
use frogalert.Catalog.{frogalert_github_repository, badge_target}
use frogalert.Catalog.Sort.{validate_all, sort_release_catalog_newest_first, items_of}
use frogalert.Prelude.Json.{
  Json, Items, get, item, array, object, text, field, nil, boolean, find_field, number, is_the_text,
  end, is_true, is_text, is_integer_from, is_single, includes_text, has_text,
}
use frogalert.Catalog.Release.{
  validate_release_catalog_descriptor, check_origin, check_version, check_artifact, ci_audited,
  is_release_id, is_not_blank, is_channel, channel_fits, prerelease_of, second_part, text_of,
  expected_tag, expected_url, is_notes_path, is_notes_name, is_notes_stem, is_debug, is_anything,
  validate_release_descriptor, supports,
}
use frogalert.Catalog.Paired.{validate_paired_usb_c_release_catalog}
use frogalert.Prelude.Text.{Text, codes, trim, trim_start, is_space, starts_with, lower_case}
use frogalert.Prelude.Bytes.{All, same_bytes}

abbrev hash : Text
hash = replicate 64 b'a'

abbrev release_for : Text → Text → Text → Text → Json
release_for id version profile marking = object (
    field "target" (text badge_target) (
      field "hardware_verified" (boolean true) (
        field "id" (text (codes "frogalert-" ++ id)) (
          field "kind" (text (codes "frogalert-release")) (
            field "label" (text (codes "FrogAlert")) (
              field "version" (text version) (
                field "channel" (text (codes "beta")) (
                  field "release_tag" (text (b'v' ∷ version)) (
                    field "release_url"
                      (text
                        (codes "https://github.com/pierce403/frogalert/releases/tag/v" ++ version))
                      (field "release_notes" (text (codes "firmware/releases/notes/n.md")) (
                        field "debug_file" (text (codes "n.elf")) (
                          field "debug_bytes" (number 100) (
                            field "debug_sha256" (text hash) (
                              field "hardware_revisions" (array (item (text profile) nil)) (
                                field "pcb_markings" (array (item (text marking) nil)) (
                                  field "file" (text (codes "n.bin")) (
                                    field "bytes" (number 150000) (
                                      field "sha256" (text hash) (
                                        field "source_commit" (text (replicate 40 b'c'))
                                          end)))))))))))))))))))

abbrev old_top : Json
old_top =
    release_for (codes "top.1") (codes "1.0.0-beta.9") (codes "B1144C_260404_USB_C")
      (codes "B1144C_260404")

abbrev pub new_top : Json
new_top =
    release_for (codes "top.2") (codes "1.0.0-beta.10") (codes "B1144C_260404_USB_C")
      (codes "B1144C_260404")

abbrev new_bottom : Json
new_bottom =
    release_for (codes "bottom.2") (codes "1.0.0-beta.10") (codes "B1144C_250901_USB_C")
      (codes "B1144C_250901")

abbrev catalog : Items
catalog = item old_top (item new_top (item new_bottom nil))

validate_all-catalog : validate_all (items_of catalog) frogalert_github_repository ≡ ok tt
unfolding validate_all items_of validate_release_catalog_descriptor check_origin check_version
    check_artifact ci_audited get find_field is_the_text is_true is_text is_release_id is_not_blank
    trim trim_start is_space is_version parse_version parsed_with core_of split prepend before_first
    after_first is_numeral is_prerelease is_channel channel_fits prerelease_of second_part text_of
    expected_tag expected_url is_notes_path is_notes_name is_notes_stem is_debug is_file_name
    is_integer_from is_single is_anything is_bin_file is_sha256 is_commit holds_of after_prefix
    before_suffix headed all_of some_of exactly_of same_bytes starts_with lower_case
validate_all-catalog = refl

sort_release_catalog_newest_first-Ordered_example :
    (sorted : List Json) × (sort_release_catalog_newest_first
        (array catalog)
        frogalert_github_repository
      ≡ ok sorted)
    × Perm sorted (items_of catalog)
    × Ordered sorted
sort_release_catalog_newest_first-Ordered_example =
    sort_release_catalog_newest_first-Ordered catalog frogalert_github_repository
      validate_all-catalog

validate_paired_usb_c_release_catalog_iff_example :
    (validate_paired_usb_c_release_catalog (array catalog) frogalert_github_repository ≡ ok tt) ↔ (
      (validate_all (items_of catalog) frogalert_github_repository ≡ ok tt)
      × ((version : Text)
          → (of_version version (items_of catalog) ≡ [])
            ⊎ IsPair (of_version version (items_of catalog))))
validate_paired_usb_c_release_catalog_iff_example =
    validate_paired_usb_c_release_catalog_iff catalog frogalert_github_repository

chosen :
    validate_release_descriptor new_top (codes " B1144C_260404_USB_C") (codes "B1144C_260404")
    ≡ ok tt
unfolding validate_all items_of validate_release_catalog_descriptor check_origin check_version
    check_artifact ci_audited get find_field is_the_text is_true is_text is_release_id is_not_blank
    trim trim_start is_space is_version parse_version parsed_with core_of split prepend before_first
    after_first is_numeral is_prerelease is_channel channel_fits prerelease_of second_part text_of
    expected_tag expected_url is_notes_path is_notes_name is_notes_stem is_debug is_file_name
    is_integer_from is_single is_anything is_bin_file is_sha256 is_commit holds_of after_prefix
    before_suffix headed all_of some_of exactly_of same_bytes starts_with lower_case
    validate_release_descriptor supports includes_text has_text
chosen = refl

validate_release_descriptor_lem_example :
    (get new_top "hardware_revisions"
      ≡ array (item (text (trim (codes " B1144C_260404_USB_C"))) nil))
    × (get new_top "pcb_markings" ≡ array (item (text (trim (codes "B1144C_260404"))) nil))
    × (file : Text) × (sha256 : Text) × (get new_top "file" ≡ text file)
    × All (λ c. c ≢ b'/') file
    × (get new_top "sha256" ≡ text sha256)
    × (length sha256 ≡ 64)
validate_release_descriptor_lem_example =
    validate_release_descriptor_lem new_top (codes " B1144C_260404_USB_C") (codes "B1144C_260404")
      chosen

kinds_disjoint_example :
    (validate_release_catalog_descriptor new_top frogalert_github_repository ≡ ok tt
      → validate_lab_descriptor new_top ≡ ok tt
      → ⊥)
    × (validate_release_catalog_descriptor new_top frogalert_github_repository ≡ ok tt
        → validate_recovery_descriptor new_top (codes "HARDWARE_REV1") ≡ ok tt
        → ⊥)
    × (validate_lab_descriptor new_top ≡ ok tt
        → validate_recovery_descriptor new_top (codes "HARDWARE_REV1") ≡ ok tt
        → ⊥)
kinds_disjoint_example = kinds_disjoint new_top frogalert_github_repository (codes "HARDWARE_REV1")
