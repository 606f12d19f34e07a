-- ===== src/Examples/Quarantine.antt =====
-- A registry of quarantined firmware (site/firmware-quarantine.js) with one artifact.
use frogalert.Prelude.{◌≡◌, refl, ◌↔◌, true, false, [], ◌∷◌, some, ok, replicate}
use frogalert.Prelude.Text.{Text}
use frogalert.Prelude.Json.{
  Json, number, text, array, object, nil, item, end, field, get, print, is_the_number,
  is_not_object, find_field,
}
use frogalert.Prelude.Patterns.{is_sha256, exactly_of, all_of, is_lower_hex}
use frogalert.Quarantine.{
  parse_firmware_quarantine_registry, assert_firmware_hash_not_quarantined, artifacts_of,
  add_listed, add_artifacts, matches_sha256, has_value, has_hash,
}
use frogalert.Quarantine.Laws.{quarantine_iff, lists, listed_in}
use frogalert.Catalog.Sort.{items_of}

abbrev bad : Text
bad = replicate 64 b'a'

abbrev registry : Json
registry = object (
    field "schema_version" (number 1)
      (field "artifacts" (array (item (object (field "sha256" (text bad) end)) nil)) end))

is_read : parse_firmware_quarantine_registry registry ≡ ok (text bad ∷ [])
unfolding parse_firmware_quarantine_registry get find_field is_the_number is_not_object artifacts_of
    items_of add_listed add_artifacts matches_sha256 print is_sha256 exactly_of all_of is_lower_hex
    has_value has_hash
is_read = refl

quarantine_iff_example :
    (assert_firmware_hash_not_quarantined bad (some (text bad ∷ [])) ≡ ok tt) ↔ (
      (is_sha256 bad ≡ true)
      × (lists bad (listed_in (artifacts_of (get registry "artifacts"))) ≡ false))
quarantine_iff_example = quarantine_iff registry (text bad ∷ []) bad is_read
