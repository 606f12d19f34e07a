-- ===== src/Quarantine.antt =====
-- site/firmware-quarantine.js. The `Set` is the list of its elements in the order of insertion. An
-- element that is no string passes the pattern as an array whose string is a hash does; it is an
-- object of its own, which no other value equals.
pub mod Laws
use frogalert.Prelude.{
  Bool, true, false, not, ◌||◌, List, [], ◌∷◌, ◌++◌, Option, none, some, Result, ok, err, throw_if,
  ◌>>=◌, ◌>>◌,
}
use frogalert.Prelude.Text.{Text}
use frogalert.Prelude.Patterns.{is_sha256}
use frogalert.Prelude.Json.{
  Json, undefined, null, boolean, number, other_number, text, array, object, get, print,
  is_the_text, is_the_number, is_not_object,
}
use frogalert.Catalog.Sort.{items_of}

pub data QuarantineError : Type 0 where
  unsupported_registry invalid_registry_sha256 repeated_sha256 : QuarantineError
  invalid_sha256 registry_not_loaded quarantined : QuarantineError

-- `hashes.has(...)` of a string.
unfoldable pub has_hash : Text → List Json → Bool
unfolding is_the_text
has_hash sha256 [] = false
has_hash sha256 (value ∷ hashes) = is_the_text sha256 value || has_hash sha256 hashes

unfoldable pub has_value : Json → List Json → Bool
has_value (text sha256) hashes = has_hash sha256 hashes
has_value other hashes = false

-- `SHA256_PATTERN.test(value)`
unfoldable pub matches_sha256 : Json → Bool
matches_sha256 value = is_sha256 (print value)

unfoldable pub add_artifacts : List Json → List Json → Result QuarantineError (List Json)
add_artifacts [] hashes = ok hashes
add_artifacts (artifact ∷ artifacts) hashes = do
  throw_if (is_not_object artifact || not (matches_sha256 (get artifact "sha256")))
      invalid_registry_sha256
  throw_if (has_value (get artifact "sha256") hashes) repeated_sha256
  add_artifacts artifacts (hashes ++ (get artifact "sha256" ∷ []))

-- The elements of an array, for the loop over them.
unfoldable pub artifacts_of : Json → Option (List Json)
artifacts_of (array items) = some (items_of items)
artifacts_of other = none

unfoldable pub add_listed : Option (List Json) → Result QuarantineError (List Json)
add_listed none = err unsupported_registry
add_listed (some artifacts) = add_artifacts artifacts []

unfoldable pub parse_firmware_quarantine_registry : Json → Result QuarantineError (List Json)
parse_firmware_quarantine_registry registry = do
  throw_if (is_not_object registry || not (is_the_number 1 (get registry "schema_version")))
      unsupported_registry
  add_listed (artifacts_of (get registry "artifacts"))

unfoldable pub assert_firmware_hash_not_quarantined :
    Text → Option (List Json) → Result QuarantineError (Unit {0})
assert_firmware_hash_not_quarantined sha256 none = do
  throw_if (not (is_sha256 sha256)) invalid_sha256
  err registry_not_loaded
assert_firmware_hash_not_quarantined sha256 (some hashes) = do
  throw_if (not (is_sha256 sha256)) invalid_sha256
  throw_if (has_hash sha256 hashes) quarantined
