-- ===== src/Quarantine/Laws.antt =====
-- site/firmware-quarantine.js: a registry that is read quarantines the hashes that it lists.
use frogalert.Prelude.{
  ◌≡◌, sym, ◌∙◌, ap, ◌↔◌, Bool, true, false, not, ◌||◌, List, [], ◌∷◌, ◌++◌, Option, none, some, ok,
  throw_if, ◌>>◌, passed, subst, arith,
}
use frogalert.Prelude.Text.{Text}
use frogalert.Prelude.Patterns.{is_sha256}
use frogalert.Prelude.Json.{Json, get, is_the_text, is_the_number, is_not_object}
use frogalert.Quarantine.{
  has_hash, has_value, matches_sha256, add_artifacts, artifacts_of, add_listed,
  parse_firmware_quarantine_registry, assert_firmware_hash_not_quarantined, invalid_registry_sha256,
  repeated_sha256, unsupported_registry, invalid_sha256, quarantined,
}

-- Whether an artifact in the registry has the hash.
unfoldable pub lists : Text → List Json → Bool
lists sha256 [] = false
lists sha256 (artifact ∷ artifacts) =
    is_the_text sha256 (get artifact "sha256") || lists sha256 artifacts

-- The artifacts of a registry, or none if it has no array of them.
unfoldable pub listed_in : Option (List Json) → List Json
listed_in none = []
listed_in (some artifacts) = artifacts

or_assoc : (a b c : Bool) → ((a || b) || c) ≡ (a || (b || c))
or_assoc a b c = ground arith

has_hash-append :
    (sha256 : Text) (hashes : List Json) (value : Json)
    → has_hash sha256 (hashes ++ (value ∷ []))
      ≡ (has_hash sha256 hashes || is_the_text sha256 value)
unfolding has_hash
has_hash-append sha256 [] value = ground arith
has_hash-append sha256 (v ∷ hashes) value =
    ap (λ b. is_the_text sha256 v || b) (has_hash-append sha256 hashes value)
    ∙ sym (or_assoc (is_the_text sha256 v) (has_hash sha256 hashes) (is_the_text sha256 value))

-- Whatever the loop starts with.
add_artifacts_lem :
    (sha256 : Text) (artifacts hashes all : List Json)
    → add_artifacts artifacts hashes ≡ ok all
    → has_hash sha256 all ≡ (has_hash sha256 hashes || lists sha256 artifacts)
unfolding add_artifacts lists
add_artifacts_lem sha256 [] hashes all h =
    let same : hashes ≡ all = cc h in
    subst (λ l. has_hash sha256 l ≡ (has_hash sha256 hashes || false)) same (ground arith)
add_artifacts_lem sha256 (artifact ∷ artifacts) hashes all h =
    let (_, h₁) =
      passed
        (throw_if (is_not_object artifact || not (matches_sha256 (get artifact "sha256")))
          invalid_registry_sha256)
        _ h in
    let (_, h₂) =
      passed (throw_if (has_value (get artifact "sha256") hashes) repeated_sha256) _ h₁ in
    add_artifacts_lem sha256 artifacts (hashes ++ (get artifact "sha256" ∷ [])) all h₂
    ∙ ap (λ b. b || lists sha256 artifacts) (has_hash-append sha256 hashes (get artifact "sha256"))
    ∙ or_assoc (has_hash sha256 hashes) (is_the_text sha256 (get artifact "sha256"))
        (lists sha256 artifacts)

add_listed_lem :
    (sha256 : Text) (artifacts : Option (List Json)) (all : List Json)
    → add_listed artifacts ≡ ok all
    → has_hash sha256 all ≡ lists sha256 (listed_in artifacts)
unfolding add_listed listed_in has_hash
add_listed_lem sha256 none all h = absurd (ground arith)
add_listed_lem sha256 (some artifacts) all h = add_artifacts_lem sha256 artifacts [] all h

-- What a test of a hash says of the set.
assert_iff :
    (sha256 : Text) (hashes : List Json)
    → (assert_firmware_hash_not_quarantined sha256 (some hashes) ≡ ok tt)
      ↔ ((is_sha256 sha256 ≡ true) × (has_hash sha256 hashes ≡ false))
unfolding assert_firmware_hash_not_quarantined
assert_iff sha256 hashes = decide (is_sha256 sha256) (has_hash sha256 hashes)
  where
    decide :
        (c d : Bool)
        → ((throw_if (not c) invalid_sha256 >> throw_if d quarantined) ≡ ok tt)
          ↔ ((c ≡ true) × (d ≡ false))
    decide c d = ground arith

-- With a registry that is read, a text passes exactly if it is a SHA-256 in lower case hexadecimal
-- digits and no artifact that the registry lists has it.
pub quarantine_iff :
    (registry : Json) (hashes : List Json) (sha256 : Text)
    → parse_firmware_quarantine_registry registry ≡ ok hashes
    → (assert_firmware_hash_not_quarantined sha256 (some hashes) ≡ ok tt) ↔ (
        (is_sha256 sha256 ≡ true)
        × (lists sha256 (listed_in (artifacts_of (get registry "artifacts"))) ≡ false))
unfolding parse_firmware_quarantine_registry
quarantine_iff registry hashes sha256 h =
    let (_, h₁) =
      passed
        (throw_if (is_not_object registry || not (is_the_number 1 (get registry "schema_version")))
          unsupported_registry)
        _ h in
    subst
      (λ b.
        (assert_firmware_hash_not_quarantined sha256 (some hashes) ≡ ok tt)
        ↔ ((is_sha256 sha256 ≡ true) × (b ≡ false)))
      (add_listed_lem sha256 (artifacts_of (get registry "artifacts")) hashes h₁)
      (assert_iff sha256 hashes)
