-- ===== src/Examples/Release.antt =====
-- A release that goes from one beta to the next and then becomes stable.
use frogalert.Prelude.{
  ◌≡◌, ◌↔◌, refl, ok, List, ◌≤◌, ℕ, length, replicate, ◌++◌, ◌∷◌, ◌⊎◌, [], take, drop,
}
use frogalert.Prelude.Comparison.{opposite, same, greater}
use frogalert.Release.SentinelLaws.{finalize_firmware_twice, sentinel_bytes, finalize_firmware_iff}
use frogalert.Config.Codec.{get_uint32, get_uint16, set_uint32, set_uint16}
use frogalert.Release.Sentinel.{
  finalize_firmware, as_image_bytes, read_user_option_magic, assert_user_option_magic,
  user_option_magic,
}
use frogalert.Prelude.Bytes.{same_bytes}
use frogalert.Release.Order.{require_firmware_version_bump_iff, IsAfter, compare_values_ordered}
use frogalert.Release.Version.{
  Metadata, require_firmware_version_bump, compare_values, Version, stable,
  validate_firmware_version, alpha, beta, compact_firmware_version, match_version, number, digits,
  after_digits, after, parse_channel, suffix, channel_letter, display_shape, display_tail,
  compare_firmware_versions, parsed_firmware_version, value_from, compare_then, channel_rank,
  is_greater,
}
use frogalert.Prelude.Text.{codes}

abbrev beta_9 : Metadata
beta_9 = record {
  schema_version = 1;
  version = codes "1.2.0-beta.9";
  display_version = codes "v1.2.0b9";
}

abbrev beta_10 : Metadata
beta_10 = record {
  schema_version = 1;
  version = codes "1.2.0-beta.10";
  display_version = codes "v1.2.0b10";
}

next_beta : require_firmware_version_bump beta_9 beta_10 ≡ ok beta_10
unfolding require_firmware_version_bump validate_firmware_version compact_firmware_version
    match_version number digits after_digits after parse_channel suffix channel_letter display_shape
    display_tail compare_firmware_versions parsed_firmware_version value_from compare_values
    compare_then channel_rank is_greater same_bytes
next_beta = refl

require_firmware_version_bump_iff_example :
    (require_firmware_version_bump beta_9 beta_10 ≡ ok beta_10) ↔ (
      (beta_10 ≡ beta_10)
      × (validate_firmware_version beta_9 ≡ ok beta_9)
      × (validate_firmware_version beta_10 ≡ ok beta_10)
      × ((a : Version) × (b : Version) × (parsed_firmware_version beta_10.version ≡ ok a)
          × (parsed_firmware_version beta_9.version ≡ ok b)
          × IsAfter a b))
require_firmware_version_bump_iff_example = require_firmware_version_bump_iff beta_9 beta_10 beta_10

-- The bump is accepted, so the second version comes after the first.
advances :
    (a : Version) × (b : Version) × (parsed_firmware_version beta_10.version ≡ ok a)
    × (parsed_firmware_version beta_9.version ≡ ok b)
    × IsAfter a b
advances =
    let (_, _, _, after) = (require_firmware_version_bump_iff beta_9 beta_10 beta_10).0 next_beta in
    after

abbrev old : Version
old = record { major = 1; minor = 9; patch = 0; channel = beta; iteration = 7 }

abbrev new : Version
new = record { major = 1; minor = 10; patch = 0; channel = alpha; iteration = 1 }

abbrev newest : Version
newest = record { major = 1; minor = 10; patch = 0; channel = stable; iteration = 0 }

compare_values_ordered_example :
    (compare_values newest new ≡ opposite (compare_values new newest))
    × ((compare_values newest new ≡ same) ↔ (newest ≡ new))
    × (compare_values newest new ≡ greater
        → compare_values new old ≡ greater
        → compare_values newest old ≡ greater)
compare_values_ordered_example = compare_values_ordered newest new old

-- An image with an empty field at offset 20.
abbrev vectors : List ℕ
vectors = replicate 19 7 ++ (1 ∷ 0 ∷ 0 ∷ 0 ∷ 0 ∷ 8 ∷ 9 ∷ [])

abbrev finalized : List ℕ
finalized = replicate 19 7 ++ (1 ∷ 0xa9 ∷ 0xbd ∷ 0xf9 ∷ 0xf5 ∷ 8 ∷ 9 ∷ [])

finalize_firmware_iff_example : (finalize_firmware vectors ≡ ok finalized) ↔ (
    (24 ≤ length vectors)
    × ((get_uint32 vectors 20 ≡ 0) ⊎ (get_uint32 vectors 20 ≡ user_option_magic))
    × (finalized ≡ take 20 vectors ++ (sentinel_bytes ++ drop 24 vectors)))
finalize_firmware_iff_example = finalize_firmware_iff vectors finalized

finalize_firmware_twice_example : finalize_firmware finalized ≡ ok finalized
unfolding finalize_firmware as_image_bytes read_user_option_magic assert_user_option_magic
    get_uint32 get_uint16 set_uint32 set_uint16
finalize_firmware_twice_example = finalize_firmware_twice vectors finalized refl
