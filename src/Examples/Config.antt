-- ===== src/Examples/Config.antt =====
-- A configuration with a rule of each kind.
use frogalert.Prelude.{ℕ, ◌≡◌, refl, List, [], ◌∷◌, ok, length, ◌++◌, ◌-◌, ◌+◌, ◌≤◌, take, drop}
use frogalert.Config.ImageLaws.{patch_firmware_config_lem}
use frogalert.Config.Image.{
  patch_firmware_config, find_unique_firmware_config_block, offsets_from, matches_at, unique_offset,
}
use frogalert.Prelude.Bytes.{zeros, slice, same_bytes, every_eq}
use frogalert.Config.Crc.{firmware_config_crc32, crc_from, crc_byte, crc_bits}
use frogalert.Config.Digits.{normalize_rule_value_again}
use frogalert.Config.Whole.{decode_firmware_config-encode_firmware_config}
use frogalert.Config.Rules.{
  normalize_rule_value, normalize_config, normalize_rules, normalize_oui, normalize_rule,
  normalize_service, normalize_name, remove, upper_case, all_hex, strip_0x, join_pairs, is_hex,
  encode_printable_ascii, all_printable, is_known_match_type, assert_hardware_profile,
  assert_builtin_targets,
}
use frogalert.Config.{FirmwareConfig, block_size, schema_version, public_oui, magic_bytes, Decoded}
use frogalert.Config.Codec.{
  encode_firmware_config, decode_firmware_config, get_uint16, write_rules, write_rule, get_uint32,
  parse_entries, write_header, set_uint16, set_uint32,
}
use frogalert.Prelude.Text.{codes, to_upper, Text, trim, trim_start, is_space}

abbrev sample : FirmwareConfig
sample = record {
  hardware_profile = 2;
  built_in_targets = 0x1d;
  custom_rules =
      record { type = 4; value = codes " 00-25:df "; message = codes "POLICE" }
      ∷ record { type = 5; value = codes "0xfee0"; message = codes "BAND" }
      ∷ record { type = 2; value = codes "Flipper"; message = codes "DOLPHIN" }
      ∷ [];
}

abbrev normal_sample : FirmwareConfig
normal_sample = record sample {
  custom_rules =
      record { type = 4; value = codes "00:25:DF"; message = codes "POLICE" }
      ∷ record { type = 5; value = codes "FEE0"; message = codes "BAND" }
      ∷ record { type = 2; value = codes "Flipper"; message = codes "DOLPHIN" }
      ∷ [];
}

normalize_config-sample : normalize_config sample ≡ ok normal_sample
unfolding normalize_config normalize_rules normalize_rule normalize_rule_value normalize_oui
    normalize_service normalize_name trim trim_start remove upper_case all_hex strip_0x join_pairs
    is_hex is_space encode_printable_ascii all_printable is_known_match_type assert_hardware_profile
    assert_builtin_targets to_upper
normalize_config-sample = refl

decode_firmware_config-encode_firmware_config_example :
    (block : List ℕ) × (encode_firmware_config sample ≡ ok block)
    × (length block ≡ block_size)
    × (decode_firmware_config block
        ≡ ok (record { schema = schema_version; config = normal_sample }))
decode_firmware_config-encode_firmware_config_example =
    decode_firmware_config-encode_firmware_config sample normal_sample normalize_config-sample

normalize_rule_value_again_example :
    normalize_rule_value public_oui (codes "00:25:DF") 3 ≡ ok (codes "00:25:DF")
unfolding normalize_rule_value normalize_oui trim trim_start remove upper_case all_hex join_pairs
    is_hex is_space to_upper
normalize_rule_value_again_example =
    normalize_rule_value_again public_oui 0 3 (codes "0025df") (codes "00:25:DF") refl

-- An image with the default block in its middle, and the sample in place of that block.
abbrev image : List ℕ
image =
    7
    ∷ 9
    ∷ (magic_bytes
        ++ (1 ∷ 0 ∷ 128 ∷ 1 ∷ 2 ∷ 0 ∷ 0 ∷ 0 ∷ 0x1f ∷ 0 ∷ 0 ∷ 0 ∷ 206 ∷ 40 ∷ 115 ∷ 56 ∷ [])
        ++ zeros 352
        ++ (5 ∷ []))

entry : ℕ → Text → Text → List ℕ
entry type value message =
    type
    ∷ length value
    ∷ length message
    ∷ 0
    ∷ (value ++ zeros (24 - length value) ++ message ++ zeros (16 - length message))

patched_image : List ℕ
unfolding entry
patched_image =
    7
    ∷ 9
    ∷ (magic_bytes
        ++ (1 ∷ 0 ∷ 128 ∷ 1 ∷ 2 ∷ 3 ∷ 0 ∷ 0 ∷ 0x1d ∷ 0 ∷ 0 ∷ 0 ∷ 119 ∷ 87 ∷ 135 ∷ 70 ∷ [])
        ++ entry 4 (codes "00:25:DF") (codes "POLICE")
        ++ entry 5 (codes "FEE0") (codes "BAND")
        ++ entry 2 (codes "Flipper") (codes "DOLPHIN")
        ++ zeros 220
        ++ (5 ∷ []))

find-image : find_unique_firmware_config_block image ≡ ok 2
unfolding find_unique_firmware_config_block offsets_from matches_at unique_offset
find-image = refl

abbrev default_config : FirmwareConfig
default_config = record { hardware_profile = 2; built_in_targets = 0x1f; custom_rules = [] }

decode-image :
    decode_firmware_config (slice image 2 (2 + block_size))
    ≡ ok (record { schema = schema_version; config = default_config })
unfolding decode_firmware_config get_uint16 get_uint32 assert_hardware_profile
    assert_builtin_targets firmware_config_crc32 crc_from crc_byte crc_bits parse_entries same_bytes
    every_eq
decode-image = refl

encode-sample : encode_firmware_config sample ≡ ok (slice patched_image 2 386)
unfolding patched_image entry encode_firmware_config write_rules write_rule write_header set_uint16
    set_uint32 firmware_config_crc32 crc_from crc_byte crc_bits normalize_config normalize_rules
    normalize_rule normalize_rule_value normalize_oui normalize_service normalize_name trim
    trim_start remove upper_case all_hex strip_0x join_pairs is_hex is_space encode_printable_ascii
    all_printable is_known_match_type assert_hardware_profile assert_builtin_targets to_upper
encode-sample = refl

patch-image : patch_firmware_config image sample ≡ ok patched_image
unfolding patch_firmware_config patched_image entry
patch-image = rw find-image (rw decode-image (rw encode-sample refl))

patch_firmware_config_lem_example :
    (offset : ℕ) × (n : FirmwareConfig) × (current : Decoded) × (find_unique_firmware_config_block
        image
      ≡ ok offset)
    × (offset + block_size ≤ length image)
    × (length patched_image ≡ length image)
    × (take offset patched_image ≡ take offset image)
    × (drop (offset + block_size) patched_image ≡ drop (offset + block_size) image)
    × (normalize_config sample ≡ ok n)
    × (decode_firmware_config (slice patched_image offset (offset + block_size))
        ≡ ok (record { schema = schema_version; config = n }))
    × (decode_firmware_config (slice image offset (offset + block_size)) ≡ ok current)
    × (n.hardware_profile ≡ current.config.hardware_profile)
patch_firmware_config_lem_example = patch_firmware_config_lem image patched_image sample patch-image
