-- ===== src/Config.antt =====
-- site/firmware-config.js: the constants of the configuration block, its data and its errors, one for
-- each `throw`. The children hold the checksum, the rules, the codec, and the image that carries it.
pub mod Crc
pub mod Rules
pub mod Codec
pub mod Digits
pub mod Normal
pub mod Layout
pub mod Entries
pub mod RoundTrip
pub mod Block
pub mod Whole
pub mod Image
pub mod ImageLaws
use frogalert.Prelude.{ℕ, ◌^◌, List, [], ◌∷◌, ◌++◌}
use frogalert.Prelude.Text.{Text, codes}

pub data ConfigError : Type 0 where
  bad_hardware_profile targets_out_of_range unknown_targets too_many_rules : ConfigError
  unknown_match_type bad_oui bad_service blank_name : ℕ → ConfigError
  empty_text text_too_long not_printable : ConfigError
  bad_block_size bad_magic bad_schema bad_declared_size reserved_not_zero crc_mismatch : ConfigError
  unused_rule_not_zero rule_reserved_not_zero bad_value_length bad_message_length : ℕ → ConfigError
  padding_not_zero value_not_canonical : ℕ → ConfigError
  bad_crc_input no_block truncated_block profile_mismatch : ConfigError
  several_blocks : ℕ → ConfigError

-- "FROGALERTCFGv1\\0\\0"
abbrev pub magic_bytes : List ℕ
magic_bytes = codes "FROGALERTCFGv1" ++ (0 ∷ 0 ∷ [])

abbrev pub schema_version : ℕ
schema_version = 1

abbrev pub block_size : ℕ
block_size = 384

abbrev pub max_rules : ℕ
max_rules = 8

abbrev pub header_size : ℕ
header_size = 32

abbrev pub rule_size : ℕ
rule_size = 44

abbrev pub value_size : ℕ
value_size = 24

abbrev pub message_size : ℕ
message_size = 16

abbrev pub crc_offset : ℕ
crc_offset = 28

-- The five bits of `BUILTIN_TARGET_BITS` together.
abbrev pub all_builtin_targets : ℕ
all_builtin_targets = 0x1f

abbrev pub public_oui : ℕ
public_oui = 4

abbrev pub service_16_bit : ℕ
service_16_bit = 5

pub record Rule : Type 0 where
  pub type : ℕ
  pub value : Text
  pub message : Text

pub record FirmwareConfig : Type 0 where
  pub hardware_profile : ℕ
  pub built_in_targets : ℕ
  pub custom_rules : List Rule

-- What `decodeFirmwareConfig` returns.
pub record Decoded : Type 0 where
  pub schema : ℕ
  pub config : FirmwareConfig
