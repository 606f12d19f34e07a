-- ===== src/Config/Codec.antt =====
-- site/firmware-config.js: `encodeFirmwareConfig` and `decodeFirmwareConfig`. A block is a zeroed
-- array that the stores fill; what `DataView` reads and writes is little-endian.
use frogalert.Prelude.{
  ℕ, zero, suc, ◌+◌, ◌*◌, ◌/◌, ◌^◌, not, ◌||◌, List, [], ◌∷◌, leb, ltb, ◌==◌, length, drop, Result,
  ok, throw_if, ◌>>=◌, ◌>>◌, if◌then◌else◌,
}
use frogalert.Config.Crc.{firmware_config_crc32}
use frogalert.Config.Rules.{
  normalize_config, is_known_match_type, assert_hardware_profile, decode_printable_ascii,
  normalize_rule_value, assert_builtin_targets,
}
use frogalert.Config.{
  ConfigError, FirmwareConfig, header_size, Rule, Decoded, rule_size, value_size, magic_bytes,
  block_size, unused_rule_not_zero, schema_version, unknown_match_type, bad_block_size, crc_offset,
  rule_reserved_not_zero, bad_magic, bad_value_length, bad_schema, bad_declared_size, message_size,
  bad_message_length, max_rules, padding_not_zero, too_many_rules, reserved_not_zero,
  value_not_canonical, crc_mismatch,
}
use frogalert.Prelude.Bytes.{zeros, store, blit, slice, byte_at, every_eq, same_bytes}

unfoldable pub set_uint16 : List ℕ → ℕ → ℕ → List ℕ
set_uint16 block offset v = store (store block offset v) (offset + 1) (v / 2 ^ 8)

unfoldable pub set_uint32 : List ℕ → ℕ → ℕ → List ℕ
unfolding set_uint16
set_uint32 block offset v = set_uint16 (set_uint16 block offset v) (offset + 2) (v / 2 ^ 16)

unfoldable pub get_uint16 : List ℕ → ℕ → ℕ
get_uint16 block offset = byte_at block offset + byte_at block (offset + 1) * 2 ^ 8

unfoldable pub get_uint32 : List ℕ → ℕ → ℕ
unfolding get_uint16
get_uint32 block offset = get_uint16 block offset + get_uint16 block (offset + 2) * 2 ^ 16

abbrev pub rule_offset : ℕ → ℕ
rule_offset index = header_size + index * rule_size

-- The stores of one turn of `customRules.forEach`.
unfoldable pub write_rule : List ℕ → ℕ → Rule → List ℕ
write_rule block offset rule =
    let b0 = store block offset rule.type in
    let b1 = store b0 (offset + 1) (length rule.value) in
    let b2 = store b1 (offset + 2) (length rule.message) in
    let b3 = store b2 (offset + 3) 0 in
    blit (blit b3 (offset + 4) rule.value) (offset + (4 + value_size)) rule.message

unfoldable pub write_rules : List ℕ → ℕ → List Rule → List ℕ
write_rules block index [] = block
write_rules block index (rule ∷ rules) =
    write_rules (write_rule block (rule_offset index) rule) (index + 1) rules

-- The stores up to the rules.
unfoldable pub write_header : List ℕ → FirmwareConfig → List ℕ
unfolding set_uint16 set_uint32
write_header block config =
    let b0 = blit block 0 magic_bytes in
    let b1 = set_uint16 (set_uint16 b0 16 schema_version) 18 block_size in
    let b2 = store (store b1 20 config.hardware_profile) 21 (length config.custom_rules) in
    set_uint32 (set_uint16 b2 22 0) 24 config.built_in_targets

unfoldable pub encode_firmware_config : FirmwareConfig → Result ConfigError (List ℕ)
encode_firmware_config config = do
  normalized ← normalize_config config
  let block = write_rules (write_header (zeros block_size) normalized) 0 normalized.custom_rules
  crc ← firmware_config_crc32 block
  ok (set_uint32 block crc_offset crc)

-- One turn of the loop over the entries, for an entry in use.
unfoldable pub parse_entry : List ℕ → ℕ → Result ConfigError Rule
parse_entry entry index = do
  let type = byte_at entry 0
  let value_length = byte_at entry 1
  let message_length = byte_at entry 2
  let message_start = 4 + value_size
  throw_if (not (is_known_match_type type)) (unknown_match_type index)
  throw_if (not (byte_at entry 3 == 0)) (rule_reserved_not_zero index)
  throw_if (value_length == 0 || ltb value_size value_length) (bad_value_length index)
  throw_if (message_length == 0 || ltb message_size message_length) (bad_message_length index)
  throw_if (not (every_eq 0 (slice entry (4 + value_length) message_start)))
      (padding_not_zero index)
  throw_if (not (every_eq 0 (drop (message_start + message_length) entry))) (padding_not_zero index)
  value ← decode_printable_ascii (slice entry 4 (4 + value_length))
  message ← decode_printable_ascii (slice entry message_start (message_start + message_length))
  normalized ← normalize_rule_value type value index
  throw_if (not (same_bytes normalized value)) (value_not_canonical index)
  ok (record { type = type; value = value; message = message })

-- The loop, with the number of entries that are left.
unfoldable pub parse_entries : List ℕ → ℕ → ℕ → ℕ → Result ConfigError (List Rule)
parse_entries block custom_count zero index = ok []
parse_entries block custom_count (suc left) index =
    let rest = parse_entries block custom_count left (index + 1) in
    let entry = slice block (rule_offset index) (rule_offset index + rule_size) in
    if leb custom_count index
    then (do throw_if (not (every_eq 0 entry)) (unused_rule_not_zero index); rest)
    else (do rule ← parse_entry entry index; rules ← rest; ok (rule ∷ rules))

abbrev pub decoded : ℕ → ℕ → List Rule → Decoded
decoded profile targets rules = record {
  schema = schema_version;
  config = record { hardware_profile = profile; built_in_targets = targets; custom_rules = rules };
}

unfoldable pub decode_firmware_config : List ℕ → Result ConfigError Decoded
decode_firmware_config block = do
  throw_if (not (length block == block_size)) bad_block_size
  throw_if (not (same_bytes (slice block 0 16) magic_bytes)) bad_magic
  throw_if (not (get_uint16 block 16 == schema_version)) bad_schema
  throw_if (not (get_uint16 block 18 == block_size)) bad_declared_size
  let hardware_profile = byte_at block 20
  assert_hardware_profile hardware_profile
  let custom_count = byte_at block 21
  throw_if (ltb max_rules custom_count) too_many_rules
  throw_if (not (get_uint16 block 22 == 0)) reserved_not_zero
  let built_in_targets = get_uint32 block 24
  assert_builtin_targets built_in_targets
  calculated ← firmware_config_crc32 block
  throw_if (not (get_uint32 block crc_offset == calculated)) crc_mismatch
  rules ← parse_entries block custom_count max_rules 0
  ok (decoded hardware_profile built_in_targets rules)
