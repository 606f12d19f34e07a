-- ===== src/Config/Whole.antt =====
-- site/firmware-config.js: what `encodeFirmwareConfig` writes is what `decodeFirmwareConfig` reads.
use frogalert.Prelude.{ℕ, ◌≡◌, ◌-◌, refl, List, arith, ok, ◌<◌, length, ap, ◌^◌, bound, subst}
use frogalert.Config.RoundTrip.{parse_entries-all_rule_bytes}
use frogalert.Prelude.Bytes.{byte_at, slice}
use frogalert.Config.Rules.{assert_builtin_targets, assert_hardware_profile, normalize_config}
use frogalert.Config.Block.{
  IsNormalConfig, block_bytes, header_bytes, block_crc, block_crc-lt,
  normalize_config-IsNormalConfig, length-block_bytes, written, decoded_from, length-header_bytes,
  checksum, le_bytes, le_bytes_lem, set_crc,
}
use frogalert.Config.{
  FirmwareConfig, block_size, schema_version, max_rules, magic_bytes, crc_offset,
}
use frogalert.Config.Codec.{
  encode_firmware_config, decode_firmware_config, parse_entries, get_uint16, get_uint32,
}

profile_small : (p : ℕ) → assert_hardware_profile p ≡ ok tt → p < 256
unfolding assert_hardware_profile
profile_small p h = ground arith

targets_small : (t : ℕ) → assert_builtin_targets t ≡ ok tt → t < 2 ^ 32
unfolding assert_builtin_targets
targets_small t h = ground arith

module _ (c : FirmwareConfig) (crc : ℕ) (h : IsNormalConfig c) (small : crc < 2 ^ 32) where
  magic_read : slice (block_bytes c crc) 0 16 ≡ magic_bytes
  unfolding block_bytes header_bytes
  magic_read = refl

  schema_read : get_uint16 (block_bytes c crc) 16 ≡ schema_version
  unfolding block_bytes header_bytes get_uint16
  schema_read = refl

  size_read : get_uint16 (block_bytes c crc) 18 ≡ block_size
  unfolding block_bytes header_bytes get_uint16
  size_read = refl

  profile_read : byte_at (block_bytes c crc) 20 ≡ c.hardware_profile
  unfolding block_bytes header_bytes IsNormalConfig
  profile_read = omega (arith, profile_small c.hardware_profile h.2)

  count_read : byte_at (block_bytes c crc) 21 ≡ length c.custom_rules
  unfolding block_bytes header_bytes IsNormalConfig
  count_read = let few = h.1 in omega arith

  reserved_read : get_uint16 (block_bytes c crc) 22 ≡ 0
  unfolding block_bytes header_bytes get_uint16
  reserved_read = refl

  targets_read : get_uint32 (block_bytes c crc) 24 ≡ c.built_in_targets
  unfolding block_bytes header_bytes get_uint16 get_uint32 le_bytes IsNormalConfig
  targets_read = le_bytes_lem c.built_in_targets (targets_small c.built_in_targets h.3)

  crc_read : get_uint32 (block_bytes c crc) crc_offset ≡ crc
  unfolding block_bytes header_bytes get_uint16 get_uint32 le_bytes
  crc_read = le_bytes_lem crc small

  rules_read :
      parse_entries (block_bytes c crc) (length c.custom_rules) max_rules 0 ≡ ok c.custom_rules
  unfolding block_bytes IsNormalConfig
  rules_read =
      let few = h.1 in
      parse_entries-all_rule_bytes c.custom_rules (max_rules - length c.custom_rules) max_rules 0
        (length c.custom_rules) (header_bytes c crc) (length-header_bytes c h crc) h.0 (omega arith)
        (omega arith)

-- A block of a configuration in normal form decodes to it.
pub decode-block_bytes :
    (c : FirmwareConfig)
    → IsNormalConfig c
    → decode_firmware_config (block_bytes c (block_crc c))
      ≡ ok (record { schema = schema_version; config = c })
unfolding IsNormalConfig
decode-block_bytes c h =
    let crc = block_crc c in
    let small = block_crc-lt c in
    decoded_from (block_bytes c crc) c crc (length-block_bytes c h crc) (magic_read c crc h small)
      (schema_read c crc h small) (size_read c crc h small) (profile_read c crc h small) h.2
      (count_read c crc h small) h.1 (reserved_read c crc h small) (targets_read c crc h small) h.3
      (checksum c h crc) (crc_read c crc h small) (rules_read c crc h small)

-- The block that encoding writes.
pub encode_firmware_config_lem :
    (config n : FirmwareConfig)
    → normalize_config config ≡ ok n
    → encode_firmware_config config ≡ ok (block_bytes n (block_crc n))
unfolding encode_firmware_config block_bytes
encode_firmware_config_lem config n e =
    let h = normalize_config-IsNormalConfig config n e in
    rw e (rw (written n h) (rw (checksum n h 0) (ap ok (set_crc _ n 0 (block_crc n)))))

-- A configuration that passes the checks of normalization encodes to a block of 384 bytes, and that
-- block decodes, as schema 1, to the configuration in normal form: every check of the decoder, the
-- checksum and the padding of unused and short entries among them, holds of what the encoder wrote.
pub decode_firmware_config-encode_firmware_config :
    (config n : FirmwareConfig)
    → normalize_config config ≡ ok n
    → (block : List ℕ) × (encode_firmware_config config ≡ ok block)
      × (length block ≡ block_size)
      × (decode_firmware_config block ≡ ok (record { schema = schema_version; config = n }))
decode_firmware_config-encode_firmware_config config n e =
    let h = normalize_config-IsNormalConfig config n e in
    (
      block_bytes n (block_crc n),
      encode_firmware_config_lem config n e,
      length-block_bytes n h (block_crc n),
      decode-block_bytes n h,
    )

-- What encoding gives whenever it succeeds.
pub encoded :
    (config : FirmwareConfig) (new : List ℕ)
    → encode_firmware_config config ≡ ok new
    → (n : FirmwareConfig) × (normalize_config config ≡ ok n)
      × (length new ≡ block_size)
      × (decode_firmware_config new ≡ ok (record { schema = schema_version; config = n }))
      × (byte_at new 20 ≡ n.hardware_profile)
unfolding encode_firmware_config
encoded config new e =
    let (n, normal, _) = bound (normalize_config config) _ e in
    let h = normalize_config-IsNormalConfig config n normal in
    let same : block_bytes n (block_crc n) ≡ new =
      cc (e, encode_firmware_config_lem config n normal) in
    (
      n,
      normal,
      subst (λ b. length b ≡ block_size) same (length-block_bytes n h (block_crc n)),
      subst (λ b. decode_firmware_config b ≡ ok (record { schema = schema_version; config = n }))
          same (decode-block_bytes n h),
      subst (λ b. byte_at b 20 ≡ n.hardware_profile) same
          (profile_read n (block_crc n) h (block_crc-lt n)),
    )
