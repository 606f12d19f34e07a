-- ===== src/Config/Block.antt =====
-- site/firmware-config.js: a whole block, `encodeFirmwareConfig` and `decodeFirmwareConfig` together.
use frogalert.Prelude.{
  ℕ, ◌≡◌, ◌+◌, ◌-◌, ◌*◌, ◌/◌, ◌%◌, refl, List, [], ◌∷◌, ◌++◌, arith, ok, ◌<◌, length, ◌^◌, ◌≤◌, ap,
  bit_xor, ◌∙◌, length-append, replicate-add, length-replicate, ◌==◌, passed, ltb, false, true,
  throw_if, bound, not_thrown, subst,
}
use frogalert.Config.Normal.{IsNormal, normalize_rules-IsNormal}
use frogalert.Config.Rules.{
  normalize_config, assert_hardware_profile, assert_builtin_targets, normalize_rules,
}
use frogalert.Prelude.Bytes.{zeros, All, slice, byte_at, same_bytes_refl}
use frogalert.Config.RoundTrip.{all_rule_bytes, length-all_rule_bytes, write_rules_fresh}
use frogalert.Config.Crc.{crc_from, firmware_config_crc32}
use frogalert.Config.Codec.{
  write_header, set_uint16, set_uint32, write_rules, decode_firmware_config, get_uint16, get_uint32,
  parse_entries,
}
use frogalert.Config.{
  FirmwareConfig, magic_bytes, crc_offset, max_rules, header_size, rule_size, block_size,
  too_many_rules, schema_version,
}

-- The bytes of a 32-bit number, the low one first.
unfoldable pub le_bytes : ℕ → List ℕ
le_bytes v = v % 256 ∷ v / 256 % 256 ∷ v / 65536 % 256 ∷ v / 65536 / 256 % 256 ∷ []

unfoldable pub header_bytes : FirmwareConfig → ℕ → List ℕ
unfolding le_bytes
header_bytes c crc =
    magic_bytes
    ++ (1 ∷ 0 ∷ 128 ∷ 1 ∷ c.hardware_profile % 256 ∷ length c.custom_rules % 256 ∷ 0 ∷ 0 ∷ [])
    ++ le_bytes c.built_in_targets
    ++ le_bytes crc

unfoldable pub block_bytes : FirmwareConfig → ℕ → List ℕ
block_bytes c crc =
    header_bytes c crc
    ++ (all_rule_bytes c.custom_rules ++ zeros ((max_rules - length c.custom_rules) * rule_size))

pub le_bytes_lem :
    (v : ℕ)
    → v < 2 ^ 32
    → v % 256 + v / 256 % 256 * 256 + (v / 65536 % 256 + v / 65536 / 256 % 256 * 256) * 65536 ≡ v
le_bytes_lem v h = omega arith

write_header_lem :
    (rest : List ℕ) (c : FirmwareConfig)
    → write_header (zeros header_size ++ rest) c ≡ header_bytes c 0 ++ rest
unfolding write_header header_bytes le_bytes set_uint16 set_uint32
write_header_lem rest c = refl

pub set_crc :
    (rest : List ℕ) (c : FirmwareConfig) (old crc : ℕ)
    → set_uint32 (header_bytes c old ++ rest) crc_offset crc ≡ header_bytes c crc ++ rest
unfolding header_bytes le_bytes set_uint16 set_uint32
set_crc rest c old crc = refl

-- The checksum of a block does not depend on the stored one, and has 32 bits.
crc_header :
    (rest : List ℕ) (c : FirmwareConfig) (old crc : ℕ)
    → crc_from 0 0xffffffff (header_bytes c old ++ rest)
      ≡ crc_from 0 0xffffffff (header_bytes c crc ++ rest)
unfolding header_bytes le_bytes crc_from
crc_header rest c old crc = refl

unfoldable pub block_crc : FirmwareConfig → ℕ
block_crc c = bit_xor (crc_from 0 0xffffffff (block_bytes c 0)) 0xffffffff % 2 ^ 32

pub block_crc-lt : (c : FirmwareConfig) → block_crc c < 2 ^ 32
unfolding block_crc
block_crc-lt c = omega arith

-- What `normalizeConfig` ensures.
unfoldable pub IsNormalConfig : FirmwareConfig → Type 0
IsNormalConfig c =
    All IsNormal c.custom_rules
    × (length c.custom_rules ≤ max_rules)
    × (assert_hardware_profile c.hardware_profile ≡ ok tt)
    × (assert_builtin_targets c.built_in_targets ≡ ok tt)

pub normalize_config-IsNormalConfig :
    (config n : FirmwareConfig) → normalize_config config ≡ ok n → IsNormalConfig n
unfolding normalize_config IsNormalConfig
normalize_config-IsNormalConfig config n h =
    let (profile, h1) = passed (assert_hardware_profile config.hardware_profile) _ h in
    let (targets, h2) = passed (assert_builtin_targets config.built_in_targets) _ h1 in
    let (few, h3) =
      passed (throw_if (ltb max_rules (length config.custom_rules)) too_many_rules) _ h2 in
    let (rules, made, h4) = bound (normalize_rules config.custom_rules 0) _ h3 in
    let (all, same) = normalize_rules-IsNormal config.custom_rules rules 0 made in
    let short = not_thrown (ltb max_rules (length config.custom_rules)) too_many_rules few in
    let fits : length rules ≤ max_rules = ground arith in
    let whole : record config { custom_rules = rules } ≡ n = cc h4 in
    subst IsNormalConfig whole (all, fits, profile, targets)

module _ (c : FirmwareConfig) (h : IsNormalConfig c) where
  tail : List ℕ
  tail = all_rule_bytes c.custom_rules ++ zeros ((max_rules - length c.custom_rules) * rule_size)

  rules_hold : All IsNormal c.custom_rules
  unfolding IsNormalConfig
  rules_hold = h.0

  few_rules : length c.custom_rules ≤ max_rules
  unfolding IsNormalConfig
  few_rules = h.1

  pub length-header_bytes : (crc : ℕ) → length (header_bytes c crc) ≡ header_size
  unfolding header_bytes le_bytes
  length-header_bytes crc = refl

  pub length-block_bytes : (crc : ℕ) → length (block_bytes c crc) ≡ block_size
  unfolding block_bytes
  length-block_bytes crc = omega (
    arith,
    few_rules,
    length-header_bytes crc,
    length-all_rule_bytes c.custom_rules rules_hold,
    length-append (header_bytes c crc)
        (all_rule_bytes c.custom_rules ++ zeros ((max_rules - length c.custom_rules) * rule_size)),
    length-append (all_rule_bytes c.custom_rules)
        (zeros ((max_rules - length c.custom_rules) * rule_size)),
    length-replicate {A = ℕ} ((max_rules - length c.custom_rules) * rule_size) 0,
  )

  -- What the stores before the checksum leave.
  pub written : write_rules (write_header (zeros block_size) c) 0 c.custom_rules ≡ block_bytes c 0
  unfolding block_bytes
  written =
      ap (λ z. write_rules (write_header (zeros header_size ++ z) c) 0 c.custom_rules) free
      ∙ ap (λ b. write_rules b 0 c.custom_rules) (write_header_lem (used ++ spare) c)
      ∙ write_rules_fresh c.custom_rules 0 (header_bytes c 0) spare (length-header_bytes 0)
          rules_hold
    where
      used : List ℕ
      used = zeros (length c.custom_rules * rule_size)

      spare : List ℕ
      spare = zeros ((max_rules - length c.custom_rules) * rule_size)

      free : zeros 352 ≡ used ++ spare
      free =
          let e : 352
              ≡ length c.custom_rules * rule_size
                + (max_rules - length c.custom_rules) * rule_size =
            omega (arith, few_rules) in
          ap zeros e
          ∙ replicate-add (length c.custom_rules * rule_size)
              ((max_rules - length c.custom_rules) * rule_size) 0

  pub checksum : (old : ℕ) → firmware_config_crc32 (block_bytes c old) ≡ ok (block_crc c)
  unfolding firmware_config_crc32 block_bytes block_crc tail
  checksum old =
      rw (length-block_bytes old)
        (ap (λ x. ok (bit_xor x 0xffffffff % 2 ^ 32)) (crc_header tail c old 0))

not_more : (k n : ℕ) → n ≤ k → ltb k n ≡ false
not_more k n h = ground arith

equal_self : (n : ℕ) → (n == n) ≡ true
equal_self n = ground arith

-- The checks of `decodeFirmwareConfig`, one after the other.
pub decoded_from :
    (block : List ℕ) (c : FirmwareConfig) (crc : ℕ)
    → length block ≡ block_size
    → slice block 0 16 ≡ magic_bytes
    → get_uint16 block 16 ≡ schema_version
    → get_uint16 block 18 ≡ block_size
    → byte_at block 20 ≡ c.hardware_profile
    → assert_hardware_profile c.hardware_profile ≡ ok tt
    → byte_at block 21 ≡ length c.custom_rules
    → length c.custom_rules ≤ max_rules
    → get_uint16 block 22 ≡ 0
    → get_uint32 block 24 ≡ c.built_in_targets
    → assert_builtin_targets c.built_in_targets ≡ ok tt
    → firmware_config_crc32 block ≡ ok crc
    → get_uint32 block crc_offset ≡ crc
    → parse_entries block (length c.custom_rules) max_rules 0 ≡ ok c.custom_rules
    → decode_firmware_config block ≡ ok (record { schema = schema_version; config = c })
unfolding decode_firmware_config
decoded_from block c crc size magic schema declared profile profile_ok count few reserved targets
      targets_ok sum stored rules =
    rw size (
      rw magic (
        rw (same_bytes_refl magic_bytes) (
          rw schema (
            rw declared (
              rw profile (
                rw profile_ok (
                  rw count (
                    rw (not_more max_rules (length c.custom_rules) few) (
                      rw reserved (
                        rw targets (
                          rw targets_ok
                            (rw sum (rw stored (rw (equal_self crc) (rw rules refl)))))))))))))))
