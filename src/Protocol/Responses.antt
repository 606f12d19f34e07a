-- ===== src/Protocol/Responses.antt =====
-- site/wchisp-protocol.js: what the bootloader answers. Every response and payload is a byte array.
use frogalert.Prelude.{
  ℕ, ◌+◌, ◌-◌, ◌%◌, ◌^◌, bit_and, bit_xor, Bool, true, false, not, ◌&&◌, ◌||◌, List, [], ◌∷◌, ltb,
  ◌==◌, length, drop, replicate, Result, ok, throw_if, ◌>>=◌, ◌>>◌,
}
use frogalert.Prelude.Bytes.{store, slice, byte_at}
use frogalert.Protocol.{
  Fault, short_response, length_mismatch, wrong_echo, bad_status, short_identity,
  unsupported_target, short_config, short_registers, bad_uid_length, bad_uid_checksum,
  bad_key_length, expected_chip_id, expected_device_type, ch582_flash_bytes, ch58x_reset_config,
  ch58x_canonical_reset_readback,
}
use frogalert.Protocol.Packets.{low_byte, read_u16_le}

unfoldable pub parse_response : List ℕ → ℕ → Result Fault (List ℕ)
unfolding read_u16_le
parse_response bytes expected_command = do
  throw_if (ltb (length bytes) 4) short_response
  throw_if (not (byte_at bytes 0 == expected_command)) (wrong_echo (byte_at bytes 0))
  throw_if (not (byte_at bytes 1 == 0x00)) (bad_status (byte_at bytes 1))
  throw_if (not (read_u16_le bytes 2 == length bytes - 4)) length_mismatch
  ok (drop 4 bytes)

pub record Identity : Type 0 where
  pub chip_id : ℕ
  pub device_type : ℕ
  pub flash_bytes : ℕ

unfoldable pub parse_identity : List ℕ → Result Fault Identity
parse_identity payload = do
  throw_if (ltb (length payload) 2) short_identity
  let chip_id = byte_at payload 0
  let device_type = byte_at payload 1
  throw_if (not (chip_id == expected_chip_id) || not (device_type == expected_device_type))
      unsupported_target
  ok (record { chip_id = chip_id; device_type = device_type; flash_bytes = ch582_flash_bytes })

unfoldable pub validate_uid : List ℕ → Result Fault (Unit {0})
unfolding read_u16_le
validate_uid uid = do
  throw_if (not (length uid == 8)) bad_uid_length
  let sum = bit_and (read_u16_le uid 0 + read_u16_le uid 2 + read_u16_le uid 4) (2 ^ 16 - 1)
  throw_if (not (sum == read_u16_le uid 6)) bad_uid_checksum

unfoldable pub parse_config_registers : List ℕ → Result Fault (List ℕ)
parse_config_registers payload = do
  throw_if (ltb (length payload) 14) short_registers
  ok (slice payload 2 14)

pub record BootConfig : Type 0 where
  pub bootloader_version : List ℕ
  pub uid : List ℕ
  pub registers : List ℕ

unfoldable pub parse_config : List ℕ → Result Fault BootConfig
unfolding validate_uid parse_config_registers
parse_config payload = do
  throw_if (ltb (length payload) 26) short_config
  let bootloader_version = slice payload 14 18
  let uid = slice payload 18 26
  validate_uid uid
  registers ← parse_config_registers payload
  ok (record { bootloader_version = bootloader_version; uid = uid; registers = registers })

-- `registers.every((byte, index) => byte === accepted[index])`
unfoldable pub every_matches : List ℕ → List ℕ → Bool
every_matches [] accepted = true
every_matches (b ∷ bs) [] = false
every_matches (b ∷ bs) (a ∷ accepted) = b == a && every_matches bs accepted

unfoldable pub is_reset_config : List ℕ → Bool
unfolding every_matches
is_reset_config registers =
    length registers == length ch58x_reset_config
    && (every_matches registers ch58x_reset_config
        || every_matches registers ch58x_canonical_reset_readback)

-- `bytes.reduce((sum, byte) => (sum + byte) & 0xff, sum)`
unfoldable pub checksum_from : ℕ → List ℕ → ℕ
checksum_from sum [] = sum
checksum_from sum (b ∷ bs) = checksum_from (low_byte (sum + b)) bs

unfoldable pub derive_xor_key : List ℕ → ℕ → Result Fault (List ℕ)
unfolding validate_uid checksum_from
derive_xor_key uid chip_id = do
  validate_uid uid
  let key = replicate 8 (checksum_from 0 uid)
  ok (store key 7 (low_byte (byte_at key 7 + chip_id)))

-- The bytes from `index` on, each under its byte of the repeating key.
unfoldable pub xor_from : List ℕ → ℕ → List ℕ → List ℕ
xor_from key index [] = []
xor_from key index (b ∷ bs) =
    bit_xor b (byte_at key (index % length key)) ∷ xor_from key (index + 1) bs

unfoldable pub xor_chunk : List ℕ → List ℕ → Result Fault (List ℕ)
unfolding xor_from
xor_chunk chunk key = do throw_if (not (length key == 8)) bad_key_length; ok (xor_from key 0 chunk)
