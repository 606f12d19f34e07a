-- ===== src/Config/Crc.antt =====
-- site/firmware-config.js, `firmwareConfigCrc32`: the checksum of a block, its own four bytes read as
-- zeros. JavaScript's 32-bit integers are numbers below 2 ^ 32.
use frogalert.Prelude.{
  ℕ, zero, suc, ◌+◌, ◌/◌, ◌%◌, ◌^◌, bit_and, bit_xor, not, ◌&&◌, List, [], ◌∷◌, leb, ltb, ◌==◌,
  length, if◌then◌else◌, Result, ok, throw_if, ◌>>◌,
}
use frogalert.Config.{ConfigError, bad_crc_input, block_size, crc_offset}

-- `crc = (crc >>> 1) ^ (crc & 1 ? 0xedb88320 : 0)`, as often as there are bits left.
unfoldable pub crc_bits : ℕ → ℕ → ℕ
crc_bits zero crc = crc
crc_bits (suc left) crc =
    crc_bits left (bit_xor (crc / 2) (if bit_and crc 1 == 0 then 0 else 0xedb88320))

unfoldable pub crc_byte : ℕ → ℕ → ℕ
unfolding crc_bits
crc_byte crc byte = crc_bits 8 (bit_xor crc byte)

-- The byte at an index, unless it belongs to the stored checksum.
abbrev pub masked : ℕ → ℕ → ℕ
masked index byte = if leb crc_offset index && ltb index (crc_offset + 4) then 0 else byte

unfoldable pub crc_from : ℕ → ℕ → List ℕ → ℕ
crc_from index crc [] = crc
crc_from index crc (b ∷ bs) = crc_from (index + 1) (crc_byte crc (masked index b)) bs

unfoldable pub firmware_config_crc32 : List ℕ → Result ConfigError ℕ
unfolding crc_from
firmware_config_crc32 bytes = do
  throw_if (not (length bytes == block_size)) bad_crc_input
  ok (bit_xor (crc_from 0 0xffffffff bytes) 0xffffffff % 2 ^ 32)
