-- ===== src/Config/Image.antt =====
-- site/firmware-config.js: the configuration block in a firmware image.
use frogalert.Prelude.{
  ℕ, ◌+◌, ◌-◌, true, false, not, ◌&&◌, Bool, List, [], ◌∷◌, length, Result, ok, err, throw_if,
  ◌>>=◌, ◌>>◌, Option, some, none, ltb, ◌==◌, if◌then◌else◌, get_elem?, suc, zero,
}
use frogalert.Config.Codec.{decode_firmware_config, encode_firmware_config}
use frogalert.Config.{
  FirmwareConfig, ConfigError, no_block, magic_bytes, block_size, truncated_block, profile_mismatch,
  several_blocks,
}
use frogalert.Prelude.Bytes.{slice, byte_at, blit}

-- An element outside the array equals no byte.
abbrev pub is_byte : Option ℕ → ℕ → Bool
is_byte none b = false
is_byte (some a) b = a == b

unfoldable pub matches_at : List ℕ → List ℕ → ℕ → Bool
matches_at haystack [] offset = true
matches_at haystack (b ∷ needle) offset =
    is_byte (get_elem? haystack offset) b && matches_at haystack needle (offset + 1)

-- The loop over the offsets, with the number of them that are left.
unfoldable pub offsets_from : List ℕ → ℕ → ℕ → List ℕ
offsets_from firmware zero offset = []
offsets_from firmware (suc left) offset =
    let rest = offsets_from firmware left (offset + 1) in
    if matches_at firmware magic_bytes offset then offset ∷ rest else rest

-- What is made of the offsets found.
unfoldable pub unique_offset : List ℕ → ℕ → Result ConfigError ℕ
unique_offset [] size = err no_block
unique_offset (offset ∷ []) size = do
  throw_if (ltb size (offset + block_size)) truncated_block
  ok offset
unique_offset (offset ∷ other ∷ more) size = err (several_blocks (length (offset ∷ other ∷ more)))

unfoldable pub find_unique_firmware_config_block : List ℕ → Result ConfigError ℕ
find_unique_firmware_config_block firmware =
    unique_offset (offsets_from firmware (length firmware + 1 - length magic_bytes) 0)
      (length firmware)

unfoldable pub patch_firmware_config : List ℕ → FirmwareConfig → Result ConfigError (List ℕ)
patch_firmware_config firmware config = do
  offset ← find_unique_firmware_config_block firmware
  current ← decode_firmware_config (slice firmware offset (offset + block_size))
  replacement ← encode_firmware_config config
  throw_if (not (byte_at replacement 20 == current.config.hardware_profile)) profile_mismatch
  ok (blit firmware offset replacement)
