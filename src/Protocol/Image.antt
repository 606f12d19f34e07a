-- ===== src/Protocol/Image.antt =====
-- site/wchisp-protocol.js, `padFirmware` and `validateFirmware`: the image to be flashed. A file name
-- is the list of its UTF-16 code units. Of `toLowerCase` only what can yield a letter of ".bin"
-- matters to the test that follows it, and that is the ASCII capitals.
use frogalert.Prelude.{
  ℕ, ◌+◌, ◌-◌, ◌*◌, ◌/◌, max, Bool, not, ◌&&◌, List, [], ◌∷◌, map, ltb, leb, ◌==◌, if◌then◌else◌,
  length, drop, Result, ok, throw_if, ◌>>◌,
}
use frogalert.Prelude.Bytes.{zeros, blit, byte_at, every_eq, same_bytes}
use frogalert.Protocol.{
  Fault, empty_firmware, not_bin, firmware_too_short, uniform_firmware, erase_plan_too_large,
  ch582_flash_bytes, sector_bytes, min_firmware_bytes,
}

abbrev pub ceil_div : ℕ → ℕ → ℕ
ceil_div n d = (n + (d - 1)) / d

unfoldable pub pad_firmware : List ℕ → List ℕ
pad_firmware raw = blit (zeros (ceil_div (length raw) sector_bytes * sector_bytes)) 0 raw

to_lower : ℕ → ℕ
to_lower c = if leb b'A' c && leb c b'Z' then c + 32 else c

ends_with : List ℕ → List ℕ → Bool
ends_with s t = leb (length t) (length s) && same_bytes (drop (length s - length t) s) t

unfoldable pub is_bin_name : List ℕ → Bool
unfolding to_lower ends_with same_bytes
is_bin_name filename = ends_with (map to_lower filename) (b'.' ∷ b'b' ∷ b'i' ∷ b'n' ∷ [])

pub record Plan : Type 0 where
  pub padded : List ℕ
  pub erase_sectors : ℕ

unfoldable pub validate_firmware : List ℕ → List ℕ → Result Fault Plan
validate_firmware raw filename = do
  throw_if (length raw == 0) empty_firmware
  throw_if (not (is_bin_name filename)) not_bin
  throw_if (ltb (length raw) min_firmware_bytes) firmware_too_short
  throw_if (every_eq (byte_at raw 0) raw) uniform_firmware
  let padded = pad_firmware raw
  let erase_sectors = max 8 (length padded / sector_bytes + 1)
  throw_if (ltb ch582_flash_bytes (erase_sectors * sector_bytes)) erase_plan_too_large
  ok (record { padded = padded; erase_sectors = erase_sectors })
