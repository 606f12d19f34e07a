-- ===== src/Protocol/ImageLaws.antt =====
-- site/wchisp-protocol.js: what padding and the checks of an image guarantee.
use frogalert.Prelude.Bytes.{zeros, every_eq, byte_at, blit, blit-append}
use frogalert.Prelude.{
  ℕ, ◌+◌, ◌*◌, ◌≤◌, ◌<◌, ◌≡◌, refl, ap, ◌∙◌, List, ◌++◌, arith, length, ok, ◌%◌, ◌↔◌, length-append,
  ◌-◌, true, length-replicate, false, max, [], replicate-add,
}
use frogalert.Protocol.Image.{ceil_div, pad_firmware, is_bin_name, Plan, validate_firmware}

-- How many zeros padding adds.
abbrev pub gap : List ℕ → ℕ
gap raw = ceil_div (length raw) 1024 * 1024 - length raw

pad_firmware-append : (raw : List ℕ) → pad_firmware raw ≡ raw ++ zeros (gap raw)
unfolding pad_firmware
pad_firmware-append raw =
    let whole : ceil_div (length raw) 1024 * 1024 ≡ length raw + gap raw = omega arith in
    ap (λ n. blit (zeros n) 0 raw) whole
    ∙ ap (λ l. blit l 0 raw) (replicate-add (length raw) (gap raw) 0)
    ∙ blit-append 0 [] (zeros (length raw)) (zeros (gap raw)) raw refl
        (length-replicate (length raw) 0)

length-pad_firmware : (raw : List ℕ) → length (pad_firmware raw) ≡ ceil_div (length raw) 1024 * 1024
length-pad_firmware raw =
    rw (pad_firmware-append raw)
      (omega (arith, length-append raw (zeros (gap raw)), length-replicate {A = ℕ} (gap raw) 0))

-- A padded image starts with the image, goes on with fewer than 1024 zeros, and fills whole sectors.
pub pad_firmware_lem :
    (raw : List ℕ)
    → (pad_firmware raw ≡ raw ++ zeros (gap raw))
      × (gap raw < 1024)
      × (length (pad_firmware raw) % 1024 ≡ 0)
pad_firmware_lem raw =
    (pad_firmware-append raw, omega arith, omega (arith, length-pad_firmware raw))

-- An image is accepted exactly if its name ends in .bin, it has 256 bytes to 447 KiB and its bytes
-- are not all equal; the plan is the padded image and one sector more than it fills, eight at least.
pub validate_firmware_iff :
    (raw filename : List ℕ) (plan : Plan)
    → (validate_firmware raw filename ≡ ok plan) ↔ (
        (is_bin_name filename ≡ true)
        × (256 ≤ length raw)
        × (length raw ≤ 447 * 1024)
        × (every_eq (byte_at raw 0) raw ≡ false)
        × (plan ≡ record {
          padded = pad_firmware raw;
          erase_sectors = max 8 (ceil_div (length raw) 1024 + 1);
        }))
unfolding validate_firmware
validate_firmware_iff raw filename plan = ground (arith, length-pad_firmware raw)
