-- ===== src/Config/ImageLaws.antt =====
-- site/firmware-config.js: what patching an image changes, and what it keeps.
use frogalert.Prelude.{
  ℕ, ◌≡◌, ◌+◌, ◌-◌, ◌≤◌, refl, not, List, [], ◌∷◌, length, ok, take, drop, ◌++◌, arith, sym, ap,
  ◌∙◌, length-take, take-append_exact, drop-append_exact, drop-drop, length-append, length-drop,
  bound, throw_if, ◌==◌, ◌>>◌, guarded,
}
use frogalert.Config.Whole.{encoded}
use frogalert.Config.Codec.{decode_firmware_config, encode_firmware_config}
use frogalert.Config.Rules.{normalize_config}
use frogalert.Config.{
  block_size, FirmwareConfig, Decoded, schema_version, profile_mismatch, magic_bytes,
}
use frogalert.Config.Image.{
  unique_offset, patch_firmware_config, find_unique_firmware_config_block, offsets_from,
}
use frogalert.Prelude.Bytes.{blit, slice, byte_at}

found_fits :
    (offsets : List ℕ) (size offset : ℕ)
    → unique_offset offsets size ≡ ok offset
    → offset + block_size ≤ size
unfolding unique_offset
found_fits [] size offset h = ground arith
found_fits (o ∷ []) size offset h = ground arith
found_fits (o ∷ p ∷ more) size offset h = ground arith

-- A blit of a fitting array: the parts of the result.
module _ (target : List ℕ) (n : ℕ) (new : List ℕ) (fits : n + length new ≤ length target) where
  length-front : length (take n target) ≡ n
  length-front = omega (arith, length-take n target)

  blit_front : take n (blit target n new) ≡ take n target
  blit_front =
      take-append_exact n (take n target) (new ++ drop (n + length new) target) length-front

  drop-blit : drop n (blit target n new) ≡ new ++ drop (n + length new) target
  drop-blit = drop-append_exact n (take n target) (new ++ drop (n + length new) target) length-front

  blit_middle : take (length new) (drop n (blit target n new)) ≡ new
  blit_middle =
      ap (λ l. take (length new) l) drop-blit
      ∙ take-append_exact (length new) new (drop (n + length new) target) refl

  blit_back : drop (n + length new) (blit target n new) ≡ drop (n + length new) target
  blit_back =
      sym (drop-drop n (length new) (blit target n new))
      ∙ ap (λ l. drop (length new) l) drop-blit
      ∙ drop-append_exact (length new) new (drop (n + length new) target) refl

  length-blit : length (blit target n new) ≡ length target
  length-blit = omega (
    arith,
    fits,
    length-front,
    length-append (take n target) (new ++ drop (n + length new) target),
    length-append new (drop (n + length new) target),
    length-drop (n + length new) target,
  )

-- The image with a new block in place of the one at the offset.
replaced :
    (firmware patched new : List ℕ) (offset profile : ℕ) (n : FirmwareConfig)
    → offset + block_size ≤ length firmware
    → length new ≡ block_size
    → decode_firmware_config new ≡ ok (record { schema = schema_version; config = n })
    → byte_at new 20 ≡ n.hardware_profile
    → (do
      throw_if (not (byte_at new 20 == profile)) profile_mismatch
      ok (blit firmware offset new))
      ≡ ok patched
    → (length patched ≡ length firmware)
      × (take offset patched ≡ take offset firmware)
      × (drop (offset + block_size) patched ≡ drop (offset + block_size) firmware)
      × (decode_firmware_config (slice patched offset (offset + block_size))
          ≡ ok (record { schema = schema_version; config = n }))
      × (n.hardware_profile ≡ profile)
replaced firmware patched new offset profile n fits size decodes at h =
    let (matches, whole) = guarded (byte_at new 20 == profile) profile_mismatch h in
    let fitting : offset + length new ≤ length firmware = omega arith in
    let width : offset + block_size - offset ≡ length new = omega arith in
    let middle : slice patched offset (offset + block_size) ≡ new =
      ap (λ p. slice p offset (offset + block_size)) (sym whole)
      ∙ ap (λ k. take k (drop offset (blit firmware offset new))) width
      ∙ blit_middle firmware offset new fitting in
    (
      ap length (sym whole) ∙ length-blit firmware offset new fitting,
      ap (λ l. take offset l) (sym whole) ∙ blit_front firmware offset new fitting,
      ap (λ p. drop (offset + block_size) p) (sym whole)
          ∙ ap (λ k. drop (offset + k) (blit firmware offset new)) (sym size)
          ∙ blit_back firmware offset new fitting
          ∙ ap (λ k. drop (offset + k) firmware) size,
      ap decode_firmware_config middle ∙ decodes,
      sym at ∙ ground arith,
    )

-- A patched image has the length of the original and differs from it only in the 384 bytes of the one
-- block that was found. Those decode to the given configuration in normal form, whose hardware
-- profile is that of the block the image had before.
pub patch_firmware_config_lem :
    (firmware patched : List ℕ) (config : FirmwareConfig)
    → patch_firmware_config firmware config ≡ ok patched
    → (offset : ℕ) × (n : FirmwareConfig) × (current : Decoded) × (find_unique_firmware_config_block
          firmware
        ≡ ok offset)
      × (offset + block_size ≤ length firmware)
      × (length patched ≡ length firmware)
      × (take offset patched ≡ take offset firmware)
      × (drop (offset + block_size) patched ≡ drop (offset + block_size) firmware)
      × (normalize_config config ≡ ok n)
      × (decode_firmware_config (slice patched offset (offset + block_size))
          ≡ ok (record { schema = schema_version; config = n }))
      × (decode_firmware_config (slice firmware offset (offset + block_size)) ≡ ok current)
      × (n.hardware_profile ≡ current.config.hardware_profile)
unfolding patch_firmware_config find_unique_firmware_config_block
patch_firmware_config_lem firmware patched config h =
    let (offset, found, h1) = bound (find_unique_firmware_config_block firmware) _ h in
    let (current, before, h2) =
      bound (decode_firmware_config (slice firmware offset (offset + block_size))) _ h1 in
    let (new, made, h3) = bound (encode_firmware_config config) _ h2 in
    let fits =
      found_fits (offsets_from firmware (length firmware + 1 - length magic_bytes) 0)
        (length firmware) offset found in
    let (n, normal, size, decodes, at) = encoded config new made in
    let (r0, r1, r2, r3, r4) =
      replaced firmware patched new offset current.config.hardware_profile n fits size decodes at
        h3 in
    (offset, n, current, found, fits, r0, r1, r2, normal, r3, before, r4)
