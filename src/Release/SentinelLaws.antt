-- ===== src/Release/SentinelLaws.antt =====
-- scripts/firmware-image.mjs: what finalizing an image does.
use frogalert.Prelude.{
  ℕ, ◌≡◌, ◌+◌, ◌*◌, ◌^◌, refl, List, [], ◌∷◌, ◌++◌, length, ◌≤◌, drop, ok, ◌↔◌, length-append,
  arith, ◌⊎◌, take, bound, length-drop, ◌∙◌, ap, drop-drop, sym, take-append-drop, length-take,
  subst, inr,
}
use frogalert.Prelude.Writes.{byte_at_after, set_here, set_after}
use frogalert.Release.Sentinel.{
  user_option_offset, user_option_magic, finalize_firmware, as_image_bytes,
  assert_user_option_magic, read_user_option_magic,
}
use frogalert.Config.Codec.{get_uint32, set_uint32, get_uint16, set_uint16}

abbrev pub sentinel_bytes : List ℕ
sentinel_bytes = 0xa9 ∷ 0xbd ∷ 0xf9 ∷ 0xf5 ∷ []

-- The field behind the first twenty bytes.
set_sentinel :
    (pre post : List ℕ) (a b c d : ℕ)
    → length pre ≡ user_option_offset
    → set_uint32 (pre ++ (a ∷ b ∷ c ∷ d ∷ post)) user_option_offset user_option_magic
      ≡ pre ++ (sentinel_bytes ++ post)
unfolding set_uint32 set_uint16
set_sentinel pre post a b c d e = rw (set_here 20 0xa9 pre (a ∷ b ∷ c ∷ d ∷ post) e) (
    rw (set_after 20 1 0xbd pre (0xa9 ∷ b ∷ c ∷ d ∷ post) e) (
      rw (set_after 20 2 0xf9 pre (0xa9 ∷ 0xbd ∷ c ∷ d ∷ post) e)
        (set_after 20 3 0xf5 pre (0xa9 ∷ 0xbd ∷ 0xf9 ∷ d ∷ post) e)))

field : ℕ → ℕ → ℕ → ℕ → ℕ
field a b c d = a + b * 2 ^ 8 + (c + d * 2 ^ 8) * 2 ^ 16

field_magic : field 0xa9 0xbd 0xf9 0xf5 ≡ user_option_magic
unfolding field
field_magic = refl

get_sentinel :
    (pre post : List ℕ) (a b c d : ℕ)
    → length pre ≡ user_option_offset
    → get_uint32 (pre ++ (a ∷ b ∷ c ∷ d ∷ post)) user_option_offset ≡ field a b c d
unfolding get_uint32 get_uint16 field
get_sentinel pre post a b c d e = rw (byte_at_after 20 1 pre (a ∷ b ∷ c ∷ d ∷ post) e) (
    rw (byte_at_after 20 2 pre (a ∷ b ∷ c ∷ d ∷ post) e) (
      rw (byte_at_after 20 3 pre (a ∷ b ∷ c ∷ d ∷ post) e)
        (rw (byte_at_after 20 0 pre (a ∷ b ∷ c ∷ d ∷ post) e) refl)))

long_enough :
    (pre post : List ℕ) (a b c d : ℕ)
    → length pre ≡ user_option_offset
    → as_image_bytes (pre ++ (a ∷ b ∷ c ∷ d ∷ post)) ≡ ok (pre ++ (a ∷ b ∷ c ∷ d ∷ post))
unfolding as_image_bytes
long_enough pre post a b c d e = let n = length-append pre (a ∷ b ∷ c ∷ d ∷ post) in ground arith

finalize_parts :
    (pre post out : List ℕ) (a b c d : ℕ)
    → length pre ≡ user_option_offset
    → (finalize_firmware (pre ++ (a ∷ b ∷ c ∷ d ∷ post)) ≡ ok out) ↔ (
        ((field a b c d ≡ 0) ⊎ (field a b c d ≡ user_option_magic))
        × (out ≡ pre ++ (sentinel_bytes ++ post)))
unfolding finalize_firmware assert_user_option_magic read_user_option_magic
finalize_parts pre post out a b c d e = rw (long_enough pre post a b c d e) (
    rw (long_enough pre post a b c d e) (
      rw (get_sentinel pre post a b c d e) (
        rw (set_sentinel pre post a b c d e) (
          rw (long_enough pre post 0xa9 0xbd 0xf9 0xf5 e)
            (rw (get_sentinel pre post 0xa9 0xbd 0xf9 0xf5 e) (rw field_magic (ground arith)))))))

four_more :
    (xs : List ℕ)
    → 4 ≤ length xs
    → (a : ℕ) × (b : ℕ) × (c : ℕ) × (d : ℕ) × (xs ≡ a ∷ b ∷ c ∷ d ∷ drop 4 xs)
four_more (a ∷ b ∷ c ∷ d ∷ xs) h = (a, b, c, d, refl)
four_more (a ∷ b ∷ c ∷ []) h = absurd (omega arith)
four_more (a ∷ b ∷ []) h = absurd (omega arith)
four_more (a ∷ []) h = absurd (omega arith)
four_more [] h = absurd (omega arith)

finalize_long :
    (image out : List ℕ)
    → user_option_offset + 4 ≤ length image
    → (finalize_firmware image ≡ ok out) ↔ (
        ((get_uint32 image user_option_offset ≡ 0)
          ⊎ (get_uint32 image user_option_offset ≡ user_option_magic))
        × (out ≡ take 20 image ++ (sentinel_bytes ++ drop 24 image)))
finalize_long image out h =
    let (a, b, c, d, e) = four_more (drop 20 image) (omega (arith, length-drop 20 image)) in
    let rest : drop 20 image ≡ a ∷ b ∷ c ∷ d ∷ drop 24 image =
      e ∙ ap (λ l. a ∷ b ∷ c ∷ d ∷ l) (drop-drop 20 4 image) in
    let whole : take 20 image ++ (a ∷ b ∷ c ∷ d ∷ drop 24 image) ≡ image =
      ap (λ l. take 20 image ++ l) (sym rest) ∙ take-append-drop 20 image in
    let front : length (take 20 image) ≡ 20 = omega (arith, length-take 20 image) in
    let value : get_uint32 image user_option_offset ≡ field a b c d =
      ap (λ i. get_uint32 i user_option_offset) (sym whole)
      ∙ get_sentinel (take 20 image) (drop 24 image) a b c d front in
    let Stated : List ℕ → Type 0 = λ i. (finalize_firmware i ≡ ok out) ↔ (
      ((field a b c d ≡ 0) ⊎ (field a b c d ≡ user_option_magic))
      × (out ≡ take 20 image ++ (sentinel_bytes ++ drop 24 image))) in
    rw value (subst Stated whole (finalize_parts (take 20 image) (drop 24 image) out a b c d front))

finalize_needs_length :
    (image out : List ℕ) → finalize_firmware image ≡ ok out → user_option_offset + 4 ≤ length image
unfolding finalize_firmware as_image_bytes
finalize_needs_length image out h =
    let (i, long, _) = bound (as_image_bytes image) _ h in ground arith

-- Finalizing an image succeeds exactly if it has 24 bytes and its field at offset 20 is reserved,
-- that is 0 or the sentinel already; the result is the image with the four bytes of the sentinel in
-- that field.
pub finalize_firmware_iff :
    (image out : List ℕ)
    → (finalize_firmware image ≡ ok out) ↔ (
        (user_option_offset + 4 ≤ length image)
        × ((get_uint32 image user_option_offset ≡ 0)
            ⊎ (get_uint32 image user_option_offset ≡ user_option_magic))
        × (out ≡ take 20 image ++ (sentinel_bytes ++ drop 24 image)))
finalize_firmware_iff image out = (
  λ h.
      let long = finalize_needs_length image out h in
      let r = (finalize_long image out long).0 h in (long, r.0, r.1),
  λ r. (finalize_long image out r.0).1 (r.1, r.2),
)

-- What finalizing returns, it returns unchanged when it is finalized again.
pub finalize_firmware_twice :
    (image out : List ℕ) → finalize_firmware image ≡ ok out → finalize_firmware out ≡ ok out
finalize_firmware_twice image out h =
    let (long, _, e) = (finalize_firmware_iff image out).0 h in
    let front : length (take 20 image) ≡ 20 = omega (arith, length-take 20 image) in
    let whole = take 20 image ++ (sentinel_bytes ++ drop 24 image) in
    let again =
      (finalize_parts (take 20 image) (drop 24 image) whole 0xa9 0xbd 0xf9 0xf5 front).1
        (inr field_magic, refl) in
    subst (λ o. finalize_firmware o ≡ ok o) (sym e) again
