-- ===== src/Protocol/Printed.antt =====
-- site/wchisp-protocol.js: `sha256Hex` and `formatBootloaderVersion`. The digest is the platform's, a
-- parameter.
use frogalert.Prelude.{
  ℕ, ◌+◌, ◌-◌, ◌*◌, ◌/◌, ◌%◌, ◌<◌, ◌≡◌, refl, true, List, [], ◌∷◌, ◌++◌, length, ltb, ◌==◌,
  if◌then◌else◌, arith,
}
use frogalert.Prelude.Text.{Text, codes}
use frogalert.Prelude.Bytes.{byte_at}
use frogalert.Prelude.Patterns.{is_sha256, exactly_of, all_of, is_lower_hex}

unfoldable pub hex_digit : ℕ → ℕ
hex_digit n = if ltb n 10 then b'0' + n else b'a' + (n - 10)

-- `byte.toString(16)`, and with `padStart(2, "0")`.
unfoldable pub byte_hex : ℕ → Text
byte_hex byte =
    if ltb byte 16 then hex_digit byte ∷ [] else hex_digit (byte / 16) ∷ hex_digit (byte % 16) ∷ []

unfoldable pub padded_hex : ℕ → Text
padded_hex byte = hex_digit (byte / 16) ∷ hex_digit (byte % 16) ∷ []

unfoldable pub join_hex : List ℕ → Text
join_hex [] = []
join_hex (byte ∷ bytes) = padded_hex byte ++ join_hex bytes

unfoldable pub sha256_hex : (List ℕ → List ℕ) → List ℕ → Text
sha256_hex digest bytes = join_hex (digest bytes)

unfoldable pub format_bootloader_version : List ℕ → Text
format_bootloader_version bytes =
    if length bytes == 4
    then byte_hex (byte_at bytes 0)
      ++ (byte_hex (byte_at bytes 1)
          ++ (codes "." ++ (byte_hex (byte_at bytes 2) ++ byte_hex (byte_at bytes 3))))
    else codes "unknown"

-- All elements are bytes.
abbrev pub AreBytes : List ℕ → Type 0
AreBytes [] = Unit {0}
AreBytes (byte ∷ bytes) = (byte < 256) × AreBytes bytes

hex_digit-is_lower_hex : (n : ℕ) → n < 16 → is_lower_hex (hex_digit n) ≡ true
unfolding hex_digit
hex_digit-is_lower_hex n h = ground arith

length-join_hex : (bytes : List ℕ) → length (join_hex bytes) ≡ 2 * length bytes
unfolding join_hex padded_hex
length-join_hex [] = refl
length-join_hex (byte ∷ bytes) = omega (arith, length-join_hex bytes)

all_of-join_hex : (bytes : List ℕ) → AreBytes bytes → all_of is_lower_hex (join_hex bytes) ≡ true
unfolding all_of join_hex padded_hex
all_of-join_hex [] h = refl
all_of-join_hex (byte ∷ bytes) (small, rest) =
    rw
      (
        hex_digit-is_lower_hex (byte / 16) (omega arith),
        hex_digit-is_lower_hex (byte % 16) (omega arith),
      )
      (all_of-join_hex bytes rest)

-- With a digest of 32 bytes, `sha256Hex` prints a text that the pattern of the manifests and of the
-- quarantine registry accepts: 64 digits in lower case.
pub sha256_hex_accepted :
    (digest : List ℕ → List ℕ) (bytes : List ℕ)
    → length (digest bytes) ≡ 32
    → AreBytes (digest bytes)
    → is_sha256 (sha256_hex digest bytes) ≡ true
unfolding sha256_hex is_sha256 exactly_of
sha256_hex_accepted digest bytes size h =
    let long : (length (join_hex (digest bytes)) == 64) ≡ true =
      eq_true (length (join_hex (digest bytes))) 64
        (omega (arith, length-join_hex (digest bytes), size)) in
    rw (long, all_of-join_hex (digest bytes) h) refl
  where
    eq_true : (a b : ℕ) → a ≡ b → (a == b) ≡ true
    eq_true a b h = ground arith
