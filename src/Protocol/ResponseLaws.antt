-- ===== src/Protocol/ResponseLaws.antt =====
-- site/wchisp-protocol.js: which responses are accepted, and what is read from them.
use frogalert.Prelude.Bits.{bit_and_mask, bit_or_shifted}
use frogalert.Prelude.Bytes.{IsBytes, byte_at}
use frogalert.Prelude.{
  ℕ, ◌+◌, ◌*◌, ◌/◌, ◌%◌, ◌^◌, ◌≤◌, ◌<◌, ◌≡◌, ◌⊎◌, ◌↔◌, List, [], ◌∷◌, true, arith, length, ok, err,
  bit_or, ◌≢◌,
}
use frogalert.Protocol.{ch58x_reset_config, ch58x_canonical_reset_readback, bad_status}
use frogalert.Protocol.Responses.{
  parse_response, validate_uid, is_reset_config, every_matches, parse_identity, Identity,
}

-- The 16-bit number of two bytes, the low one first.
abbrev pub word : ℕ → ℕ → ℕ
word low high = low + high * 256

word_lem : (low high : ℕ) → low < 256 → bit_or low (high * 256) ≡ word low high
word_lem low high h = bit_or_shifted 8 low high h

-- A response, on every branch: it is accepted exactly if it is the echoed command, the status 0, the
-- length of the payload as a little-endian 16-bit number and the payload, which is what is returned.
pub parse_response_iff :
    (raw : List ℕ) (command : ℕ) (payload : List ℕ)
    → IsBytes raw
    → (parse_response raw command ≡ ok payload) ↔ (
        (length payload < 2 ^ 16)
        × (raw ≡ command ∷ 0 ∷ length payload % 256 ∷ length payload / 256 ∷ payload))
unfolding parse_response
parse_response_iff [] command payload b = ground arith
parse_response_iff (r0 ∷ []) command payload b = ground arith
parse_response_iff (r0 ∷ r1 ∷ []) command payload b = ground arith
parse_response_iff (r0 ∷ r1 ∷ r2 ∷ []) command payload b = ground arith
parse_response_iff (r0 ∷ r1 ∷ r2 ∷ r3 ∷ rest) command payload b =
    rw (word_lem r2 r3 b.1.1.0) (ground arith)

-- A response of four bytes or more with the echoed command and a status other than 0 reports that
-- status, whatever else it holds.
pub parse_response_status :
    (command status : ℕ) (low high : ℕ) (payload : List ℕ)
    → status ≢ 0
    → parse_response (command ∷ status ∷ low ∷ high ∷ payload) command ≡ err (bad_status status)
unfolding parse_response
parse_response_status command status low high payload h = ground arith

-- An identity is read exactly from a payload that starts with the bytes of the CH582.
pub parse_identity_iff :
    (payload : List ℕ) (i : Identity)
    → (parse_identity payload ≡ ok i) ↔ (
        (2 ≤ length payload)
        × (byte_at payload 0 ≡ 0x82)
        × (byte_at payload 1 ≡ 0x16)
        × (i ≡ record { chip_id = 0x82; device_type = 0x16; flash_bytes = 458752 }))
unfolding parse_identity
parse_identity_iff payload i = ground arith

-- Eight bytes whose last word is the sum of the three before it, modulo 2 ^ 16.
abbrev pub IsUid : List ℕ → Type 0
IsUid (a ∷ b ∷ c ∷ d ∷ e ∷ f ∷ g ∷ h ∷ []) = (word a b + word c d + word e f) % 2 ^ 16 ≡ word g h
IsUid _ = ⊥

uid_words :
    (a b c d e f g h : ℕ)
    → IsBytes (a ∷ b ∷ c ∷ d ∷ e ∷ f ∷ g ∷ h ∷ [])
    → (validate_uid (a ∷ b ∷ c ∷ d ∷ e ∷ f ∷ g ∷ h ∷ []) ≡ ok tt)
      ↔ ((word a b + word c d + word e f) % 2 ^ 16 ≡ word g h)
unfolding validate_uid
uid_words a b c d e f g h bs =
    rw
      (
        word_lem a b (omega arith),
        word_lem c d (omega arith),
        word_lem e f (omega arith),
        word_lem g h (omega arith),
        bit_and_mask 16 (word a b + word c d + word e f),
      )
      (ground arith)

-- The check of a UID accepts exactly those with the right checksum.
pub validate_uid_iff : (uid : List ℕ) → IsBytes uid → (validate_uid uid ≡ ok tt) ↔ IsUid uid
unfolding validate_uid
validate_uid_iff (a ∷ b ∷ c ∷ d ∷ e ∷ f ∷ g ∷ h ∷ []) bs = uid_words a b c d e f g h bs
validate_uid_iff [] bs = ground arith
validate_uid_iff _ bs = ground arith

every_matches_of_length :
    (xs ys : List ℕ) → length xs ≡ length ys → (every_matches xs ys ≡ true) ↔ (xs ≡ ys)
unfolding every_matches
every_matches_of_length [] [] e = ground arith
every_matches_of_length [] (y ∷ ys) e = absurd (omega arith)
every_matches_of_length (x ∷ xs) [] e = absurd (omega arith)
every_matches_of_length (x ∷ xs) (y ∷ ys) e = ground (arith, every_matches_of_length xs ys)

-- A reset is accepted exactly if the registers read back as the values that were written or as the
-- bootloader's canonical form of them.
pub is_reset_config_iff :
    (registers : List ℕ)
    → (is_reset_config registers ≡ true)
      ↔ ((registers ≡ ch58x_reset_config) ⊎ (registers ≡ ch58x_canonical_reset_readback))
unfolding is_reset_config
is_reset_config_iff registers = ground (
  arith,
  every_matches_of_length registers ch58x_reset_config,
  every_matches_of_length registers ch58x_canonical_reset_readback,
)
