-- ===== src/Config/Entries.antt =====
-- site/firmware-config.js: an entry that `encodeFirmwareConfig` wrote is read back by the loop of
-- `decodeFirmwareConfig`.
use frogalert.Prelude.{
  ℕ, ◌≡◌, ◌+◌, ◌-◌, refl, List, [], ◌∷◌, ◌++◌, arith, ok, ◌≤◌, length, ap, ◌∙◌, sym, take, drop,
  append_assoc, drop-append_exact, take-append_exact, length-replicate, ltb, ◌==◌, append-nil,
}
use frogalert.Prelude.Writes.{drop_after}
use mathlib.Core.Bool.{false, ◌||◌}
use frogalert.Config.Rules.{decode_printable_ascii}
use frogalert.Prelude.Bytes.{zeros, slice, every_eq_of_replicate, same_bytes_refl}
use frogalert.Config.{Rule, message_size, value_size}
use frogalert.Config.Normal.{IsNormal}
use frogalert.Config.Layout.{rule_bytes, padded, length-padded}
use frogalert.Config.Codec.{parse_entry}

-- A field of a known length before its padding.
take-padded :
    (n : ℕ) (bs rest : List ℕ) → length bs ≤ n → take (length bs) (padded n bs ++ rest) ≡ bs
unfolding padded
take-padded n bs rest h =
    ap (λ l. take (length bs) l) (append_assoc bs (zeros (n - length bs)) rest)
    ∙ take-append_exact (length bs) bs (zeros (n - length bs) ++ rest) refl

padding-padded :
    (n : ℕ) (bs rest : List ℕ)
    → length bs ≤ n
    → take (n - length bs) (drop (length bs) (padded n bs ++ rest)) ≡ zeros (n - length bs)
unfolding padded
padding-padded n bs rest h =
    ap (λ l. take (n - length bs) (drop (length bs) l))
      (append_assoc bs (zeros (n - length bs)) rest)
    ∙ ap (λ l. take (n - length bs) l)
        (drop-append_exact (length bs) bs (zeros (n - length bs) ++ rest) refl)
    ∙ take-append_exact (n - length bs) (zeros (n - length bs)) rest
        (length-replicate (n - length bs) 0)

drop-padded :
    (n : ℕ) (bs : List ℕ) → length bs ≤ n → drop (length bs) (padded n bs) ≡ zeros (n - length bs)
unfolding padded
drop-padded n bs h = drop-append_exact (length bs) bs (zeros (n - length bs)) refl

-- The parts of an entry.
module _ (r : Rule) (h : IsNormal r) where
  head : List ℕ
  head = r.type ∷ length r.value ∷ length r.message ∷ 0 ∷ []

  fields : List ℕ
  fields = padded value_size r.value ++ padded message_size r.message

  value_fits : length r.value ≤ value_size
  unfolding IsNormal
  value_fits = h.5

  message_fits : length r.message ≤ message_size
  unfolding IsNormal
  message_fits = h.7

  slice-value : slice (rule_bytes r) 4 (4 + length r.value) ≡ r.value
  unfolding rule_bytes
  slice-value =
      let e : 4 + length r.value - 4 ≡ length r.value = omega arith in
      ap (λ n. take n (padded value_size r.value ++ padded message_size r.message)) e
      ∙ take-padded value_size r.value (padded message_size r.message) value_fits

  slice-value_padding : slice (rule_bytes r) (4 + length r.value) 28 ≡ zeros (24 - length r.value)
  unfolding rule_bytes head fields
  slice-value_padding =
      let e : 28 - (4 + length r.value) ≡ 24 - length r.value = omega arith in
      ap (λ n. take n (drop (4 + length r.value) (head ++ fields))) e
      ∙ ap (λ l. take (24 - length r.value) l) (drop_after 4 (length r.value) head fields refl)
      ∙ padding-padded value_size r.value (padded message_size r.message) value_fits

  drop-message : (n : ℕ) → drop (28 + n) (rule_bytes r) ≡ drop n (padded message_size r.message)
  unfolding rule_bytes head fields
  drop-message n =
      let e : 28 + n ≡ 4 + (24 + n) = omega arith in
      ap (λ k. drop k (head ++ fields)) e
      ∙ drop_after 4 (24 + n) head fields refl
      ∙ drop_after 24 n (padded value_size r.value) (padded message_size r.message)
          (length-padded value_size r.value value_fits)

  slice-message : slice (rule_bytes r) 28 (28 + length r.message) ≡ r.message
  slice-message =
      let e : 28 + length r.message - 28 ≡ length r.message = omega arith in
      ap (λ n. take n (drop 28 (rule_bytes r))) e
      ∙ ap (λ l. take (length r.message) l) (drop-message 0)
      ∙ ap (λ l. take (length r.message) l) (sym (append-nil (padded message_size r.message)))
      ∙ take-padded message_size r.message [] message_fits

  drop-message_padding : drop (28 + length r.message) (rule_bytes r) ≡ zeros (16 - length r.message)
  drop-message_padding =
      drop-message (length r.message) ∙ drop-padded message_size r.message message_fits

-- A length field between 1 and its maximum passes.
length_passes : (n k : ℕ) → 1 ≤ n → n ≤ k → (n == 0 || ltb k n) ≡ false
length_passes n k h g = ground arith

pub parse_entry-rule_bytes : (r : Rule) (i : ℕ) → IsNormal r → parse_entry (rule_bytes r) i ≡ ok r
unfolding parse_entry rule_bytes IsNormal decode_printable_ascii
parse_entry-rule_bytes r i h = rw h.0 (
    rw (length_passes (length r.value) value_size h.4 h.5) (
      rw (length_passes (length r.message) message_size h.6 h.7) (
        rw (slice-value_padding r h) (
          rw (every_eq_of_replicate 0 (24 - length r.value)) (
            rw (drop-message_padding r h) (
              rw (every_eq_of_replicate 0 (16 - length r.message)) (
                rw (slice-value r h) (
                  rw (slice-message r h)
                    (rw h.2 (rw h.3 (rw (h.1 i) (rw (same_bytes_refl r.value) refl))))))))))))
