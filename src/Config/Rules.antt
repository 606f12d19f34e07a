-- ===== src/Config/Rules.antt =====
-- site/firmware-config.js: how the parts of a configuration are checked and put into normal form.
-- Texts are lists of UTF-16 code units. Of `toUpperCase` only what can yield hexadecimal digits
-- matters to the test that follows it: the ASCII letters, and the ligature U+FB00, which becomes "FF".
use frogalert.Prelude.{
  ℕ, ◌+◌, ◌-◌, ◌^◌, bit_and, Bool, true, not, ◌&&◌, ◌||◌, List, [], ◌∷◌, leb, ltb, ◌==◌, length,
  if◌then◌else◌, Result, ok, throw_if, ◌>>=◌, ◌>>◌,
}
use frogalert.Prelude.Text.{Text, to_upper, trim}
use frogalert.Config.{
  ConfigError, Rule, FirmwareConfig, bad_hardware_profile, bad_service, not_printable,
  all_builtin_targets, unknown_match_type, max_rules, empty_text, bad_oui, blank_name, public_oui,
  targets_out_of_range, value_size, unknown_targets, too_many_rules, service_16_bit, text_too_long,
  message_size,
}

-- `replaceAll(c, "")`
unfoldable pub remove : ℕ → Text → Text
remove c [] = []
remove c (x ∷ s) = if x == c then remove c s else x ∷ remove c s

unfoldable pub upper_case : Text → Text
upper_case [] = []
upper_case (c ∷ s) = if c == 0xfb00 then b'F' ∷ b'F' ∷ upper_case s else to_upper c ∷ upper_case s

unfoldable pub is_hex : ℕ → Bool
is_hex c = leb b'0' c && leb c b'9' || leb b'A' c && leb c b'F'

unfoldable pub all_hex : Text → Bool
all_hex [] = true
all_hex (c ∷ s) = is_hex c && all_hex s

-- `replace(/^0x/i, "")`
unfoldable pub strip_0x : Text → Text
strip_0x (z ∷ x ∷ s) = if z == b'0' && (x == b'x' || x == b'X') then s else z ∷ x ∷ s
strip_0x s = s

-- `match(/.{2}/g).join(":")`
unfoldable pub join_pairs : Text → Text
join_pairs (a ∷ b ∷ []) = a ∷ b ∷ []
join_pairs (a ∷ b ∷ c ∷ s) = a ∷ b ∷ b':' ∷ join_pairs (c ∷ s)
join_pairs s = []

unfoldable pub normalize_oui : Text → ℕ → Result ConfigError Text
normalize_oui input index = do
  let compact = upper_case (remove b'-' (remove b':' (trim input)))
  throw_if (not (length compact == 6 && all_hex compact)) (bad_oui index)
  ok (join_pairs compact)

unfoldable pub normalize_service : Text → ℕ → Result ConfigError Text
normalize_service input index = do
  let compact = upper_case (strip_0x (trim input))
  throw_if (not (length compact == 4 && all_hex compact)) (bad_service index)
  ok compact

unfoldable pub normalize_name : Text → ℕ → Result ConfigError Text
normalize_name input index = do throw_if (length (trim input) == 0) (blank_name index); ok input

unfoldable pub normalize_rule_value : ℕ → Text → ℕ → Result ConfigError Text
normalize_rule_value type input index =
    if type == public_oui
    then normalize_oui input index
    else if type == service_16_bit
    then normalize_service input index
    else normalize_name input index

unfoldable pub is_known_match_type : ℕ → Bool
is_known_match_type type = leb 1 type && leb type 5

unfoldable pub assert_hardware_profile : ℕ → Result ConfigError (Unit {0})
assert_hardware_profile profile = throw_if (not (profile == 1 || profile == 2)) bad_hardware_profile

-- `mask & ~ALL_BUILTIN_TARGETS`, for a mask of 32 bits.
abbrev pub unknown_bits : ℕ → ℕ
unknown_bits mask = bit_and mask (2 ^ 32 - 1 - all_builtin_targets)

unfoldable pub assert_builtin_targets : ℕ → Result ConfigError (Unit {0})
assert_builtin_targets mask = do
  throw_if (ltb 0xffffffff mask) targets_out_of_range
  throw_if (not (unknown_bits mask == 0)) unknown_targets

abbrev pub is_printable : ℕ → Bool
is_printable c = leb 0x20 c && leb c 0x7e

unfoldable pub all_printable : Text → Bool
all_printable [] = true
all_printable (c ∷ s) = is_printable c && all_printable s

-- The code units are the bytes.
unfoldable pub encode_printable_ascii : Text → ℕ → Result ConfigError (List ℕ)
encode_printable_ascii value maximum_length = do
  throw_if (length value == 0) empty_text
  throw_if (ltb maximum_length (length value)) text_too_long
  throw_if (not (all_printable value)) not_printable
  ok value

unfoldable pub decode_printable_ascii : List ℕ → Result ConfigError Text
decode_printable_ascii bytes = do throw_if (not (all_printable bytes)) not_printable; ok bytes

-- A rule ready to be written; the bytes are those of the two texts.
unfoldable pub normalize_rule : Rule → ℕ → Result ConfigError Rule
unfolding encode_printable_ascii
normalize_rule rule index = do
  throw_if (not (is_known_match_type rule.type)) (unknown_match_type index)
  value ← normalize_rule_value rule.type rule.value index
  value_bytes ← encode_printable_ascii value value_size
  message_bytes ← encode_printable_ascii rule.message message_size
  ok (record { type = rule.type; value = value_bytes; message = message_bytes })

-- `customRules.map(normalizeRule)`
unfoldable pub normalize_rules : List Rule → ℕ → Result ConfigError (List Rule)
normalize_rules [] index = ok []
normalize_rules (rule ∷ rules) index = do
  first ← normalize_rule rule index
  rest ← normalize_rules rules (index + 1)
  ok (first ∷ rest)

unfoldable pub normalize_config : FirmwareConfig → Result ConfigError FirmwareConfig
unfolding assert_hardware_profile assert_builtin_targets
normalize_config config = do
  assert_hardware_profile config.hardware_profile
  assert_builtin_targets config.built_in_targets
  throw_if (ltb max_rules (length config.custom_rules)) too_many_rules
  rules ← normalize_rules config.custom_rules 0
  ok (record config { custom_rules = rules })
