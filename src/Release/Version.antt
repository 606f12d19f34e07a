-- ===== src/Release/Version.antt =====
-- scripts/frogalert-version.mjs and scripts/require-firmware-version-bump.mjs: how versions are read,
-- printed and compared. The regular expression is a parser by hand: each `\\d+` takes the digits that
-- stand there, since the character after them is never a digit.
use frogalert.Prelude.{
  ℕ, ◌+◌, ◌-◌, ◌*◌, true, false, not, Bool, [], ◌∷◌, ◌++◌, length, Result, ok, err, throw_if, ◌>>=◌,
  ◌>>◌, ltb, ◌==◌, if◌then◌else◌, ◌||◌,
}
use frogalert.Prelude.Patterns.{is_digit}
use frogalert.Prelude.Comparison.{Comparison, greater, same, less}
use frogalert.Prelude.Bytes.{same_bytes}
use frogalert.Prelude.Text.{Text, codes}

pub data VersionError : Type 0 where
  bad_version bad_schema bad_display display_too_long not_advanced : VersionError

pub data Channel : Type 0 where
  alpha beta rc stable : Channel

unfoldable pub channel_rank : Channel → ℕ
channel_rank alpha = 0
channel_rank beta = 1
channel_rank rc = 2
channel_rank stable = 3

-- The parts that the expression captures; a stable version has no iteration.
pub record Match : Type 0 where
  pub major : Text
  pub minor : Text
  pub patch : Text
  pub channel : Channel
  pub iteration : Text

unfoldable pub digits : Text → Text
digits [] = []
digits (c ∷ s) = let rest = digits s in if is_digit c then c ∷ rest else []

unfoldable pub after_digits : Text → Text
after_digits [] = []
after_digits (c ∷ s) = let rest = after_digits s in if is_digit c then rest else c ∷ s

-- What follows a prefix.
unfoldable pub after : Text → Text → Result VersionError Text
after [] s = ok s
after (c ∷ prefix) [] = err bad_version
after (c ∷ prefix) (d ∷ s) = let rest = after prefix s in if c == d then rest else err bad_version

-- `\d+`, and then the end or more.
unfoldable pub number : Text → Result VersionError Text
number s = do throw_if (length (digits s) == 0) bad_version; ok (digits s)

-- `-(alpha|beta|rc)\.(\d+)` and the end, for one channel.
unfoldable pub suffix : Channel → Text → Text → Result VersionError (Channel × Text)
suffix channel word s = do
  rest ← after (b'-' ∷ (word ++ (b'.' ∷ []))) s
  iteration ← number rest
  throw_if (not (length (after_digits rest) == 0)) bad_version
  ok (channel, iteration)

abbrev pub or_else :
    {A : Type 0} → Result VersionError A → Result VersionError A → Result VersionError A
or_else (ok a) other = ok a
or_else (err e) other = other

unfoldable pub parse_channel : Text → Result VersionError (Channel × Text)
parse_channel [] = ok (stable, [])
parse_channel (c ∷ s) =
    or_else (suffix alpha (codes "alpha") (c ∷ s))
      (or_else (suffix beta (codes "beta") (c ∷ s)) (suffix rc (codes "rc") (c ∷ s)))

unfoldable pub match_version : Text → Result VersionError Match
match_version version = do
  major ← number version
  s1 ← after (b'.' ∷ []) (after_digits version)
  minor ← number s1
  s2 ← after (b'.' ∷ []) (after_digits s1)
  patch ← number s2
  tail ← parse_channel (after_digits s2)
  ok (record { major = major; minor = minor; patch = patch; channel = tail.0; iteration = tail.1 })

unfoldable pub channel_letter : Channel → Text
channel_letter alpha = codes "a"
channel_letter beta = codes "b"
channel_letter rc = codes "r"
channel_letter stable = []

unfoldable pub compact_firmware_version : Text → Result VersionError Text
compact_firmware_version version = do
  m ← match_version version
  ok (
      b'v'
      ∷ (m.major
          ++ (b'.' ∷ (m.minor ++ (b'.' ∷ (m.patch ++ (channel_letter m.channel ++ m.iteration)))))))

-- `BigInt(digits)`; of no digits, 0.
unfoldable pub value_from : ℕ → Text → ℕ
value_from n [] = n
value_from n (c ∷ s) = value_from (n * 10 + (c - b'0')) s

pub record Version : Type 0 where
  pub major : ℕ
  pub minor : ℕ
  pub patch : ℕ
  pub channel : Channel
  pub iteration : ℕ

abbrev pub values : Match → Version
values m = record {
  major = value_from 0 m.major;
  minor = value_from 0 m.minor;
  patch = value_from 0 m.patch;
  channel = m.channel;
  iteration = value_from 0 m.iteration;
}

unfoldable pub parsed_firmware_version : Text → Result VersionError Version
parsed_firmware_version version = do m ← match_version version; ok (values m)

-- The parts in the order in which they decide: `a !== b` returns, and otherwise the rest does.
unfoldable pub compare_then : ℕ → ℕ → Comparison → Comparison
compare_then a b rest = if a == b then rest else if ltb b a then greater else less

unfoldable pub compare_values : Version → Version → Comparison
compare_values left right = compare_then left.major right.major (
    compare_then left.minor right.minor (
      compare_then left.patch right.patch (
        compare_then (channel_rank left.channel) (channel_rank right.channel)
          (compare_then left.iteration right.iteration same))))

unfoldable pub compare_firmware_versions : Text → Text → Result VersionError Comparison
compare_firmware_versions left_version right_version = do
  left ← parsed_firmware_version left_version
  right ← parsed_firmware_version right_version
  ok (compare_values left right)

pub record Metadata : Type 0 where
  pub schema_version : ℕ
  pub version : Text
  pub display_version : Text

-- `(?:[abr][0-9]+)?$`
unfoldable pub display_tail : Text → Result VersionError (Unit {0})
display_tail [] = ok tt
display_tail (c ∷ s) = do
  throw_if (not (c == b'a' || c == b'b' || c == b'r')) bad_display
  _ ← number s
  throw_if (not (length (after_digits s) == 0)) bad_display

-- `/^v[0-9]+\.[0-9]+\.[0-9]+(?:[abr][0-9]+)?$/`
unfoldable pub display_shape : Text → Result VersionError (Unit {0})
display_shape display = do
  s0 ← after (b'v' ∷ []) display
  _ ← number s0
  s1 ← after (b'.' ∷ []) (after_digits s0)
  _ ← number s1
  s2 ← after (b'.' ∷ []) (after_digits s1)
  _ ← number s2
  display_tail (after_digits s2)

unfoldable pub validate_firmware_version : Metadata → Result VersionError Metadata
validate_firmware_version metadata = do
  throw_if (not (metadata.schema_version == 1)) bad_schema
  compact ← compact_firmware_version metadata.version
  throw_if (not (same_bytes metadata.display_version compact)) bad_display
  display_shape metadata.display_version
  throw_if (ltb 10 (length metadata.display_version)) display_too_long
  ok metadata

unfoldable pub is_greater : Comparison → Bool
is_greater greater = true
is_greater same = false
is_greater less = false

unfoldable pub require_firmware_version_bump : Metadata → Metadata → Result VersionError Metadata
require_firmware_version_bump previous_metadata current_metadata = do
  previous ← validate_firmware_version previous_metadata
  current ← validate_firmware_version current_metadata
  compared ← compare_firmware_versions current.version previous.version
  throw_if (not (is_greater compared)) not_advanced
  ok current
