-- ===== src/Prelude/Patterns.antt =====
-- The regular expressions of the source that several modules share. Each is anchored at both ends.
use frogalert.Prelude.{
  ℕ, ◌-◌, Bool, true, false, ◌&&◌, ◌||◌, not, [], ◌∷◌, leb, ◌==◌, length, take, drop, if◌then◌else◌,
  Option, none, some,
}
use frogalert.Prelude.Bytes.{same_bytes}
use frogalert.Prelude.Text.{Text, codes}

-- Classes of characters.
abbrev pub is_digit : ℕ → Bool
is_digit c = leb b'0' c && leb c b'9'

abbrev pub is_lower : ℕ → Bool
is_lower c = leb b'a' c && leb c b'z'

abbrev pub is_upper : ℕ → Bool
is_upper c = leb b'A' c && leb c b'Z'

abbrev pub is_alphanumeric : ℕ → Bool
is_alphanumeric c = is_digit c || is_lower c || is_upper c

abbrev pub is_lower_hex : ℕ → Bool
is_lower_hex c = is_digit c || leb b'a' c && leb c b'f'

-- `[a-zA-Z0-9._-]`
abbrev pub is_name_character : ℕ → Bool
is_name_character c = is_alphanumeric c || c == b'.' || c == b'_' || c == b'-'

-- `[class]*`
unfoldable pub all_of : (ℕ → Bool) → Text → Bool
all_of test [] = true
all_of test (c ∷ s) = test c && all_of test s

-- `[class]+`
unfoldable pub some_of : (ℕ → Bool) → Text → Bool
unfolding all_of
some_of test s = not (length s == 0) && all_of test s

-- `[class]{n}`
unfoldable pub exactly_of : ℕ → (ℕ → Bool) → Text → Bool
unfolding all_of
exactly_of n test s = length s == n && all_of test s

-- A first character of one class, then between `least` and `most` of another.
unfoldable pub headed : (ℕ → Bool) → (ℕ → Bool) → ℕ → ℕ → Text → Bool
unfolding all_of
headed first test least most [] = false
headed first test least most (c ∷ s) =
    first c && all_of test s && leb least (length s) && leb (length s) most

-- What stands before a suffix, and what follows a prefix.
unfoldable pub before_suffix : Text → Text → Option Text
before_suffix suffix s =
    if leb (length suffix) (length s) && same_bytes (drop (length s - length suffix) s) suffix
    then some (take (length s - length suffix) s)
    else none

unfoldable pub after_prefix : Text → Text → Option Text
after_prefix prefix s =
    if same_bytes (take (length prefix) s) prefix then some (drop (length prefix) s) else none

unfoldable pub holds_of : (Text → Bool) → Option Text → Bool
holds_of test none = false
holds_of test (some s) = test s

-- `/^[a-f0-9]{64}$/` and `/^[a-f0-9]{40}$/`
unfoldable pub is_sha256 : Text → Bool
is_sha256 s = exactly_of 64 is_lower_hex s

unfoldable pub is_commit : Text → Bool
is_commit s = exactly_of 40 is_lower_hex s

-- `/^[a-zA-Z0-9._-]+\.bin$/`, and the same for another extension.
unfoldable pub is_file_name : Text → Text → Bool
is_file_name extension s = holds_of (some_of is_name_character) (before_suffix extension s)

unfoldable pub is_bin_file : Text → Bool
is_bin_file s = is_file_name (codes ".bin") s
