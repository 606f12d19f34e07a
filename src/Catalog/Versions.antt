-- ===== src/Catalog/Versions.antt =====
-- site/wchisp-protocol.js, `compareReleaseVersions`. A version splits at its first "-" into the
-- core, which has no "-", and the prerelease.
use frogalert.Prelude.{
  ℕ, Bool, true, false, ◌&&◌, ◌||◌, not, List, [], ◌∷◌, ltb, ◌==◌, length, if◌then◌else◌, Option,
  none, some, Result, ok, ◌>>=◌, err,
}
use frogalert.Prelude.Comparison.{Comparison, same, then_by, less, greater}
use frogalert.Catalog.{CatalogError, bad_version}
use frogalert.Prelude.Patterns.{some_of, is_alphanumeric, is_digit, all_of}
use frogalert.Prelude.Bytes.{same_bytes}
use frogalert.Prelude.Text.{Text}

unfoldable pub prepend : ℕ → List Text → List Text
prepend c [] = (c ∷ []) ∷ []
prepend c (part ∷ parts) = (c ∷ part) ∷ parts

-- `split`, at one character.
unfoldable pub split : ℕ → Text → List Text
unfolding prepend
split separator [] = [] ∷ []
split separator (c ∷ s) =
    let rest = split separator s in if c == separator then [] ∷ rest else prepend c rest

-- `slice(0, indexOf(c))` and `slice(indexOf(c) + 1)`.
unfoldable pub before_first : ℕ → Text → Text
before_first separator [] = []
before_first separator (c ∷ s) =
    let rest = before_first separator s in if c == separator then [] else c ∷ rest

unfoldable pub after_first : ℕ → Text → Option Text
after_first separator [] = none
after_first separator (c ∷ s) =
    let rest = after_first separator s in if c == separator then some s else rest

-- `0|[1-9]\d*`
unfoldable pub is_numeral : Text → Bool
is_numeral [] = false
is_numeral (c ∷ s) = if c == b'0' then length s == 0 else is_digit c && all_of is_digit s

pub record Parsed : Type 0 where
  pub major : Text
  pub minor : Text
  pub patch : Text
  pub prerelease : List Text

-- The three captures of the core, where it has three.
unfoldable pub core_of : List Text → Option (Text × Text × Text)
core_of (a ∷ b ∷ c ∷ []) =
    if is_numeral a && is_numeral b && is_numeral c then some (a, b, c) else none
core_of parts = none

abbrev pub is_version_character : ℕ → Bool
is_version_character c = is_alphanumeric c || c == b'.' || c == b'-'

-- `(?:-[0-9A-Za-z.-]+)?`
unfoldable pub is_prerelease : Option Text → Bool
is_prerelease none = true
is_prerelease (some s) = some_of is_version_character s

unfoldable pub prerelease_parts : Option Text → List Text
prerelease_parts none = []
prerelease_parts (some s) = split b'.' s

unfoldable pub parsed_with : Option (Text × Text × Text) → Option Text → Option Parsed
parsed_with none prerelease = none
parsed_with (some (a, b, c)) prerelease =
    if is_prerelease prerelease
    then some (record { major = a; minor = b; patch = c; prerelease = prerelease_parts prerelease })
    else none

unfoldable pub parse_version : Text → Option Parsed
parse_version version =
    parsed_with (core_of (split b'.' (before_first b'-' version))) (after_first b'-' version)

unfoldable pub is_version : Text → Bool
is_version version = elim (parse_version version) [ none ↦ false | some parsed ↦ true ]

-- `<` on strings goes by their code units.
unfoldable pub compare_number : ℕ → ℕ → Comparison
compare_number a b = if a == b then same else if ltb a b then less else greater

unfoldable pub compare_ascii : Text → Text → Comparison
unfolding compare_number
compare_ascii [] [] = same
compare_ascii [] (d ∷ t) = less
compare_ascii (c ∷ s) [] = greater
compare_ascii (c ∷ s) (d ∷ t) = then_by (compare_number c d) (compare_ascii s t)

unfoldable pub compare_numeric_strings : Text → Text → Comparison
compare_numeric_strings left right =
    if not (length left == length right)
    then (if ltb (length left) (length right) then less else greater)
    else compare_ascii left right

-- `/^\d+$/`
unfoldable pub is_numeric : Text → Bool
is_numeric s = some_of is_digit s

-- Two parts of the prereleases that differ.
unfoldable pub compare_parts : Text → Text → Comparison
compare_parts left right =
    if is_numeric left
    then (if is_numeric right then compare_numeric_strings left right else less)
    else (if is_numeric right then greater else compare_ascii left right)

-- The loop over the parts of the prereleases.
unfoldable pub compare_prereleases : List Text → List Text → Comparison
compare_prereleases [] [] = same
compare_prereleases [] (r ∷ right) = less
compare_prereleases (l ∷ left) [] = greater
compare_prereleases (l ∷ left) (r ∷ right) =
    let rest = compare_prereleases left right in if same_bytes l r then rest else compare_parts l r

-- A version without a prerelease comes after those with one.
unfoldable pub compare_tails : List Text → List Text → Comparison
compare_tails [] [] = same
compare_tails [] (r ∷ right) = greater
compare_tails (l ∷ left) [] = less
compare_tails (l ∷ left) (r ∷ right) = compare_prereleases (l ∷ left) (r ∷ right)

unfoldable pub compare_parsed : Parsed → Parsed → Comparison
compare_parsed left right = then_by (compare_numeric_strings left.major right.major) (
    then_by (compare_numeric_strings left.minor right.minor) (
      then_by (compare_numeric_strings left.patch right.patch)
        (compare_tails left.prerelease right.prerelease)))

unfoldable pub parse_or_throw : Text → Result CatalogError Parsed
parse_or_throw version = elim (parse_version version) [
  | none ↦ err bad_version
  | some parsed ↦ ok parsed
]

unfoldable pub compare_release_versions : Text → Text → Result CatalogError Comparison
compare_release_versions left_version right_version = do
  left ← parse_or_throw left_version
  right ← parse_or_throw right_version
  ok (compare_parsed left right)
