-- ===== src/Catalog/ReleaseLaws.antt =====
-- site/wchisp-protocol.js: what a descriptor that was accepted for a board says.
use frogalert.Prelude.{
  ◌≡◌, ◌≢◌, refl, sym, ap, ◌∙◌, subst, arith, [], ◌∷◌, ◌++◌, length, ok, Bool-cases, inl, inr, true,
  passed, Bool, ◌&&◌, throw_if, some, not, ◌-◌, ◌==◌, Option, leb, none, drop, take,
  take-append-drop, ap₂,
}
use frogalert.Prelude.Patterns.{
  is_file_name, before_suffix, is_bin_file, all_of, is_sha256, is_name_character, some_of,
  is_commit, exactly_of, holds_of,
}
use frogalert.Catalog.{CatalogError, frogalert_github_repository, unsupported_revision, codes}
use frogalert.Prelude.JsonLaws.{single_value, the_text_value, text_value}
use frogalert.Prelude.Text.{Text, trim, codes}
use frogalert.Prelude.Json.{
  is_the_text, is_single, is_text, is_integer_from, includes_text, text, Json, has_text, get, array,
  item, nil,
}
use frogalert.Catalog.Release.{
  check_artifact, supports, is_anything, validate_release_descriptor,
  validate_release_catalog_descriptor, check_origin, check_version,
}
use frogalert.Prelude.Bytes.{All, same_bytes-eq, All-append, same_bytes}

check_artifact_lem :
    (release : Json)
    → check_artifact release ≡ ok tt
    → (is_single is_anything (get release "hardware_revisions") ≡ true)
      × (is_single is_anything (get release "pcb_markings") ≡ true)
      × (is_text is_bin_file (get release "file") ≡ true)
      × (is_integer_from 1 (get release "bytes") ≡ true)
      × (is_text is_sha256 (get release "sha256") ≡ true)
      × (is_text is_commit (get release "source_commit") ≡ true)
unfolding check_artifact
check_artifact_lem release h = ground arith

both : (b c : Bool) → (b && c) ≡ true → (b ≡ true) × (c ≡ true)
both b c h = ground arith

pub guard_holds : (b : Bool) (e : CatalogError) → throw_if (not b) e ≡ ok tt → b ≡ true
guard_holds b e h = ground arith

passes : (b c : Bool) → (b && c) ≡ true → c ≡ true
passes b c h = ground arith

-- A list of one element that supports what was entered is that alone.
pub supported :
    (test : Json → Bool) (list : Json) (entered : Text)
    → is_single test list ≡ true
    → supports list entered ≡ true
    → list ≡ array (item (text (trim entered)) nil)
unfolding supports includes_text has_text
supported test list entered one h =
    let (x, e, _) = single_value test list one in
    let inside : includes_text (trim entered) (array (item x nil)) ≡ true =
      subst (λ v. includes_text (trim entered) v ≡ true) e
        (passes (not (length (trim entered) == 0)) (includes_text (trim entered) list) h) in
    let y : is_the_text (trim entered) x ≡ true = ground arith in
    e ∙ ap (λ v. array (item v nil)) (the_text_value (trim entered) x y)

-- A file name of the manifest has no directory.
plain_characters : (s : Text) → all_of is_name_character s ≡ true → All (λ c. c ≢ b'/') s
unfolding all_of
plain_characters [] h = tt
plain_characters (c ∷ s) h =
    let (first, rest) = both (is_name_character c) (all_of is_name_character s) h in
    ((λ e. ground arith), plain_characters s rest)

suffix_split : (suffix s stem : Text) → before_suffix suffix s ≡ some stem → s ≡ stem ++ suffix
unfolding before_suffix
suffix_split suffix s stem h =
    let n = length s - length suffix in
    elim (Bool-cases (leb (length suffix) (length s) && same_bytes (drop n s) suffix)) [
      | inl y ↦
          let (_, ends) = both (leb (length suffix) (length s)) (same_bytes (drop n s) suffix) y in
          let found = rw y at h in
          let e : take n s ≡ stem = cc found in
          sym (take-append-drop n s)
          ∙ ap₂ (λ front back. front ++ back) e (same_bytes-eq (drop n s) suffix ends)
      | inr m ↦ let found = rw m at h in cc found
    ]

held :
    (test : Text → Bool) (found : Option Text)
    → holds_of test found ≡ true
    → (x : Text) × (found ≡ some x) × (test x ≡ true)
unfolding holds_of
held test (some x) h = (x, refl, h)
held test none h = cc

pub is_file_name-plain :
    (extension s : Text)
    → All (λ c. c ≢ b'/') extension
    → is_file_name extension s ≡ true
    → All (λ c. c ≢ b'/') s
unfolding is_file_name some_of
is_file_name-plain extension s plain h =
    let (stem, e, named) = held (some_of is_name_character) (before_suffix extension s) h in
    let (_, characters) = both (not (length stem == 0)) (all_of is_name_character stem) named in
    let whole = suffix_split extension s stem e in
    subst (All (λ c. c ≢ b'/')) (sym whole)
      (All-append (λ c. c ≢ b'/') stem extension (plain_characters stem characters) plain)

pub bin_file-plain : (file : Text) → is_bin_file file ≡ true → All (λ c. c ≢ b'/') file
unfolding is_bin_file
bin_file-plain file h = is_file_name-plain (codes ".bin") file (omega arith) h

length-sha256 : (hash : Text) → is_sha256 hash ≡ true → length hash ≡ 64
unfolding is_sha256 exactly_of
length-sha256 hash h = ground arith

-- A descriptor that is accepted for what the user entered is bound to that board alone, and names
-- what can be fetched and checked: its list of profiles holds the entered profile and nothing else,
-- its list of markings the entered marking and nothing else, its file name has no "/" and its hash
-- has 64 digits.
pub validate_release_descriptor_lem :
    (release : Json) (revision marking : Text)
    → validate_release_descriptor release revision marking ≡ ok tt
    → (get release "hardware_revisions" ≡ array (item (text (trim revision)) nil))
      × (get release "pcb_markings" ≡ array (item (text (trim marking)) nil))
      × (file : Text) × (hash : Text) × (get release "file" ≡ text file)
      × All (λ c. c ≢ b'/') file
      × (get release "sha256" ≡ text hash)
      × (length hash ≡ 64)
unfolding validate_release_descriptor validate_release_catalog_descriptor
validate_release_descriptor_lem release revision marking h =
    let (catalog, h1) =
      passed (validate_release_catalog_descriptor release frogalert_github_repository) _ h in
    let (h2, h3) =
      passed
        (throw_if (not (supports (get release "hardware_revisions") revision)) unsupported_revision)
        _ h1 in
    let (_, h4) = passed (check_origin release frogalert_github_repository) _ catalog in
    let (_, h5) = passed (check_version release) _ h4 in
    let (profiles, markings, named, _, hashed, _) = check_artifact_lem release h5 in
    let (file, is_file, plain) = text_value is_bin_file (get release "file") named in
    let (hash, is_hash, digits) = text_value is_sha256 (get release "sha256") hashed in
    (
      supported is_anything (get release "hardware_revisions") revision profiles
          (guard_holds _ _ h2),
      supported is_anything (get release "pcb_markings") marking markings (guard_holds _ _ h3),
      file,
      hash,
      is_file,
      bin_file-plain file plain,
      is_hash,
      length-sha256 hash digits,
    )
