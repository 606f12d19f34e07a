-- ===== src/Catalog/PairedLaws.antt =====
-- site/wchisp-protocol.js: which catalogs `validatePairedUsbCReleaseCatalog` accepts.
use frogalert.Prelude.{
  ◌≡◌, ◌⊎◌, ◌↔◌, refl, sym, ap, ◌∙◌, subst, arith, List, [], ◌∷◌, length, ok, Bool-cases, inl, inr,
  bound, passed,
}
use frogalert.Catalog.Release.{validate_release_catalog_descriptor}
use frogalert.Prelude.Text.{Text}
use frogalert.Catalog.Sort.{validate_all, items_of}
use frogalert.Catalog.Groups.{
  of_version, GroupsOf, Exact, add_all, GroupsOf-add_all, NoGroup, version_of,
}
use frogalert.Catalog.Paired.{
  validate_paired_usb_c_release_catalog, group_all, check_groups, has_image, Group, count_of,
  is_image_for, top_image_profile, add_to_groups, top_image_marking, bottom_image_profile,
  bottom_image_marking,
}
use frogalert.Prelude.Json.{Json, Items, array}
use frogalert.Prelude.Bytes.{All, same_bytes, same_bytes-eq}

-- Two releases, one for each board.
unfoldable pub IsPair : List Json → Type 0
IsPair releases =
    (length releases ≡ 2)
    × (count_of (is_image_for top_image_profile top_image_marking) releases ≡ 1)
    × (count_of (is_image_for bottom_image_profile bottom_image_marking) releases ≡ 1)

check_groups_iff :
    (groups : List Group) → (check_groups groups ≡ ok tt) ↔ All (λ g. IsPair g.members) groups
unfolding check_groups has_image IsPair
check_groups_iff [] = (λ h. tt, λ h. refl)
check_groups_iff (g ∷ groups) = let rest = check_groups_iff groups in ground arith

group_all_lem :
    (releases : List Json) (groups : List Group) (repository : Text)
    → validate_all releases repository ≡ ok tt
    → group_all releases groups repository ≡ ok (add_all releases groups)
unfolding group_all validate_all add_all
group_all_lem [] groups repository h = refl
group_all_lem (r ∷ releases) groups repository h =
    let (valid, rest) = passed (validate_release_catalog_descriptor r repository) _ h in
    rw valid (group_all_lem releases (add_to_groups groups (version_of r) r) repository rest)

group_all-valid :
    (releases : List Json) (groups made : List Group) (repository : Text)
    → group_all releases groups repository ≡ ok made
    → validate_all releases repository ≡ ok tt
unfolding group_all validate_all
group_all-valid [] groups made repository h = refl
group_all-valid (r ∷ releases) groups made repository h =
    let (valid, rest) = passed (validate_release_catalog_descriptor r repository) _ h in
    rw valid (group_all-valid releases (add_to_groups groups (version_of r) r) made repository rest)

abbrev all_groups : List Json → List Group
all_groups releases = add_all releases []

groups_of : (releases : List Json) → GroupsOf releases (all_groups releases)
unfolding of_version
groups_of releases =
    GroupsOf-add_all releases [] [] (record { distinct = tt; exact = tt; missing = λ w n. refl })

-- The version of a text has a group or none.
find_group :
    (done : List Json) (groups : List Group) (w : Text)
    → All (Exact done) groups
    → All (λ g. IsPair g.members) groups
    → NoGroup w groups ⊎ IsPair (of_version w done)
find_group done [] w e p = inl tt
find_group done (g ∷ groups) w e p = elim (Bool-cases (same_bytes g.version w)) [
  | inl y ↦ inr (
      subst (λ v. IsPair (of_version v done)) (same_bytes-eq g.version w y)
        (subst IsPair e.0.0 p.0))
  | inr n ↦ elim (find_group done groups w e.1 p.1) [
    | inl none_there ↦ inl (n, none_there)
    | inr pair ↦ inr pair
  ]
]

pairs_from :
    (done : List Json) (groups : List Group)
    → All (Exact done) groups
    → ((w : Text) → (of_version w done ≡ []) ⊎ IsPair (of_version w done))
    → All (λ g. IsPair g.members) groups
pairs_from done [] e h = tt
pairs_from done (g ∷ groups) e h = (
  elim (h g.version) [
    | inl none_there ↦
        let nothing : g.members ≡ [] = e.0.0 ∙ none_there in
        absurd (omega (arith, ap length nothing))
    | inr pair ↦ subst IsPair (sym e.0.0) pair
  ],
  pairs_from done groups e.1 h,
)

-- A catalog is accepted exactly if all its descriptors are valid and, for every version, it has no
-- release of that version or two of them, one with the profile and the marking of the top board and
-- one with those of the bottom board.
pub validate_paired_usb_c_release_catalog_iff :
    (items : Items) (repository : Text)
    → (validate_paired_usb_c_release_catalog (array items) repository ≡ ok tt) ↔ (
        (validate_all (items_of items) repository ≡ ok tt)
        × ((version : Text)
            → (of_version version (items_of items) ≡ [])
              ⊎ IsPair (of_version version (items_of items))))
unfolding validate_paired_usb_c_release_catalog
validate_paired_usb_c_release_catalog_iff items repository = (
  λ h.
      let (groups, made, checked) =
        bound (group_all (items_of items) [] repository) check_groups h in
      let valid = group_all-valid (items_of items) [] groups repository made in
      let whole : groups ≡ all_groups (items_of items) =
        cc (made, group_all_lem (items_of items) [] repository valid) in
      let g = groups_of (items_of items) in
      let pairs =
        (check_groups_iff (all_groups (items_of items))).0
          (ap check_groups (sym whole) ∙ checked) in
      (
        valid,
        λ w. elim (find_group (items_of items) (all_groups (items_of items)) w g.exact pairs) [
          | inl none_there ↦ inl (g.missing w none_there)
          | inr pair ↦ inr pair
        ],
      ),
  λ r.
      let g = groups_of (items_of items) in
      let pairs = pairs_from (items_of items) (all_groups (items_of items)) g.exact r.1 in
      rw (group_all_lem (items_of items) [] repository r.0)
        ((check_groups_iff (all_groups (items_of items))).1 pairs),
)
