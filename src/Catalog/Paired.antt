-- ===== src/Catalog/Paired.antt =====
-- site/wchisp-protocol.js, `validatePairedUsbCReleaseCatalog`. The `Map` is the list of its entries in
-- the order of their insertion.
use frogalert.Prelude.{
  ℕ, Bool, not, ◌&&◌, ◌==◌, length, List, [], ◌∷◌, ◌++◌, Result, ok, err, throw_if, ◌>>=◌, ◌>>◌,
  if◌then◌else◌, ◌+◌,
}
use frogalert.Catalog.Sort.{items_of}
use frogalert.Prelude.Bytes.{same_bytes}
use frogalert.Catalog.Release.{validate_release_catalog_descriptor, text_of}
use frogalert.Catalog.{CatalogError, not_a_pair, missing_image, catalog_not_array}
use frogalert.Prelude.Json.{Json, array, is_the_text, first_item, get}
use frogalert.Prelude.Text.{Text, codes}

pub record Group : Type 0 where
  pub version : Text
  pub members : List Json

-- `groups.set(version, [...(groups.get(version) || []), release])`
unfoldable pub add_to_groups : List Group → Text → Json → List Group
add_to_groups [] version release = record { version = version; members = release ∷ [] } ∷ []
add_to_groups (group ∷ groups) version release =
    if same_bytes group.version version
    then record group { members = group.members ++ (release ∷ []) } ∷ groups
    else group ∷ add_to_groups groups version release

unfoldable pub group_all : List Json → List Group → Text → Result CatalogError (List Group)
group_all [] groups github_repository = ok groups
group_all (release ∷ releases) groups github_repository = do
  validate_release_catalog_descriptor release github_repository
  group_all releases (add_to_groups groups (text_of (get release "version")) release)
      github_repository

unfoldable pub is_image_for : Text → Text → Json → Bool
is_image_for profile marking release =
    is_the_text profile (first_item (get release "hardware_revisions"))
    && is_the_text marking (first_item (get release "pcb_markings"))

unfoldable pub count_of : (Json → Bool) → List Json → ℕ
count_of test [] = 0
count_of test (release ∷ releases) =
    let rest = count_of test releases in if test release then rest + 1 else rest

unfoldable pub has_image : Text → List Json → Text → Text → Result CatalogError (Unit {0})
has_image version group profile marking = do
  throw_if (not (count_of (is_image_for profile marking) group == 1))
      (missing_image version marking)

abbrev pub top_image_profile : Text
top_image_profile = codes "B1144C_260404_USB_C"

abbrev pub top_image_marking : Text
top_image_marking = codes "B1144C_260404"

abbrev pub bottom_image_profile : Text
bottom_image_profile = codes "B1144C_250901_USB_C"

abbrev pub bottom_image_marking : Text
bottom_image_marking = codes "B1144C_250901"

unfoldable pub check_groups : List Group → Result CatalogError (Unit {0})
check_groups [] = ok tt
check_groups (group ∷ groups) = do
  throw_if (not (length group.members == 2)) (not_a_pair group.version)
  has_image group.version group.members top_image_profile top_image_marking
  has_image group.version group.members bottom_image_profile bottom_image_marking
  check_groups groups

unfoldable pub validate_paired_usb_c_release_catalog : Json → Text → Result CatalogError (Unit {0})
validate_paired_usb_c_release_catalog (array items) github_repository = do
  groups ← group_all (items_of items) [] github_repository
  check_groups groups
validate_paired_usb_c_release_catalog other github_repository = err catalog_not_array
