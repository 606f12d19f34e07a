-- ===== src/Catalog/Sort.antt =====
-- site/wchisp-protocol.js, `sortReleaseCatalogNewestFirst`. `Array.prototype.sort` is stable: it is
-- insertion, of the elements from the last one to the first.
use frogalert.Prelude.{
  Bool, true, false, List, [], ◌∷◌, Result, ok, ◌>>=◌, ◌>>◌, if◌then◌else◌, err,
}
use frogalert.Catalog.Versions.{compare_release_versions, compare_ascii}
use frogalert.Catalog.Release.{validate_release_catalog_descriptor, text_of}
use frogalert.Catalog.{CatalogError, catalog_not_array}
use frogalert.Prelude.Comparison.{Comparison, greater, same, less, then_by}
use frogalert.Prelude.Json.{Json, Items, item, array, get}
use frogalert.Prelude.Text.{Text}
use frogalert.Prelude.Json.{nil, item}

-- A catalog of the manifest: the elements of its array.
unfoldable pub items_of : Items → List Json
items_of nil = []
items_of (item value items) = value ∷ items_of items

unfoldable pub validate_all : List Json → Text → Result CatalogError (Unit {0})
validate_all [] github_repository = ok tt
validate_all (release ∷ releases) github_repository = do
  validate_release_catalog_descriptor release github_repository
  validate_all releases github_repository

-- The order of the catalog: the newer version first, and by the id for one version.
unfoldable pub compare_releases : Json → Json → Result CatalogError Comparison
compare_releases left right = do
  version_order ←
      compare_release_versions (text_of (get right "version")) (text_of (get left "version"))
  ok (then_by version_order (compare_ascii (text_of (get left "id")) (text_of (get right "id"))))

unfoldable pub is_after : Comparison → Bool
is_after greater = true
is_after same = false
is_after less = false

-- Before the first element that is not before it.
unfoldable pub insert_release : Json → List Json → Result CatalogError (List Json)
insert_release release [] = ok (release ∷ [])
insert_release release (next ∷ sorted) =
    let rest = insert_release release sorted in
    compare_releases release next >>= λ order.
    if is_after order then (rest >>= λ placed. ok (next ∷ placed)) else ok (release ∷ next ∷ sorted)

unfoldable pub sort_releases : List Json → Result CatalogError (List Json)
sort_releases [] = ok []
sort_releases (release ∷ releases) = do
  sorted ← sort_releases releases
  insert_release release sorted

unfoldable pub sort_release_catalog_newest_first : Json → Text → Result CatalogError (List Json)
sort_release_catalog_newest_first (array items) github_repository = do
  validate_all (items_of items) github_repository
  sort_releases (items_of items)
sort_release_catalog_newest_first other github_repository = err catalog_not_array
