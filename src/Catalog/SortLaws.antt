-- ===== src/Catalog/SortLaws.antt =====
-- site/wchisp-protocol.js: what `sortReleaseCatalogNewestFirst` returns.
use frogalert.Prelude.{
  ◌≡◌, refl, sym, ap, ◌∙◌, subst, arith, List, [], ◌∷◌, ok, Bool-cases, inl, inr, false, true,
  passed, bound, throw_if, Option, not, ◌⊎◌, ◌≢◌,
}
use mathlib.Core.Option.{none, some}
use frogalert.Catalog.VersionOrder.{compare_ascii-IsOrder}
use frogalert.Catalog.ParsedOrder.{compare_parsed-IsOrder}
use frogalert.Catalog.{bad_version}
use frogalert.Catalog.Release.{
  text_of, validate_release_catalog_descriptor, check_version, check_origin, check_artifact,
}
use frogalert.Prelude.Orders.{
  Composes, IsOrder, order-Composes, by_both, flip, by_both-IsOrder, flip-IsOrder,
}
use frogalert.Prelude.Comparison.{Comparison, opposite, then_by, less, greater, same}
use frogalert.Prelude.Text.{Text}
use frogalert.Catalog.Versions.{
  Parsed, compare_release_versions, parse_or_throw, compare_parsed, compare_ascii, is_version,
  parse_version,
}
use frogalert.Catalog.Sort.{
  is_after, compare_releases, insert_release, validate_all, sort_release_catalog_newest_first,
  sort_releases, items_of,
}
use frogalert.Prelude.Json.{
  undefined, null, boolean, number, other_number, text, array, object, Json, get, is_text, Items,
}
use frogalert.Prelude.Bytes.{All}
use mathlib.Core.List.{Perm}
use mathlib.Core.List.Perm

-- A release whose version can be read.
abbrev pub Keyed : Json → Type 0
Keyed release = (p : Parsed) × (parse_or_throw (text_of (get release "version")) ≡ ok p)

-- The comparison does not place the first after the second.
abbrev NotAfter : Json → Json → Type 0
NotAfter x y = (c : Comparison) × (compare_releases x y ≡ ok c) × (is_after c ≡ false)

abbrev Placed : List Json → Type 0
Placed [] = Unit
Placed (x ∷ xs) = All (NotAfter x) xs × Placed xs

abbrev id_of : Json → Text
id_of release = text_of (get release "id")

abbrev order_of : Parsed → Text → Parsed → Text → Comparison
order_of p i q j = then_by (compare_parsed q p) (compare_ascii i j)

compare-Keyed :
    (x y : Json) (k : Keyed x) (l : Keyed y)
    → compare_releases x y ≡ ok (order_of k.0 (id_of x) l.0 (id_of y))
unfolding compare_releases compare_release_versions
compare-Keyed x y k l = rw (k.1) (rw (l.1) refl)

catalog-IsOrder : IsOrder (by_both (flip compare_parsed) compare_ascii)
catalog-IsOrder = by_both-IsOrder (flip-IsOrder compare_parsed-IsOrder) compare_ascii-IsOrder

-- What is not after a second and a third that follow one another.
not_after_Composes :
    (x y z : Comparison)
    → Composes x y z
    → is_after x ≡ false
    → is_after y ≡ false
    → is_after z ≡ false
unfolding is_after
not_after_Composes x y z h e f = ground arith

NotAfter-trans :
    (x y z : Json) → Keyed x → Keyed y → Keyed z → NotAfter x y → NotAfter y z → NotAfter x z
NotAfter-trans x y z k l m (c, e, f) (d, g, h) =
    let first : c ≡ order_of k.0 (id_of x) l.0 (id_of y) = ground (arith, compare-Keyed x y k l) in
    let second : d ≡ order_of l.0 (id_of y) m.0 (id_of z) = ground (arith, compare-Keyed y z l m) in
    (
      order_of k.0 (id_of x) m.0 (id_of z),
      compare-Keyed x z k m,
      not_after_Composes _ _ _
          (order-Composes catalog-IsOrder (k.0, id_of x) (l.0, id_of y) (m.0, id_of z))
          (subst (λ o. is_after o ≡ false) first f) (subst (λ o. is_after o ≡ false) second h),
    )

after_swap :
    (x y : Json)
    → Keyed x
    → Keyed y
    → (c : Comparison) → compare_releases x y ≡ ok c
    → is_after c ≡ true
    → NotAfter y x
unfolding is_after opposite
after_swap x y k l c e h =
    let first : c ≡ order_of k.0 (id_of x) l.0 (id_of y) = ground (arith, compare-Keyed x y k l) in
    let back : order_of l.0 (id_of y) k.0 (id_of x) ≡ opposite c =
      catalog-IsOrder.swap (l.0, id_of y) (k.0, id_of x) ∙ ap opposite (sym first) in
    (opposite c, compare-Keyed y x l k ∙ ap ok back, ground arith)

-- What insertion keeps of all elements.
insert_release-All :
    (P : Json → Type 0) (x : Json) (ys zs : List Json)
    → insert_release x ys ≡ ok zs
    → P x
    → All P ys
    → All P zs
unfolding insert_release
insert_release-All P x [] zs h px pys = let e : x ∷ [] ≡ zs = cc h in subst (All P) e (px, tt)
insert_release-All P x (y ∷ ys) zs h px pys =
    let (c, _, h1) = bound (compare_releases x y) _ h in
    elim (Bool-cases (is_after c)) [
      | inl after ↦
          let (ws, made, h2) =
            bound (insert_release x ys) (λ placed. ok (y ∷ placed)) (rw after at h1) in
          let e : y ∷ ws ≡ zs = cc h2 in
          subst (All P) e (pys.0, insert_release-All P x ys ws made px pys.1)
      | inr before ↦
          let whole = rw before at h1 in
          let e : x ∷ y ∷ ys ≡ zs = cc whole in subst (All P) e (px, pys)
    ]

All-NotAfter :
    (x y : Json) (ys : List Json)
    → Keyed x
    → Keyed y
    → All Keyed ys
    → NotAfter x y
    → All (NotAfter y) ys
    → All (NotAfter x) ys
All-NotAfter x y [] k l ks h o = tt
All-NotAfter x y (z ∷ ys) k l ks h o =
    (NotAfter-trans x y z k l ks.0 h o.0, All-NotAfter x y ys k l ks.1 h o.1)

-- Insertion succeeds, moves nothing else, and keeps the order.
insert_release-Placed :
    (x : Json) (ys : List Json)
    → Keyed x
    → All Keyed ys
    → Placed ys
    → (zs : List Json) × (insert_release x ys ≡ ok zs) × Perm zs (x ∷ ys) × Placed zs
unfolding insert_release
insert_release-Placed x [] k ks o = (x ∷ [], refl, Perm.refl _, (tt, tt))
insert_release-Placed x (y ∷ ys) k ks o =
    let (zs, made, perm, ordered) = insert_release-Placed x ys k ks.1 o.1 in
    let c = order_of k.0 (id_of x) ks.0.0 (id_of y) in
    let compared = compare-Keyed x y k ks.0 in
    elim (Bool-cases (is_after c)) [
      | inl after ↦ (
        y ∷ zs,
        rw compared (rw after (rw made refl)),
        Perm.trans (Perm.cons y perm) (Perm.swap x y ys),
        (
          insert_release-All (NotAfter y) x ys zs made (after_swap x y k ks.0 c compared after) o.0,
          ordered,
        ),
      )
      | inr before ↦ (
        x ∷ y ∷ ys,
        rw compared (rw before refl),
        Perm.refl _,
        (((c, compared, before), All-NotAfter x y ys k ks.0 ks.1 (c, compared, before) o.0), o),
      )
    ]

sort_releases-Placed :
    (xs : List Json)
    → All Keyed xs
    → (zs : List Json) × (sort_releases xs ≡ ok zs) × Perm zs xs × Placed zs × All Keyed zs
unfolding sort_releases
sort_releases-Placed [] ks = ([], refl, Perm.refl _, tt, tt)
sort_releases-Placed (x ∷ xs) ks =
    let (ys, made, perm, ordered, keyed) = sort_releases-Placed xs ks.1 in
    let (zs, placed, moved, kept) = insert_release-Placed x ys ks.0 keyed ordered in
    (
      zs,
      rw made placed,
      Perm.trans moved (Perm.cons x perm),
      kept,
      insert_release-All Keyed x ys zs placed ks.0 keyed,
    )

opened :
    (s : Text) (o : Option Parsed)
    → parse_version s ≡ o
    → is_version s ≡ true
    → (p : Parsed) × (parse_or_throw s ≡ ok p)
unfolding is_version parse_or_throw
opened s none e h = let none_read = rw (e, is_version) at h in cc none_read
opened s (some p) e h = (p, rw (e, parse_or_throw) refl)

readable :
    (value : Json)
    → is_text is_version value ≡ true
    → (p : Parsed) × (parse_or_throw (text_of value) ≡ ok p)
unfolding is_text text_of
readable (text s) h = opened s (parse_version s) refl h
readable undefined h = cc
readable null h = cc
readable (boolean b) h = cc
readable (number n) h = cc
readable (other_number s) h = cc
readable (array items) h = cc
readable (object fields) h = cc

validated-Keyed :
    (release : Json) (repository : Text)
    → validate_release_catalog_descriptor release repository ≡ ok tt
    → Keyed release
unfolding validate_release_catalog_descriptor check_version
validated-Keyed release repository h =
    let (_, h1) = passed (check_origin release repository) _ h in
    let (h2, _) = passed (check_version release) (check_artifact release) h1 in
    let (h3, _) =
      passed (throw_if (not (is_text is_version (get release "version"))) bad_version) _ h2 in
    let version : is_text is_version (get release "version") ≡ true = ground arith in
    readable (get release "version") version

validate_all-Keyed :
    (xs : List Json) (repository : Text) → validate_all xs repository ≡ ok tt → All Keyed xs
unfolding validate_all
validate_all-Keyed [] repository h = tt
validate_all-Keyed (x ∷ xs) repository h =
    let (h0, h1) = passed (validate_release_catalog_descriptor x repository) _ h in
    (validated-Keyed x repository h0, validate_all-Keyed xs repository h1)

-- The first is listed before the second rightly: both versions can be read, and the version of the
-- first is the newer one, or it is the same and the id of the first is not the larger one.
abbrev pub NewerFirst : Json → Json → Type 0
NewerFirst x y =
    (p : Parsed) × (q : Parsed) × (parse_or_throw (text_of (get x "version")) ≡ ok p)
    × (parse_or_throw (text_of (get y "version")) ≡ ok q)
    × ((compare_parsed p q ≡ greater)
        ⊎ ((p ≡ q) × (compare_ascii (text_of (get x "id")) (text_of (get y "id")) ≢ greater)))

abbrev pub Ordered : List Json → Type 0
Ordered [] = Unit
Ordered (x ∷ xs) = All (NewerFirst x) xs × Ordered xs

ordered_parts :
    (c d : Comparison) → is_after (then_by c d) ≡ false → (c ≡ less) ⊎ ((c ≡ same) × (d ≢ greater))
unfolding is_after then_by
ordered_parts less d h = inl refl
ordered_parts same d h = inr (refl, λ e. ground arith)
ordered_parts greater d h = absurd (ground arith)

newer : (p q : Parsed) → compare_parsed q p ≡ less → compare_parsed p q ≡ greater
unfolding opposite
newer p q h = compare_parsed-IsOrder.swap p q ∙ ap opposite h

NotAfter-NewerFirst : (x y : Json) → Keyed x → Keyed y → NotAfter x y → NewerFirst x y
NotAfter-NewerFirst x y (p, e) (q, f) (c, compared, placed) =
    let whole : c ≡ order_of p (id_of x) q (id_of y) =
      ground (arith, compare-Keyed x y (p, e) (q, f)) in
    (
      p,
      q,
      e,
      f,
      elim (ordered_parts (compare_parsed q p) (compare_ascii (id_of x) (id_of y))
          (subst (λ o. is_after o ≡ false) whole placed)) [
            | inl below ↦ inl (newer p q below)
            | inr (equal, ids) ↦ inr (sym (compare_parsed-IsOrder.equal q p equal), ids)
          ],
    )

All-NewerFirst :
    (x : Json) (ys : List Json)
    → Keyed x
    → All Keyed ys
    → All (NotAfter x) ys
    → All (NewerFirst x) ys
All-NewerFirst x [] k ks o = tt
All-NewerFirst x (y ∷ ys) k ks o =
    (NotAfter-NewerFirst x y k ks.0 o.0, All-NewerFirst x ys k ks.1 o.1)

Placed-Ordered : (xs : List Json) → All Keyed xs → Placed xs → Ordered xs
Placed-Ordered [] ks o = tt
Placed-Ordered (x ∷ xs) ks o = (All-NewerFirst x xs ks.0 ks.1 o.0, Placed-Ordered xs ks.1 o.1)

-- A catalog whose descriptors are all valid is sorted: the result exists, holds the same descriptors,
-- and of any two descriptors in it the earlier one has the newer version, or they have the same
-- version and the id of the earlier one is not the larger one.
pub sort_release_catalog_newest_first-Ordered :
    (items : Items) (repository : Text)
    → validate_all (items_of items) repository ≡ ok tt
    → (sorted : List Json) × (sort_release_catalog_newest_first (array items) repository
        ≡ ok sorted)
      × Perm sorted (items_of items)
      × Ordered sorted
unfolding sort_release_catalog_newest_first
sort_release_catalog_newest_first-Ordered items repository h =
    let (zs, made, perm, placed, keyed) =
      sort_releases-Placed (items_of items) (validate_all-Keyed (items_of items) repository h) in
    (zs, rw h made, perm, Placed-Ordered zs keyed placed)
