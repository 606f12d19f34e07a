-- ===== src/Catalog/ParsedOrder.antt =====
-- site/wchisp-protocol.js: the comparison of whole release versions.
use frogalert.Prelude.{◌≡◌, refl, List, [], ◌∷◌}
use frogalert.Catalog.VersionOrder.{
  compare_numeric_strings-IsOrder, prereleases_self, prereleases_trans, prereleases_swap,
  prereleases_equal,
}
use frogalert.Prelude.Comparison.{less, same, opposite}
use frogalert.Catalog.Versions.{compare_parsed, compare_tails, Parsed, compare_numeric_strings}
use frogalert.Prelude.Orders.{
  IsOrder, order-Composes, then_by-same, then_by-opposite, then_by_same, then_by-Composes,
}
use frogalert.Prelude.Text.{Text}

tails_swap : (s t : List Text) → compare_tails s t ≡ opposite (compare_tails t s)
unfolding compare_tails opposite
tails_swap [] [] = refl
tails_swap [] (d ∷ t) = refl
tails_swap (c ∷ s) [] = refl
tails_swap (c ∷ s) (d ∷ t) = prereleases_swap (c ∷ s) (d ∷ t)

tails_equal : (s t : List Text) → compare_tails s t ≡ same → s ≡ t
unfolding compare_tails
tails_equal [] [] h = refl
tails_equal [] (d ∷ t) h = cc
tails_equal (c ∷ s) [] h = cc
tails_equal (c ∷ s) (d ∷ t) h = prereleases_equal (c ∷ s) (d ∷ t) h

tails_self : (s : List Text) → compare_tails s s ≡ same
unfolding compare_tails
tails_self [] = refl
tails_self (c ∷ s) = prereleases_self (c ∷ s)

tails_trans :
    (s t u : List Text)
    → compare_tails s t ≡ less
    → compare_tails t u ≡ less
    → compare_tails s u ≡ less
unfolding compare_tails
tails_trans [] [] u h k = cc
tails_trans [] (d ∷ t) u h k = cc
tails_trans (c ∷ s) t [] h k = refl
tails_trans (c ∷ s) [] (e ∷ u) h k = cc
tails_trans (c ∷ s) (d ∷ t) (e ∷ u) h k = prereleases_trans (c ∷ s) (d ∷ t) (e ∷ u) h k

compare_tails-IsOrder : IsOrder compare_tails
compare_tails-IsOrder = record {
  swap = tails_swap;
  equal = tails_equal;
  self = tails_self;
  trans = tails_trans;
}

parsed_swap : (a b : Parsed) → compare_parsed a b ≡ opposite (compare_parsed b a)
unfolding compare_parsed
parsed_swap a b =
    let number = compare_numeric_strings-IsOrder in
    then_by-opposite _ _ _ _ (number.swap a.major b.major) (
      then_by-opposite _ _ _ _ (number.swap a.minor b.minor) (
        then_by-opposite _ _ _ _ (number.swap a.patch b.patch)
          (tails_swap a.prerelease b.prerelease)))

parsed_equal : (a b : Parsed) → compare_parsed a b ≡ same → a ≡ b
unfolding compare_parsed
parsed_equal a b h =
    let (e0, h0) = then_by-same (compare_numeric_strings a.major b.major) _ h in
    let (e1, h1) = then_by-same (compare_numeric_strings a.minor b.minor) _ h0 in
    let (e2, h2) = then_by-same (compare_numeric_strings a.patch b.patch) _ h1 in
    let number = compare_numeric_strings-IsOrder in
    let f0 = number.equal a.major b.major e0 in
    let f1 = number.equal a.minor b.minor e1 in
    let f2 = number.equal a.patch b.patch e2 in
    let f3 = tails_equal a.prerelease b.prerelease h2 in cc (f0, f1, f2, f3)

parsed_self : (a : Parsed) → compare_parsed a a ≡ same
unfolding compare_parsed
parsed_self a =
    let number = compare_numeric_strings-IsOrder in
    then_by_same (number.self a.major) (
      then_by_same (number.self a.minor)
        (then_by_same (number.self a.patch) (tails_self a.prerelease)))

parsed_trans :
    (a b c : Parsed)
    → compare_parsed a b ≡ less
    → compare_parsed b c ≡ less
    → compare_parsed a c ≡ less
unfolding compare_parsed
parsed_trans a b c =
    let composes = order-Composes compare_numeric_strings-IsOrder in
    then_by-Composes _ _ _ _ _ _ (composes a.major b.major c.major) (
      then_by-Composes _ _ _ _ _ _ (composes a.minor b.minor c.minor) (
        then_by-Composes _ _ _ _ _ _ (composes a.patch b.patch c.patch)
          (tails_trans a.prerelease b.prerelease c.prerelease)))

-- The comparison of release versions is a total order of what is read from them: swapping the sides
-- swaps the result, it is 0 for equal cores and prereleases only, and it is transitive.
pub compare_parsed-IsOrder : IsOrder compare_parsed
compare_parsed-IsOrder = record {
  swap = parsed_swap;
  equal = parsed_equal;
  self = parsed_self;
  trans = parsed_trans;
}
