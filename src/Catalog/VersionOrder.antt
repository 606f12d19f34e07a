-- ===== src/Catalog/VersionOrder.antt =====
-- site/wchisp-protocol.js: the comparison of release versions is a total order of what is read from
-- them.
use frogalert.Prelude.{
  ◌≡◌, refl, sym, ap, ap₂, ◌∙◌, arith, List, [], ◌∷◌, length, Bool-cases, inl, inr,
}
use frogalert.Prelude.Bytes.{same_bytes, same_bytes-eq, same_bytes_refl}
use frogalert.Prelude.Comparison.{same, less, opposite, then_by, Comparison, greater}
use frogalert.Prelude.Orders.{
  IsOrder, then_by-opposite, then_by-same, then_by-Composes, order-Composes, then_by_same,
}
use frogalert.Catalog.Versions.{
  compare_numeric_strings, compare_ascii, compare_number, compare_parts, compare_prereleases,
}
use frogalert.Prelude.Text.{Text}

compare_number-IsOrder : IsOrder compare_number
unfolding compare_number opposite
compare_number-IsOrder = record {
  swap = λ a b. ground arith;
  equal = λ a b h. ground arith;
  self = λ a. ground arith;
  trans = λ a b c h k. ground arith;
}

-- Lists, element by element, where a shorter list comes before those that continue it.
ascii_swap : (s t : Text) → compare_ascii s t ≡ opposite (compare_ascii t s)
unfolding compare_ascii opposite
ascii_swap [] [] = refl
ascii_swap [] (d ∷ t) = refl
ascii_swap (c ∷ s) [] = refl
ascii_swap (c ∷ s) (d ∷ t) =
    then_by-opposite (compare_number c d) (compare_number d c) _ _ (compare_number-IsOrder.swap c d)
      (ascii_swap s t)

ascii_equal : (s t : Text) → compare_ascii s t ≡ same → s ≡ t
unfolding compare_ascii
ascii_equal [] [] h = refl
ascii_equal [] (d ∷ t) h = cc
ascii_equal (c ∷ s) [] h = cc
ascii_equal (c ∷ s) (d ∷ t) h =
    let (e, f) = then_by-same (compare_number c d) _ h in
    ap₂ (λ x xs. x ∷ xs) (compare_number-IsOrder.equal c d e) (ascii_equal s t f)

ascii_self : (s : Text) → compare_ascii s s ≡ same
unfolding compare_ascii then_by
ascii_self [] = refl
ascii_self (c ∷ s) = rw (compare_number-IsOrder.self c) (ascii_self s)

ascii_trans :
    (s t u : Text) → compare_ascii s t ≡ less → compare_ascii t u ≡ less → compare_ascii s u ≡ less
unfolding compare_ascii
ascii_trans [] [] [] h k = cc
ascii_trans [] (d ∷ t) [] h k = cc
ascii_trans [] t (e ∷ u) h k = refl
ascii_trans (c ∷ s) [] u h k = cc
ascii_trans (c ∷ s) (d ∷ t) [] h k = cc
ascii_trans (c ∷ s) (d ∷ t) (e ∷ u) h k =
    then_by-Composes (compare_number c d) (compare_number d e) (compare_number c e) _ _ _
      (order-Composes compare_number-IsOrder c d e) (ascii_trans s t u) h k

pub compare_ascii-IsOrder : IsOrder compare_ascii
compare_ascii-IsOrder = record {
  swap = ascii_swap;
  equal = ascii_equal;
  self = ascii_self;
  trans = ascii_trans;
}

-- By the length, then by the characters.
numeric_lem :
    (s t : Text)
    → compare_numeric_strings s t
      ≡ then_by (compare_number (length s) (length t)) (compare_ascii s t)
unfolding compare_numeric_strings compare_number then_by
numeric_lem s t = ground arith

pub compare_numeric_strings-IsOrder : IsOrder compare_numeric_strings
compare_numeric_strings-IsOrder = record {
  swap = λ s t. rw (numeric_lem s t) (
      rw (numeric_lem t s) (
        then_by-opposite _ _ _ _ (compare_number-IsOrder.swap (length s) (length t))
          (ascii_swap s t)));
  equal = λ s t h.
      ascii_equal s t
        (then_by-same (compare_number (length s) (length t)) (compare_ascii s t)
          (sym (numeric_lem s t) ∙ h)).1;
  self =
      λ s. numeric_lem s s ∙ then_by_same (compare_number-IsOrder.self (length s)) (ascii_self s);
  trans = λ s t u h k.
      numeric_lem s u
      ∙ then_by-Composes _ _ _ _ _ _
          (order-Composes compare_number-IsOrder (length s) (length t) (length u))
          (ascii_trans s t u) (sym (numeric_lem s t) ∙ h) (sym (numeric_lem t u) ∙ k);
}

pub compare_parts-IsOrder : IsOrder compare_parts
unfolding compare_parts opposite
compare_parts-IsOrder = record {
  swap = λ s t. ground (arith, ascii_swap s t, compare_numeric_strings-IsOrder.swap s t);
  equal = λ s t h. ground (arith, ascii_equal s t, compare_numeric_strings-IsOrder.equal s t);
  self = λ s. ground (arith, ascii_self s, compare_numeric_strings-IsOrder.self s);
  trans =
      λ s t u h k. ground (arith, ascii_trans s t u, compare_numeric_strings-IsOrder.trans s t u);
}

different : (c r : Comparison) → (c ≡ same → ⊥) → c ≡ then_by c r
unfolding then_by
different less r h = refl
different same r h = absurd (h refl)
different greater r h = refl

-- The loop over the parts is the comparison of lists by that of parts.
prereleases_cons :
    (l r : Text) (ls rs : List Text)
    → compare_prereleases (l ∷ ls) (r ∷ rs)
      ≡ then_by (compare_parts l r) (compare_prereleases ls rs)
unfolding compare_prereleases
prereleases_cons l r ls rs = elim (Bool-cases (same_bytes l r)) [
  | inl e ↦
      rw e (
        rw (sym (same_bytes-eq l r e)) (rw (compare_parts-IsOrder.self l) (unfold then_by in refl)))
  | inr n ↦ rw n (
      different (compare_parts l r) (compare_prereleases ls rs)
        (λ h. cc (compare_parts-IsOrder.equal l r h, same_bytes_refl l, n)))
]

pub prereleases_swap :
    (s t : List Text) → compare_prereleases s t ≡ opposite (compare_prereleases t s)
unfolding compare_prereleases opposite
prereleases_swap [] [] = refl
prereleases_swap [] (d ∷ t) = refl
prereleases_swap (c ∷ s) [] = refl
prereleases_swap (c ∷ s) (d ∷ t) =
    prereleases_cons c d s t
    ∙ then_by-opposite (compare_parts c d) (compare_parts d c) _ _ (compare_parts-IsOrder.swap c d)
        (prereleases_swap s t)
    ∙ ap opposite (sym (prereleases_cons d c t s))

pub prereleases_equal : (s t : List Text) → compare_prereleases s t ≡ same → s ≡ t
unfolding compare_prereleases
prereleases_equal [] [] h = refl
prereleases_equal [] (d ∷ t) h = cc
prereleases_equal (c ∷ s) [] h = cc
prereleases_equal (c ∷ s) (d ∷ t) h =
    let (e, f) =
      then_by-same (compare_parts c d) (compare_prereleases s t)
        (sym (prereleases_cons c d s t) ∙ h) in
    ap₂ (λ x xs. x ∷ xs) (compare_parts-IsOrder.equal c d e) (prereleases_equal s t f)

pub prereleases_self : (s : List Text) → compare_prereleases s s ≡ same
unfolding compare_prereleases
prereleases_self [] = refl
prereleases_self (c ∷ s) =
    prereleases_cons c c s s ∙ then_by_same (compare_parts-IsOrder.self c) (prereleases_self s)

pub prereleases_trans :
    (s t u : List Text)
    → compare_prereleases s t ≡ less
    → compare_prereleases t u ≡ less
    → compare_prereleases s u ≡ less
unfolding compare_prereleases
prereleases_trans [] [] [] h k = cc
prereleases_trans [] (d ∷ t) [] h k = cc
prereleases_trans [] t (e ∷ u) h k = refl
prereleases_trans (c ∷ s) [] u h k = cc
prereleases_trans (c ∷ s) (d ∷ t) [] h k = cc
prereleases_trans (c ∷ s) (d ∷ t) (e ∷ u) h k =
    prereleases_cons c e s u
    ∙ then_by-Composes (compare_parts c d) (compare_parts d e) (compare_parts c e) _ _ _
        (order-Composes compare_parts-IsOrder c d e) (prereleases_trans s t u)
        (sym (prereleases_cons c d s t) ∙ h) (sym (prereleases_cons d e t u) ∙ k)
