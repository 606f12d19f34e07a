-- ===== src/Support/Alternates.antt =====
-- site/flash-support.js: the alternate of an interface that the page looks at.
use frogalert.Prelude.{
  ℕ, ◌≡◌, ◌≢◌, ◌⊎◌, ◌∙◌, refl, ap, inl, inr, true, false, List, [], ◌∷◌, Option, none, some, ◌==◌,
  arith, if_cases, subst,
}
use frogalert.Prelude.Bytes.{All}
use mathlib.Core.List.{Memᴰ}
use frogalert.Support.{
  Alternate, UsbInterface, find_alternate, first_alternate, or_first, alternate_of,
}

-- The alternate of an interface: the selected one, or else the one with the setting 0, or else, where
-- none has that setting, the first one.
abbrev pub IsChosen : UsbInterface → Alternate → Type 0
IsChosen i a =
    (i.alternate ≡ some a)
    ⊎ ((i.alternate ≡ none)
        × ((Memᴰ a i.alternates × (a.alternate_setting ≡ 0))
            ⊎ (All (λ (x : Alternate). x.alternate_setting ≢ 0) i.alternates
                × ((rest : List Alternate) × (i.alternates ≡ a ∷ rest)))))

Found : List Alternate → Option Alternate → Type 0
Found alternates none = All (λ (x : Alternate). x.alternate_setting ≢ 0) alternates
Found alternates (some a) = Memᴰ a alternates × (a.alternate_setting ≡ 0)

Found-later :
    (x : Alternate) (alternates : List Alternate) (o : Option Alternate)
    → x.alternate_setting ≢ 0
    → Found alternates o
    → Found (x ∷ alternates) o
unfolding Found
Found-later x alternates none n h = (n, h)
Found-later x alternates (some a) n h = (Memᴰ.tail h.0, h.1)

number_eq : (a b : ℕ) → (a == b) ≡ true → a ≡ b
number_eq a b h = ground arith

number_ne : (a b : ℕ) → (a == b) ≡ false → a ≢ b
number_ne a b h = ground arith

find_alternate-Found : (alternates : List Alternate) → Found alternates (find_alternate alternates)
unfolding Found find_alternate
find_alternate-Found [] = tt
find_alternate-Found (x ∷ alternates) =
    if_cases (λ (o : Option Alternate). Found (x ∷ alternates) o) (x.alternate_setting == 0) _ _
      (λ zero. (Memᴰ.head refl, number_eq x.alternate_setting 0 zero))
      λ other.
        Found-later x alternates (find_alternate alternates) (number_ne x.alternate_setting 0 other)
          (find_alternate-Found alternates)

or_first-IsChosen :
    (i : UsbInterface) (a : Alternate) (o : Option Alternate)
    → i.alternate ≡ none
    → Found i.alternates o
    → or_first o i.alternates ≡ some a
    → IsChosen i a
unfolding Found or_first first_alternate
or_first-IsChosen i a (some c) e h k =
    let same : c ≡ a = cc k in
    inr (e, inl (subst (λ (x : Alternate). Memᴰ x i.alternates × (x.alternate_setting ≡ 0)) same h))
or_first-IsChosen i a none e h k = inr (e, inr (h, first i.alternates k))
  where
    first :
        (alternates : List Alternate)
        → first_alternate alternates ≡ some a
        → (rest : List Alternate) × (alternates ≡ a ∷ rest)
    first [] k = absurd (ground arith)
    first (x ∷ rest) k = let same : x ≡ a = cc k in (rest, ap (λ y. y ∷ rest) same)

pub alternate_of-IsChosen :
    (i : UsbInterface) (a : Alternate)
    → alternate_of i.alternate i.alternates ≡ some a
    → IsChosen i a
unfolding alternate_of
alternate_of-IsChosen i a k = by_selection i.alternate refl k
  where
    by_selection :
        (o : Option Alternate)
        → i.alternate ≡ o
        → alternate_of o i.alternates ≡ some a
        → IsChosen i a
    by_selection none e k =
        or_first-IsChosen i a (find_alternate i.alternates) e (find_alternate-Found i.alternates) k
    by_selection (some c) e k = inl (e ∙ k)
