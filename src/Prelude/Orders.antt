-- ===== src/Prelude/Orders.antt =====
-- Comparisons that are total orders, and how they combine.
use frogalert.Prelude.{◌≡◌, refl, sym, ap, arith, ap₂}
use frogalert.Prelude.Comparison.{Comparison, less, same, greater, opposite, then_by}

pub record IsOrder {A : Type 0} (compare : A → A → Comparison) : Type 0 where
  pub swap : (a b : A) → compare a b ≡ opposite (compare b a)
  pub equal : (a b : A) → compare a b ≡ same → a ≡ b
  pub self : (a : A) → compare a a ≡ same
  pub trans : (a b c : A) → compare a b ≡ less → compare b c ≡ less → compare a c ≡ less

pub opposite-opposite : (c : Comparison) → opposite (opposite c) ≡ c
unfolding opposite
opposite-opposite less = refl
opposite-opposite same = refl
opposite-opposite greater = refl

pub then_by-opposite :
    (x y r s : Comparison) → x ≡ opposite y → r ≡ opposite s → then_by x r ≡ opposite (then_by y s)
unfolding then_by opposite
then_by-opposite x y r s e f = ground arith

pub then_by-same : (x r : Comparison) → then_by x r ≡ same → (x ≡ same) × (r ≡ same)
unfolding then_by
then_by-same x r h = ground arith

pub then_by_same : {x r : Comparison} → x ≡ same → r ≡ same → then_by x r ≡ same
unfolding then_by
then_by_same e f = ground arith

-- How the comparisons of three elements hang together.
abbrev pub Composes : Comparison → Comparison → Comparison → Type 0
Composes x y z = (x ≡ less → y ≡ less → z ≡ less) × (x ≡ same → z ≡ y) × (y ≡ same → z ≡ x)

pub then_by-Composes :
    (x y z r s t : Comparison)
    → Composes x y z
    → (r ≡ less → s ≡ less → t ≡ less)
    → then_by x r ≡ less
    → then_by y s ≡ less
    → then_by z t ≡ less
unfolding then_by
then_by-Composes x y z r s t h k e f = ground arith

module _ {A : Type 0} {compare : A → A → Comparison} (o : IsOrder compare) where
  pub order-Composes : (a b c : A) → Composes (compare a b) (compare b c) (compare a c)
  order-Composes a b c = (
    o.trans a b c,
    λ e. ap (λ x. compare x c) (o.equal a b e),
    λ e. ap (λ x. compare a x) (sym (o.equal b c e)),
  )

abbrev pub flip : {A : Type 0} → (A → A → Comparison) → A → A → Comparison
flip compare a b = compare b a

pub flip-IsOrder :
    {A : Type 0} {compare : A → A → Comparison} → IsOrder compare → IsOrder (flip compare)
flip-IsOrder o = record {
  swap = λ a b. o.swap b a;
  equal = λ a b h. sym (o.equal b a h);
  self = o.self;
  trans = λ a b c h k. o.trans c b a k h;
}

-- Pairs, by the first and then by the second.
abbrev pub by_both :
    {A B : Type 0} → (A → A → Comparison) → (B → B → Comparison) → A × B → A × B → Comparison
by_both first second x y = then_by (first x.0 y.0) (second x.1 y.1)

pub by_both-IsOrder :
    {A B : Type 0} {first : A → A → Comparison} {second : B → B → Comparison}
    → IsOrder first
    → IsOrder second
    → IsOrder (by_both first second)
by_both-IsOrder {first} {second} o p = record {
  swap = λ x y. then_by-opposite _ _ _ _ (o.swap x.0 y.0) (p.swap x.1 y.1);
  equal = λ x y h.
      let (e, f) = then_by-same (first x.0 y.0) (second x.1 y.1) h in
      ap₂ (λ a b. (a, b)) (o.equal x.0 y.0 e) (p.equal x.1 y.1 f);
  self = λ x. then_by_same (o.self x.0) (p.self x.1);
  trans =
      λ x y z. then_by-Composes _ _ _ _ _ _ (order-Composes o x.0 y.0 z.0) (p.trans x.1 y.1 z.1);
}
