-- ===== src/Prelude/Bits.antt =====
-- The bit operations of JavaScript's 32-bit integers, as arithmetic. The native operations stand
-- for a recursion on binary digits; one equation for the lowest digit gives the laws at every width.
use Prim.Native.Nat.{digits, bitwise, differ, bit_and-bitwise, bit_or-bitwise, bit_xor-bitwise}
use native.Mathlib.Nat.{pow-suc, one-le-pow, div-add-mod, div-div-eq-div-mul}
use frogalert.Prelude.{
  ℕ, zero, suc, ◌+◌, ◌-◌, ◌*◌, ◌/◌, ◌%◌, ◌^◌, ◌≤◌, ◌<◌, min, max, bit_and, bit_or, bit_xor, ◌≡◌,
  refl, ap, arith, ◌∙◌,
}

module _ (last : ℕ → ℕ) (f : ℕ → ℕ → ℕ) where
  -- One more digit than the number has changes nothing.
  one_digit_more : (m a b : ℕ) → a ≤ m → digits last f (suc m) a b ≡ digits last f m a b
  one_digit_more m zero b fits = elim m as (λ k. last b ≡ digits last f k zero b) [
    | zero ↦ refl
    | suc k ↦ refl
  ]
  one_digit_more zero (suc a) b fits = absurd (omega arith)
  one_digit_more (suc m) (suc a) b fits =
      ap (λ rest. rest * 2 + f (suc a % 2) (b % 2))
        (one_digit_more m (suc a / 2) (b / 2) (omega arith))

  digits_more : (k m n a b : ℕ) → a ≤ m → n ≡ m + k → digits last f n a b ≡ digits last f m a b
  digits_more zero m n a b fits e =
      let same : n ≡ m = omega arith in ap (λ count. digits last f count a b) same
  digits_more (suc k) m n a b fits e =
      let next : n ≡ suc (m + k) = omega arith in
      ap (λ count. digits last f count a b) next
      ∙ one_digit_more (m + k) a b (omega arith)
      ∙ digits_more k m (m + k) a b fits refl

  lowest_digit :
      (a b : ℕ)
      → bitwise last f (suc a) b ≡ f (suc a % 2) (b % 2) + 2 * bitwise last f (suc a / 2) (b / 2)
  lowest_digit a b = omega (
    arith,
    digits_more (a - suc a / 2) (suc a / 2) a (suc a / 2) (b / 2) (omega arith) (omega arith),
  )

bit_and_step : (a b : ℕ) → bit_and a b ≡ min (a % 2) (b % 2) + 2 * bit_and (a / 2) (b / 2)
bit_and_step (suc a) b = simp bit_and-bitwise (lowest_digit (λ y. 0) min a b)
bit_and_step zero b = simp bit_and-bitwise (omega arith)

bit_or_step : (a b : ℕ) → bit_or a b ≡ max (a % 2) (b % 2) + 2 * bit_or (a / 2) (b / 2)
bit_or_step (suc a) b = simp bit_or-bitwise (lowest_digit (λ y. y) max a b)
bit_or_step zero b = simp bit_or-bitwise (omega arith)

bit_xor_step : (a b : ℕ) → bit_xor a b ≡ differ (a % 2) (b % 2) + 2 * bit_xor (a / 2) (b / 2)
bit_xor_step (suc a) b = simp bit_xor-bitwise (lowest_digit (λ y. y) differ a b)
bit_xor_step zero b = simp bit_xor-bitwise (omega arith)

differ-lt : (x y : ℕ) → x < 2 → y < 2 → differ x y < 2
differ-lt zero y p q = q
differ-lt (suc x) zero p q = p
differ-lt (suc x) (suc y) p q = differ-lt x y (omega arith) (omega arith)

differ_twice : (x y : ℕ) → x < 2 → y < 2 → differ (differ x y) y ≡ x
differ_twice zero zero p q = refl
differ_twice zero (suc zero) p q = refl
differ_twice zero (suc (suc y)) p q = absurd (omega arith)
differ_twice (suc zero) zero p q = refl
differ_twice (suc zero) (suc zero) p q = refl
differ_twice (suc zero) (suc (suc y)) p q = absurd (omega arith)
differ_twice (suc (suc x)) y p q = absurd (omega arith)

xor_cancel_below : (n a b : ℕ) → a ≤ n → b ≤ n → bit_xor (bit_xor a b) b ≡ a
xor_cancel_below zero zero zero p q = refl
xor_cancel_below zero zero (suc b) p q = absurd (omega arith)
xor_cancel_below zero (suc a) b p q = absurd (omega arith)
xor_cancel_below (suc n) a b p q =
    let low = differ (a % 2) (b % 2) in
    let small : low < 2 = differ-lt (a % 2) (b % 2) (omega arith) (omega arith) in
    let half : bit_xor a b / 2 ≡ bit_xor (a / 2) (b / 2) = omega (arith, bit_xor_step a b) in
    let odd : bit_xor a b % 2 ≡ low = omega (arith, bit_xor_step a b) in
    ground (
      arith,
      bit_xor_step (bit_xor a b) b,
      half,
      odd,
      xor_cancel_below n (a / 2) (b / 2) (omega arith) (omega arith),
      differ_twice (a % 2) (b % 2) (omega arith) (omega arith),
    )

-- Exclusive or with the same operand twice gives the value back.
pub bit_xor_cancel : (a b : ℕ) → bit_xor (bit_xor a b) b ≡ a
bit_xor_cancel a b = xor_cancel_below (a + b) a b (omega arith) (omega arith)

pub bit_xor-lt : (k a b : ℕ) → a < 2 ^ k → b < 2 ^ k → bit_xor a b < 2 ^ k
bit_xor-lt zero zero zero p q = omega arith
bit_xor-lt zero zero (suc b) p q = absurd (omega arith)
bit_xor-lt zero (suc a) b p q = absurd (omega arith)
bit_xor-lt (suc k) a b p q = omega (
  arith,
  pow-suc 2 k,
  bit_xor_step a b,
  differ-lt (a % 2) (b % 2) (omega arith) (omega arith),
  bit_xor-lt k (a / 2) (b / 2) (omega (arith, pow-suc 2 k)) (omega (arith, pow-suc 2 k)),
)

zero-bit_or : (b : ℕ) → bit_or 0 b ≡ b
zero-bit_or b = simp bit_or-bitwise

mul-pow-suc : (q k : ℕ) → q * 2 ^ suc k ≡ 2 * (q * 2 ^ k)
mul-pow-suc q k = omega (arith, ap (λ (t : ℕ). q * t) (pow-suc 2 k))

-- `r | (q << k)` is a sum when `r` fits in `k` bits.
pub bit_or_shifted : (k r q : ℕ) → r < 2 ^ k → bit_or r (q * 2 ^ k) ≡ r + q * 2 ^ k
bit_or_shifted zero r q p =
    let e : r ≡ 0 = omega arith in rw e (omega (arith, zero-bit_or (q * 2 ^ 0)))
bit_or_shifted (suc k) r q p = ground (
  arith,
  bit_or_step r (q * 2 ^ suc k),
  mul-pow-suc q k,
  bit_or_shifted k (r / 2) q (omega (arith, pow-suc 2 k)),
)

bit_and-zero : (n a : ℕ) → a ≤ n → bit_and a 0 ≡ 0
bit_and-zero zero (suc a) h = absurd (omega arith)
bit_and-zero n zero h = simp bit_and-bitwise
bit_and-zero (suc n) (suc a) h =
    omega (arith, bit_and_step (suc a) 0, bit_and-zero n (suc a / 2) (omega arith))

mod_double : (a n : ℕ) → a % (2 * n) ≡ a / 2 % n * 2 + a % 2
mod_double a n = omega (
  arith,
  div-add-mod a (2 * n),
  div-add-mod (a / 2) n,
  ap (λ (t : ℕ). n * t) (div-div-eq-div-mul a 2 n),
)

-- `a & (2 ^ k - 1)` is the remainder by `2 ^ k`.
pub bit_and_mask : (k a : ℕ) → bit_and a (2 ^ k - 1) ≡ a % 2 ^ k
bit_and_mask zero a = omega (arith, bit_and-zero a a (omega arith))
bit_and_mask (suc k) a =
    let half : (2 ^ suc k - 1) / 2 ≡ 2 ^ k - 1 = omega (arith, pow-suc 2 k, one-le-pow k 2) in
    let odd : (2 ^ suc k - 1) % 2 ≡ 1 = omega (arith, pow-suc 2 k, one-le-pow k 2) in
    ground (
      arith,
      bit_and_step a (2 ^ suc k - 1),
      half,
      odd,
      bit_and_mask k (a / 2),
      pow-suc 2 k,
      mod_double a (2 ^ k),
    )
