-- ===== src/Prelude/Bytes.antt =====
-- Byte arrays. A `Uint8Array` is the list of its bytes; an element outside it reads as `undefined`,
-- which the bit operations take for 0, and a store keeps the low eight bits.
use frogalert.Prelude.{
  ℕ, zero, suc, ◌+◌, ◌-◌, ◌%◌, ◌<◌, ◌≡◌, refl, ap₂, ap, ◌∙◌, sym, Bool, true, false, ◌&&◌, List, [],
  ◌∷◌, ◌++◌, arith, ◌==◌, length, get_or, set, take, drop, replicate, take-append_exact,
  drop-append_exact, drop-drop, drop_all, length-append, append-nil, min, length-take, length-drop,
}

abbrev pub All {ℓ κ} : {A : Type ℓ} → (A → Type κ) → List A → Type κ
All P [] = Unit
All P (x ∷ xs) = P x × All P xs

abbrev pub IsByte : ℕ → Type 0
IsByte b = b < 256

abbrev pub IsBytes : List ℕ → Type 0
IsBytes bs = All IsByte bs

-- `new Uint8Array(n)`.
abbrev pub zeros : ℕ → List ℕ
zeros n = replicate n 0

-- `array[i] = v`.
abbrev pub store : List ℕ → ℕ → ℕ → List ℕ
store array i v = set array i (v % 256)

-- `target.set(source, offset)`, where the source fits.
abbrev pub blit : List ℕ → ℕ → List ℕ → List ℕ
blit target offset source = take offset target ++ (source ++ drop (offset + length source) target)

-- `array.slice(start, end)` and `array.subarray(start, end)`.
abbrev pub slice : List ℕ → ℕ → ℕ → List ℕ
slice array start end = take (end - start) (drop start array)

-- `array[i]`.
abbrev pub byte_at : List ℕ → ℕ → ℕ
byte_at array i = get_or array i 0

-- `array.every((byte) => byte === value)`.
unfoldable pub every_eq : ℕ → List ℕ → Bool
every_eq value [] = true
every_eq value (b ∷ bs) = b == value && every_eq value bs

-- Element by element equality of arrays of one length.
unfoldable pub same_bytes : List ℕ → List ℕ → Bool
same_bytes [] [] = true
same_bytes (x ∷ xs) (y ∷ ys) = x == y && same_bytes xs ys
same_bytes _ _ = false

pub same_bytes-eq : (xs ys : List ℕ) → same_bytes xs ys ≡ true → xs ≡ ys
unfolding same_bytes
same_bytes-eq [] [] h = refl
same_bytes-eq [] (y ∷ ys) h = cc
same_bytes-eq (x ∷ xs) [] h = cc
same_bytes-eq (x ∷ xs) (y ∷ ys) h = ground (arith, same_bytes-eq xs ys)

pub same_bytes_refl : (xs : List ℕ) → same_bytes xs xs ≡ true
unfolding same_bytes
same_bytes_refl [] = refl
same_bytes_refl (x ∷ xs) = ground (arith, same_bytes_refl xs)

pub every_eq-replicate : (v : ℕ) (bs : List ℕ) → every_eq v bs ≡ true → bs ≡ replicate (length bs) v
unfolding every_eq
every_eq-replicate v [] h = refl
every_eq-replicate v (b ∷ bs) h = ground (arith, every_eq-replicate v bs)

pub every_eq_of_replicate : (v n : ℕ) → every_eq v (replicate n v) ≡ true
unfolding every_eq
every_eq_of_replicate v zero = refl
every_eq_of_replicate v (suc n) = ground (arith, every_eq_of_replicate v n)

-- Storing over the middle of three parts replaces it.
pub blit-append :
    (n : ℕ) (before old after new : List ℕ)
    → length before ≡ n
    → length old ≡ length new
    → blit (before ++ (old ++ after)) n new ≡ before ++ (new ++ after)
blit-append n before old after new e same =
    ap₂ (λ front back. front ++ (new ++ back)) (take-append_exact n before (old ++ after) e) tail
  where
    tail : drop (n + length new) (before ++ (old ++ after)) ≡ after
    tail =
        sym (drop-drop n (length new) (before ++ (old ++ after)))
        ∙ ap (λ l. drop (length new) l) (drop-append_exact n before (old ++ after) e)
        ∙ drop-append_exact (length new) old after same

pub All-append {ℓ κ} :
    {A : Type ℓ} (P : A → Type κ) (xs ys : List A) → All P xs → All P ys → All P (xs ++ ys)
All-append P [] ys h k = k
All-append P (x ∷ xs) ys h k = (h.0, All-append P xs ys h.1 k)

pub blit_tail :
    (n : ℕ) (before old new : List ℕ)
    → length before ≡ n
    → length old ≡ length new
    → blit (before ++ old) n new ≡ before ++ new
blit_tail n before old new e same =
    ap₂ (λ front back. front ++ (new ++ back)) (take-append_exact n before old e)
      (drop_all (n + length new) (before ++ old) (omega (arith, length-append before old)))
    ∙ ap (λ l. before ++ l) (append-nil new)

pub All-replicate {ℓ κ} :
    {A : Type ℓ} (P : A → Type κ) (n : ℕ) (a : A) → P a → All P (replicate n a)
All-replicate P zero a h = tt
All-replicate P (suc n) a h = (h, All-replicate P n a h)

pub byte_at-drop : (n : ℕ) (bs : List ℕ) (j : ℕ) → byte_at (drop n bs) j ≡ byte_at bs (n + j)
byte_at-drop zero bs j = let e : j ≡ 0 + j = omega arith in ap (λ k. byte_at bs k) e
byte_at-drop (suc n) [] j = refl
byte_at-drop (suc n) (b ∷ bs) j =
    let e : suc (n + j) ≡ suc n + j = omega arith in
    byte_at-drop n bs j ∙ ap (λ k. byte_at (b ∷ bs) k) e

pub byte_at-take : (n : ℕ) (bs : List ℕ) (j : ℕ) → j < n → byte_at (take n bs) j ≡ byte_at bs j
byte_at-take zero bs j h = absurd (omega arith)
byte_at-take (suc n) [] j h = refl
byte_at-take (suc n) (b ∷ bs) zero h = refl
byte_at-take (suc n) (b ∷ bs) (suc j) h = byte_at-take n bs j (omega arith)

-- The bytes and the length of a slice.
pub byte_at-slice :
    (bs : List ℕ) (start size j : ℕ)
    → j < size
    → byte_at (slice bs start (start + size)) j ≡ byte_at bs (start + j)
byte_at-slice bs start size j h =
    byte_at-take (start + size - start) (drop start bs) j (omega arith) ∙ byte_at-drop start bs j

pub length-slice :
    (bs : List ℕ) (start size : ℕ)
    → length (slice bs start (start + size)) ≡ min size (length bs - start)
length-slice bs start size =
    omega (arith, length-take (start + size - start) (drop start bs), length-drop start bs)
