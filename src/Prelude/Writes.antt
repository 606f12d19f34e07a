-- ===== src/Prelude/Writes.antt =====
-- Reads and writes of an array behind a part of it that stays.
use frogalert.Prelude.{
  ℕ, zero, suc, ◌+◌, ◌≡◌, sym, ap, ap₂, ◌∙◌, List, [], ◌∷◌, ◌++◌, arith, length, set, take, drop,
  drop-drop, drop-append_exact, append_assoc,
}
use frogalert.Prelude.Bytes.{blit, byte_at, byte_at-drop}

pub set_after :
    (n i v : ℕ) (pre xs : List ℕ) → length pre ≡ n → set (pre ++ xs) (n + i) v ≡ pre ++ set xs i v
set_after zero i v [] xs e = let k : 0 + i ≡ i = omega arith in ap (λ j. set xs j v) k
set_after zero i v (x ∷ pre) xs e = absurd (omega arith)
set_after (suc n) i v [] xs e = absurd (omega arith)
set_after (suc n) i v (x ∷ pre) xs e =
    let k : suc n + i ≡ suc (n + i) = omega arith in
    ap (λ j. set (x ∷ (pre ++ xs)) j v) k ∙ ap (λ l. x ∷ l) (set_after n i v pre xs (omega arith))

pub set_here :
    (n v : ℕ) (pre xs : List ℕ) → length pre ≡ n → set (pre ++ xs) n v ≡ pre ++ set xs 0 v
set_here n v pre xs e =
    let k : n ≡ n + 0 = omega arith in ap (λ j. set (pre ++ xs) j v) k ∙ set_after n 0 v pre xs e

pub take_after :
    (n i : ℕ) (pre xs : List ℕ) → length pre ≡ n → take (n + i) (pre ++ xs) ≡ pre ++ take i xs
take_after zero i [] xs e = let k : 0 + i ≡ i = omega arith in ap (λ j. take j xs) k
take_after zero i (x ∷ pre) xs e = absurd (omega arith)
take_after (suc n) i [] xs e = absurd (omega arith)
take_after (suc n) i (x ∷ pre) xs e =
    let k : suc n + i ≡ suc (n + i) = omega arith in
    ap (λ j. take j (x ∷ (pre ++ xs))) k ∙ ap (λ l. x ∷ l) (take_after n i pre xs (omega arith))

pub drop_after : (n i : ℕ) (pre xs : List ℕ) → length pre ≡ n → drop (n + i) (pre ++ xs) ≡ drop i xs
drop_after n i pre xs e =
    sym (drop-drop n i (pre ++ xs)) ∙ ap (λ l. drop i l) (drop-append_exact n pre xs e)

pub blit_after :
    (n i : ℕ) (pre xs new : List ℕ)
    → length pre ≡ n
    → blit (pre ++ xs) (n + i) new ≡ pre ++ blit xs i new
blit_after n i pre xs new e =
    let k : n + i + length new ≡ n + (i + length new) = omega arith in
    ap₂ (λ front back. front ++ (new ++ back)) (take_after n i pre xs e)
      (ap (λ j. drop j (pre ++ xs)) k ∙ drop_after n (i + length new) pre xs e)
    ∙ append_assoc pre (take i xs) (new ++ drop (i + length new) xs)

pub byte_at_after :
    (n i : ℕ) (pre xs : List ℕ) → length pre ≡ n → byte_at (pre ++ xs) (n + i) ≡ byte_at xs i
byte_at_after n i pre xs e =
    sym (byte_at-drop n (pre ++ xs) i) ∙ ap (λ l. byte_at l i) (drop-append_exact n pre xs e)
