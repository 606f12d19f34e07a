-- ===== src/Config/Layout.antt =====
-- site/firmware-config.js: the bytes that the stores of one rule leave behind.
use frogalert.Prelude.{
  ℕ, ◌≡◌, ◌+◌, ◌-◌, refl, true, List, [], ◌∷◌, ◌++◌, arith, ◌<◌, ◌≤◌, length, ap, ◌∙◌, set, sym,
  append_assoc, replicate-add, length-replicate, length-append,
}
use frogalert.Prelude.Writes.{set_here, set_after, blit_after}
use frogalert.Config.Rules.{is_known_match_type}
use Prim.Native.Nat.{◌%◌}
use frogalert.Config.Normal.{IsNormal}
use frogalert.Config.Codec.{write_rule}
use frogalert.Prelude.Bytes.{zeros, blit, blit-append}
use frogalert.Config.{Rule, value_size, message_size, rule_size}

pub write_rule_after :
    (n : ℕ) (pre xs : List ℕ) (rule : Rule)
    → length pre ≡ n
    → write_rule (pre ++ xs) n rule ≡ pre ++ write_rule xs 0 rule
unfolding write_rule
write_rule_after n pre xs rule e = rw (set_here n (rule.type % 256) pre xs e) (
    rw (set_after n 1 (length rule.value % 256) pre s0 e) (
      rw (set_after n 2 (length rule.message % 256) pre s1 e) (
        rw (set_after n 3 0 pre s2 e) (
          ap (λ l. blit l (n + 28) rule.message) (blit_after n 4 pre s3 rule.value e)
          ∙ blit_after n 28 pre (blit s3 4 rule.value) rule.message e))))
  where
    s0 : List ℕ
    s0 = set xs 0 (rule.type % 256)

    s1 : List ℕ
    s1 = set s0 1 (length rule.value % 256)

    s2 : List ℕ
    s2 = set s1 2 (length rule.message % 256)

    s3 : List ℕ
    s3 = set s2 3 0

unfoldable pub padded : ℕ → List ℕ → List ℕ
padded n bs = bs ++ zeros (n - length bs)

unfoldable pub rule_bytes : Rule → List ℕ
unfolding padded
rule_bytes r =
    r.type
    ∷ length r.value
    ∷ length r.message
    ∷ 0
    ∷ (padded value_size r.value ++ padded message_size r.message)

padded-split :
    (n : ℕ) (bs : List ℕ) → length bs ≤ n → zeros n ≡ zeros (length bs) ++ zeros (n - length bs)
padded-split n bs h =
    let k : n ≡ length bs + (n - length bs) = omega arith in
    ap zeros k ∙ replicate-add (length bs) (n - length bs) 0

-- A blit into the zeros of a field.
fill_field :
    (n : ℕ) (before post new : List ℕ) (size : ℕ)
    → length before ≡ n
    → length new ≤ size
    → blit (before ++ (zeros size ++ post)) n new ≡ before ++ (padded size new ++ post)
unfolding padded
fill_field n before post new size e h =
    ap (λ z. blit (before ++ (z ++ post)) n new) (padded-split size new h)
    ∙ ap (λ l. blit (before ++ l) n new)
        (append_assoc (zeros (length new)) (zeros (size - length new)) post)
    ∙ blit-append n before (zeros (length new)) (zeros (size - length new) ++ post) new e
        (length-replicate (length new) 0)
    ∙ ap (λ l. before ++ l) (sym (append_assoc new (zeros (size - length new)) post))

pub length-padded : (n : ℕ) (bs : List ℕ) → length bs ≤ n → length (padded n bs) ≡ n
unfolding padded
length-padded n bs h =
    omega
      (arith, length-append bs (zeros (n - length bs)), length-replicate {A = ℕ} (n - length bs) 0)

known_type_lem : (t : ℕ) → is_known_match_type t ≡ true → t < 256
unfolding is_known_match_type
known_type_lem t h = ground arith

pub write_rule_fresh :
    (rule : Rule) (post : List ℕ)
    → IsNormal rule
    → write_rule (zeros rule_size ++ post) 0 rule ≡ rule_bytes rule ++ post
unfolding write_rule rule_bytes IsNormal
write_rule_fresh rule post h =
    ap (λ l. blit l 28 rule.message)
      (fill_field 4 raw (zeros message_size ++ post) rule.value value_size refl h.5
        ∙ sym (append_assoc raw v (zeros message_size ++ post)))
    ∙ fill_field 28 (raw ++ v) post rule.message message_size
        (omega (arith, length-padded value_size rule.value h.5)) h.7
    ∙ append_assoc raw v (m ++ post)
    ∙ ap (λ l. l ++ (v ++ (m ++ post))) raw_lem
    ∙ ap (λ l. head ++ l) (sym (append_assoc v m post))
  where
    raw : List ℕ
    raw = rule.type % 256 ∷ length rule.value % 256 ∷ length rule.message % 256 ∷ 0 ∷ []

    head : List ℕ
    head = rule.type ∷ length rule.value ∷ length rule.message ∷ 0 ∷ []

    v : List ℕ
    v = padded value_size rule.value

    m : List ℕ
    m = padded message_size rule.message

    raw_lem : raw ≡ head
    raw_lem =
        let e0 : rule.type % 256 ≡ rule.type = omega (arith, known_type_lem rule.type h.0) in
        let e1 : length rule.value % 256 ≡ length rule.value = omega arith in
        let e2 : length rule.message % 256 ≡ length rule.message = omega arith in cc
