-- ===== src/Config/RoundTrip.antt =====
-- site/firmware-config.js: the entries of a whole block, written and read back.
use frogalert.Prelude.{
  ℕ, zero, suc, ◌≡◌, ◌+◌, ◌-◌, ◌*◌, refl, true, List, [], ◌∷◌, ◌++◌, arith, ok, ◌<◌, ◌≤◌, length,
  ap, ◌∙◌, sym, take, drop, replicate-add, length-append, drop-append_exact, take-append_exact,
  append_assoc, leb,
}
use frogalert.Config.Entries.{parse_entry-rule_bytes}
use mathlib.Core.Bool.{false}
use frogalert.Config.Normal.{IsNormal}
use frogalert.Prelude.Bytes.{zeros, slice, All, every_eq_of_replicate}
use frogalert.Config.{rule_size, Rule, value_size, message_size}
use frogalert.Config.Codec.{parse_entries, write_rules, rule_offset, write_rule, parse_entry}
use frogalert.Config.Layout.{rule_bytes, padded, write_rule_after, write_rule_fresh, length-padded}

unfoldable pub all_rule_bytes : List Rule → List ℕ
all_rule_bytes [] = []
all_rule_bytes (r ∷ rs) = rule_bytes r ++ all_rule_bytes rs

length-rule_bytes : (r : Rule) → IsNormal r → length (rule_bytes r) ≡ rule_size
unfolding rule_bytes IsNormal
length-rule_bytes r h = omega (
  arith,
  length-append (padded value_size r.value) (padded message_size r.message),
  length-padded value_size r.value h.5,
  length-padded message_size r.message h.7,
)

pub length-all_rule_bytes :
    (rs : List Rule) → All IsNormal rs → length (all_rule_bytes rs) ≡ length rs * rule_size
unfolding all_rule_bytes
length-all_rule_bytes [] h = refl
length-all_rule_bytes (r ∷ rs) h = omega (
  arith,
  length-append (rule_bytes r) (all_rule_bytes rs),
  length-rule_bytes r h.0,
  length-all_rule_bytes rs h.1,
)

-- The zeros of one more entry.
zeros_more : (n : ℕ) → zeros (suc n * rule_size) ≡ zeros rule_size ++ zeros (n * rule_size)
zeros_more n =
    let e : suc n * rule_size ≡ rule_size + n * rule_size = omega arith in
    ap zeros e ∙ replicate-add rule_size (n * rule_size) 0

next_offset :
    (pre : List ℕ) (r : Rule) (index : ℕ)
    → length pre ≡ rule_offset index
    → IsNormal r
    → length (pre ++ rule_bytes r) ≡ rule_offset (index + 1)
next_offset pre r index e h = omega (arith, length-append pre (rule_bytes r), length-rule_bytes r h)

pub write_rules_fresh :
    (rs : List Rule) (index : ℕ) (pre post : List ℕ)
    → length pre ≡ rule_offset index
    → All IsNormal rs
    → write_rules (pre ++ (zeros (length rs * rule_size) ++ post)) index rs
      ≡ pre ++ (all_rule_bytes rs ++ post)
unfolding write_rules all_rule_bytes
write_rules_fresh [] index pre post e h = refl
write_rules_fresh (r ∷ rs) index pre post e h =
    ap (λ b. write_rules b (index + 1) rs) first
    ∙ write_rules_fresh rs (index + 1) (pre ++ rule_bytes r) post (next_offset pre r index e h.0)
        h.1
    ∙ append_assoc pre (rule_bytes r) (all_rule_bytes rs ++ post)
    ∙ ap (λ l. pre ++ l) (sym (append_assoc (rule_bytes r) (all_rule_bytes rs) post))
  where
    rest : List ℕ
    rest = zeros (length rs * rule_size) ++ post

    first :
        write_rule (pre ++ (zeros (length (r ∷ rs) * rule_size) ++ post)) (rule_offset index) r
        ≡ (pre ++ rule_bytes r) ++ rest
    first =
        ap (λ z. write_rule (pre ++ (z ++ post)) (rule_offset index) r) (zeros_more (length rs))
        ∙ ap (λ l. write_rule (pre ++ l) (rule_offset index) r)
            (append_assoc (zeros rule_size) (zeros (length rs * rule_size)) post)
        ∙ write_rule_after (rule_offset index) pre (zeros rule_size ++ rest) r e
        ∙ ap (λ l. pre ++ l) (write_rule_fresh r rest h.0)
        ∙ sym (append_assoc pre (rule_bytes r) rest)

-- The entry behind a part of the block.
entry_after :
    (n : ℕ) (pre entry post : List ℕ)
    → length pre ≡ n
    → length entry ≡ rule_size
    → slice (pre ++ (entry ++ post)) n (n + rule_size) ≡ entry
entry_after n pre entry post e k =
    let w : n + rule_size - n ≡ rule_size = omega arith in
    ap (λ j. take j (drop n (pre ++ (entry ++ post)))) w
    ∙ ap (λ l. take rule_size l) (drop-append_exact n pre (entry ++ post) e)
    ∙ take-append_exact rule_size entry post k

count_reached : (m n : ℕ) → m ≤ n → leb m n ≡ true
count_reached m n h = ground arith

count_ahead : (m n : ℕ) → n < m → leb m n ≡ false
count_ahead m n h = ground arith

-- One turn of the loop.
unused_turn :
    (block : List ℕ) (count left index : ℕ)
    → count ≤ index
    → slice block (rule_offset index) (rule_offset index + rule_size) ≡ zeros rule_size
    → parse_entries block count left (index + 1) ≡ ok []
    → parse_entries block count (suc left) index ≡ ok []
unfolding parse_entries
unused_turn block count left index h entry later =
    rw (count_reached count index h) (rw entry (rw (every_eq_of_replicate 0 rule_size) later))

used_turn :
    (block : List ℕ) (count left index : ℕ) (r : Rule) (rs : List Rule)
    → index < count
    → parse_entry (slice block (rule_offset index) (rule_offset index + rule_size)) index ≡ ok r
    → parse_entries block count left (index + 1) ≡ ok rs
    → parse_entries block count (suc left) index ≡ ok (r ∷ rs)
unfolding parse_entries
used_turn block count left index r rs h entry later =
    rw (count_ahead count index h) (rw entry (rw later refl))

unused_entries :
    (left index count : ℕ) (pre : List ℕ)
    → length pre ≡ rule_offset index
    → count ≤ index
    → parse_entries (pre ++ zeros (left * rule_size)) count left index ≡ ok []
unfolding parse_entries
unused_entries zero index count pre e h = refl
unused_entries (suc left) index count pre e h =
    unused_turn block count left index h
      (ap (λ b. slice b (rule_offset index) (rule_offset index + rule_size)) split
        ∙ entry_after (rule_offset index) pre (zeros rule_size) rest e refl)
      (ap (λ b. parse_entries b count left (index + 1))
          (split ∙ sym (append_assoc pre (zeros rule_size) rest))
        ∙ unused_entries left (index + 1) count (pre ++ zeros rule_size)
            (omega (arith, length-append pre (zeros rule_size))) (omega arith))
  where
    rest : List ℕ
    rest = zeros (left * rule_size)

    block : List ℕ
    block = pre ++ zeros (suc left * rule_size)

    split : block ≡ pre ++ (zeros rule_size ++ rest)
    split = ap (λ z. pre ++ z) (zeros_more left)

pub parse_entries-all_rule_bytes :
    (rs : List Rule) (left total index count : ℕ) (pre : List ℕ)
    → length pre ≡ rule_offset index
    → All IsNormal rs
    → total ≡ length rs + left
    → count ≡ index + length rs
    → parse_entries (pre ++ (all_rule_bytes rs ++ zeros (left * rule_size))) count total index
      ≡ ok rs
unfolding all_rule_bytes
parse_entries-all_rule_bytes [] left total index count pre e h t c =
    let k : total ≡ left = omega arith in
    ap (λ n. parse_entries (pre ++ zeros (left * rule_size)) count n index) k
    ∙ unused_entries left index count pre e (omega arith)
parse_entries-all_rule_bytes (r ∷ rs) left zero index count pre e h t c = absurd (omega arith)
parse_entries-all_rule_bytes (r ∷ rs) left (suc total) index count pre e h t c =
    used_turn (pre ++ (all_rule_bytes (r ∷ rs) ++ zeros (left * rule_size))) count total index r rs
      (omega arith)
      (ap (λ b. parse_entry (slice b (rule_offset index) (rule_offset index + rule_size)) index)
          split
        ∙ ap (λ b. parse_entry b index)
            (entry_after (rule_offset index) pre (rule_bytes r) rest e (length-rule_bytes r h.0))
        ∙ parse_entry-rule_bytes r index h.0)
      (ap (λ b. parse_entries b count total (index + 1))
          (split ∙ sym (append_assoc pre (rule_bytes r) rest))
        ∙ parse_entries-all_rule_bytes rs left total (index + 1) count (pre ++ rule_bytes r)
            (next_offset pre r index e h.0) h.1 (omega arith) (omega arith))
  where
    rest : List ℕ
    rest = all_rule_bytes rs ++ zeros (left * rule_size)

    split :
        pre ++ (all_rule_bytes (r ∷ rs) ++ zeros (left * rule_size)) ≡ pre ++ (rule_bytes r ++ rest)
    split =
        ap (λ l. pre ++ l)
          (append_assoc (rule_bytes r) (all_rule_bytes rs) (zeros (left * rule_size)))
