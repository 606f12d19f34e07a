-- ===== src/Config/Normal.antt =====
-- site/firmware-config.js: what `normalizeConfig` returns, and that it changes nothing of it again.
use frogalert.Prelude.{
  ℕ, ◌≡◌, true, List, [], ◌∷◌, arith, ok, ◌≤◌, length, ap, Result, throw_if, ◌>>◌, Bool, bound, ◌+◌,
  subst,
}
use frogalert.Config.Digits.{normalize_rule_value_again}
use Prim.Native.Nat.{suc}
use frogalert.Prelude.Bytes.{All}
use mathlib.Core.Bool.{not}
use frogalert.Config.{ConfigError, Rule, value_size, message_size, unknown_match_type}
use frogalert.Prelude.Text.{Text}
use frogalert.Config.Rules.{
  normalize_rule_value, normalize_rule, normalize_rules, encode_printable_ascii,
  is_known_match_type, all_printable,
}
use mathlib.Core.List.{all}

-- What a rule is after `normalizeRule`: a known type, a value in normal form, and texts that fit.
unfoldable pub IsNormal : Rule → Type 0
IsNormal r =
    (is_known_match_type r.type ≡ true)
    × ((i : ℕ) → normalize_rule_value r.type r.value i ≡ ok r.value)
    × (all_printable r.value ≡ true)
    × (all_printable r.message ≡ true)
    × (1 ≤ length r.value)
    × (length r.value ≤ value_size)
    × (1 ≤ length r.message)
    × (length r.message ≤ message_size)

pub encode_printable_ascii_lem :
    (v w : Text) (n : ℕ)
    → encode_printable_ascii v n ≡ ok w
    → (w ≡ v) × (all_printable v ≡ true) × (1 ≤ length v) × (length v ≤ n)
unfolding encode_printable_ascii
encode_printable_ascii_lem v w n h = ground arith

checked_type :
    {A : Type 0} {w : A} (b : Bool) (e : ConfigError) (m : Result ConfigError A)
    → (throw_if (not b) e >> m) ≡ ok w
    → (b ≡ true) × (m ≡ ok w)
checked_type b e m h = ground arith

pub normalize_rule-IsNormal : (rule r : Rule) (i : ℕ) → normalize_rule rule i ≡ ok r → IsNormal r
unfolding normalize_rule IsNormal
normalize_rule-IsNormal rule r i h =
    let (known, h1) = checked_type (is_known_match_type rule.type) (unknown_match_type i) _ h in
    let (v, value_ok, h2) = bound (normalize_rule_value rule.type rule.value i) _ h1 in
    let (vb, vb_ok, h3) = bound (encode_printable_ascii v value_size) _ h2 in
    let (mb, mb_ok, h4) = bound (encode_printable_ascii rule.message message_size) _ h3 in
    let (same_v, pv, lv, uv) = encode_printable_ascii_lem v vb value_size vb_ok in
    let (same_m, pm, lm, um) = encode_printable_ascii_lem rule.message mb message_size mb_ok in
    let mine : Rule = record { type = rule.type; value = v; message = rule.message } in
    let whole : mine ≡ r = cc (same_v, same_m, h4) in
    let stays = λ (j : ℕ). normalize_rule_value_again rule.type i j rule.value v value_ok in
    subst IsNormal whole (known, stays, pv, pm, lv, uv, lm, um)

pub normalize_rules-IsNormal :
    (rules rs : List Rule) (i : ℕ)
    → normalize_rules rules i ≡ ok rs
    → All IsNormal rs × (length rs ≡ length rules)
unfolding normalize_rules
normalize_rules-IsNormal [] rs i h = ground arith
normalize_rules-IsNormal (rule ∷ rules) rs i h =
    let (r, first, h1) = bound (normalize_rule rule i) _ h in
    let (rest, later, h2) = bound (normalize_rules rules (i + 1)) _ h1 in
    let (all, same) = normalize_rules-IsNormal rules rest (i + 1) later in
    let whole : r ∷ rest ≡ rs = cc h2 in
    subst (λ l. All IsNormal l × (length l ≡ length (rule ∷ rules))) whole
      ((normalize_rule-IsNormal rule r i first, all), ap suc same)
