-- ===== src/Config/Digits.antt =====
-- site/firmware-config.js: the normal forms of OUIs, services and names are their own normal forms.
use frogalert.Prelude.{
  ℕ, ◌≡◌, refl, true, false, List, [], ◌∷◌, arith, ok, length, ap, ◌∙◌, throw_if, ◌==◌, ◌>>◌,
  guarded, Bool, if◌then◌else◌, sym,
}
use frogalert.Prelude.Bytes.{All}
use mathlib.Core.Bool.{not, ◌&&◌}
use frogalert.Config.{bad_oui, bad_service, public_oui, service_16_bit}
use frogalert.Prelude.Text.{Text, to_upper, trim, trim_start, is_space}
use frogalert.Config.Rules.{
  is_hex, normalize_oui, all_hex, normalize_service, upper_case, remove, join_pairs, strip_0x,
  normalize_rule_value, normalize_name,
}
use mathlib.Core.List.{reverse}

hex_not_space : (c : ℕ) → is_hex c ≡ true → is_space c ≡ false
unfolding is_hex is_space
hex_not_space c h = ground arith

remove_hex :
    (k c : ℕ) (s : Text) → is_hex k ≡ false → is_hex c ≡ true → remove k (c ∷ s) ≡ c ∷ remove k s
unfolding is_hex remove
remove_hex k c s n h = ground arith

colon_lem : is_hex b':' ≡ false
unfolding is_hex
colon_lem = refl

hyphen_lem : is_hex b'-' ≡ false
unfolding is_hex
hyphen_lem = refl

remove_pair :
    (a b : ℕ) (s : Text)
    → is_hex a ≡ true
    → is_hex b ≡ true
    → remove b':' (a ∷ b ∷ b':' ∷ s) ≡ a ∷ b ∷ remove b':' s
unfolding remove
remove_pair a b s h k =
    remove_hex b':' a (b ∷ b':' ∷ s) colon_lem h
    ∙ ap (λ r. a ∷ r) (remove_hex b':' b (b':' ∷ s) colon_lem k)

remove_last : (a b : ℕ) → is_hex a ≡ true → is_hex b ≡ true → remove b':' (a ∷ b ∷ []) ≡ a ∷ b ∷ []
unfolding remove
remove_last a b h k =
    remove_hex b':' a (b ∷ []) colon_lem h ∙ ap (λ r. a ∷ r) (remove_hex b':' b [] colon_lem k)

strip_0x_hex : (a b : ℕ) (s : Text) → is_hex b ≡ true → strip_0x (a ∷ b ∷ s) ≡ a ∷ b ∷ s
unfolding is_hex strip_0x
strip_0x_hex a b s h = ground arith

remove-all_hex : (k : ℕ) (s : Text) → is_hex k ≡ false → all_hex s ≡ true → remove k s ≡ s
unfolding all_hex remove
remove-all_hex k [] n h = refl
remove-all_hex k (c ∷ s) n h = ground (arith, remove_hex k c s n, remove-all_hex k s n)

upper_case-all_hex : (s : Text) → all_hex s ≡ true → upper_case s ≡ s
unfolding all_hex upper_case is_hex to_upper
upper_case-all_hex [] h = refl
upper_case-all_hex (c ∷ s) h = ground (arith, upper_case-all_hex s)

trim_start_solid : (c : ℕ) (s : Text) → is_space c ≡ false → trim_start (c ∷ s) ≡ c ∷ s
unfolding trim_start
trim_start_solid c s h = rw h refl

trim_solid :
    (s r : Text) (x y : ℕ)
    → reverse (x ∷ s) ≡ y ∷ r
    → is_space x ≡ false
    → is_space y ≡ false
    → reverse (y ∷ r) ≡ x ∷ s
    → trim (x ∷ s) ≡ x ∷ s
unfolding trim
trim_solid s r x y e h k back =
    rw (trim_start_solid x s h) (rw e (rw (trim_start_solid y r k) back))

abbrev Digits : List ℕ → Type 0
Digits s = All (λ c. is_hex c ≡ true) s

all_hex-Digits : (s : Text) → all_hex s ≡ true → Digits s
unfolding all_hex
all_hex-Digits [] h = tt
all_hex-Digits (c ∷ s) h = ground (arith, all_hex-Digits s)

double_negation : (b : Bool) → not (not b) ≡ b
double_negation true = refl
double_negation false = refl

-- Six hexadecimal digits in pairs, and four.
oui_compact :
    (a b c d e f : ℕ)
    → all_hex (a ∷ b ∷ c ∷ d ∷ e ∷ f ∷ []) ≡ true
    → upper_case (remove b'-' (remove b':' (trim (a ∷ b ∷ b':' ∷ c ∷ d ∷ b':' ∷ e ∷ f ∷ []))))
      ≡ a ∷ b ∷ c ∷ d ∷ e ∷ f ∷ []
oui_compact a b c d e f h =
    ap (λ s. upper_case (remove b'-' (remove b':' s))) trimmed
    ∙ ap (λ s. upper_case (remove b'-' s)) plain
    ∙ ap upper_case (remove-all_hex b'-' (a ∷ b ∷ c ∷ d ∷ e ∷ f ∷ []) hyphen_lem h)
    ∙ upper_case-all_hex (a ∷ b ∷ c ∷ d ∷ e ∷ f ∷ []) h
  where
    digits : Digits (a ∷ b ∷ c ∷ d ∷ e ∷ f ∷ [])
    digits = all_hex-Digits (a ∷ b ∷ c ∷ d ∷ e ∷ f ∷ []) h

    trimmed :
        trim (a ∷ b ∷ b':' ∷ c ∷ d ∷ b':' ∷ e ∷ f ∷ []) ≡ a ∷ b ∷ b':' ∷ c ∷ d ∷ b':' ∷ e ∷ f ∷ []
    trimmed =
        trim_solid (b ∷ b':' ∷ c ∷ d ∷ b':' ∷ e ∷ f ∷ []) (e ∷ b':' ∷ d ∷ c ∷ b':' ∷ b ∷ a ∷ []) a f
          refl (hex_not_space a digits.0) (hex_not_space f digits.1.1.1.1.1.0) refl

    plain : remove b':' (a ∷ b ∷ b':' ∷ c ∷ d ∷ b':' ∷ e ∷ f ∷ []) ≡ a ∷ b ∷ c ∷ d ∷ e ∷ f ∷ []
    plain =
        remove_pair a b _ digits.0 digits.1.0
        ∙ ap (λ s. a ∷ b ∷ s)
            (remove_pair c d _ digits.1.1.0 digits.1.1.1.0
              ∙ ap (λ s. c ∷ d ∷ s) (remove_last e f digits.1.1.1.1.0 digits.1.1.1.1.1.0))

oui_stable :
    (a b c d e f j : ℕ)
    → all_hex (a ∷ b ∷ c ∷ d ∷ e ∷ f ∷ []) ≡ true
    → normalize_oui (a ∷ b ∷ b':' ∷ c ∷ d ∷ b':' ∷ e ∷ f ∷ []) j
      ≡ ok (a ∷ b ∷ b':' ∷ c ∷ d ∷ b':' ∷ e ∷ f ∷ [])
unfolding normalize_oui join_pairs
oui_stable a b c d e f j h = rw (oui_compact a b c d e f h) (rw h refl)

service_stable :
    (a b c d j : ℕ)
    → all_hex (a ∷ b ∷ c ∷ d ∷ []) ≡ true
    → normalize_service (a ∷ b ∷ c ∷ d ∷ []) j ≡ ok (a ∷ b ∷ c ∷ d ∷ [])
unfolding normalize_service
service_stable a b c d j h = rw compact (rw h refl)
  where
    digits : Digits (a ∷ b ∷ c ∷ d ∷ [])
    digits = all_hex-Digits (a ∷ b ∷ c ∷ d ∷ []) h

    trimmed : trim (a ∷ b ∷ c ∷ d ∷ []) ≡ a ∷ b ∷ c ∷ d ∷ []
    trimmed =
        trim_solid (b ∷ c ∷ d ∷ []) (c ∷ b ∷ a ∷ []) a d refl (hex_not_space a digits.0)
          (hex_not_space d digits.1.1.1.0) refl

    compact : upper_case (strip_0x (trim (a ∷ b ∷ c ∷ d ∷ []))) ≡ a ∷ b ∷ c ∷ d ∷ []
    compact =
        ap (λ s. upper_case (strip_0x s)) trimmed
        ∙ ap upper_case (strip_0x_hex a b (c ∷ d ∷ []) digits.1.0)
        ∙ upper_case-all_hex (a ∷ b ∷ c ∷ d ∷ []) h

oui_again :
    (compact w : Text) (i j : ℕ)
    → (do
      throw_if (not (length compact == 6 && all_hex compact)) (bad_oui i)
      ok (join_pairs compact))
      ≡ ok w
    → normalize_oui w j ≡ ok w
unfolding join_pairs
oui_again (a ∷ b ∷ c ∷ d ∷ e ∷ f ∷ []) w i j h =
    let (digits, same) = guarded (all_hex (a ∷ b ∷ c ∷ d ∷ e ∷ f ∷ [])) (bad_oui i) h in
    rw (sym same) (oui_stable a b c d e f j digits)
oui_again (a ∷ b ∷ c ∷ d ∷ e ∷ f ∷ g ∷ s) w i j h = ground arith
oui_again (a ∷ b ∷ c ∷ d ∷ e ∷ []) w i j h = ground arith
oui_again (a ∷ b ∷ c ∷ d ∷ []) w i j h = ground arith
oui_again (a ∷ b ∷ c ∷ []) w i j h = ground arith
oui_again (a ∷ b ∷ []) w i j h = ground arith
oui_again (a ∷ []) w i j h = ground arith
oui_again [] w i j h = ground arith

service_again :
    (compact w : Text) (i j : ℕ)
    → (do throw_if (not (length compact == 4 && all_hex compact)) (bad_service i); ok compact)
      ≡ ok w
    → normalize_service w j ≡ ok w
service_again (a ∷ b ∷ c ∷ d ∷ []) w i j h =
    let (digits, e) = guarded (all_hex (a ∷ b ∷ c ∷ d ∷ [])) (bad_service i) h in
    rw (sym e) (service_stable a b c d j digits)
service_again (a ∷ b ∷ c ∷ d ∷ e ∷ s) w i j h = ground arith
service_again (a ∷ b ∷ c ∷ []) w i j h = ground arith
service_again (a ∷ b ∷ []) w i j h = ground arith
service_again (a ∷ []) w i j h = ground arith
service_again [] w i j h = ground arith

name_again : (v w : Text) (i j : ℕ) → normalize_name v i ≡ ok w → normalize_name w j ≡ ok w
unfolding normalize_name
name_again v w i j h = ground arith

again :
    (oui service : Bool) (v w : Text) (i j : ℕ)
    → (if oui
        then normalize_oui v i
        else if service
        then normalize_service v i
        else normalize_name v i)
      ≡ ok w
    → (if oui
        then normalize_oui w j
        else if service
        then normalize_service w j
        else normalize_name w j)
      ≡ ok w
unfolding normalize_oui normalize_service
again true service v w i j h = oui_again (upper_case (remove b'-' (remove b':' (trim v)))) w i j h
again false true v w i j h = service_again (upper_case (strip_0x (trim v))) w i j h
again false false v w i j h = name_again v w i j h

-- The normal form of a rule's value, of any kind and under any index, is its own normal form.
pub normalize_rule_value_again :
    (type i j : ℕ) (v w : Text)
    → normalize_rule_value type v i ≡ ok w
    → normalize_rule_value type w j ≡ ok w
unfolding normalize_rule_value
normalize_rule_value_again type i j v w h =
    again (type == public_oui) (type == service_16_bit) v w i j h
