-- ===== src/Prelude/JsonLaws.antt =====
-- What the tests of JSON values say of the values that pass.
use frogalert.Prelude.{ℕ, ◌≤◌, ◌≡◌, refl, ap, arith, Bool, true}
use frogalert.Prelude.Bytes.{same_bytes-eq}
use frogalert.Prelude.Json.{
  Json, undefined, null, boolean, number, other_number, text, array, object, nil, item, is_text,
  is_integer_from, is_single, is_the_text,
}
use frogalert.Prelude.Text.{Text}

pub text_value :
    (test : Text → Bool) (value : Json)
    → is_text test value ≡ true
    → (s : Text) × (value ≡ text s) × (test s ≡ true)
unfolding is_text
text_value test (text s) h = (s, refl, h)
text_value test undefined h = cc
text_value test null h = cc
text_value test (boolean b) h = cc
text_value test (number n) h = cc
text_value test (other_number s) h = cc
text_value test (array items) h = cc
text_value test (object fields) h = cc

pub the_text_value :
    (expected : Text) (value : Json) → is_the_text expected value ≡ true → value ≡ text expected
unfolding is_the_text
the_text_value expected (text s) h = ap text (same_bytes-eq s expected h)
the_text_value expected undefined h = cc
the_text_value expected null h = cc
the_text_value expected (boolean b) h = cc
the_text_value expected (number n) h = cc
the_text_value expected (other_number s) h = cc
the_text_value expected (array items) h = cc
the_text_value expected (object fields) h = cc

pub integer_value :
    (least : ℕ) (value : Json)
    → is_integer_from least value ≡ true
    → (n : ℕ) × (value ≡ number n) × (least ≤ n)
unfolding is_integer_from
integer_value least (number n) h = (n, refl, ground arith)
integer_value least undefined h = cc
integer_value least null h = cc
integer_value least (boolean b) h = cc
integer_value least (text s) h = cc
integer_value least (other_number s) h = cc
integer_value least (array items) h = cc
integer_value least (object fields) h = cc

pub single_value :
    (test : Json → Bool) (value : Json)
    → is_single test value ≡ true
    → (x : Json) × (value ≡ array (item x nil)) × (test x ≡ true)
unfolding is_single
single_value test (array (item x nil)) h = (x, refl, h)
single_value test (array (item x (item y items))) h = cc
single_value test (array nil) h = cc
single_value test undefined h = cc
single_value test null h = cc
single_value test (boolean b) h = cc
single_value test (number n) h = cc
single_value test (other_number s) h = cc
single_value test (text s) h = cc
single_value test (object fields) h = cc
