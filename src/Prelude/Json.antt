-- ===== src/Prelude/Json.antt =====
-- What `JSON.parse` returns and the operations on it that the source uses. A number that is not a
-- natural number carries the text that it prints as.
use Prim.Native.String.{String}
use package.text.Mathlib.Text.{◌==◌ as same_key}
use frogalert.Prelude.{
  ℕ, zero, suc, ◌+◌, ◌/◌, ◌%◌, Bool, true, false, [], ◌∷◌, ◌++◌, leb, ltb, ◌==◌, length,
  if◌then◌else◌,
}
use frogalert.Prelude.Bytes.{same_bytes}
use frogalert.Prelude.Text.{Text, codes}

mutual
  pub data Json : Type 0 where
    undefined null : Json
    boolean : Bool → Json
    number : ℕ → Json
    other_number : Text → Json
    text : Text → Json
    array : Items → Json
    object : Fields → Json

  pub data Items : Type 0 where
    nil : Items
    item : Json → Items → Items

  pub data Fields : Type 0 where
    end : Fields
    field : String → Json → Fields → Fields

unfoldable pub find_field : Fields → String → Json
find_field end key = undefined
find_field (field name value fields) key =
    if same_key name key then value else find_field fields key

-- `value?.key`; nothing that the source asks of a text or a number is a property of it.
unfoldable pub get : Json → String → Json
unfolding find_field
get (object fields) key = find_field fields key
get other key = undefined

-- `value === "..."`, `value === n`, `value === true` and `value === false`.
unfoldable pub is_the_text : Text → Json → Bool
is_the_text expected (text s) = same_bytes s expected
is_the_text expected other = false

unfoldable pub is_the_number : ℕ → Json → Bool
is_the_number expected (number n) = n == expected
is_the_number expected other = false

unfoldable pub is_true : Json → Bool
is_true (boolean b) = b
is_true other = false

unfoldable pub is_false : Json → Bool
is_false (boolean true) = false
is_false (boolean false) = true
is_false other = false

-- `typeof value === "boolean"`
unfoldable pub is_boolean : Json → Bool
is_boolean (boolean b) = true
is_boolean other = false

-- `typeof value === "string"` with a test of the string.
unfoldable pub is_text : (Text → Bool) → Json → Bool
is_text test (text s) = test s
is_text test other = false

-- `Number.isSafeInteger(value) && value >= least`, for a `least` that is not negative.
unfoldable pub is_integer_from : ℕ → Json → Bool
is_integer_from least (number n) = if leb n 0x1fffffffffffff then leb least n else false
is_integer_from least other = false

-- `!value`, whose other numbers are neither 0 nor NaN, which JSON does not have.
unfoldable pub is_falsy : Json → Bool
is_falsy undefined = true
is_falsy null = true
is_falsy (boolean true) = false
is_falsy (boolean false) = true
is_falsy (number n) = n == 0
is_falsy (text s) = length s == 0
is_falsy other = false

-- `!value || typeof value !== "object"`
unfoldable pub is_not_object : Json → Bool
is_not_object (array items) = false
is_not_object (object fields) = false
is_not_object other = true

-- `Array.isArray(value) && value.length === 1`, with a test of the one element.
unfoldable pub is_single : (Json → Bool) → Json → Bool
is_single test (array (item value nil)) = test value
is_single test other = false

-- `value[0]`
unfoldable pub first_item : Json → Json
first_item (array (item value items)) = value
first_item other = undefined

unfoldable pub has_text : Text → Items → Bool
unfolding is_the_text
has_text expected nil = false
has_text expected (item value items) =
    if is_the_text expected value then true else has_text expected items

-- `value.includes("...")` of an array.
unfoldable pub includes_text : Text → Json → Bool
unfolding has_text
includes_text expected (array items) = has_text expected items
includes_text expected other = false

-- The decimal digits of a number, at most as many as there is fuel. A double below 2 ^ 53 has 16.
unfoldable pub decimal_from : ℕ → ℕ → Text
decimal_from zero n = []
decimal_from (suc fuel) n =
    let front = decimal_from fuel (n / 10) in
    if ltb n 10 then (b'0' + n) ∷ [] else front ++ ((b'0' + n % 10) ∷ [])

unfoldable pub decimal : ℕ → Text
unfolding decimal_from
decimal n = decimal_from 21 n

unfoldable pub print_boolean : Bool → Text
print_boolean true = codes "true"
print_boolean false = codes "false"

-- `String(value)`, and `Array.prototype.join` for what stands in an array.
unfoldable mutual
  unfolding decimal print_boolean

  pub print : Json → Text
  print undefined = codes "undefined"
  print null = codes "null"
  print (boolean b) = print_boolean b
  print (number n) = decimal n
  print (other_number s) = s
  print (text s) = s
  print (array items) = print_items items
  print (object fields) = codes "[object Object]"

  pub print_items : Items → Text
  print_items nil = []
  print_items (item value nil) = print_item value
  print_items (item value (item next items)) =
      print_item value ++ (b',' ∷ print_items (item next items))

  pub print_item : Json → Text
  print_item undefined = []
  print_item null = []
  print_item (boolean b) = print_boolean b
  print_item (number n) = decimal n
  print_item (other_number s) = s
  print_item (text s) = s
  print_item (array items) = print_items items
  print_item (object fields) = codes "[object Object]"
