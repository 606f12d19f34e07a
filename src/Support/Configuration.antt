-- ===== src/Support/Configuration.antt =====
-- site/flash-support.js: which USB configurations the page accepts.
use frogalert.Prelude.{
  ℕ, ◌≡◌, refl, inl, inr, Bool, true, false, ◌&&◌, ◌||◌, List, [], ◌∷◌, Option, none, some, ◌==◌,
  Result, ok, err, if◌then◌else◌, Bool-cases, arith, sym, subst,
}
use mathlib.Core.List.{Memᴰ}
use frogalert.Support.Alternates.{IsChosen, alternate_of-IsChosen}
use frogalert.Support.{
  Direction, toward_device, toward_host, Transfer, bulk, Endpoint, Alternate, UsbInterface,
  UsbConfiguration, SupportError, find_interface, alternate_of, is_bulk, same_direction, has_bulk,
  check_endpoints, check_interface, validate_wch_usb_configuration, wrong_configuration,
  no_bulk_endpoints,
}

-- A bulk endpoint 2 of a direction.
pub record HasBulk (direction : Direction) (endpoints : List Endpoint) : Type 0 where
  pub endpoint : Endpoint
  pub listed : Memᴰ endpoint endpoints
  pub second : endpoint.endpoint_number ≡ 2
  pub directed : endpoint.direction ≡ direction
  pub typed : endpoint.type ≡ bulk

is_bulk-eq : (type : Transfer) → is_bulk type ≡ true → type ≡ bulk
unfolding is_bulk
is_bulk-eq type h = ground arith

same_direction-eq : (found wanted : Direction) → same_direction found wanted ≡ true → found ≡ wanted
unfolding same_direction
same_direction-eq found wanted h = ground arith

three : (a b c : Bool) → (a && b && c) ≡ true → (a ≡ true) × (b ≡ true) × (c ≡ true)
three a b c h = ground arith

later : (a b : Bool) → (a || b) ≡ true → a ≡ false → b ≡ true
later a b h k = ground arith

number_eq : (a b : ℕ) → (a == b) ≡ true → a ≡ b
number_eq a b h = ground arith

has_bulk-HasBulk :
    (direction : Direction) (endpoints : List Endpoint)
    → has_bulk direction endpoints ≡ true
    → HasBulk direction endpoints
unfolding has_bulk
has_bulk-HasBulk direction [] h = absurd (ground arith)
has_bulk-HasBulk direction (e ∷ endpoints) h =
    let test : Bool =
      e.endpoint_number == 2 && same_direction e.direction direction && is_bulk e.type in
    elim (Bool-cases test) [
      | inl here ↦
          let (second, directed, typed) =
            three (e.endpoint_number == 2) (same_direction e.direction direction) (is_bulk e.type)
              here in
          record {
            endpoint = e;
            listed = Memᴰ.head refl;
            second = number_eq e.endpoint_number 2 second;
            directed = same_direction-eq e.direction direction directed;
            typed = is_bulk-eq e.type typed;
          }
      | inr there ↦
          let rest =
            has_bulk-HasBulk direction endpoints
              (later test (has_bulk direction endpoints) h there) in
          record {
            endpoint = rest.endpoint;
            listed = Memᴰ.tail rest.listed;
            second = rest.second;
            directed = rest.directed;
            typed = rest.typed;
          }
    ]

-- What is found is an interface of the list, with the number 0.
find_interface-listed :
    (interfaces : List UsbInterface) (i : UsbInterface)
    → find_interface interfaces ≡ some i
    → Memᴰ i interfaces × (i.interface_number ≡ 0)
unfolding find_interface
find_interface-listed [] i h = absurd (ground arith)
find_interface-listed (candidate ∷ interfaces) i h =
    elim (Bool-cases (candidate.interface_number == 0)) [
      | inl zero ↦
          let found : some candidate ≡ some i = rw zero at h in
          let same : candidate ≡ i = cc found in
          (
            Memᴰ.head (sym same),
            subst (λ (j : UsbInterface). j.interface_number ≡ 0) same
                (number_eq candidate.interface_number 0 zero),
          )
      | inr other ↦
          let rest : find_interface interfaces ≡ some i = rw other at h in
          let (listed, number_zero) = find_interface-listed interfaces i rest in
          (Memᴰ.tail listed, number_zero)
    ]

-- What an accepted configuration has.
pub record IsBootloader (configuration : UsbConfiguration) : Type 0 where
  pub value_one : configuration.configuration_value ≡ 1
  pub usb_interface : UsbInterface
  pub listed : Memᴰ usb_interface configuration.interfaces
  pub number_zero : usb_interface.interface_number ≡ 0
  pub alternate : Alternate
  pub chosen : IsChosen usb_interface alternate
  pub writes : HasBulk toward_device alternate.endpoints
  pub reads : HasBulk toward_host alternate.endpoints

endpoints_checked :
    (alternate : Option Alternate)
    → check_endpoints alternate ≡ ok tt
    → (a : Alternate) × (alternate ≡ some a)
      × HasBulk toward_device a.endpoints
      × HasBulk toward_host a.endpoints
unfolding check_endpoints
endpoints_checked none h = absurd (ground arith)
endpoints_checked (some a) h =
    let (writes, reads) =
      accepted (has_bulk toward_device a.endpoints) (has_bulk toward_host a.endpoints) h in
    (
      a,
      refl,
      has_bulk-HasBulk toward_device a.endpoints writes,
      has_bulk-HasBulk toward_host a.endpoints reads,
    )
  where
    accepted :
        (c d : Bool)
        → ◌≡◌ {A = Result SupportError (Unit {0})}
            (if c && d then ok tt else err no_bulk_endpoints)
            (ok tt)
        → (c ≡ true) × (d ≡ true)
    accepted c d h = ground arith

interface_checked :
    (usb_interface : Option UsbInterface)
    → check_interface usb_interface ≡ ok tt
    → (i : UsbInterface) × (usb_interface ≡ some i)
      × (check_endpoints (alternate_of i.alternate i.alternates) ≡ ok tt)
unfolding check_interface
interface_checked none h = absurd (ground arith)
interface_checked (some i) h = (i, refl, h)

-- A configuration that the page accepts has the value 1, and lists an interface with the number 0
-- whose alternate (the selected one, or else the setting 0, or else the first one) has a bulk endpoint
-- 2 in each direction.
pub validate_wch_usb_configuration_lem :
    (configuration : UsbConfiguration)
    → validate_wch_usb_configuration (some configuration) ≡ ok tt
    → IsBootloader configuration
unfolding validate_wch_usb_configuration
validate_wch_usb_configuration_lem configuration h =
    let (one, checked) =
      first (configuration.configuration_value == 1)
        (check_interface (find_interface configuration.interfaces)) h in
    let (i, found, alternates) =
      interface_checked (find_interface configuration.interfaces) checked in
    let (a, chosen, writes, reads) =
      endpoints_checked (alternate_of i.alternate i.alternates) alternates in
    record {
      value_one = number_eq configuration.configuration_value 1 one;
      usb_interface = i;
      listed = (find_interface-listed configuration.interfaces i found).0;
      number_zero = (find_interface-listed configuration.interfaces i found).1;
      alternate = a;
      chosen = alternate_of-IsChosen i a chosen;
      writes = writes;
      reads = reads;
    }
  where
    first :
        (c : Bool) (rest : Result SupportError (Unit {0}))
        → (if c then rest else err wrong_configuration) ≡ ok tt
        → (c ≡ true) × (rest ≡ ok tt)
    first true rest h = (refl, h)
    first false rest h = absurd (ground arith)
