-- ===== src/Examples/Support.antt =====
-- The USB configuration of a bootloader (site/flash-support.js), and a printed digest
-- (site/wchisp-protocol.js).
use frogalert.Prelude.{
  ℕ, zero, suc, ◌≡◌, refl, true, List, [], ◌∷◌, some, none, ok, replicate, arith,
}
use frogalert.Support.{
  Endpoint, UsbConfiguration, toward_device, toward_host, bulk, find_interface, find_alternate,
  or_first, alternate_of, is_bulk, same_direction, has_bulk, check_endpoints, check_interface,
  validate_wch_usb_configuration,
}
use frogalert.Support.Configuration.{IsBootloader, validate_wch_usb_configuration_lem}
use frogalert.Prelude.Patterns.{is_sha256}
use frogalert.Protocol.Printed.{sha256_hex, sha256_hex_accepted, AreBytes}

abbrev endpoint_pair : List Endpoint
endpoint_pair =
    record { endpoint_number = 2; direction = toward_host; type = bulk }
    ∷ record { endpoint_number = 2; direction = toward_device; type = bulk }
    ∷ []

abbrev configuration : UsbConfiguration
configuration = record {
  configuration_value = 1;
  interfaces =
      record {
        interface_number = 0;
        alternate = none;
        alternates = record { alternate_setting = 0; endpoints = endpoint_pair } ∷ [];
      }
      ∷ [];
}

accepted : validate_wch_usb_configuration (some configuration) ≡ ok tt
unfolding validate_wch_usb_configuration check_interface check_endpoints find_interface alternate_of
    or_first find_alternate has_bulk same_direction is_bulk
accepted = refl

validate_wch_usb_configuration_lem_example : IsBootloader configuration
validate_wch_usb_configuration_lem_example =
    validate_wch_usb_configuration_lem configuration accepted

-- A digest that is always the same.
constant_digest : List ℕ → List ℕ
constant_digest bytes = replicate 32 171

all_bytes : (n : ℕ) → AreBytes (replicate n 171)
all_bytes zero = tt
all_bytes (suc n) = (omega arith, all_bytes n)

constant_digest-AreBytes : AreBytes (constant_digest (1 ∷ []))
unfolding constant_digest
constant_digest-AreBytes = all_bytes 32

sha256_hex_accepted_example : is_sha256 (sha256_hex constant_digest (1 ∷ [])) ≡ true
unfolding constant_digest
sha256_hex_accepted_example =
    sha256_hex_accepted constant_digest (1 ∷ []) refl constant_digest-AreBytes
