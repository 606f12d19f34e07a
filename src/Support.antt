-- ===== src/Support.antt =====
-- site/flash-support.js: the USB filters, the capabilities of the browser, the USB configuration of
-- the bootloader, and the summary of its registers. The texts for the user are values of a type.
pub mod Alternates
pub mod Configuration
use frogalert.Prelude.{
  ℕ, Bool, true, false, ◌&&◌, ◌||◌, List, [], ◌∷◌, ◌++◌, Option, none, some, ◌==◌, length, Result,
  ok, err, if◌then◌else◌,
}
use frogalert.Prelude.Json.{Json, is_text}
use frogalert.Prelude.Patterns.{is_bin_file}
use frogalert.Protocol.Responses.{is_reset_config}

pub record UsbId : Type 0 where
  pub vendor_id : ℕ
  pub product_id : ℕ

-- `WCH_USB_FILTERS`
abbrev pub wch_usb_filters : List UsbId
wch_usb_filters =
    record { vendor_id = 0x4348; product_id = 0x55e0 }
    ∷ record { vendor_id = 0x1a86; product_id = 0x55e0 }
    ∷ []

abbrev pub badgemagic_application_usb_filters : List UsbId
badgemagic_application_usb_filters = record { vendor_id = 0x0416; product_id = 0x5020 } ∷ []

abbrev pub badge_usb_chooser_filters : List UsbId
badge_usb_chooser_filters = badgemagic_application_usb_filters ++ wch_usb_filters

unfoldable pub matches_usb_filter : UsbId → UsbId → Bool
matches_usb_filter device filter =
    device.vendor_id == filter.vendor_id && device.product_id == filter.product_id

unfoldable pub some_filter : UsbId → List UsbId → Bool
some_filter device [] = false
some_filter device (filter ∷ filters) =
    matches_usb_filter device filter || some_filter device filters

pub data UsbMode : Type 0 where
  isp application unknown : UsbMode

unfoldable pub badge_usb_mode : UsbId → UsbMode
badge_usb_mode device =
    if some_filter device wch_usb_filters
    then isp
    else if some_filter device badgemagic_application_usb_filters
    then application
    else unknown

pub data SupportError : Type 0 where
  wrong_configuration no_interface no_alternate no_bulk_endpoints unsafe_file : SupportError

pub data Direction : Type 0 where
  toward_device toward_host : Direction

pub data Transfer : Type 0 where
  bulk interrupt isochronous : Transfer

pub record Endpoint : Type 0 where
  pub endpoint_number : ℕ
  pub direction : Direction
  pub type : Transfer

pub record Alternate : Type 0 where
  pub alternate_setting : ℕ
  pub endpoints : List Endpoint

pub record UsbInterface : Type 0 where
  pub interface_number : ℕ
  pub alternate : Option Alternate
  pub alternates : List Alternate

pub record UsbConfiguration : Type 0 where
  pub configuration_value : ℕ
  pub interfaces : List UsbInterface

-- `[...].find(...)`
unfoldable pub find_interface : List UsbInterface → Option UsbInterface
find_interface [] = none
find_interface (candidate ∷ interfaces) =
    if candidate.interface_number == 0 then some candidate else find_interface interfaces

unfoldable pub find_alternate : List Alternate → Option Alternate
find_alternate [] = none
find_alternate (candidate ∷ alternates) =
    if candidate.alternate_setting == 0 then some candidate else find_alternate alternates

unfoldable pub first_alternate : List Alternate → Option Alternate
first_alternate [] = none
first_alternate (alternate ∷ alternates) = some alternate

unfoldable pub or_first : Option Alternate → List Alternate → Option Alternate
or_first none alternates = first_alternate alternates
or_first (some alternate) alternates = some alternate

unfoldable pub alternate_of : Option Alternate → List Alternate → Option Alternate
alternate_of none alternates = or_first (find_alternate alternates) alternates
alternate_of (some alternate) alternates = some alternate

unfoldable pub is_bulk : Transfer → Bool
is_bulk bulk = true
is_bulk interrupt = false
is_bulk isochronous = false

unfoldable pub same_direction : Direction → Direction → Bool
same_direction toward_device toward_device = true
same_direction toward_device toward_host = false
same_direction toward_host toward_device = false
same_direction toward_host toward_host = true

unfoldable pub has_bulk : Direction → List Endpoint → Bool
has_bulk direction [] = false
has_bulk direction (endpoint ∷ endpoints) =
    (endpoint.endpoint_number == 2
      && same_direction endpoint.direction direction
      && is_bulk endpoint.type)
    || has_bulk direction endpoints

unfoldable pub check_endpoints : Option Alternate → Result SupportError (Unit {0})
check_endpoints none = err no_alternate
check_endpoints (some alternate) =
    if has_bulk toward_device alternate.endpoints && has_bulk toward_host alternate.endpoints
    then ok tt
    else err no_bulk_endpoints

unfoldable pub check_interface : Option UsbInterface → Result SupportError (Unit {0})
check_interface none = err no_interface
check_interface (some usb_interface) =
    check_endpoints (alternate_of usb_interface.alternate usb_interface.alternates)

-- The interface and the endpoint that it returns are always 0 and 2.
unfoldable pub validate_wch_usb_configuration :
    Option UsbConfiguration → Result SupportError (Unit {0})
validate_wch_usb_configuration none = err wrong_configuration
validate_wch_usb_configuration (some configuration) =
    if configuration.configuration_value == 1
    then check_interface (find_interface configuration.interfaces)
    else err wrong_configuration

-- The name, checked before it becomes a part of the URL.
unfoldable pub check_firmware_filename : Json → Result SupportError (Unit {0})
check_firmware_filename filename = if is_text is_bin_file filename then ok tt else err unsafe_file

-- `canFlash` of `browserCapabilityReport`.
unfoldable pub can_flash : Bool → Bool → Bool
can_flash secure_context has_web_usb = secure_context && has_web_usb

-- `matchesReviewedDefaults` of `configurationSummary`.
unfoldable pub matches_reviewed_defaults : List ℕ → Bool
matches_reviewed_defaults registers =
    if length registers == 12 then is_reset_config registers else false
