-- ===== src/Protocol.antt =====
-- site/wchisp-protocol.js: the constants of the WCH ISP protocol and the errors that the module
-- throws, one for each `throw`. The children hold the packets, the responses, the key and the image.
pub mod Command
pub mod Packets
pub mod Framing
pub mod Responses
pub mod ConfigLayout
pub mod ResponseLaws
pub mod Cipher
pub mod Printed
pub mod Image
pub mod ImageLaws
use frogalert.Prelude.{ℕ, ◌*◌, List, [], ◌∷◌}

pub data Fault : Type 0 where
  bad_mask bad_config_length bad_sector_count : Fault
  bad_data_command bad_address payload_too_long : Fault
  short_response length_mismatch : Fault
  wrong_echo bad_status : ℕ → Fault
  short_identity unsupported_target short_config short_registers : Fault
  bad_uid_length bad_uid_checksum bad_key_length : Fault
  empty_firmware not_bin firmware_too_short uniform_firmware erase_plan_too_large : Fault

abbrev pub expected_chip_id : ℕ
expected_chip_id = 0x82

abbrev pub expected_device_type : ℕ
expected_device_type = 0x16

abbrev pub ch582_flash_bytes : ℕ
ch582_flash_bytes = 448 * 1024

abbrev pub sector_bytes : ℕ
sector_bytes = 1024

abbrev pub program_chunk_bytes : ℕ
program_chunk_bytes = 56

abbrev pub min_firmware_bytes : ℕ
min_firmware_bytes = 256

abbrev pub ch58x_config_mask : ℕ
ch58x_config_mask = 0x07

abbrev pub ch58x_reset_config : List ℕ
ch58x_reset_config =
    0xff ∷ 0xff ∷ 0xff ∷ 0xff ∷ 0xff ∷ 0xff ∷ 0xff ∷ 0xff ∷ 0x4f ∷ 0xff ∷ 0x0f ∷ 0xd5 ∷ []

abbrev pub ch58x_canonical_reset_readback : List ℕ
ch58x_canonical_reset_readback =
    0xff ∷ 0xff ∷ 0xff ∷ 0xff ∷ 0xff ∷ 0xff ∷ 0xff ∷ 0xff ∷ 0x4f ∷ 0x3f ∷ 0x0f ∷ 0x45 ∷ []
