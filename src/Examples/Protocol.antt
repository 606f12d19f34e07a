-- ===== src/Examples/Protocol.antt =====
-- The protocol module (site/wchisp-protocol.js) at concrete inputs.
use frogalert.Protocol.Framing.{
  data_packet_iff, data_packet-injective, frame, write_config_packet_iff, data_body, le32,
  erase_packet_iff,
}
use frogalert.Protocol.ImageLaws.{pad_firmware_lem, validate_firmware_iff}
use frogalert.Prelude.Bytes.{zeros, IsBytes, byte_at, every_eq}
use frogalert.Protocol.ConfigLayout.{HasLayout, parse_config_iff}
use frogalert.Protocol.ResponseLaws.{
  IsUid, is_reset_config_iff, parse_response_status, validate_uid_iff, parse_response_iff,
}
use frogalert.Protocol.Cipher.{sum, xor_chunk_twice, derive_xor_key_iff, xor_chunk_lem}
use frogalert.Protocol.Responses.{
  validate_uid, parse_response, derive_xor_key, xor_chunk, parse_config, BootConfig,
  is_reset_config,
}
use frogalert.Protocol.Packets.{erase_packet, write_config_packet, data_packet, fill_data_packet}
use frogalert.Protocol.{ch58x_reset_config, bad_status, ch58x_canonical_reset_readback}
use frogalert.Protocol.Image.{Plan, validate_firmware, pad_firmware, is_bin_name}
use frogalert.Prelude.Text.{codes}
use frogalert.Prelude.{
  ℕ, ◌≡◌, ◌↔◌, List, [], ◌∷◌, ok, err, arith, replicate, ◌%◌, ◌<◌, length, ◌⊎◌, ◌≤◌, ◌++◌, true,
  ◌^◌, ◌+◌, ◌*◌, bit_xor, false, refl,
}
use frogalert.Protocol.Command

abbrev payload : List ℕ
payload = 1 ∷ 2 ∷ 3 ∷ []

abbrev packet : List ℕ
packet = 0xa5 ∷ 8 ∷ 0 ∷ 0x38 ∷ 0 ∷ 0 ∷ 0 ∷ 7 ∷ 1 ∷ 2 ∷ 3 ∷ []

packet_built : data_packet Command.program 0x38 7 payload ≡ ok packet
unfolding data_packet fill_data_packet
packet_built = refl

data_packet_iff_example : (data_packet 0xa5 0x38 7 payload ≡ ok packet) ↔ (
    ((0xa5 ≡ Command.program) ⊎ (0xa5 ≡ Command.verify))
    × (0x38 < 2 ^ 32)
    × (3 ≤ 56)
    × (packet ≡ frame 0xa5 (data_body 0x38 7 payload)))
data_packet_iff_example = data_packet_iff 0xa5 0x38 7 payload packet

data_packet-injective_example :
    ◌≡◌ {A = ℕ} 0xa5 0xa5 × ◌≡◌ {A = ℕ} 0x38 0x38 × (7 % 256 ≡ 263 % 256) × (payload ≡ payload)
data_packet-injective_example =
    data_packet-injective 0xa5 0xa5 0x38 0x38 7 263 payload payload packet packet_built again
  where
    again : data_packet 0xa5 0x38 263 payload ≡ ok packet
    again = unfold data_packet fill_data_packet in refl

write_config_packet_iff_example :
    (write_config_packet 7 ch58x_reset_config
      ≡ ok (frame Command.write_config (7 ∷ 0 ∷ ch58x_reset_config)))
    ↔ ((7 < 256)
        × (◌≡◌ {A = ℕ} 12 12)
        × (frame Command.write_config (7 ∷ 0 ∷ ch58x_reset_config)
            ≡ frame Command.write_config (7 ∷ 0 ∷ ch58x_reset_config)))
write_config_packet_iff_example =
    write_config_packet_iff 7 ch58x_reset_config
      (frame Command.write_config (7 ∷ 0 ∷ ch58x_reset_config))

erase_packet_iff_example : (erase_packet 9 ≡ ok (0xa4 ∷ 4 ∷ 0 ∷ 9 ∷ 0 ∷ 0 ∷ 0 ∷ [])) ↔ (
    (1 ≤ 9) × (9 < 2 ^ 32) × ((0xa4 ∷ 4 ∷ 0 ∷ 9 ∷ 0 ∷ 0 ∷ 0 ∷ []) ≡ frame Command.erase (le32 9)))
erase_packet_iff_example = erase_packet_iff 9 (0xa4 ∷ 4 ∷ 0 ∷ 9 ∷ 0 ∷ 0 ∷ 0 ∷ [])

abbrev response : List ℕ
response = 0xa1 ∷ 0 ∷ 2 ∷ 0 ∷ 0x82 ∷ 0x16 ∷ []

parse_response_iff_example :
    (parse_response response 0xa1 ≡ ok (0x82 ∷ 0x16 ∷ []))
    ↔ ((2 < 2 ^ 16) × (response ≡ 0xa1 ∷ 0 ∷ 2 ∷ 0 ∷ 0x82 ∷ 0x16 ∷ []))
parse_response_iff_example = parse_response_iff response 0xa1 (0x82 ∷ 0x16 ∷ []) (omega arith)

parse_response_status_example :
    parse_response (0xa4 ∷ 0xf1 ∷ 0 ∷ 0 ∷ []) 0xa4 ≡ err (bad_status 0xf1)
parse_response_status_example = parse_response_status 0xa4 0xf1 0 0 [] (omega arith)

abbrev uid : List ℕ
uid = 1 ∷ 0 ∷ 2 ∷ 0 ∷ 3 ∷ 0 ∷ 6 ∷ 0 ∷ []

validate_uid_iff_example : (validate_uid uid ≡ ok tt) ↔ IsUid uid
validate_uid_iff_example = validate_uid_iff uid (omega arith)

uid_valid : validate_uid uid ≡ ok tt
uid_valid = validate_uid_iff_example.1 (omega arith)

abbrev config_payload : List ℕ
config_payload = (0 ∷ 0 ∷ ch58x_reset_config) ++ (0 ∷ 2 ∷ 4 ∷ 0 ∷ uid)

abbrev boot_config : BootConfig
boot_config = record {
  bootloader_version = 0 ∷ 2 ∷ 4 ∷ 0 ∷ [];
  uid = uid;
  registers = ch58x_reset_config;
}

parse_config_iff_example :
    (parse_config config_payload ≡ ok boot_config) ↔ HasLayout config_payload boot_config
parse_config_iff_example = parse_config_iff config_payload boot_config (omega arith)

is_reset_config_iff_example : (is_reset_config ch58x_canonical_reset_readback ≡ true) ↔ (
    (ch58x_canonical_reset_readback ≡ ch58x_reset_config)
    ⊎ (ch58x_canonical_reset_readback ≡ ch58x_canonical_reset_readback))
is_reset_config_iff_example = is_reset_config_iff ch58x_canonical_reset_readback

abbrev key : List ℕ
key = replicate 7 12 ++ 142 ∷ []

derive_xor_key_iff_example : (derive_xor_key uid 0x82 ≡ ok key) ↔ (
    (validate_uid uid ≡ ok tt)
    × (key ≡ replicate 7 (sum uid % 256) ++ ((sum uid + 0x82) % 256 ∷ [])))
derive_xor_key_iff_example = derive_xor_key_iff uid 0x82 key

enciphered : xor_chunk payload key ≡ ok (13 ∷ 14 ∷ 15 ∷ [])
unfolding xor_chunk
enciphered = refl

xor_chunk_twice_example : xor_chunk (13 ∷ 14 ∷ 15 ∷ []) key ≡ ok payload
xor_chunk_twice_example = xor_chunk_twice payload (13 ∷ 14 ∷ 15 ∷ []) key enciphered

xor_chunk_lem_example :
    (out : List ℕ) × (xor_chunk payload key ≡ ok out)
    × (length out ≡ 3)
    × IsBytes out
    × ((j : ℕ) → j < 3 → byte_at out j ≡ bit_xor (byte_at payload j) (byte_at key (j % 8)))
xor_chunk_lem_example = xor_chunk_lem payload key refl (omega arith) (omega arith)

abbrev image : List ℕ
image = 1 ∷ replicate 299 7

pad_firmware_lem_example :
    (pad_firmware image ≡ image ++ zeros 724)
    × (724 < 1024)
    × (length (pad_firmware image) % 1024 ≡ 0)
pad_firmware_lem_example = pad_firmware_lem image

abbrev image_name : List ℕ
image_name = codes "frog.BIN"

abbrev image_plan : Plan
image_plan = record { padded = pad_firmware image; erase_sectors = 8 }

validate_firmware_iff_example : (validate_firmware image image_name ≡ ok image_plan) ↔ (
    (is_bin_name image_name ≡ true)
    × (256 ≤ 300)
    × (300 ≤ 447 * 1024)
    × (every_eq 1 image ≡ false)
    × (image_plan ≡ image_plan))
validate_firmware_iff_example = validate_firmware_iff image image_name image_plan
