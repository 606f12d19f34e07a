-- ===== src/Protocol/Packets.antt =====
-- site/wchisp-protocol.js: little-endian fields and the packets sent to the bootloader. A packet is
-- a zeroed array of its size that the stores fill. Parameters are numbers, so `Number.isInteger` and
-- the lower bound 0 hold; `value >>> k` and `value & m` act on the value modulo 2 ^ 32.
use frogalert.Prelude.{
  ℕ, ◌+◌, ◌-◌, ◌*◌, ◌/◌, ◌%◌, ◌^◌, bit_and, bit_or, not, ◌&&◌, ◌||◌, List, [], ◌∷◌, ltb, ◌==◌,
  length, Result, ok, throw_if, ◌>>◌,
}
use frogalert.Prelude.Bytes.{zeros, store, blit, byte_at}
use frogalert.Protocol.{
  Fault, bad_mask, bad_config_length, bad_sector_count, bad_data_command, bad_address,
  payload_too_long, program_chunk_bytes, ch58x_config_mask, ch58x_reset_config,
}
use frogalert.Protocol.Command

abbrev pub u32 : ℕ → ℕ
u32 n = n % 2 ^ 32

-- `value >>> k`
abbrev pub shr : ℕ → ℕ → ℕ
shr value k = u32 value / 2 ^ k

-- `value & 0xff`
abbrev pub low_byte : ℕ → ℕ
low_byte value = bit_and (u32 value) (2 ^ 8 - 1)

unfoldable pub write_u16_le : List ℕ → ℕ → ℕ → List ℕ
write_u16_le target offset value =
    store (store target offset (low_byte value)) (offset + 1) (low_byte (shr value 8))

unfoldable pub write_u32_le : List ℕ → ℕ → ℕ → List ℕ
write_u32_le target offset value =
    let t0 = store target offset (low_byte value) in
    let t1 = store t0 (offset + 1) (low_byte (shr value 8)) in
    let t2 = store t1 (offset + 2) (low_byte (shr value 16)) in
    store t2 (offset + 3) (low_byte (shr value 24))

unfoldable pub read_u16_le : List ℕ → ℕ → ℕ
read_u16_le source offset = bit_or (byte_at source offset) (byte_at source (offset + 1) * 2 ^ 8)

-- "MCU ISP & WCH.CN"
abbrev pub identify_magic : List ℕ
identify_magic =
    b'M' ∷ b'C' ∷ b'U' ∷ b' ' ∷ b'I' ∷ b'S' ∷ b'P' ∷ b' ' ∷ b'&' ∷ b' ' ∷ b'W' ∷ b'C' ∷ b'H' ∷ b'.'
    ∷ b'C' ∷ b'N' ∷ []

unfoldable pub identify_packet : ℕ → ℕ → List ℕ
identify_packet chip_id device_type =
    let packet = zeros 21 in
    let header = Command.identify ∷ 0x12 ∷ 0x00 ∷ chip_id % 256 ∷ device_type % 256 ∷ [] in
    blit (blit packet 0 header) 5 identify_magic

unfoldable pub read_config_packet : ℕ → List ℕ
read_config_packet mask = Command.read_config ∷ 0x02 ∷ 0x00 ∷ mask % 256 ∷ 0x00 ∷ []

-- The stores of `writeConfigPacket`, past its checks.
unfoldable pub fill_config_packet : ℕ → List ℕ → List ℕ
unfolding write_u16_le
fill_config_packet mask payload =
    let p0 = store (zeros (5 + length payload)) 0 Command.write_config in
    let p1 = write_u16_le p0 1 (2 + length payload) in let p2 = store p1 3 mask in blit p2 5 payload

unfoldable pub write_config_packet : ℕ → List ℕ → Result Fault (List ℕ)
write_config_packet mask payload = do
  throw_if (ltb 0xff mask) bad_mask
  throw_if (not (length payload == 12)) bad_config_length
  ok (fill_config_packet mask payload)

unfoldable pub reset_config_packet : Result Fault (List ℕ)
unfolding write_config_packet
reset_config_packet = write_config_packet ch58x_config_mask ch58x_reset_config

unfoldable pub isp_key_packet : List ℕ
isp_key_packet = blit (zeros 33) 0 (Command.isp_key ∷ 0x1e ∷ 0x00 ∷ [])

unfoldable pub erase_packet : ℕ → Result Fault (List ℕ)
unfolding write_u32_le
erase_packet sectors = do
  throw_if (ltb sectors 1 || ltb 0xffffffff sectors) bad_sector_count
  let packet = blit (zeros 7) 0 (Command.erase ∷ 0x04 ∷ 0x00 ∷ [])
  ok (write_u32_le packet 3 sectors)

-- The stores of `dataPacket`, past its checks.
unfoldable pub fill_data_packet : ℕ → ℕ → ℕ → List ℕ → List ℕ
unfolding write_u16_le write_u32_le
fill_data_packet command address padding payload =
    let p0 = store (zeros (8 + length payload)) 0 command in
    let p1 = write_u16_le p0 1 (8 + length payload - 3) in
    let p2 = write_u32_le p1 3 address in
    let p3 = store p2 7 (low_byte padding) in blit p3 8 payload

unfoldable pub data_packet : ℕ → ℕ → ℕ → List ℕ → Result Fault (List ℕ)
data_packet command address padding payload = do
  throw_if (not (command == Command.program) && not (command == Command.verify)) bad_data_command
  throw_if (ltb 0xffffffff address) bad_address
  throw_if (ltb program_chunk_bytes (length payload)) payload_too_long
  ok (fill_data_packet command address padding payload)

unfoldable pub isp_end_packet : ℕ → List ℕ
isp_end_packet reason = Command.isp_end ∷ 0x01 ∷ 0x00 ∷ low_byte reason ∷ []
