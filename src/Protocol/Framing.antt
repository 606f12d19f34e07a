-- ===== src/Protocol/Framing.antt =====
-- site/wchisp-protocol.js: each packet is a frame, a command byte, the length of the body as a
-- little-endian 16-bit field and the body.
use frogalert.Prelude.{
  ℕ, ◌+◌, ◌*◌, ◌/◌, ◌%◌, ◌^◌, ◌≤◌, ◌<◌, bit_and, ◌≡◌, refl, ap, ◌⊎◌, inl, inr, ◌∙◌, ◌↔◌, List, [],
  ◌∷◌, ◌++◌, arith, length, replicate, replicate-add, length-replicate, ok, ◌-◌, Result, drop, ltb,
  set, take, throw_if, ◌==◌, ◌>>=◌,
}
use frogalert.Protocol.{ch58x_reset_config}
use frogalert.Prelude.Bits.{bit_and_mask}
use frogalert.Prelude.Bytes.{zeros, blit, blit_tail}
use frogalert.Protocol.Command
use frogalert.Protocol.Packets.{
  low_byte, u32, identify_packet, identify_magic, read_config_packet, write_config_packet,
  isp_key_packet, erase_packet, data_packet, isp_end_packet, shr, fill_data_packet,
  fill_config_packet, reset_config_packet,
}

-- The frame of a command, described apart from the code.
abbrev pub frame : ℕ → List ℕ → List ℕ
frame command body = command ∷ length body % 256 ∷ length body / 256 ∷ body

-- The four bytes of a 32-bit number, lowest first.
abbrev pub le32 : ℕ → List ℕ
le32 n = n % 256 ∷ n / 2 ^ 8 % 256 ∷ n / 2 ^ 16 % 256 ∷ n / 2 ^ 24 % 256 ∷ []

pub low_byte_lem : (n : ℕ) → low_byte n ≡ n % 256
low_byte_lem n = omega (arith, bit_and_mask 8 (u32 n))

pub ruleset byte_laws = (arith, low_byte_lem)

-- A zeroed array with `k` bytes in front of the payload.
pub zeros-add :
    (k : ℕ) (payload : List ℕ) → zeros (k + length payload) ≡ zeros k ++ zeros (length payload)
zeros-add k payload = replicate-add k (length payload) 0

fill :
    (k : ℕ) (header payload : List ℕ)
    → length header ≡ k
    → blit (header ++ zeros (length payload)) k payload ≡ header ++ payload
fill k header payload e =
    blit_tail k header (zeros (length payload)) payload e (length-replicate (length payload) 0)

abbrev pub data_body : ℕ → ℕ → List ℕ → List ℕ
data_body address padding payload = le32 address ++ padding % 256 ∷ payload

-- What the stores leave in front of the payload.
stored_header : ℕ → ℕ → List ℕ → List ℕ
stored_header command size rest =
    command % 256 ∷ low_byte size % 256 ∷ low_byte (shr size 8) % 256 ∷ rest

stored_u32 : ℕ → List ℕ → List ℕ
stored_u32 n rest =
    low_byte n % 256
    ∷ low_byte (shr n 8) % 256
    ∷ low_byte (shr n 16) % 256
    ∷ low_byte (shr n 24) % 256
    ∷ rest

stored_u32_lem : (n : ℕ) (rest : List ℕ) → n < 2 ^ 32 → stored_u32 n rest ≡ le32 n ++ rest
unfolding stored_u32
stored_u32_lem n rest h = ground (
  arith,
  low_byte_lem n,
  low_byte_lem (shr n 8),
  low_byte_lem (shr n 16),
  low_byte_lem (shr n 24),
)

stored_header_lem :
    (command size : ℕ) (rest : List ℕ)
    → command < 256
    → length rest ≡ size
    → size < 2 ^ 16
    → stored_header command size rest ≡ frame command rest
unfolding stored_header
stored_header_lem command size rest c l s =
    ground (arith, low_byte_lem size, low_byte_lem (shr size 8))

fill_data_packet-frame :
    (command address padding : ℕ) (payload : List ℕ)
    → command < 256
    → address < 2 ^ 32
    → length payload ≤ 56
    → fill_data_packet command address padding payload
      ≡ frame command (data_body address padding payload)
unfolding fill_data_packet stored_header stored_u32
fill_data_packet-frame command address padding payload c a l = rw (zeros-add 8 payload) (
    fill 8 front payload refl
    ∙ ap (stored_header command size) body
    ∙ stored_header_lem command size (data_body address padding payload) c (omega arith)
        (omega arith))
  where
    size : ℕ
    size = 8 + length payload - 3

    front : List ℕ
    front = stored_header command size (stored_u32 address (low_byte padding % 256 ∷ []))

    body : stored_u32 address (low_byte padding % 256 ∷ payload) ≡ data_body address padding payload
    body =
        stored_u32_lem address (low_byte padding % 256 ∷ payload) a
        ∙ ground (arith, low_byte_lem padding)

fill_config_packet-frame :
    (mask : ℕ) (payload : List ℕ)
    → mask < 256
    → length payload ≡ 12
    → fill_config_packet mask payload ≡ frame Command.write_config (mask ∷ 0 ∷ payload)
unfolding fill_config_packet stored_header
fill_config_packet-frame mask payload m l =
    rw (zeros-add 5 payload)
      (fill 5 front payload refl ∙ ground (arith, low_byte_lem size, low_byte_lem (shr size 8)))
  where
    size : ℕ
    size = 2 + length payload

    front : List ℕ
    front = stored_header Command.write_config size (mask % 256 ∷ 0 ∷ [])

-- The data packet, on every branch: it is built exactly for a program or verify command, a 32-bit
-- address and at most 56 bytes, and is the frame of the little-endian address, the low byte of the
-- padding and the payload.
pub data_packet_iff :
    (command address padding : ℕ) (payload packet : List ℕ)
    → (data_packet command address padding payload ≡ ok packet) ↔ (
        ((command ≡ Command.program) ⊎ (command ≡ Command.verify))
        × (address < 2 ^ 32)
        × (length payload ≤ 56)
        × (packet ≡ frame command (data_body address padding payload)))
unfolding data_packet
data_packet_iff command address padding payload packet =
    ground (arith, fill_data_packet-frame command address padding payload)

-- The configuration write, on every branch: it is built exactly for a mask of one byte and twelve
-- bytes of registers, and is the frame of the mask, a zero and the registers.
pub write_config_packet_iff :
    (mask : ℕ) (payload packet : List ℕ)
    → (write_config_packet mask payload ≡ ok packet) ↔ (
        (mask < 256)
        × (length payload ≡ 12)
        × (packet ≡ frame Command.write_config (mask ∷ 0 ∷ payload)))
unfolding write_config_packet
write_config_packet_iff mask payload packet = ground (arith, fill_config_packet-frame mask payload)

-- The erase packet, on every branch: it is built exactly for 1 to 2 ^ 32 - 1 sectors, and is the
-- frame of their number in four bytes, lowest first.
pub erase_packet_iff :
    (sectors : ℕ) (packet : List ℕ)
    → (erase_packet sectors ≡ ok packet)
      ↔ ((1 ≤ sectors) × (sectors < 2 ^ 32) × (packet ≡ frame Command.erase (le32 sectors)))
unfolding erase_packet
erase_packet_iff sectors packet = ground (
  arith,
  low_byte_lem sectors,
  low_byte_lem (shr sectors 8),
  low_byte_lem (shr sectors 16),
  low_byte_lem (shr sectors 24),
)

-- The packets that carry no checked value are frames too: identification with its two bytes and the
-- magic text, the configuration read with its mask, the empty key and the end of the session.
pub fixed_packets-frame :
    (chip_id device_type mask reason : ℕ)
    → (identify_packet chip_id device_type
        ≡ frame Command.identify (chip_id % 256 ∷ device_type % 256 ∷ identify_magic))
      × (read_config_packet mask ≡ frame Command.read_config (mask % 256 ∷ 0 ∷ []))
      × (isp_key_packet ≡ frame Command.isp_key (zeros 30))
      × (isp_end_packet reason ≡ frame Command.isp_end (reason % 256 ∷ []))
unfolding identify_packet read_config_packet isp_key_packet isp_end_packet
fixed_packets-frame chip_id device_type mask reason =
    (refl, refl, refl, ground (arith, low_byte_lem reason))

le32-injective : (m n : ℕ) → m < 2 ^ 32 → n < 2 ^ 32 → le32 m ≡ le32 n → m ≡ n
le32-injective m n p q h = ground arith

-- A data packet determines what was put in: its command, its address, its padding byte and its
-- payload can be had back.
pub data_packet-injective :
    (c c' a a' p p' : ℕ) (d d' packet : List ℕ)
    → data_packet c a p d ≡ ok packet
    → data_packet c' a' p' d' ≡ ok packet
    → (c ≡ c') × (a ≡ a') × (p % 256 ≡ p' % 256) × (d ≡ d')
data_packet-injective c c' a a' p p' d d' packet h h' =
    let (_, bound, _, e) = (data_packet_iff c a p d packet).0 h in
    let (_, bound', _, e') = (data_packet_iff c' a' p' d' packet).0 h' in
    ground (arith, le32-injective a a' bound bound')

pub reset_config_packet-frame :
    reset_config_packet ≡ ok (frame Command.write_config (0x07 ∷ 0 ∷ ch58x_reset_config))
unfolding reset_config_packet fill_config_packet
reset_config_packet-frame = refl

pub read_config_packet-frame :
    (mask : ℕ) → read_config_packet mask ≡ frame Command.read_config (mask % 256 ∷ 0 ∷ [])
unfolding read_config_packet
read_config_packet-frame mask = refl
