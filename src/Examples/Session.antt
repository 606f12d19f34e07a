-- ===== src/Examples/Session.antt =====
-- The programming session (site/flash-session.js) with a simulated device: a bootloader that keeps
-- its code flash as the list of the bytes programmed so far.
use frogalert.Protocol.Command
use frogalert.Session.{Environment, State, SessionError}
use frogalert.Protocol.Cipher.{xor_from_twice}
use frogalert.Session.Verified.{program_and_verify_firmware-verified}
use frogalert.Session.Confirm.{IsHonest}
use frogalert.Protocol.Framing.{frame, data_packet_iff, le32}
use frogalert.Protocol.{ch58x_canonical_reset_readback}
use frogalert.Prelude.Bytes.{same_bytes, byte_at, slice, same_bytes-eq, byte_at-slice}
use frogalert.Protocol.Packets.{
  data_packet, reset_config_packet, fill_config_packet, read_config_packet, erase_packet,
  fill_data_packet, isp_key_packet,
}
use frogalert.Session.Steps.{
  program_and_verify_firmware, run_session, reset_config, erase_flash, program_flash, verify_flash,
  begin_key_session, program_chunks, verify_chunks, send_chunk, transfer, emit, reset, random_byte,
  wait, first_is,
}
use frogalert.Protocol.Responses.{
  derive_xor_key, xor_from, xor_chunk, parse_config_registers, is_reset_config,
}
use frogalert.Prelude.{
  ℕ, ◌+◌, ◌*◌, ◌^◌, ◌<◌, ◌≡◌, refl, sym, ◌∙◌, true, List, [], ◌∷◌, ◌++◌, Result, ok, length, drop,
  replicate, ◌==◌, if◌then◌else◌, arith, Bool-cases, inl, subst, ap, ◌%◌, inr, false,
}

abbrev pub uid : List ℕ
uid = 1 ∷ 0 ∷ 2 ∷ 0 ∷ 3 ∷ 0 ∷ 6 ∷ 0 ∷ []

abbrev key : List ℕ
key = replicate 7 12 ++ 142 ∷ []

derived : derive_xor_key uid 0x82 ≡ ok key
unfolding derive_xor_key
derived = refl

unfoldable pub address_of : List ℕ → ℕ
address_of packet =
    byte_at packet 3
    + byte_at packet 4 * 2 ^ 8
    + byte_at packet 5 * 2 ^ 16
    + byte_at packet 6 * 2 ^ 24

unfoldable pub plain_of : List ℕ → List ℕ
plain_of packet = xor_from key 0 (drop 8 packet)

unfoldable pub verdict : List ℕ → List ℕ → List ℕ
verdict packet flash =
    let a = address_of packet in
    let plain = plain_of packet in
    if same_bytes (slice flash a (a + length plain)) plain then 0 ∷ [] else 1 ∷ []

-- What a packet that is no verify command does.
unfoldable pub obey : List ℕ → List ℕ → List ℕ × List ℕ
obey packet flash =
    if byte_at packet 0 == Command.erase
    then ([], [])
    else if byte_at packet 0 == Command.program
    then ([], flash ++ plain_of packet)
    else if byte_at packet 0 == Command.isp_key
    then (226 ∷ [], flash)
    else (0 ∷ 0 ∷ ch58x_canonical_reset_readback, flash)

unfoldable pub answer : List ℕ → List ℕ → Result SessionError (List ℕ) × List ℕ
answer packet flash =
    if byte_at packet 0 == Command.verify
    then (ok (verdict packet flash), flash)
    else (ok (obey packet flash).0, (obey packet flash).1)

device : Environment (List ℕ)
device = record {
  transfer = answer;
  reset = λ flash. (ok true, flash);
  random_byte = λ flash. (ok 7, flash);
  wait = λ ms flash. (ok tt, flash);
  on_event = λ e flash. (ok tt, flash);
}

abbrev pub image : List ℕ
image = (1 ∷ 2 ∷ 3 ∷ []) ++ replicate 1021 255

abbrev start : State (List ℕ)
start = record { world = []; sent = []; events = [] }

abbrev after : State (List ℕ)
after = (program_and_verify_firmware device image 8 uid start).1

succeeds :
    program_and_verify_firmware device image 8 uid start
    ≡ (ok (record { chunks = 19; reset_acknowledged = true }), after)
unfolding first_is program_and_verify_firmware run_session reset_config erase_flash program_flash
    verify_flash begin_key_session program_chunks verify_chunks send_chunk transfer emit reset
    random_byte wait device answer verdict obey plain_of address_of derive_xor_key
    reset_config_packet fill_config_packet read_config_packet erase_packet data_packet
    fill_data_packet isp_key_packet xor_chunk parse_config_registers is_reset_config same_bytes
succeeds = refl

-- What the device reads of a verify packet.
address_of-frame :
    (address padding : ℕ) (payload : List ℕ)
    → address < 2 ^ 32
    → address_of (frame Command.verify (le32 address ++ padding % 256 ∷ payload)) ≡ address
unfolding address_of
address_of-frame address padding payload h = omega arith

plain_of-frame :
    (address padding : ℕ) (chunk : List ℕ)
    → plain_of (frame Command.verify (le32 address ++ padding % 256 ∷ xor_from key 0 chunk)) ≡ chunk
unfolding plain_of
plain_of-frame address padding chunk = xor_from_twice key 0 chunk

matched :
    (found chunk : List ℕ)
    → first_is (if same_bytes found chunk then 0 ∷ [] else 1 ∷ []) 0 ≡ true
    → found ≡ chunk
unfolding first_is
matched found chunk h = elim (Bool-cases (same_bytes found chunk)) [
  | inl same ↦ same_bytes-eq found chunk same
  | inr other ↦ let bad : false ≡ true = rw other at h in absurd (cc bad)
]

-- Only a flash that holds the chunk confirms it.
verdict_told :
    (address padding : ℕ) (chunk packet : List ℕ) (flash : List ℕ) (j : ℕ)
    → data_packet Command.verify address padding (xor_from key 0 chunk) ≡ ok packet
    → first_is (verdict packet flash) 0 ≡ true
    → j < length chunk
    → byte_at flash (address + j) ≡ byte_at chunk j
unfolding verdict
verdict_told address padding chunk packet flash j built zero_byte short =
    let (_, bound, _, e) =
      (data_packet_iff Command.verify address padding (xor_from key 0 chunk) packet).0 built in
    let told : first_is
          (verdict (frame Command.verify (le32 address ++ padding % 256 ∷ xor_from key 0 chunk))
            flash)
          0
        ≡ true =
      subst (λ p. first_is (verdict p flash) 0 ≡ true) e zero_byte in
    let plain : first_is
          (if same_bytes (slice flash address (address + length chunk)) chunk
            then 0 ∷ []
            else 1 ∷ [])
          0
        ≡ true =
      rw
        (
          address_of-frame address padding (xor_from key 0 chunk) bound,
          plain_of-frame address padding chunk,
        )
        at told in
    sym (byte_at-slice flash address (length chunk) j short)
    ∙ ap (λ l. byte_at l j) (matched (slice flash address (address + length chunk)) chunk plain)

answer-verify :
    (address padding : ℕ) (payload packet flash : List ℕ)
    → data_packet Command.verify address padding payload ≡ ok packet
    → answer packet flash ≡ (ok (verdict packet flash), flash)
unfolding answer
answer-verify address padding payload packet flash built =
    let (_, _, _, e) = (data_packet_iff Command.verify address padding payload packet).0 built in
    subst (λ p. answer p flash ≡ (ok (verdict p flash), flash)) (sym e) refl

device-IsHonest : IsHonest device key byte_at
unfolding device
device-IsHonest = record {
  answers = λ address padding chunk packet response flash j built came zero_byte short.
      let e = answer-verify address padding (xor_from key 0 chunk) packet flash built in
      let same : verdict packet flash ≡ response = cc (e, came) in
      verdict_told address padding chunk packet flash j built
        (subst (λ r. first_is r 0 ≡ true) (sym same) zero_byte) short;
  verify_keeps = λ address padding payload packet flash i built.
      ap (λ r. byte_at r.1 i) (answer-verify address padding payload packet flash built);
  random_keeps = λ flash i. refl;
  event_keeps = λ e flash i. refl;
  reset_keeps = λ flash i. refl;
}

program_and_verify_firmware-verified_example : byte_at after.world 2 ≡ byte_at image 2
program_and_verify_firmware-verified_example =
    program_and_verify_firmware-verified device image key byte_at device-IsHonest 8 uid start after
      (record { chunks = 19; reset_acknowledged = true }) derived succeeds 2 (omega arith)
