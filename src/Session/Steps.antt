-- ===== src/Session/Steps.antt =====
-- site/flash-session.js, statement by statement. Arguments that must be functions or byte arrays are
-- so by their types. The wiping of the key and of the configuration payload in `finally` is left
-- out: both are the function's own copies, and nothing reads them afterwards.
use frogalert.Prelude.{
  ℕ, zero, suc, ◌+◌, ◌*◌, ◌/◌, ◌%◌, max, Bool, not, List, [], ◌∷◌, ◌++◌, length, ltb, ◌==◌, ok,
  false,
}
use frogalert.Protocol.Image.{ceil_div}
use frogalert.Protocol.{program_chunk_bytes, sector_bytes, ch582_flash_bytes, expected_chip_id}
use frogalert.Protocol.Responses.{
  Identity, parse_identity, xor_chunk, BootConfig, checksum_from, parse_config_registers,
  parse_config, is_reset_config, derive_xor_key,
}
use frogalert.Protocol.Packets.{
  isp_key_packet, data_packet, identify_packet, erase_packet, reset_config_packet,
  read_config_packet,
}
use frogalert.Prelude.Bytes.{slice}
use frogalert.Protocol.Command
use frogalert.Session.{
  Environment, Event, M, ◌>>=◌, ◌>>◌, return, throw_if, checked, reset_not_accepted,
  verify_mismatch, empty_image, bad_key_checksum, misaligned_image, bad_erase_count,
  erase_exceeds_flash,
}

pub record Info : Type 0 where
  pub identity : Identity
  pub config : BootConfig

pub record Done : Type 0 where
  pub chunks : ℕ
  pub reset_acknowledged : Bool

-- `response[0] === value`: an empty response has no first byte, and equals no value.
unfoldable pub first_is : List ℕ → ℕ → Bool
first_is [] value = false
first_is (byte ∷ rest) value = byte == value

module _ {W : Type 0} (env : Environment W) where
  -- `await transfer(packet)`
  unfoldable pub transfer : List ℕ → M W (List ℕ)
  transfer packet s =
      let (r, w) = env.transfer packet s.world in
      (r, record { world = w; sent = s.sent ++ packet ∷ []; events = s.events })

  -- What the callback throws is dropped.
  unfoldable pub emit : Event → M W (Unit {0})
  emit e s =
      let (_, w) = env.on_event e s.world in
      (ok tt, record { world = w; sent = s.sent; events = s.events ++ e ∷ [] })

  unfoldable pub random_byte : M W ℕ
  random_byte s = let (r, w) = env.random_byte s.world in (r, record s { world = w })

  unfoldable pub wait : ℕ → M W (Unit {0})
  wait ms s = let (r, w) = env.wait ms s.world in (r, record s { world = w })

  unfoldable pub reset : M W Bool
  reset s = let (r, w) = env.reset s.world in (r, record s { world = w })

  unfoldable pub read_bootloader_info : M W Info
  read_bootloader_info = do
    identity ← checked (parse_identity (← transfer (identify_packet 0 0)))
    config_payload ← transfer (read_config_packet 0x1f)
    config ← checked (parse_config config_payload)
    return (record { identity = identity; config = config })

  unfoldable pub begin_key_session : List ℕ → M W (Unit {0})
  begin_key_session key = do
    response ← transfer isp_key_packet
    throw_if (not (first_is response (checksum_from 0 key))) bad_key_checksum

  -- The chunk at an index, enciphered in a packet of its own with a random padding byte.
  unfoldable pub send_chunk : ℕ → List ℕ → List ℕ → ℕ → M W (List ℕ)
  send_chunk command padded key index = do
    let address = index * program_chunk_bytes
    let chunk = slice padded address (address + program_chunk_bytes)
    padding ← random_byte
    cipher ← checked (xor_chunk chunk key)
    packet ← checked (data_packet command address padding cipher)
    transfer packet

  -- The loops, with the number of chunks that are left.
  unfoldable pub program_chunks : List ℕ → List ℕ → ℕ → ℕ → ℕ → M W (Unit {0})
  program_chunks padded key chunks zero index = return tt
  program_chunks padded key chunks (suc left) index = do
    _ ← send_chunk Command.program padded key index
    emit (Event.program (index + 1) chunks)
    program_chunks padded key chunks left (index + 1)

  unfoldable pub verify_chunks : List ℕ → List ℕ → ℕ → ℕ → ℕ → M W (Unit {0})
  verify_chunks padded key chunks zero index = return tt
  verify_chunks padded key chunks (suc left) index = do
    response ← send_chunk Command.verify padded key index
    throw_if (not (first_is response 0x00)) (verify_mismatch (index * program_chunk_bytes))
    emit (Event.verify (index + 1) chunks)
    verify_chunks padded key chunks left (index + 1)

  -- The configuration reset with its readback.
  unfoldable pub reset_config : ℕ → M W (Unit {0})
  reset_config chunks = do
    emit (Event.config_reset chunks)
    packet ← checked reset_config_packet
    _ ← transfer packet
    reset_registers ← checked (parse_config_registers (← transfer (read_config_packet 0x07)))
    throw_if (not (is_reset_config reset_registers)) reset_not_accepted
    emit (Event.config_verified chunks)

  unfoldable pub erase_flash : ℕ → ℕ → M W (Unit {0})
  erase_flash erase_sectors chunks = do
    emit (Event.erase erase_sectors chunks)
    packet ← checked (erase_packet erase_sectors)
    _ ← transfer packet
    wait 1000

  unfoldable pub program_flash : List ℕ → List ℕ → ℕ → M W (Unit {0})
  program_flash padded key chunks = do
    emit (Event.program_key chunks)
    begin_key_session key
    program_chunks padded key chunks chunks 0
    padding ← random_byte
    packet ← checked (data_packet Command.program (length padded) padding [])
    _ ← transfer packet
    emit (Event.program_finalized chunks)
    wait 500

  unfoldable pub verify_flash : List ℕ → List ℕ → ℕ → M W (Unit {0})
  verify_flash padded key chunks = do
    emit (Event.verify_key chunks)
    begin_key_session key
    verify_chunks padded key chunks chunks 0

  -- The body of the `try` block.
  unfoldable pub run_session : List ℕ → ℕ → List ℕ → ℕ → M W Done
  run_session padded erase_sectors key chunks = do
    reset_config chunks
    erase_flash erase_sectors chunks
    program_flash padded key chunks
    verify_flash padded key chunks
    emit (Event.verified chunks)
    acknowledged ← reset
    emit (Event.complete chunks acknowledged)
    return (record { chunks = chunks; reset_acknowledged = acknowledged })

  unfoldable pub program_and_verify_firmware : List ℕ → ℕ → List ℕ → M W Done
  program_and_verify_firmware padded erase_sectors uid = do
    throw_if (length padded == 0) empty_image
    throw_if (not (length padded % sector_bytes == 0)) misaligned_image
    throw_if (not (erase_sectors == max 8 (length padded / sector_bytes + 1))) bad_erase_count
    throw_if (ltb ch582_flash_bytes (erase_sectors * sector_bytes)) erase_exceeds_flash
    key ← checked (derive_xor_key uid expected_chip_id)
    run_session padded erase_sectors key (ceil_div (length padded) program_chunk_bytes)
