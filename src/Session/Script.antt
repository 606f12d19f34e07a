-- ===== src/Session/Script.antt =====
-- The script of the programming session (site/flash-session.js): the packets that it sends, in
-- their order, with the padding byte cleared.
pub mod Stages
pub mod Whole
use frogalert.Prelude.{
  ℕ, zero, suc, ◌+◌, ◌*◌, ◌≤◌, ◌≡◌, refl, ap, sym, ◌∙◌, List, [], ◌∷◌, ◌++◌, map, length, Result,
  ok, err, map-append, subst, not, ◌==◌,
}
use mathlib.Core.Bool.{Bool, false, Bool}
use frogalert.Protocol.Cipher.{xor_chunk-eq}
use frogalert.Protocol.{ch58x_reset_config}
use frogalert.Protocol.Packets.{
  isp_key_packet, data_packet, reset_config_packet, read_config_packet, erase_packet,
}
use frogalert.Session.Sends.{
  clear_padding, Sends, cleared, Sends-nothing, Sends-bind, Sends-checked-bind, Sends-throw_if,
  Sends-return, Sends-checked, Sends-throw_if-bind, Follows, finished, stopped,
}
use frogalert.Protocol.Responses.{xor_from, xor_chunk, parse_config_registers, is_reset_config}
use frogalert.Protocol.Framing.{
  frame, le32, data_body, data_packet_iff, reset_config_packet-frame, erase_packet_iff,
  read_config_packet-frame,
}
use frogalert.Prelude.Bytes.{slice, zeros, byte_at}
use frogalert.Protocol.Command
use frogalert.Session.{
  Environment, State, Event, M, ◌>>=◌, ◌>>◌, throw_if, checked, SessionError, program_key,
  program_finalized, program_key, reset_not_accepted, verify_mismatch,
}
use frogalert.Session.Steps.{
  transfer, random_byte, send_chunk, begin_key_session, emit, reset, wait, program_chunks,
  verify_chunks, reset_config, verify_flash, program_flash, erase_flash,
}

-- A data packet with padding 0.
abbrev pub data_frame : ℕ → ℕ → List ℕ → List ℕ
data_frame command address payload = frame command (data_body address 0 payload)

-- The chunk at an index, enciphered.
abbrev pub cipher_at : List ℕ → List ℕ → ℕ → List ℕ
cipher_at padded key index = xor_from key 0 (slice padded (index * 56) (index * 56 + 56))

abbrev pub chunk_frames : ℕ → List ℕ → List ℕ → ℕ → ℕ → List (List ℕ)
chunk_frames command padded key zero index = []
chunk_frames command padded key (suc left) index =
    data_frame command (index * 56) (cipher_at padded key index)
    ∷ chunk_frames command padded key left (index + 1)

abbrev pub key_frame : List ℕ
key_frame = clear_padding (frame Command.isp_key (zeros 30))

abbrev pub reset_script : List (List ℕ)
reset_script =
    clear_padding (frame Command.write_config (0x07 ∷ 0 ∷ ch58x_reset_config))
    ∷ frame Command.read_config (0x07 ∷ 0 ∷ [])
    ∷ []

abbrev pub erase_script : ℕ → List (List ℕ)
erase_script erase_sectors = frame Command.erase (le32 erase_sectors) ∷ []

abbrev pub program_script : List ℕ → List ℕ → ℕ → List (List ℕ)
program_script padded key chunks =
    (key_frame ∷ [])
    ++ (chunk_frames Command.program padded key chunks 0
        ++ (data_frame Command.program (length padded) [] ∷ []))

abbrev pub verify_script : List ℕ → List ℕ → ℕ → List (List ℕ)
verify_script padded key chunks =
    (key_frame ∷ []) ++ chunk_frames Command.verify padded key chunks 0

abbrev pub script : List ℕ → ℕ → List ℕ → ℕ → List (List ℕ)
script padded erase_sectors key chunks =
    reset_script
    ++ (erase_script erase_sectors
        ++ (program_script padded key chunks ++ verify_script padded key chunks))
