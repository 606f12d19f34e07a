-- ===== src/Session/Script/Stages.antt =====
-- Each stage of the session (site/flash-session.js) sends its part of the script.
use frogalert.Prelude.{
  ℕ, zero, suc, ◌+◌, ◌*◌, ◌≡◌, refl, ap, List, [], ◌∷◌, ◌++◌, length, Result, ok, err, map-append,
  subst, not,
}
use frogalert.Protocol.Cipher.{xor_chunk-eq}
use frogalert.Protocol.{ch58x_reset_config}
use frogalert.Protocol.Packets.{
  isp_key_packet, data_packet, reset_config_packet, read_config_packet, erase_packet,
}
use frogalert.Session.Sends.{
  clear_padding, Sends, cleared, Sends-nothing, Sends-bind, Sends-checked-bind, Sends-throw_if,
  Sends-return, Sends-checked, Sends-throw_if-bind, Follows, finished, stopped,
}
use frogalert.Protocol.Responses.{xor_chunk, parse_config_registers, is_reset_config}
use frogalert.Protocol.Framing.{
  frame, data_packet_iff, reset_config_packet-frame, erase_packet_iff, read_config_packet-frame,
}
use frogalert.Prelude.Bytes.{slice}
use frogalert.Protocol.Command
use frogalert.Session.{
  Environment, Event, M, ◌>>=◌, ◌>>◌, throw_if, checked, SessionError, reset_not_accepted,
  verify_mismatch,
}
use frogalert.Session.Steps.{
  transfer, random_byte, send_chunk, begin_key_session, emit, reset, wait, program_chunks,
  verify_chunks, reset_config, verify_flash, program_flash, erase_flash, first_is,
}
use frogalert.Session.Script.{
  data_frame, cipher_at, chunk_frames, key_frame, reset_script, erase_script, program_script,
  verify_script,
}

module _ {W : Type 0} (env : Environment W) where
  pub Sends-transfer : (packet : List ℕ) → Sends (clear_padding packet ∷ []) (transfer env packet)
  unfolding transfer
  Sends-transfer packet s = keep (env.transfer packet s.world).0
    where
      same : cleared (s.sent ++ packet ∷ []) ≡ cleared s.sent ++ clear_padding packet ∷ []
      same = map-append clear_padding s.sent (packet ∷ [])

      keep :
          (r : Result SessionError (List ℕ))
          → Follows (clear_padding packet ∷ []) (cleared s.sent) (cleared (s.sent ++ packet ∷ [])) r
      keep (ok a) = finished same
      keep (err e) = stopped (clear_padding packet ∷ []) [] refl same

  pub Sends-emit : (e : Event) → Sends [] (emit env e)
  unfolding emit
  Sends-emit e = Sends-nothing (emit env e) (λ s. refl)

  Sends-random_byte : Sends [] (random_byte env)
  unfolding random_byte
  Sends-random_byte = Sends-nothing (random_byte env) (λ s. refl)

  Sends-wait : (ms : ℕ) → Sends [] (wait env ms)
  unfolding wait
  Sends-wait ms = Sends-nothing (wait env ms) (λ s. refl)

  pub Sends-reset : Sends [] (reset env)
  unfolding reset
  Sends-reset = Sends-nothing (reset env) (λ s. refl)

  Sends-begin_key_session : (key : List ℕ) → Sends (key_frame ∷ []) (begin_key_session env key)
  unfolding begin_key_session isp_key_packet
  Sends-begin_key_session key =
      Sends-bind (key_frame ∷ []) [] _ _ (Sends-transfer isp_key_packet) (λ r. Sends-throw_if _ _)

  -- One data packet, with whatever padding the environment draws.
  Sends-data :
      (command address padding : ℕ) (payload : List ℕ)
      → Sends
          (data_frame command address payload ∷ [])
          (checked (data_packet command address padding payload) >>= transfer env)
  Sends-data command address padding payload =
      Sends-checked-bind _ (data_packet command address padding payload) _ λ packet built.
        subst (λ p. Sends (p ∷ []) (transfer env packet))
          (ap clear_padding ((data_packet_iff command address padding payload packet).0 built).3)
          (Sends-transfer packet)

  Sends-send_chunk :
      (command : ℕ) (padded key : List ℕ) (index : ℕ)
      → Sends
          (data_frame command (index * 56) (cipher_at padded key index) ∷ [])
          (send_chunk env command padded key index)
  unfolding send_chunk
  Sends-send_chunk command padded key index =
      Sends-bind [] _ (random_byte env) _ Sends-random_byte λ padding.
        Sends-checked-bind _ (xor_chunk (slice padded (index * 56) (index * 56 + 56)) key) _
          λ cipher made.
            subst
              (λ c.
                Sends (data_frame command (index * 56) c ∷ [])
                  (checked (data_packet command (index * 56) padding cipher) >>= transfer env))
              (xor_chunk-eq _ _ _ made) (Sends-data command (index * 56) padding cipher)

  Sends-program_chunks :
      (padded key : List ℕ) (chunks left index : ℕ)
      → Sends
          (chunk_frames Command.program padded key left index)
          (program_chunks env padded key chunks left index)
  unfolding program_chunks
  Sends-program_chunks padded key chunks zero index = Sends-return tt
  Sends-program_chunks padded key chunks (suc left) index =
      Sends-bind (data_frame Command.program (index * 56) (cipher_at padded key index) ∷ []) _ _ _
        (Sends-send_chunk Command.program padded key index)
        λ _.
          Sends-bind [] _ _ _ (Sends-emit _)
            λ _. Sends-program_chunks padded key chunks left (index + 1)

  Sends-verify_chunks :
      (padded key : List ℕ) (chunks left index : ℕ)
      → Sends
          (chunk_frames Command.verify padded key left index)
          (verify_chunks env padded key chunks left index)
  unfolding verify_chunks
  Sends-verify_chunks padded key chunks zero index = Sends-return tt
  Sends-verify_chunks padded key chunks (suc left) index =
      let rest : M W (Unit {0}) =
        emit env (Event.verify (index + 1) chunks)
        >> verify_chunks env padded key chunks left (index + 1) in
      Sends-bind (data_frame Command.verify (index * 56) (cipher_at padded key index) ∷ []) _
        (send_chunk env Command.verify padded key index) _
        (Sends-send_chunk Command.verify padded key index)
        λ response.
          Sends-throw_if-bind _ (not (first_is response 0x00)) (verify_mismatch (index * 56)) rest
            λ _.
              Sends-bind [] _ (emit env (Event.verify (index + 1) chunks)) _ (Sends-emit _)
                λ _. Sends-verify_chunks padded key chunks left (index + 1)

  check_readback :
      (chunks : ℕ) (response : List ℕ)
      → Sends [] (
          checked (parse_config_registers response) >>= λ registers.
          throw_if (not (is_reset_config registers)) reset_not_accepted
          >> emit env (Event.config_verified chunks))
  check_readback chunks response =
      Sends-bind [] [] (checked (parse_config_registers response)) _ (Sends-checked _) λ registers.
        Sends-bind [] [] (throw_if (not (is_reset_config registers)) reset_not_accepted) _
          (Sends-throw_if _ _) λ _. Sends-emit (Event.config_verified chunks)

  pub Sends-reset_config : (chunks : ℕ) → Sends reset_script (reset_config env chunks)
  unfolding reset_config
  Sends-reset_config chunks =
      Sends-bind [] _ (emit env (Event.config_reset chunks)) _ (Sends-emit _) λ _.
        Sends-checked-bind _ reset_config_packet _ λ packet built.
          Sends-bind
            (clear_padding (frame Command.write_config (0x07 ∷ 0 ∷ ch58x_reset_config)) ∷ []) _
            (transfer env packet) _
            (let e : packet ≡ frame Command.write_config (0x07 ∷ 0 ∷ ch58x_reset_config) =
                cc (built, reset_config_packet-frame) in
              subst (λ p. Sends (clear_padding p ∷ []) (transfer env packet)) e
                (Sends-transfer packet))
            λ _.
              Sends-bind (frame Command.read_config (0x07 ∷ 0 ∷ []) ∷ []) []
                (transfer env (read_config_packet 0x07)) _
                (subst (λ p. Sends (clear_padding p ∷ []) (transfer env (read_config_packet 0x07)))
                  (read_config_packet-frame 0x07) (Sends-transfer (read_config_packet 0x07)))
                (check_readback chunks)

  pub Sends-erase_flash :
      (erase_sectors chunks : ℕ)
      → Sends (erase_script erase_sectors) (erase_flash env erase_sectors chunks)
  unfolding erase_flash
  Sends-erase_flash erase_sectors chunks =
      Sends-bind [] _ (emit env (Event.erase erase_sectors chunks)) _ (Sends-emit _) λ _.
        Sends-checked-bind _ (erase_packet erase_sectors) _ λ packet built.
          Sends-bind (erase_script erase_sectors) [] (transfer env packet) _
            (subst (λ p. Sends (clear_padding p ∷ []) (transfer env packet))
              ((erase_packet_iff erase_sectors packet).0 built).2 (Sends-transfer packet))
            λ _. Sends-wait 1000

  finish_program :
      (size padding chunks : ℕ)
      → Sends (data_frame Command.program size [] ∷ []) (
          checked (data_packet Command.program size padding []) >>= λ packet.
          transfer env packet >>= λ _. emit env (Event.program_finalized chunks) >> wait env 500)
  finish_program size padding chunks =
      Sends-checked-bind _ (data_packet Command.program size padding []) _ λ packet built.
        Sends-bind (data_frame Command.program size [] ∷ []) [] (transfer env packet) _
          (subst (λ p. Sends (p ∷ []) (transfer env packet))
            (ap clear_padding ((data_packet_iff Command.program size padding [] packet).0 built).3)
            (Sends-transfer packet))
          λ _.
            Sends-bind [] [] (emit env (Event.program_finalized chunks)) _ (Sends-emit _)
              λ _. Sends-wait 500

  pub Sends-program_flash :
      (padded key : List ℕ) (chunks : ℕ)
      → Sends (program_script padded key chunks) (program_flash env padded key chunks)
  unfolding program_flash
  Sends-program_flash padded key chunks =
      Sends-bind [] _ (emit env (Event.program_key chunks)) _ (Sends-emit _) λ _.
        Sends-bind (key_frame ∷ []) _ (begin_key_session env key) _ (Sends-begin_key_session key)
          λ _.
            Sends-bind (chunk_frames Command.program padded key chunks 0) _
              (program_chunks env padded key chunks chunks 0) _
              (Sends-program_chunks padded key chunks chunks 0)
              λ _.
                Sends-bind [] _ (random_byte env) _ Sends-random_byte
                  λ padding. finish_program (length padded) padding chunks

  pub Sends-verify_flash :
      (padded key : List ℕ) (chunks : ℕ)
      → Sends (verify_script padded key chunks) (verify_flash env padded key chunks)
  unfolding verify_flash
  Sends-verify_flash padded key chunks =
      Sends-bind [] _ (emit env (Event.verify_key chunks)) _ (Sends-emit _) λ _.
        Sends-bind (key_frame ∷ []) _ (begin_key_session env key) _ (Sends-begin_key_session key)
          λ _. Sends-verify_chunks padded key chunks chunks 0
