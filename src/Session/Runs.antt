-- ===== src/Session/Runs.antt =====
-- What a programming session (site/flash-session.js) keeps of a property of its state that its
-- callbacks keep: `I` holds up to the reset command, `E` holds if it returns, `J` if it throws.
use frogalert.Prelude.{
  ℕ, zero, suc, ◌+◌, ◌*◌, ◌/◌, ◌%◌, max, Bool, true, false, not, List, [], length, ltb, ◌==◌,
  Result, ok, err,
}
use frogalert.Protocol.{Fault}
use frogalert.Protocol.Responses.{
  derive_xor_key, parse_config_registers, is_reset_config, xor_chunk,
}
use frogalert.Protocol.Packets.{
  isp_key_packet, data_packet, erase_packet, reset_config_packet, read_config_packet,
}
use frogalert.Protocol.Command
use frogalert.Prelude.Bytes.{slice}
use frogalert.Session.{Environment, State, Event, M, SessionError, resume, ◌>>=◌, throw_if, checked}
use frogalert.Session.Steps.{
  transfer, emit, random_byte, wait, reset, begin_key_session, send_chunk, program_chunks,
  verify_chunks, reset_config, erase_flash, program_flash, verify_flash, run_session,
  program_and_verify_firmware, first_is,
}

abbrev pub After :
    {W A : Type 0}
    → (State W → Type 0)
    → (State W → Type 0)
    → Result SessionError A × State W
    → Type 0
After K J (ok a, s) = K s
After K J (err e, s) = J s

abbrev pub Runs :
    {W A : Type 0} → (State W → Type 0) → M W A → (State W → Type 0) → (State W → Type 0) → Type 0
Runs {W} I m K J = (s : State W) → I s → After K J (m s)

-- What the callbacks do to the properties.
pub record Respects {W : Type 0} (env : Environment W) (I E J : State W → Type 0) : Type 0 where
  pub transfers : (packet : List ℕ) → Runs I (transfer env packet) I J
  pub emits : (e : Event) → Runs I (emit env e) I J
  pub randoms : Runs I (random_byte env) I J
  pub waits : (ms : ℕ) → Runs I (wait env ms) I J
  pub resets : Runs I (reset env) E J
  pub ends : (e : Event) → Runs E (emit env e) E J
  pub stops : (s : State W) → I s → J s

After-resume :
    {W A B : Type 0} (K L J : State W → Type 0) (r : Result SessionError A × State W)
    (f : A → M W B)
    → After K J r
    → ((a : A) → Runs K (f a) L J)
    → After L J (resume r f)
After-resume K L J (ok a, s) f q k = k a s q
After-resume K L J (err e, s) f q k = q

Runs-bind :
    {W A B : Type 0} (I K L J : State W → Type 0) (m : M W A) (f : A → M W B)
    → Runs I m K J
    → ((a : A) → Runs K (f a) L J)
    → Runs I (m >>= f) L J
Runs-bind I K L J m f h k s p = After-resume K L J (m s) f (h s p) k

Runs-checked :
    {W A : Type 0} (I J : State W → Type 0) (r : Result Fault A)
    → ((s : State W) → I s → J s)
    → Runs I (checked r) I J
Runs-checked I J (ok a) stop s p = p
Runs-checked I J (err e) stop s p = stop s p

Runs-throw_if :
    {W : Type 0} (I J : State W → Type 0) (b : Bool) (e : SessionError)
    → ((s : State W) → I s → J s)
    → Runs I (throw_if b e) I J
Runs-throw_if I J true e stop s p = stop s p
Runs-throw_if I J false e stop s p = p

module _ {W : Type 0} (env : Environment W) (I E J : State W → Type 0)
    (h : Respects env I E J) where
  -- One after the other, with the first property kept.
  both :
      {A B : Type 0} (L : State W → Type 0) (m : M W A) (f : A → M W B)
      → Runs I m I J
      → ((a : A) → Runs I (f a) L J)
      → Runs I (m >>= f) L J
  both L m f p q = Runs-bind I I L J m f p q

  tests : (b : Bool) (e : SessionError) → Runs I (throw_if b e) I J
  tests b e = Runs-throw_if I J b e h.stops

  checks : {A : Type 0} (r : Result Fault A) → Runs I (checked r) I J
  checks r = Runs-checked I J r h.stops

  Runs-begin_key_session : (key : List ℕ) → Runs I (begin_key_session env key) I J
  unfolding begin_key_session
  Runs-begin_key_session key =
      both _ (transfer env isp_key_packet) _ (h.transfers isp_key_packet) λ response. tests _ _

  Runs-send_chunk :
      (command : ℕ) (padded key : List ℕ) (index : ℕ)
      → Runs I (send_chunk env command padded key index) I J
  unfolding send_chunk
  Runs-send_chunk command padded key index = both _ (random_byte env) _ h.randoms λ padding.
      both _ (checked (xor_chunk (slice padded (index * 56) (index * 56 + 56)) key)) _ (checks _)
        λ cipher.
          both _ (checked (data_packet command (index * 56) padding cipher)) _ (checks _)
            λ packet. h.transfers packet

  Runs-program_chunks :
      (padded key : List ℕ) (chunks left index : ℕ)
      → Runs I (program_chunks env padded key chunks left index) I J
  unfolding program_chunks
  Runs-program_chunks padded key chunks zero index s p = p
  Runs-program_chunks padded key chunks (suc left) index s p =
      (both _ (send_chunk env Command.program padded key index) _
          (Runs-send_chunk _ padded key index)
          λ response.
            both _ (emit env (Event.program (index + 1) chunks)) _ (h.emits _)
              λ _. Runs-program_chunks padded key chunks left (index + 1))
        s p

  Runs-verify_chunks :
      (padded key : List ℕ) (chunks left index : ℕ)
      → Runs I (verify_chunks env padded key chunks left index) I J
  unfolding verify_chunks
  Runs-verify_chunks padded key chunks zero index s p = p
  Runs-verify_chunks padded key chunks (suc left) index s p =
      (both _ (send_chunk env Command.verify padded key index) _
          (Runs-send_chunk _ padded key index)
          λ response. both _ (throw_if (not (first_is response 0)) _) _ (tests _ _) λ _.
            both _ (emit env (Event.verify (index + 1) chunks)) _ (h.emits _)
              λ _. Runs-verify_chunks padded key chunks left (index + 1))
        s p

  Runs-reset_config : (chunks : ℕ) → Runs I (reset_config env chunks) I J
  unfolding reset_config
  Runs-reset_config chunks = both _ (emit env (Event.config_reset chunks)) _ (h.emits _) λ _.
      both _ (checked reset_config_packet) _ (checks _) λ packet.
        both _ (transfer env packet) _ (h.transfers packet) λ _.
          both _ (transfer env (read_config_packet 0x07)) _ (h.transfers _) λ payload.
            both _ (checked (parse_config_registers payload)) _ (checks _) λ registers.
              both _ (throw_if (not (is_reset_config registers)) _) _ (tests _ _)
                λ _. h.emits (Event.config_verified chunks)

  Runs-erase_flash : (erase_sectors chunks : ℕ) → Runs I (erase_flash env erase_sectors chunks) I J
  unfolding erase_flash
  Runs-erase_flash erase_sectors chunks =
      both _ (emit env (Event.erase erase_sectors chunks)) _ (h.emits _) λ _.
        both _ (checked (erase_packet erase_sectors)) _ (checks _)
          λ packet. both _ (transfer env packet) _ (h.transfers packet) λ _. h.waits 1000

  Runs-program_flash :
      (padded key : List ℕ) (chunks : ℕ) → Runs I (program_flash env padded key chunks) I J
  unfolding program_flash
  Runs-program_flash padded key chunks =
      both _ (emit env (Event.program_key chunks)) _ (h.emits _) λ _.
        both _ (begin_key_session env key) _ (Runs-begin_key_session key) λ _.
          both _ (program_chunks env padded key chunks chunks 0) _
            (Runs-program_chunks padded key chunks chunks 0)
            λ _. both _ (random_byte env) _ h.randoms λ padding.
              both _ (checked (data_packet Command.program (length padded) padding [])) _ (checks _)
                λ packet. both _ (transfer env packet) _ (h.transfers packet) λ _.
                  both _ (emit env (Event.program_finalized chunks)) _ (h.emits _) λ _. h.waits 500

  Runs-verify_flash :
      (padded key : List ℕ) (chunks : ℕ) → Runs I (verify_flash env padded key chunks) I J
  unfolding verify_flash
  Runs-verify_flash padded key chunks =
      both _ (emit env (Event.verify_key chunks)) _ (h.emits _) λ _.
        both _ (begin_key_session env key) _ (Runs-begin_key_session key)
          λ _. Runs-verify_chunks padded key chunks chunks 0

  Runs-run_session :
      (padded : List ℕ) (erase_sectors : ℕ) (key : List ℕ) (chunks : ℕ)
      → Runs I (run_session env padded erase_sectors key chunks) E J
  unfolding run_session
  Runs-run_session padded erase_sectors key chunks =
      both _ (reset_config env chunks) _ (Runs-reset_config chunks) λ _.
        both _ (erase_flash env erase_sectors chunks) _ (Runs-erase_flash erase_sectors chunks) λ _.
          both _ (program_flash env padded key chunks) _ (Runs-program_flash padded key chunks) λ _.
            both _ (verify_flash env padded key chunks) _ (Runs-verify_flash padded key chunks) λ _.
              both _ (emit env (Event.verified chunks)) _ (h.emits _) λ _.
                Runs-bind I E E J (reset env) _ h.resets λ acknowledged.
                  Runs-bind E E E J (emit env (Event.complete chunks acknowledged)) _ (h.ends _)
                    λ _ s p. p

  pub Runs-program_and_verify_firmware :
      (padded : List ℕ) (erase_sectors : ℕ) (uid : List ℕ)
      → Runs I (program_and_verify_firmware env padded erase_sectors uid) E J
  unfolding program_and_verify_firmware
  Runs-program_and_verify_firmware padded erase_sectors uid =
      both _ (throw_if (length padded == 0) _) _ (tests _ _) λ _.
        both _ (throw_if (not (length padded % 1024 == 0)) _) _ (tests _ _) λ _.
          both _ (throw_if (not (erase_sectors == max 8 (length padded / 1024 + 1))) _) _
            (tests _ _)
            λ _. both _ (throw_if (ltb (448 * 1024) (erase_sectors * 1024)) _) _ (tests _ _) λ _.
              both _ (checked (derive_xor_key uid 0x82)) _ (checks _)
                λ key. Runs-run_session padded erase_sectors key _
