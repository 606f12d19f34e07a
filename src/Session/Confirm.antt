-- ===== src/Session/Confirm.antt =====
-- The verify loop of a programming session (site/flash-session.js), with a device whose verify
-- command and whose other commands behave as the WCH ISP documentation says.
use frogalert.Session.Ensures.{
  Post, Ensures, Post-always, Ensures-bind, Ensures-throw_if-bind, Ensures-checked-bind,
}
use frogalert.Protocol.Cipher.{xor_chunk-eq}
use Prim.Native.Nat.{◌-◌}
use frogalert.Protocol.Responses.{xor_from, xor_chunk}
use frogalert.Session.Steps.{
  emit, random_byte, transfer, reset, verify_chunks, send_chunk, first_is,
}
use frogalert.Prelude.Bytes.{byte_at, slice, length-slice, byte_at-slice}
use frogalert.Protocol.Packets.{data_packet}
use frogalert.Protocol.Command
use frogalert.Session.{Environment, State, Event, M, ◌>>=◌, ◌>>◌, throw_if, verify_mismatch}
use frogalert.Prelude.{
  ℕ, zero, suc, ◌+◌, ◌*◌, ◌≤◌, ◌<◌, ◌≡◌, ◌∙◌, List, ok, length, arith, false, not, dec_lt, subst,
  true,
}

-- The environment's documented behaviour, for a device whose code flash in a world is `content`: a
-- verify command changes no flash and answers a first byte 0 only where the flash holds the enciphered bytes; the
-- random source, the event callback and the reset change no flash.
pub record IsHonest {W : Type 0} (env : Environment W) (key : List ℕ) (content : W → ℕ → ℕ)
    : Type 0 where
  pub answers :
      (address padding : ℕ) (chunk packet response : List ℕ) (w : W) (j : ℕ)
      → data_packet Command.verify address padding (xor_from key 0 chunk) ≡ ok packet
      → (env.transfer packet w).0 ≡ ok response
      → first_is response 0 ≡ true
      → j < length chunk
      → content w (address + j) ≡ byte_at chunk j
  pub verify_keeps :
      (address padding : ℕ) (payload packet : List ℕ) (w : W) (i : ℕ)
      → data_packet Command.verify address padding payload ≡ ok packet
      → content (env.transfer packet w).1 i ≡ content w i
  pub random_keeps : (w : W) (i : ℕ) → content (env.random_byte w).1 i ≡ content w i
  pub event_keeps : (e : Event) (w : W) (i : ℕ) → content (env.on_event e w).1 i ≡ content w i
  pub reset_keeps : (w : W) (i : ℕ) → content (env.reset w).1 i ≡ content w i

module _ {W : Type 0} (env : Environment W) (padded key : List ℕ) (content : W → ℕ → ℕ)
    (h : IsHonest env key content) where
  -- The first `n` bytes of the image stand in the flash.
  abbrev pub Holds : ℕ → State W → Type 0
  Holds n s = (i : ℕ) → i < n → i < length padded → content s.world i ≡ byte_at padded i

  pub Ensures-emit : (n : ℕ) (e : Event) → Ensures (Holds n) (emit env e) (λ _. Holds n)
  unfolding emit
  Ensures-emit n e s p i lt inside = h.event_keeps e s.world i ∙ p i lt inside

  Ensures-random_byte : (n : ℕ) → Ensures (Holds n) (random_byte env) (λ _. Holds n)
  unfolding random_byte
  Ensures-random_byte n s p =
      Post-always (λ _. Holds n) (env.random_byte s.world).0 _
        λ a _ i lt inside. h.random_keeps s.world i ∙ p i lt inside

  pub Ensures-reset : (n : ℕ) → Ensures (Holds n) (reset env) (λ _. Holds n)
  unfolding reset
  Ensures-reset n s p =
      Post-always (λ _. Holds n) (env.reset s.world).0 _
        λ a _ i lt inside. h.reset_keeps s.world i ∙ p i lt inside

  -- One chunk that the device confirms.
  Confirms : ℕ → List ℕ → State W → Type 0
  Confirms n response s = first_is response 0 ≡ true → Holds (n + 56) s

  -- A byte of the chunk that was just confirmed.
  confirmed_byte :
      (n padding : ℕ) (packet response : List ℕ) (w : W) (i : ℕ)
      → data_packet Command.verify n padding (xor_from key 0 (slice padded n (n + 56))) ≡ ok packet
      → (env.transfer packet w).0 ≡ ok response
      → first_is response 0 ≡ true
      → n ≤ i
      → i < n + 56
      → i < length padded
      → content (env.transfer packet w).1 i ≡ byte_at padded i
  confirmed_byte n padding packet response w i built came confirming after before inside =
      let j : ℕ = i - n in
      let back : n + j ≡ i = omega arith in
      let short : j < length (slice padded n (n + 56)) = omega (arith, length-slice padded n 56) in
      let told : content (env.transfer packet w).1 (n + j) ≡ byte_at padded (n + j) =
        h.verify_keeps n padding (xor_from key 0 (slice padded n (n + 56))) packet w (n + j) built
        ∙ h.answers n padding (slice padded n (n + 56)) packet response w j built came confirming
            short
        ∙ byte_at-slice padded n 56 j (omega arith) in
      subst (λ k. content (env.transfer packet w).1 k ≡ byte_at padded k) back told

  Ensures-verify_packet :
      (n padding : ℕ) (packet : List ℕ)
      → data_packet Command.verify n padding (xor_from key 0 (slice padded n (n + 56))) ≡ ok packet
      → Ensures (Holds n) (transfer env packet) (Confirms n)
  unfolding transfer Confirms
  Ensures-verify_packet n padding packet built s p =
      Post-always (Confirms n) (env.transfer packet s.world).0 _
        λ response came confirming i lt inside. elim (dec_lt i n) [
          | yes before ↦
              h.verify_keeps n padding (xor_from key 0 (slice padded n (n + 56))) packet s.world i
                built
              ∙ p i before inside
          | no after ↦
              confirmed_byte n padding packet response s.world i built came confirming (omega arith)
                lt inside
        ]

  Ensures-send_chunk :
      (index : ℕ)
      → Ensures
          (Holds (index * 56))
          (send_chunk env Command.verify padded key index)
          (Confirms (index * 56))
  unfolding send_chunk
  Ensures-send_chunk index =
      let n = index * 56 in
      Ensures-bind (Holds n) (λ _. Holds n) (Confirms n) (random_byte env) _ (Ensures-random_byte n)
        λ padding.
          Ensures-checked-bind (Holds n) (Confirms n) (xor_chunk (slice padded n (n + 56)) key) _
            λ cipher made.
              Ensures-checked-bind (Holds n) (Confirms n)
                (data_packet Command.verify n padding cipher) (transfer env)
                λ packet built.
                  let e : cipher ≡ xor_from key 0 (slice padded n (n + 56)) =
                    xor_chunk-eq _ _ _ made in
                  Ensures-verify_packet n padding packet
                    (subst (λ c. data_packet Command.verify n padding c ≡ ok packet) e built)

  confirmed :
      (index : ℕ) (response : List ℕ) (s : State W)
      → Confirms (index * 56) response s
      → not (first_is response 0) ≡ false
      → Holds ((index + 1) * 56) s
  unfolding Confirms
  confirmed index response s c tested =
      let e : index * 56 + 56 ≡ (index + 1) * 56 = omega arith in
      subst (λ k. Holds k s) e (c (ground arith))

  pub Ensures-verify_chunks :
      (chunks left index : ℕ)
      → Ensures
          (Holds (index * 56))
          (verify_chunks env padded key chunks left index)
          (λ _. Holds ((index + left) * 56))
  unfolding verify_chunks
  Ensures-verify_chunks chunks zero index s p =
      let e : index * 56 ≡ (index + 0) * 56 = omega arith in subst (λ k. Holds k s) e p
  Ensures-verify_chunks chunks (suc left) index s p =
      let e : (index + 1 + left) * 56 ≡ (index + suc left) * 56 = omega arith in
      let goal : Unit {0} → State W → Type 0 = λ _. Holds ((index + 1 + left) * 56) in
      let rest : M W (Unit {0}) =
        emit env (Event.verify (index + 1) chunks)
        >> verify_chunks env padded key chunks left (index + 1) in
      let steps : Ensures (Holds (index * 56))
          (send_chunk env Command.verify padded key index >>= λ response.
            throw_if (not (first_is response 0x00)) (verify_mismatch (index * 56)) >> rest)
          goal =
        Ensures-bind (Holds (index * 56)) (Confirms (index * 56)) goal
          (send_chunk env Command.verify padded key index) _ (Ensures-send_chunk index)
          λ response.
            Ensures-throw_if-bind (Confirms (index * 56) response) goal
              (not (first_is response 0x00)) (verify_mismatch (index * 56)) rest
              λ tested s' c.
                Ensures-bind (Holds ((index + 1) * 56)) (λ _. Holds ((index + 1) * 56)) goal
                  (emit env (Event.verify (index + 1) chunks))
                  (λ _. verify_chunks env padded key chunks left (index + 1))
                  (Ensures-emit ((index + 1) * 56) (Event.verify (index + 1) chunks))
                  (λ _. Ensures-verify_chunks chunks left (index + 1)) s'
                  (confirmed index response s' c tested) in
      subst (λ k. Post (λ _. Holds k) (verify_chunks env padded key chunks (suc left) index s)) e
        (steps s p)
