-- ===== src/Session/Verified.antt =====
-- What a successful programming session (site/flash-session.js) has checked.
use frogalert.Protocol.Image.{ceil_div}
use frogalert.Session.Confirm.{IsHonest, Holds, Ensures-verify_chunks, Ensures-emit, Ensures-reset}
use frogalert.Session.Ensures.{
  Post, Ensures, Ensures-bind, Ensures-throw_if-bind, Ensures-nothing, Ensures-checked-bind,
}
use Prim.Native.Nat.{max}
use frogalert.Protocol.Responses.{derive_xor_key}
use frogalert.Session.Steps.{
  emit, reset, verify_chunks, verify_flash, Done, run_session, reset_config, begin_key_session,
  erase_flash, program_and_verify_firmware, program_flash,
}
use frogalert.Prelude.Bytes.{byte_at}
use frogalert.Session.{
  Environment, State, Event, M, ◌>>=◌, ◌>>◌, throw_if, checked, erase_exceeds_flash,
  bad_erase_count, misaligned_image, empty_image,
}
use frogalert.Prelude.{
  ℕ, ◌+◌, ◌*◌, ◌<◌, ◌≡◌, List, ok, length, arith, not, ◌==◌, subst, ltb, max, ◌/◌, ◌%◌,
}

module _ {W : Type 0} (env : Environment W) (padded key : List ℕ) (content : W → ℕ → ℕ)
    (h : IsHonest env key content) where
  Ensures-verify_flash :
      (chunks : ℕ)
      → Ensures
          (λ _. Unit {0})
          (verify_flash env padded key chunks)
          (λ _. Holds env padded key content h (chunks * 56))
  unfolding verify_flash
  Ensures-verify_flash chunks =
      let goal : Unit {0} → State W → Type 0 = λ _. Holds env padded key content h (chunks * 56) in
      Ensures-bind (λ _. Unit {0}) (λ _ _. Unit {0}) goal (emit env (Event.verify_key chunks)) _
        (Ensures-nothing _)
        λ _.
          Ensures-bind (λ _. Unit {0}) (λ _ _. Unit {0}) goal (begin_key_session env key) _
            (Ensures-nothing _)
            λ _ s _.
              let e : (0 + chunks) * 56 ≡ chunks * 56 = omega arith in
              subst
                (λ k.
                  Post (λ _. Holds env padded key content h k)
                    (verify_chunks env padded key chunks chunks 0 s))
                e
                (Ensures-verify_chunks env padded key content h chunks chunks 0 s
                  (λ i lt inside. absurd (omega arith)))

  Ensures-run_session :
      (erase_sectors chunks : ℕ)
      → Ensures
          (λ _. Unit {0})
          (run_session env padded erase_sectors key chunks)
          (λ _. Holds env padded key content h (chunks * 56))
  unfolding run_session
  Ensures-run_session erase_sectors chunks =
      let goal : Done → State W → Type 0 = λ _. Holds env padded key content h (chunks * 56) in
      Ensures-bind (λ _. Unit {0}) (λ _ _. Unit {0}) goal (reset_config env chunks) _
        (Ensures-nothing _)
        λ _.
          Ensures-bind (λ _. Unit {0}) (λ _ _. Unit {0}) goal (erase_flash env erase_sectors chunks)
            _ (Ensures-nothing _)
            λ _.
              Ensures-bind (λ _. Unit {0}) (λ _ _. Unit {0}) goal
                (program_flash env padded key chunks) _ (Ensures-nothing _)
                λ _.
                  Ensures-bind (λ _. Unit {0}) (λ _. Holds env padded key content h (chunks * 56))
                    goal (verify_flash env padded key chunks) _ (Ensures-verify_flash chunks)
                    λ _.
                      Ensures-bind (Holds env padded key content h (chunks * 56))
                        (λ _. Holds env padded key content h (chunks * 56)) goal
                        (emit env (Event.verified chunks)) _
                        (Ensures-emit env padded key content h (chunks * 56) _)
                        λ _.
                          Ensures-bind (Holds env padded key content h (chunks * 56))
                            (λ _. Holds env padded key content h (chunks * 56)) goal (reset env) _
                            (Ensures-reset env padded key content h (chunks * 56))
                            λ acknowledged.
                              Ensures-bind (Holds env padded key content h (chunks * 56))
                                (λ _. Holds env padded key content h (chunks * 56)) goal
                                (emit env (Event.complete chunks acknowledged)) _
                                (Ensures-emit env padded key content h (chunks * 56) _) λ _ s p. p

  Ensures-program_and_verify :
      (erase_sectors : ℕ) (uid : List ℕ)
      → derive_xor_key uid 0x82 ≡ ok key
      → Ensures
          (λ _. Unit {0})
          (program_and_verify_firmware env padded erase_sectors uid)
          (λ _. Holds env padded key content h (ceil_div (length padded) 56 * 56))
  unfolding program_and_verify_firmware
  Ensures-program_and_verify erase_sectors uid e =
      let chunks : ℕ = ceil_div (length padded) 56 in
      let goal : Done → State W → Type 0 = λ _. Holds env padded key content h (chunks * 56) in
      let session : List ℕ → M W Done = λ k. run_session env padded erase_sectors k chunks in
      let derived : M W Done = checked (derive_xor_key uid 0x82) >>= session in
      let third : M W Done =
        throw_if (ltb (448 * 1024) (erase_sectors * 1024)) erase_exceeds_flash >> derived in
      let second : M W Done =
        throw_if (not (erase_sectors == max 8 (length padded / 1024 + 1))) bad_erase_count
        >> third in
      let first : M W Done =
        throw_if (not (length padded % 1024 == 0)) misaligned_image >> second in
      Ensures-throw_if-bind (λ _. Unit {0}) goal (length padded == 0) empty_image first
        λ _.
          Ensures-throw_if-bind (λ _. Unit {0}) goal _ misaligned_image second
            λ _.
              Ensures-throw_if-bind (λ _. Unit {0}) goal _ bad_erase_count third
                λ _.
                  Ensures-throw_if-bind (λ _. Unit {0}) goal _ erase_exceeds_flash derived
                    λ _.
                      Ensures-checked-bind (λ _. Unit {0}) goal (derive_xor_key uid 0x82) session
                        λ k made.
                          let same : key ≡ k = cc (made, e) in
                          subst
                            (λ k'.
                              Ensures (λ _. Unit {0})
                                (run_session env padded erase_sectors k' chunks) goal)
                            same (Ensures-run_session erase_sectors chunks)

  -- With a device that behaves as documented, a programming session that succeeds leaves the whole
  -- padded image in the code flash, byte for byte from address 0. (The key is the one that the
  -- session derives of the UID and the chip id 0x82.)
  pub program_and_verify_firmware-verified :
      (erase_sectors : ℕ) (uid : List ℕ) (s s' : State W) (d : Done)
      → derive_xor_key uid 0x82 ≡ ok key
      → program_and_verify_firmware env padded erase_sectors uid s ≡ (ok d, s')
      → (i : ℕ) → i < length padded
      → content s'.world i ≡ byte_at padded i
  program_and_verify_firmware-verified erase_sectors uid s s' d e run i inside =
      let post : Holds env padded key content h (ceil_div (length padded) 56 * 56) s' =
        subst (λ r. Post (λ _. Holds env padded key content h (ceil_div (length padded) 56 * 56)) r)
          run (Ensures-program_and_verify erase_sectors uid e s tt) in
      post i (omega arith) inside
