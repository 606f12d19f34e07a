-- ===== src/Session/Script/Whole.antt =====
-- The whole session (site/flash-session.js) sends its script or a first part of it.
use frogalert.Prelude.{
  ℕ, ◌≡◌, List, [], length, ok, ltb, subst, append-nil, ◌*◌, not, ◌==◌, max, ◌/◌, ◌+◌, ◌%◌,
}
use frogalert.Protocol.Image.{ceil_div}
use frogalert.Protocol.Responses.{derive_xor_key}
use frogalert.Session.Script.Stages.{
  Sends-reset_config, Sends-emit, Sends-reset, Sends-erase_flash, Sends-program_flash,
  Sends-verify_flash,
}
use frogalert.Session.Sends.{
  Sends, Sends-bind, Follows, Sends-return, cleared, Sends-throw_if-bind, Sends-checked-bind,
}
use frogalert.Session.Steps.{
  run_session, reset_config, emit, program_and_verify_firmware, Done, erase_flash, program_flash,
  verify_flash,
}
use frogalert.Session.{
  Environment, Event, M, ◌>>=◌, ◌>>◌, throw_if, return, checked, erase_exceeds_flash,
  bad_erase_count, misaligned_image, empty_image,
}
use frogalert.Session.Script.{
  script, reset_script, erase_script, program_script, verify_script, Sends, Sends-bind,
  reset_config, emit, erase_flash, reset, Follows, program_flash, Sends-return, cleared,
  verify_flash, Sends-throw_if-bind, Sends-checked-bind,
}

module _ {W : Type 0} (env : Environment W) where
  -- What is left after the verification: it sends nothing more through `transfer`.
  abbrev ending : ℕ → M W Done
  ending chunks = do
    emit env (Event.verified chunks)
    acknowledged ← reset env
    emit env (Event.complete chunks acknowledged)
    return (record { chunks = chunks; reset_acknowledged = acknowledged })

  Sends-ending : (chunks : ℕ) → Sends [] (ending chunks)
  Sends-ending chunks =
      Sends-bind [] [] (emit env (Event.verified chunks)) _ (Sends-emit env _) λ _.
        Sends-bind [] [] (reset env) _ (Sends-reset env) λ acknowledged.
          Sends-bind [] [] (emit env (Event.complete chunks acknowledged)) _ (Sends-emit env _)
            λ _. Sends-return (record { chunks = chunks; reset_acknowledged = acknowledged })

  Sends-run_session :
      (padded : List ℕ) (erase_sectors : ℕ) (key : List ℕ) (chunks : ℕ)
      → Sends
          (script padded erase_sectors key chunks)
          (run_session env padded erase_sectors key chunks)
  unfolding run_session
  Sends-run_session padded erase_sectors key chunks =
      Sends-bind reset_script _ (reset_config env chunks) _ (Sends-reset_config env chunks) λ _.
        Sends-bind (erase_script erase_sectors) _ (erase_flash env erase_sectors chunks) _
          (Sends-erase_flash env erase_sectors chunks)
          λ _.
            Sends-bind (program_script padded key chunks) _ (program_flash env padded key chunks) _
              (Sends-program_flash env padded key chunks)
              λ _.
                subst (λ l. Sends l (verify_flash env padded key chunks >> ending chunks))
                  (append-nil (verify_script padded key chunks))
                  (Sends-bind (verify_script padded key chunks) []
                    (verify_flash env padded key chunks) (λ _. ending chunks)
                    (Sends-verify_flash env padded key chunks) (λ _. Sends-ending chunks))

  -- For a script that is the one of the key, if there is a key.
  pub Sends-program_and_verify_firmware :
      (whole : List (List ℕ)) (padded : List ℕ) (erase_sectors : ℕ) (uid : List ℕ)
      → ((key : List ℕ)
          → derive_xor_key uid 0x82 ≡ ok key
          → script padded erase_sectors key (ceil_div (length padded) 56) ≡ whole)
      → Sends whole (program_and_verify_firmware env padded erase_sectors uid)
  unfolding program_and_verify_firmware
  Sends-program_and_verify_firmware whole padded erase_sectors uid same =
      let session : List ℕ → M W Done =
        λ k. run_session env padded erase_sectors k (ceil_div (length padded) 56) in
      let derived : M W Done = checked (derive_xor_key uid 0x82) >>= session in
      let third : M W Done =
        throw_if (ltb (448 * 1024) (erase_sectors * 1024)) erase_exceeds_flash >> derived in
      let second : M W Done =
        throw_if (not (erase_sectors == max 8 (length padded / 1024 + 1))) bad_erase_count
        >> third in
      let first : M W Done =
        throw_if (not (length padded % 1024 == 0)) misaligned_image >> second in
      Sends-throw_if-bind whole _ empty_image first λ _.
        Sends-throw_if-bind whole _ misaligned_image second λ _.
          Sends-throw_if-bind whole _ bad_erase_count third λ _.
            Sends-throw_if-bind whole _ erase_exceeds_flash derived λ _.
              Sends-checked-bind whole (derive_xor_key uid 0x82) session λ key made.
                subst (λ packets. Sends packets (session key)) (same key made)
                  (Sends-run_session padded erase_sectors key (ceil_div (length padded) 56))
