-- ===== src/Session/Silent.antt =====
-- A programming session (site/flash-session.js) whose UID gives no key.
use frogalert.Prelude.{
  ℕ, ◌≡◌, refl, ◌+◌, ◌*◌, ◌/◌, ◌%◌, ◌==◌, ap, Bool, true, false, not, max, List, length, ltb,
  Result, err,
}
use frogalert.Protocol.{Fault}
use frogalert.Protocol.Image.{ceil_div}
use frogalert.Protocol.Responses.{derive_xor_key}
use frogalert.Session.{
  Environment, State, M, SessionError, ◌>>=◌, ◌>>◌, throw_if, checked, misaligned_image,
  bad_erase_count, erase_exceeds_flash, empty_image,
}
use frogalert.Session.Steps.{Done, run_session, program_and_verify_firmware}

module _ {W : Type 0} where
  -- Nothing has changed.
  abbrev Unchanged : {A : Type 0} → M W A → State W → Type 0
  Unchanged m s = (m s).1 ≡ s

  Unchanged-throw_if :
      {A : Type 0} (c : Bool) (e : SessionError) (m : M W A) (s : State W)
      → Unchanged m s
      → Unchanged (throw_if c e >> m) s
  Unchanged-throw_if true e m s h = refl
  Unchanged-throw_if false e m s h = h

  -- Without a key the session ends before anything is called.
  pub program_and_verify_firmware-Unchanged :
      (env : Environment W) (padded : List ℕ) (erase_sectors : ℕ) (uid : List ℕ) (f : Fault)
      (s : State W)
      → derive_xor_key uid 0x82 ≡ err f
      → (program_and_verify_firmware env padded erase_sectors uid s).1 ≡ s
  unfolding program_and_verify_firmware
  program_and_verify_firmware-Unchanged env padded erase_sectors uid f s e =
      let session : List ℕ → M W Done =
        λ k. run_session env padded erase_sectors k (ceil_div (length padded) 56) in
      let derived : M W Done = checked (derive_xor_key uid 0x82) >>= session in
      let third : M W Done =
        throw_if (ltb (448 * 1024) (erase_sectors * 1024)) erase_exceeds_flash >> derived in
      let second : M W Done =
        throw_if (not (erase_sectors == max 8 (length padded / 1024 + 1))) bad_erase_count
        >> third in
      let first : M W Done =
        throw_if (not (length padded % 1024 == 0)) misaligned_image >> second in
      Unchanged-throw_if _ empty_image first s (
        Unchanged-throw_if _ misaligned_image second s (
          Unchanged-throw_if _ bad_erase_count third s (
            Unchanged-throw_if _ erase_exceeds_flash derived s
              (ap (λ (k : Result Fault (List ℕ)). ((checked k >>= session) s).1) e))))
