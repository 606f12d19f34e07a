-- ===== src/Page/LoadLaws.antt =====
-- site/app.js: what `setFirmware` has checked of a firmware that it accepts.
use frogalert.Prelude.{
  ℕ, ◌≡◌, refl, Bool, true, false, List, Option, Result, ok, err, arith, if◌then◌else◌, some, not,
  ◌∙◌, sym, ap, subst,
}
use frogalert.Page.Gate.{update_flash_button}
use frogalert.Page.Usb.{await_call}
use frogalert.Prelude.Json.{Json}
use frogalert.Prelude.Text.{Text}
use frogalert.Protocol.Image.{Plan, validate_firmware}
use frogalert.Flasher.State.{artifact_board_binding, items}
use frogalert.Quarantine.{assert_firmware_hash_not_quarantined}
use frogalert.Session.{SessionError}
use frogalert.Page.{Firmware, Tab, Async, resume, throw_if, Json, Browser, Shared}
use frogalert.Page.Load.{
  of_module, Embedded, Options, profile_fits, hash_differs, inspect_firmware_config, set_firmware,
  accept_firmware, store_firmware, accept_current, wrong_hash, wrong_profile,
}

-- What a run says of its first part.
resumed :
    {W A B : Type 0} (x : Result SessionError A × Tab W) (f : A → Async W B) (v : B) (u : Tab W)
    → resume x f ≡ (ok v, u)
    → (a : A) × (x.0 ≡ ok a) × (f a x.1 ≡ (ok v, u))
resumed (ok a, t) f v u h = (a, refl, h)
resumed (err e, t) f v u h = absurd (ground arith)

of_module_ok :
    {W E A : Type 0} (r : Result E A) (t : Tab W) (a : A)
    → (of_module r t).0 ≡ ok a
    → (r ≡ ok a) × ((of_module r t).1 ≡ t)
unfolding of_module
of_module_ok (ok x) t a h = (cc h, refl)
of_module_ok (err e) t a h = absurd (ground arith)

throw_if_ok :
    {W : Type 0} (c : Bool) (e : SessionError) (t : Tab W) (a : Unit {0})
    → (throw_if c e t).0 ≡ ok a
    → (c ≡ false) × ((throw_if c e t).1 ≡ t)
throw_if_ok true e t a h = absurd (ground arith)
throw_if_ok false e t a h = (refl, refl)

-- What holds of a firmware that was accepted, with the quarantined hashes of that moment.
pub record IsAccepted (raw : List ℕ) (name : Text) (options : Options) (hash : Text)
    (quarantined : Option (List Json)) (firmware : Firmware) : Type 0 where
  pub plan : Plan
  pub valid : validate_firmware raw name ≡ ok plan
  pub padded : firmware.padded ≡ plan.padded
  pub erase_sectors : firmware.erase_sectors ≡ plan.erase_sectors
  pub not_quarantined : assert_firmware_hash_not_quarantined hash quarantined ≡ ok tt
  pub hashed : firmware.hash ≡ hash
  pub expected : hash_differs hash options.expected_hash ≡ false
  pub embedded : Embedded
  pub inspected : inspect_firmware_config raw ≡ ok embedded
  pub fits : profile_fits embedded options.hardware_revisions ≡ true
  pub bound_to_board :
      artifact_board_binding (items options.hardware_revisions) options.pcb_markings
      ≡ ok firmware.board

module _ {W : Type 0} (b : Browser W) (raw : List ℕ) (name : Text) (options : Options) where
  -- What the last part of `setFirmware` adds to what came before it.
  accept_firmware_lem :
      (plan : Plan) (hash : Text) (embedded : Embedded) (shared : Shared) (t u : Tab W)
      → validate_firmware raw name ≡ ok plan
      → inspect_firmware_config raw ≡ ok embedded
      → profile_fits embedded options.hardware_revisions ≡ true
      → accept_firmware b options plan hash shared t ≡ (ok true, u)
      → (firmware : Firmware) × (u.shared.firmware ≡ some firmware)
        × IsAccepted raw name options hash shared.quarantined_firmware_hashes firmware
  unfolding accept_firmware store_firmware update_flash_button
  accept_firmware_lem plan hash embedded shared t u valid inspected fits h =
      let quarantine =
        assert_firmware_hash_not_quarantined hash shared.quarantined_firmware_hashes in
      let binding =
        artifact_board_binding (items options.hardware_revisions) options.pcb_markings in
      let (a, passed, h₁) = resumed (of_module quarantine t) _ true u h in
      let t₁ : Tab W = (of_module quarantine t).1 in
      let differs : Bool = hash_differs hash options.expected_hash in
      let (a', same_hash, h₂) = resumed (throw_if differs wrong_hash t₁) _ true u h₁ in
      let t₂ : Tab W = (throw_if differs wrong_hash t₁).1 in
      let (board, bound, h₃) = resumed (of_module binding t₂) _ true u h₂ in
      (
        _,
        sym (ap (λ x. x.1.shared.firmware) h₃),
        record {
          plan = plan;
          valid = valid;
          padded = refl;
          erase_sectors = refl;
          not_quarantined = (of_module_ok quarantine t a passed).0;
          hashed = refl;
          expected = (throw_if_ok differs wrong_hash t₁ a' same_hash).0;
          embedded = embedded;
          inspected = inspected;
          fits = fits;
          bound_to_board = (of_module_ok binding t₂ board bound).0;
        },
      )

  accept_current_lem :
      (plan : Plan) (hash : Text) (embedded : Embedded) (c : Bool) (t u : Tab W)
      → validate_firmware raw name ≡ ok plan
      → inspect_firmware_config raw ≡ ok embedded
      → profile_fits embedded options.hardware_revisions ≡ true
      → (if c then accept_firmware b options plan hash t.shared t else (ok false, t)) ≡ (ok true, u)
      → (firmware : Firmware) × (u.shared.firmware ≡ some firmware)
        × IsAccepted raw name options hash t.shared.quarantined_firmware_hashes firmware
  accept_current_lem plan hash embedded true t u valid inspected fits h =
      accept_firmware_lem plan hash embedded t.shared t u valid inspected fits h
  accept_current_lem plan hash embedded false t u valid inspected fits h = absurd (ground arith)

  -- A firmware that `setFirmware` accepts is the padded image with its erase plan; the digest of the
  -- image was not quarantined by the registry loaded then, and is the expected one where one is
  -- expected; an embedded configuration, if there is one, is for a profile of the firmware; and its
  -- board binding is that of the profiles and markings given.
  pub set_firmware_lem :
      (t u : Tab W)
      → set_firmware b raw name options t ≡ (ok true, u)
      → (firmware : Firmware) × (u.shared.firmware ≡ some firmware)
        × ((hash : Text) × ((b.sha256 raw t.world).0 ≡ ok hash)
            × IsAccepted raw name options hash
                (await_call b (b.sha256 raw) t).1.shared.quarantined_firmware_hashes
                firmware)
  unfolding set_firmware accept_current await_call
  set_firmware_lem t u h =
      let (plan, validated, h₁) = resumed (of_module (validate_firmware raw name) t) _ true u h in
      let (valid, same) = of_module_ok (validate_firmware raw name) t plan validated in
      let t₁ : Tab W = (of_module (validate_firmware raw name) t).1 in
      let (hash, digest, h₂) = resumed (await_call b (b.sha256 raw) t₁) _ true u h₁ in
      let t₂ : Tab W = (await_call b (b.sha256 raw) t₁).1 in
      let (embedded, found, h₃) =
        resumed (of_module (inspect_firmware_config raw) t₂) _ true u h₂ in
      let (inspected, same') = of_module_ok (inspect_firmware_config raw) t₂ embedded found in
      let t₃ : Tab W = (of_module (inspect_firmware_config raw) t₂).1 in
      let misfit : Bool = not (profile_fits embedded options.hardware_revisions) in
      let (a, fitting, h₄) = resumed (throw_if misfit wrong_profile t₃) _ true u h₃ in
      let (fit, same'') = throw_if_ok misfit wrong_profile t₃ a fitting in
      let t₄ : Tab W = (throw_if misfit wrong_profile t₃).1 in
      let (firmware, loaded, accepted) =
        accept_current_lem plan hash embedded _ t₄ u valid inspected
          (not_false (profile_fits embedded options.hardware_revisions) fit) h₄ in
      let at_digest : t₄ ≡ (await_call b (b.sha256 raw) t).1 =
        same'' ∙ same' ∙ ap (λ v. (await_call b (b.sha256 raw) v).1) same in
      (
        firmware,
        loaded,
        (
          hash,
          subst (λ (v : Tab W). (await_call b (b.sha256 raw) v).0 ≡ ok hash) same digest,
          subst
              (λ (v : Tab W).
                IsAccepted raw name options hash v.shared.quarantined_firmware_hashes firmware)
              at_digest accepted,
        ),
      )
    where
      not_false : (c : Bool) → not c ≡ false → c ≡ true
      not_false c h = ground arith
