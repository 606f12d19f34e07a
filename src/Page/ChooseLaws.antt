-- ===== src/Page/ChooseLaws.antt =====
-- site/app.js: the fields that other handlers do not write, after loading a release and after
-- `chooseIspButtonAndFlash`.
use frogalert.Prelude.{ℕ, Bool, not, List, Option, some, none, Result, ok, err, length}
use frogalert.Prelude.Bytes.{same_bytes}
use frogalert.Quarantine.{assert_firmware_hash_not_quarantined}
use frogalert.Catalog.Release.{text_of, validate_release_descriptor}
use frogalert.Prelude.Text.{Text, lower_case}
use frogalert.Prelude.Json.{Json, get, is_the_number, first_item}
use frogalert.Protocol.Image.{Plan, validate_firmware}
use frogalert.Flasher.State.{next_artifact_generation, artifact_board_binding, items}
use frogalert.Session.{SessionError}
use frogalert.Page.{Shared, Browser, throw_if, attempt}
use frogalert.Page.Gate.{update_flash_button}
use frogalert.Page.Usb.{await_call}
use frogalert.Page.Quiet.{
  Quiet, Same-refl, Same-if, Quiet-bind, Quiet-throw_if, Quiet-attempt, Quiet-await_call,
}
use frogalert.Page.Load.{
  of_module, Options, begin_artifact_preparation, clear_firmware, store_firmware, accept_firmware,
  accept_current, set_firmware, download_release_artifact, remember_artifact, download_or_cached,
  verified_release_artifact_bytes, check_download, cached, hash_differs, inspect_firmware_config,
  profile_fits, wrong_hash, bad_download, wrong_profile, is_embedded_profile,
}
use frogalert.Page.Choose.{
  load_release, drop_release, loaded_or_dropped, load_idle, load_release_artifact, release_options,
}

Quiet-of_module : {W E A : Type 0} (r : Result E A) → Quiet (of_module {W = W} r)
unfolding of_module
Quiet-of_module (ok a) t = Same-refl t
Quiet-of_module (err e) t = Same-refl t

module _ {W : Type 0} (b : Browser W) where
  Quiet-begin_artifact_preparation : Quiet (begin_artifact_preparation b)
  unfolding begin_artifact_preparation
  Quiet-begin_artifact_preparation t =
      Quiet-bind (of_module (next_artifact_generation t.shared.artifact_generation)) _
        (Quiet-of_module _) (λ generation u. Same-refl u) t

  Quiet-accept_firmware :
      (options : Options) (plan : Plan) (hash : Text) (shared : Shared)
      → Quiet (accept_firmware b options plan hash shared)
  unfolding accept_firmware store_firmware update_flash_button
  Quiet-accept_firmware options plan hash shared =
      Quiet-bind
        (of_module (assert_firmware_hash_not_quarantined hash shared.quarantined_firmware_hashes)) _
        (Quiet-of_module _)
        λ _.
          Quiet-bind (throw_if (hash_differs hash options.expected_hash) wrong_hash) _
            (Quiet-throw_if _ _)
            λ _.
              Quiet-bind
                (of_module
                  (artifact_board_binding (items options.hardware_revisions) options.pcb_markings))
                _ (Quiet-of_module _) λ board t. Same-refl t

  Quiet-accept_current :
      (options : Options) (plan : Plan) (hash : Text) → Quiet (accept_current b options plan hash)
  unfolding accept_current
  Quiet-accept_current options plan hash t =
      Same-if _ t _ _ (Quiet-accept_firmware options plan hash t.shared t) (Same-refl t)

  Quiet-set_firmware :
      (raw : List ℕ) (name : Text) (options : Options) → Quiet (set_firmware b raw name options)
  unfolding set_firmware
  Quiet-set_firmware raw name options =
      Quiet-bind (of_module (validate_firmware raw name)) _ (Quiet-of_module _) λ plan.
        Quiet-bind (await_call b (b.sha256 raw)) _ (Quiet-await_call b _) λ hash.
          Quiet-bind (of_module (inspect_firmware_config raw)) _ (Quiet-of_module _) λ embedded.
            Quiet-bind
              (throw_if (not (profile_fits embedded options.hardware_revisions)) wrong_profile) _
              (Quiet-throw_if _ _) λ _. Quiet-accept_current options plan hash

  Quiet-check_download :
      (release : Json) (bytes : List ℕ) (hash : Text) → Quiet (check_download b release bytes hash)
  unfolding check_download
  Quiet-check_download release bytes hash t =
      Quiet-bind
        (of_module (assert_firmware_hash_not_quarantined hash t.shared.quarantined_firmware_hashes))
        _ (Quiet-of_module _)
        (λ _.
          Quiet-bind
            (throw_if
              (not (same_bytes (lower_case hash) (lower_case (text_of (get release "sha256")))))
              wrong_hash)
            _ (Quiet-throw_if _ _)
            λ _.
              Quiet-bind (of_module (validate_firmware bytes (text_of (get release "file")))) _
                (Quiet-of_module _)
                λ _.
                  Quiet-bind (of_module (inspect_firmware_config bytes)) _ (Quiet-of_module _)
                    λ embedded.
                      Quiet-bind
                        (throw_if
                          (not (
                            is_embedded_profile b embedded
                              (first_item (get release "hardware_revisions"))))
                          wrong_profile)
                        _ (Quiet-throw_if _ _) λ _ u. Same-refl u)
        t

  Quiet-download_release_artifact : (release : Json) → Quiet (download_release_artifact b release)
  unfolding download_release_artifact
  Quiet-download_release_artifact release =
      Quiet-bind (await_call b (b.fetch (text_of (get release "file")))) _ (Quiet-await_call b _)
        λ response.
          Quiet-bind (throw_if (not response.is_ok) bad_download) _ (Quiet-throw_if _ _) λ _.
            Quiet-bind
              (throw_if (not (is_the_number (length response.bytes) (get release "bytes")))
                bad_download)
              _ (Quiet-throw_if _ _)
              λ _.
                Quiet-bind (await_call b (b.sha256 response.bytes)) _ (Quiet-await_call b _)
                  λ hash. Quiet-check_download release response.bytes hash

  Quiet-download_or_cached :
      (found : Option (List ℕ)) (release : Json) → Quiet (download_or_cached b found release)
  unfolding download_or_cached remember_artifact
  Quiet-download_or_cached (some bytes) release t = Same-refl t
  Quiet-download_or_cached none release t =
      Quiet-bind (download_release_artifact b release) _ (Quiet-download_release_artifact release)
        (λ bytes u. Same-refl u) t

  Quiet-load_release : (release : Json) (generation : ℕ) → Quiet (load_release b release generation)
  unfolding load_release verified_release_artifact_bytes
  Quiet-load_release release generation t =
      Quiet-bind
        (of_module (validate_release_descriptor release t.shared.pcb_revision t.shared.pcb_marking))
        _ (Quiet-of_module _)
        (λ _.
          Quiet-bind (verified_release_artifact_bytes b release) _
            (λ u.
              Quiet-download_or_cached
                (cached b u.shared.release_artifacts (text_of (get release "id"))) release u)
            λ bytes.
              Quiet-set_firmware bytes (text_of (get release "file"))
                (release_options release generation))
        t

  Quiet-clear_firmware : Quiet (clear_firmware b)
  unfolding clear_firmware update_flash_button
  Quiet-clear_firmware t = Same-refl t

  Quiet-loaded_or_dropped :
      (generation : ℕ) (r : Result SessionError Bool) → Quiet (loaded_or_dropped b generation r)
  unfolding loaded_or_dropped drop_release clear_firmware update_flash_button
  Quiet-loaded_or_dropped generation (ok loaded) t = Same-refl t
  Quiet-loaded_or_dropped generation (err e) t = Same-if _ t _ _ (Same-refl t) (Same-refl t)

  Quiet-load_idle : (release : Json) → Quiet (load_idle b release)
  unfolding load_idle
  Quiet-load_idle release =
      Quiet-bind (begin_artifact_preparation b) _ Quiet-begin_artifact_preparation λ generation.
        Quiet-bind (clear_firmware b) _ Quiet-clear_firmware λ _.
          Quiet-bind (attempt (load_release b release generation)) (loaded_or_dropped b generation)
            (Quiet-attempt (load_release b release generation)
              (Quiet-load_release release generation))
            (Quiet-loaded_or_dropped generation)

  -- Loading a release sends no packet and leaves the fields of a flash alone.
  pub Quiet-load_release_artifact : (release : Json) → Quiet (load_release_artifact b release)
  unfolding load_release_artifact
  Quiet-load_release_artifact release t =
      Same-if t.flashing t _ _ (Same-refl t) (Quiet-load_idle release t)
