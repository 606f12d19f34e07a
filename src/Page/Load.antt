-- ===== src/Page/Load.antt =====
-- site/app.js: `beginArtifactPreparation`, `setFirmware` and `verifiedReleaseArtifactBytes`. Of
-- the cached downloads those are kept that have succeeded; an error of another module is thrown as a
-- number.
use frogalert.Prelude.{
  ℕ, ◌+◌, ◌==◌, Bool, true, false, not, ◌&&◌, List, [], ◌∷◌, length, Option, none, some, Result, ok,
  err, if◌then◌else◌,
}
use frogalert.Prelude.Text.{Text, lower_case}
use frogalert.Prelude.Bytes.{same_bytes, slice}
use frogalert.Prelude.Json.{Json, get, first_item, is_the_text, is_the_number}
use frogalert.Catalog.Release.{text_of}
use frogalert.Config.{Decoded, ConfigError, no_block, block_size, Decoded}
use frogalert.Config.Codec.{decode_firmware_config}
use frogalert.Config.Image.{find_unique_firmware_config_block}
use frogalert.Flasher.State.{
  Listed, items, has, bottom_profile, top_profile, artifact_board_binding, next_artifact_generation,
  ArtifactKind,
}
use frogalert.Protocol.Image.{Plan, validate_firmware}
use frogalert.Quarantine.{assert_firmware_hash_not_quarantined}
use frogalert.Session.{SessionError, thrown}
use frogalert.Page.{Shared, Firmware, Browser, Async, ◌>>=◌, ◌>>◌, return, throw_if, shared_of}
use frogalert.Page.Gate.{update_flash_button}
use frogalert.Page.Usb.{await_call}

-- `throw` in a function of another module.
unfoldable pub of_module : {W E A : Type 0} → Result E A → Async W A
of_module (ok a) t = (ok a, t)
of_module (err e) t = (err (thrown 7), t)

abbrev pub wrong_profile : SessionError
wrong_profile = thrown 8

abbrev pub wrong_hash : SessionError
wrong_hash = thrown 9

abbrev pub bad_download : SessionError
bad_download = thrown 10

abbrev pub no_release : SessionError
no_release = thrown 11

unfoldable pub profile_name_for_config_id : ℕ → Option Text
profile_name_for_config_id profile_id =
    if profile_id == 1
    then some bottom_profile
    else if profile_id == 2
    then some top_profile
    else none

unfoldable pub is_no_block : ConfigError → Bool
is_no_block no_block = true
is_no_block other = false

-- The profile of the embedded configuration, if there is a configuration.
pub data Embedded : Type 0 where
  absent : Embedded
  profile : Option Text → Embedded

unfoldable pub embedded_of : Result ConfigError Decoded → Result ConfigError Embedded
embedded_of (err e) = err e
embedded_of (ok decoded) = ok (profile (profile_name_for_config_id decoded.config.hardware_profile))

unfoldable pub inspect_at : Result ConfigError ℕ → List ℕ → Result ConfigError Embedded
inspect_at (err e) raw = if is_no_block e then ok absent else err e
inspect_at (ok offset) raw =
    embedded_of (decode_firmware_config (slice raw offset (offset + block_size)))

unfoldable pub inspect_firmware_config : List ℕ → Result ConfigError Embedded
inspect_firmware_config raw = inspect_at (find_unique_firmware_config_block raw) raw

-- `!embeddedProfile || !hardwareRevisions?.includes(embeddedProfile)`, negated.
unfoldable pub profile_fits : Embedded → List Text → Bool
profile_fits absent hardware_revisions = true
profile_fits (profile none) hardware_revisions = false
profile_fits (profile (some name)) hardware_revisions = has hardware_revisions name

-- `expectedHash && hash.toLowerCase() !== expectedHash.toLowerCase()`
unfoldable pub hash_differs : Text → Option Text → Bool
hash_differs hash none = false
hash_differs hash (some expected_hash) =
    not (length expected_hash == 0) && not (same_bytes (lower_case hash) (lower_case expected_hash))

-- The options of `setFirmware`, with what is used of `metadata`.
pub record Options : Type 0 where
  pub expected_hash : Option Text
  pub generation : ℕ
  pub hardware_revisions : List Text
  pub pcb_markings : Listed
  pub artifact_kind : ArtifactKind
  pub hardware_verified : Bool
  pub hardware_verified_by_frogalert : Bool
  pub flash_approved : Bool
  pub release_id : Option Text
  pub release_version : Option Text

module _ {W : Type 0} (b : Browser W) where
  unfoldable pub begin_artifact_preparation : Async W ℕ
  begin_artifact_preparation = do
    shared ← shared_of
    generation ← of_module (next_artifact_generation shared.artifact_generation)
    (λ t.
        (ok generation, record t { shared = record t.shared { artifact_generation = generation } }))

  -- With the monitor settings, which belong to the firmware.
  unfoldable pub clear_firmware : Async W (Unit {0})
  clear_firmware t =
      let shared = record t.shared { firmware = none; monitor_dirty = false } in
      update_flash_button (record t { shared = shared })

  -- A new object, with a tag of its own.
  unfoldable pub store_firmware : Firmware → Async W (Unit {0})
  store_firmware firmware t =
      let shared = record t.shared {
        firmware = some firmware;
        monitor_dirty = false;
        next_tag = t.shared.next_tag + 1;
      } in
      update_flash_button (record t { shared = shared })

  -- From the comparison of the generations on.
  unfoldable pub accept_firmware : Options → Plan → Text → Shared → Async W Bool
  accept_firmware options plan hash shared = do
    of_module (assert_firmware_hash_not_quarantined hash shared.quarantined_firmware_hashes)
    throw_if (hash_differs hash options.expected_hash) wrong_hash
    board ←
        of_module (artifact_board_binding (items options.hardware_revisions) options.pcb_markings)
    store_firmware (record {
      tag = shared.next_tag;
      hash = hash;
      board = board;
      padded = plan.padded;
      erase_sectors = plan.erase_sectors;
      artifact_kind = options.artifact_kind;
      hardware_verified = options.hardware_verified;
      hardware_verified_by_frogalert = options.hardware_verified_by_frogalert;
      flash_approved = options.flash_approved;
      release_id = options.release_id;
      release_version = options.release_version;
    })
    return true

  unfoldable pub accept_current : Options → Plan → Text → Async W Bool
  accept_current options plan hash t =
      if options.generation == t.shared.artifact_generation
      then accept_firmware options plan hash t.shared t
      else (ok false, t)

  unfoldable pub set_firmware : List ℕ → Text → Options → Async W Bool
  set_firmware raw name options = do
    plan ← of_module (validate_firmware raw name)
    hash ← await_call b (b.sha256 raw)
    embedded ← of_module (inspect_firmware_config raw)
    throw_if (not (profile_fits embedded options.hardware_revisions)) wrong_profile
    accept_current options plan hash

  -- `embeddedProfile !== release.hardware_revisions[0]`, negated, of a configuration that is there.
  unfoldable pub is_embedded_profile : Embedded → Json → Bool
  is_embedded_profile absent revision = false
  is_embedded_profile (profile none) revision = false
  is_embedded_profile (profile (some name)) revision = is_the_text name revision

  -- What is checked of a download before it is kept.
  unfoldable pub check_download : Json → List ℕ → Text → Async W (List ℕ)
  check_download release bytes hash = do
    shared ← shared_of
    of_module (assert_firmware_hash_not_quarantined hash shared.quarantined_firmware_hashes)
    throw_if (not (same_bytes (lower_case hash) (lower_case (text_of (get release "sha256")))))
        wrong_hash
    _ ← of_module (validate_firmware bytes (text_of (get release "file")))
    embedded ← of_module (inspect_firmware_config bytes)
    throw_if (not (is_embedded_profile embedded (first_item (get release "hardware_revisions"))))
        wrong_profile
    return bytes

  unfoldable pub download_release_artifact : Json → Async W (List ℕ)
  download_release_artifact release = do
    response ← await_call b (b.fetch (text_of (get release "file")))
    throw_if (not response.is_ok) bad_download
    throw_if (not (is_the_number (length response.bytes) (get release "bytes"))) bad_download
    hash ← await_call b (b.sha256 response.bytes)
    check_download release response.bytes hash

  unfoldable pub cached : List (Text × List ℕ) → Text → Option (List ℕ)
  cached [] id = none
  cached (entry ∷ entries) id = if same_bytes entry.0 id then some entry.1 else cached entries id

  unfoldable pub remember_artifact : Text → List ℕ → Async W (List ℕ)
  remember_artifact id bytes t =
      let shared = record t.shared {
        release_artifacts = (id, bytes) ∷ t.shared.release_artifacts;
      } in
      (ok bytes, record t { shared = shared })

  unfoldable pub download_or_cached : Option (List ℕ) → Json → Async W (List ℕ)
  download_or_cached (some bytes) release = return bytes
  download_or_cached none release = do
    bytes ← download_release_artifact release
    remember_artifact (text_of (get release "id")) bytes

  unfoldable pub verified_release_artifact_bytes : Json → Async W (List ℕ)
  verified_release_artifact_bytes release t =
      download_or_cached (cached t.shared.release_artifacts (text_of (get release "id"))) release t
