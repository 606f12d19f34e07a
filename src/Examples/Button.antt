-- ===== src/Examples/Button.antt =====
-- A press of a button on the flasher page (site/app.js) with a simulated badge, from the catalog to
-- the packets of the session.
use frogalert.Page.Gate.{
  present, selected_revision, has_board_record, revision_matches, revision_matches_artifact,
  marking_matches, physical_marking_matches_artifact, is_recovery,
  recovery_artifact_confirmation_complete, artifact_programming_allowed, artifact_ready_for_wizard,
  flash_enabled, update_flash_button,
}
use frogalert.Page.Usb.{
  same_object, data_of, is_acknowledged, hand_over, await_call, write_packet, opened_device,
  still_captured, captured_or_absent, target_of, require_data, exchange, usb_transfer,
  receive_reset, reset_response, send_reset, await_quietly, close_device, forget_device, close_usb,
  session_environment,
}
use frogalert.Page.Load.{
  of_module, profile_name_for_config_id, is_no_block, embedded_of, inspect_at,
  inspect_firmware_config, profile_fits, hash_differs, begin_artifact_preparation, clear_firmware,
  store_firmware, accept_firmware, accept_current, set_firmware, is_embedded_profile,
  check_download, download_release_artifact, cached, remember_artifact, download_or_cached,
  verified_release_artifact_bytes,
}
use frogalert.Page.Flash.{
  is_text_value, id_at, button_release_id, config_tag, firmware_tag, firmware_is, hint_is,
  has_started, is_opened, device_matches, release_matches, board_matches,
  expected_button_flash_matches, lost_binding, not_ready, confirm_flash, begin_flash, run_on,
  flash_session, withdrawn, withdraw_confirmation, settle, end_flash, finish_flash,
  flash_device_with, flash_confirmed, flash_loaded, flash_firmware, flash_under_lock,
  request_and_flash, start_flash,
}
use frogalert.Page.Choose.{
  texts_of, release_options, is_release_for, same_version, find_release, release_for, load_release,
  drop_release, loaded_or_dropped, load_idle, load_release_artifact, cannot_choose,
  begin_button_flash, end_button_flash, is_unchanged, button_flash_of, load_and_flash,
  flash_release, flash_found, choose_hint, choose_isp_button_and_flash,
}
use frogalert.Session.Steps.{
  first_is, transfer, emit, random_byte, wait, reset, read_bootloader_info, begin_key_session,
  send_chunk, program_chunks, verify_chunks, reset_config, erase_flash, program_flash, verify_flash,
  run_session, program_and_verify_firmware,
}
use frogalert.Protocol.Packets.{
  write_u16_le, write_u32_le, read_u16_le, identify_packet, read_config_packet, fill_config_packet,
  write_config_packet, reset_config_packet, isp_key_packet, erase_packet, fill_data_packet,
  data_packet, isp_end_packet,
}
use frogalert.Protocol.Responses.{
  parse_response, parse_identity, validate_uid, parse_config_registers, parse_config, every_matches,
  is_reset_config, checksum_from, derive_xor_key, xor_from, xor_chunk,
}
use frogalert.Protocol.Image.{pad_firmware, is_bin_name, validate_firmware}
use frogalert.Catalog.Release.{
  is_digest, is_printed_sha256, is_workflow, is_candidate_artifact, ci_audited, is_release_id,
  is_not_blank, check_origin, text_of, second_part, prerelease_of, channel_fits, is_channel,
  expected_tag, expected_url, check_version, is_notes_stem, is_notes_name, is_notes_path, is_debug,
  is_anything, check_artifact, validate_release_catalog_descriptor, supports,
  validate_release_descriptor,
}
use frogalert.Catalog.Versions.{
  prepend, split, before_first, after_first, is_numeral, core_of, is_prerelease, prerelease_parts,
  parsed_with, parse_version, is_version, compare_number, compare_ascii, compare_numeric_strings,
  is_numeric, compare_parts, compare_prereleases, compare_tails, compare_parsed, parse_or_throw,
  compare_release_versions,
}
use frogalert.Catalog.Sort.{
  items_of, validate_all, compare_releases, is_after, insert_release, sort_releases,
  sort_release_catalog_newest_first,
}
use frogalert.Prelude.Json.{
  find_field, get, is_the_text, is_the_number, is_true, is_false, is_boolean, is_text,
  is_integer_from, is_falsy, is_not_object, is_single, first_item, has_text, includes_text,
  decimal_from, decimal, print_boolean,
}
use frogalert.Prelude.Text.{
  starts_with, includes, to_upper, is_space, trim_start, trim, lower_case, codes,
}
use frogalert.Prelude.Patterns.{
  all_of, some_of, exactly_of, headed, before_suffix, after_prefix, holds_of, is_sha256, is_commit,
  is_file_name, is_bin_file,
}
use frogalert.Prelude.Bytes.{every_eq, same_bytes}
use frogalert.Config.Image.{
  matches_at, offsets_from, unique_offset, find_unique_firmware_config_block, patch_firmware_config,
}
use frogalert.Quarantine.{
  has_hash, has_value, matches_sha256, add_artifacts, artifacts_of, add_listed,
  parse_firmware_quarantine_registry, assert_firmware_hash_not_quarantined,
}
use frogalert.Flasher.State.{
  next_artifact_generation, revision_input_transition, artifact_board_binding, has, is_inherited,
  profile_hint_for_isp_button, expected_pcb_marking, expected_markings, observed_markings,
  physical_marking_matches_profiles, can_program_artifact, can_enable_flash,
}
use frogalert.Prelude.{◌≡◌, refl, true, false, [], ◌∷◌, length, some, none}
use frogalert.Page.{Tab, Shared}
use frogalert.Page.Press.{PressClaim, choose_isp_button_and_flash_lem}
use frogalert.Flasher.State.{missing}
use frogalert.Examples.Page.{Badge, browser, page, framed, payload_of}
use frogalert.Examples.Session.{image, answer, verdict, obey, plain_of, address_of}
use frogalert.Examples.Catalog.{new_top}

-- The page with the device connected and the image of the release for the top button prefetched.
abbrev prepared : Shared
prepared = record page {
  firmware = none;
  releases = new_top ∷ [];
  release_prefetch_version = some (codes "1.0.0-beta.10");
  button_release_ids =
      some (record { top = codes "frogalert-top.2"; bottom = codes "frogalert-bottom.2" });
  application_profile_hint = missing;
  pcb_revision = [];
  pcb_marking = [];
  flash_button_disabled = true;
  release_artifacts = (codes "frogalert-top.2", image) ∷ [];
}

abbrev idle : Tab Badge
idle = record {
  flashing = false;
  active_flash_device = none;
  button_flash_pending = false;
  shared = prepared;
  wire = [];
  world = record { flash = []; reply = [] };
}

abbrev pressed : Tab Badge
pressed = (choose_isp_button_and_flash browser (codes "top") idle).1

-- The whole session goes over the wire, with the reset command at its end.
sends_session : length pressed.wire ≡ 45
unfolding present selected_revision has_board_record revision_matches revision_matches_artifact
    marking_matches physical_marking_matches_artifact is_recovery
    recovery_artifact_confirmation_complete artifact_programming_allowed artifact_ready_for_wizard
    flash_enabled update_flash_button same_object data_of is_acknowledged hand_over await_call
    write_packet opened_device still_captured captured_or_absent target_of require_data exchange
    usb_transfer receive_reset reset_response send_reset await_quietly close_device forget_device
    close_usb session_environment of_module profile_name_for_config_id is_no_block embedded_of
    inspect_at inspect_firmware_config profile_fits hash_differs begin_artifact_preparation
    clear_firmware store_firmware accept_firmware accept_current set_firmware is_embedded_profile
    check_download download_release_artifact cached remember_artifact download_or_cached
    verified_release_artifact_bytes is_text_value id_at button_release_id config_tag firmware_tag
    firmware_is hint_is has_started is_opened device_matches release_matches board_matches
    expected_button_flash_matches lost_binding not_ready confirm_flash begin_flash run_on
    flash_session withdrawn withdraw_confirmation settle end_flash finish_flash flash_device_with
    flash_confirmed flash_loaded flash_firmware flash_under_lock request_and_flash start_flash
    texts_of release_options is_release_for same_version find_release release_for load_release
    drop_release loaded_or_dropped load_idle load_release_artifact cannot_choose begin_button_flash
    end_button_flash is_unchanged button_flash_of load_and_flash flash_release flash_found
    choose_hint choose_isp_button_and_flash first_is transfer emit random_byte wait reset
    read_bootloader_info begin_key_session send_chunk program_chunks verify_chunks reset_config
    erase_flash program_flash verify_flash run_session program_and_verify_firmware write_u16_le
    write_u32_le read_u16_le identify_packet read_config_packet fill_config_packet
    write_config_packet reset_config_packet isp_key_packet erase_packet fill_data_packet data_packet
    isp_end_packet parse_response parse_identity validate_uid parse_config_registers parse_config
    every_matches is_reset_config checksum_from derive_xor_key xor_from xor_chunk pad_firmware
    is_bin_name validate_firmware is_digest is_printed_sha256 is_workflow is_candidate_artifact
    ci_audited is_release_id is_not_blank check_origin text_of second_part prerelease_of
    channel_fits is_channel expected_tag expected_url check_version is_notes_stem is_notes_name
    is_notes_path is_debug is_anything check_artifact validate_release_catalog_descriptor supports
    validate_release_descriptor prepend split before_first after_first is_numeral core_of
    is_prerelease prerelease_parts parsed_with parse_version is_version compare_number compare_ascii
    compare_numeric_strings is_numeric compare_parts compare_prereleases compare_tails
    compare_parsed parse_or_throw compare_release_versions items_of validate_all compare_releases
    is_after insert_release sort_releases sort_release_catalog_newest_first find_field get
    is_the_text is_the_number is_true is_false is_boolean is_text is_integer_from is_falsy
    is_not_object is_single first_item has_text includes_text decimal_from decimal print_boolean
    starts_with includes to_upper is_space trim_start trim lower_case all_of some_of exactly_of
    headed before_suffix after_prefix holds_of is_sha256 is_commit is_file_name is_bin_file every_eq
    same_bytes matches_at offsets_from unique_offset find_unique_firmware_config_block
    patch_firmware_config has_hash has_value matches_sha256 add_artifacts artifacts_of add_listed
    parse_firmware_quarantine_registry assert_firmware_hash_not_quarantined next_artifact_generation
    revision_input_transition artifact_board_binding has is_inherited profile_hint_for_isp_button
    expected_pcb_marking expected_markings observed_markings physical_marking_matches_profiles
    can_program_artifact can_enable_flash browser answer verdict obey plain_of address_of framed
    payload_of
sends_session = refl

choose_isp_button_and_flash_lem_example : PressClaim browser (codes "top") idle pressed
choose_isp_button_and_flash_lem_example = choose_isp_button_and_flash_lem browser (codes "top") idle
