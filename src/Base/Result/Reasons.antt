-- ===== src/Base/Result/Reasons.antt =====
-- The messages of `ProtocolError`, one name for each place that raises it.
pub data Reason : Type 0 where
  -- protocol.py, the normal reports
  command_range unsafe_frame_type payload_too_large : Reason
  short_report bad_report_id bad_magic length_exceeds_report crc_mismatch : Reason
  unknown_transport_flag : Reason
  -- protocol.py, the bootloader frames
  boot_frame_too_large short_boot_frame bad_boot_magic bad_boot_length : Reason
  checksum_mismatch report_overflow : Reason
  -- protocol.py, the update plan and the image
  bad_flash_range flash_range_overflow wrong_image_size persistent_flag : Reason
  -- commands.py, the requests of the Linux mode
  not_a_payload unknown_configuration_key unknown_upload_target derived_with_path : Reason
  not_an_upload_target literal_without_path bad_path_type unsafe_path : Reason
  upload_sequence_range upload_data_type trigger_range : Reason
  -- commands.py, the bootloader
  metadata_payload_size metadata_transfer_size metadata_acks metadata_version : Reason
  metadata_packet_count boot_sequence_range boot_data_type boot_data_too_large : Reason
  not_an_ack bad_ack_size not_a_status bad_status : Reason
  -- hid_transport.py
  hid_not_loaded hid_match_count short_hid_write hid_timeout wrong_echo rejected_status : Reason
  empty_upload upload_too_large wait_timeout unexpected_metadata_ack md5_rejected : Reason
  wrong_packet_requested : Reason
  -- adb_backup.py
  partition_indices partition_sizes partition_names partition_cover : Reason
  wrong_backup_size outside_recovery_regions wrong_readback_size readback_differs : Reason
  unstable_flash adb_failed adb_not_found adb_timeout adb_unusable not_root no_partitions : Reason
  no_pulled_file short_partition_read wrong_assembled_size wrong_fingerprint_size : Reason
  -- image.py, the reconstruction of the live files
  no_nodes unexpected_names ambiguous_entries ambiguous_serial no_unique_serial : Reason
  live_subdirectories unsafe_entry invalid_inode shared_inode missing_inode : Reason
  ambiguous_metadata not_a_regular_file impossible_size oversized_fragment : Reason
  malformed_zero_compression invalid_zlib_data decompressed_size_mismatch : Reason
  unsupported_compression differing_serial : Reason
  -- image.py, the config partition and the hardware record
  invalid_serial_payload serial_too_large round_trip_failed unexpected_node_count
        unexpected_obsolete_nodes :
      Reason
  no_live_files duplicate_names no_single_serial preserved_too_large : Reason
  wrong_record_type short_record unsupported_record_length record_too_long : Reason
  invalid_date unsupported_date : Reason
  -- image.py, the system patch
  unpatchable_state non_stock_window non_stock_fragment bad_fragment_data : Reason
  unaudited_fragment non_stock_bashrc no_single_copy_block bad_patched_bashrc : Reason
  changed_bashrc_length bad_patched_fragment unaudited_xz adb_unavailable restore_needs_adb
        unknown_kernel bad_word pointer_out_of_range bad_device_list no_single_device other_serial
        other_camera bad_erase_geometry bad_symbol bad_instructions bad_erase_size sync_failed
        unconfirmed_write changed_readback may_be_patched unaudited_window replacement_too_large
        failed_validation wrong_image_length unlike_reference unknown_system_state bad_uoid
        unequal_reads wipe_without_serial_only too_few_reads output_contains_input changed_outside
        unpatched_output not_canonical_output differing_config :
      Reason
  -- startup.py
  invalid_space insufficient_space : Reason
