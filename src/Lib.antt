-- ===== src/Lib.antt =====
-- The verification library of cc2_camera_fix, which reads, repairs and restores a camera over USB.
--
-- Parts of the program and the files that model them:
--
--   cc2camera/protocol.py          Protocol: Crc (crc16_normal), Normal (build_normal_report,
--                                  parse_normal_report, upgrade_flag_payload), Boot
--                                  (build_boot_frame, parse_boot_frame, to_boot_hid_report,
--                                  from_boot_hid_report), Update (UpdatePlan, build_update_blob,
--                                  iter_data_frames, validate_full_restore_image)
--   cc2camera/commands.py          Commands: Numbers (NormalCommand), Configuration, Uploads and
--                                  Catalog (the tables and their lookups), Requests (the builders
--                                  of the Linux mode), BootRequests (the bootloader's requests
--                                  and the decoders of its replies)
--   cc2camera/hid_transport.py     Hid (the hid library and the clock as parameters, and the
--                                  effects) and HidTransport (the exchanges, the two uploads, the
--                                  restore and the wait for a device)
--   cc2camera/adb_backup.py        Adb (the adb program and the pulled files as parameters, and the
--                                  effects), AdbBackup (the partition map, the checks of a
--                                  replacement image and of the readback), Partitions
--                                  (parse_proc_mtd), Client (run, ensure_available,
--                                  identity_and_partitions, read_flash_once, acquire_stable) and
--                                  Acquire (the loop of acquire_stable)
--   cc2camera/image.py             Image: Jffs2 (parse_jffs2), Encode (the nodes that are built),
--                                  Live (decode_jffs2_fragment, reconstruct_live_config_files),
--                                  Info (extract_serial_and_config_info), Serial (its pattern),
--                                  Config (build_minimal_config, build_preserved_config),
--                                  Hardware (identify_hwconfig_variant, invariant_bytes,
--                                  decode_hwconfig_date), Xz (xz_vli,
--                                  build_squashfs_xz_fragment), SystemPatch (patch_bashrc,
--                                  build_system_patch_window, apply_system_patch), Analysis
--                                  (analyze_image, difference_summary), Recovery
--                                  (verify_confirmation_reads and the image of build_recovery),
--                                  and Order and Numbers (sorted, align4)
--   cc2camera/restore_prepare.py   RestorePrepare (prepare_restore with its checks; Words has the
--                                  texts of the camera's replies)
--   cc2camera/startup.py           Startup (space_plan, the check that the config partition has room
--                                  for the hooks)
--
-- The transport calls the builders of the commands, which call the builders of the protocol; each
-- definition here calls the ones of the parts below it in the same way. The files below a part,
-- such as Protocol/Boot/Sound, prove things of it. A recovery image is made by Image/Recovery and
-- goes through the checks of AdbBackup before it is written. Tests runs the theorems at concrete inputs.
--
-- Conventions. Bytes are native numbers in a list, and a statement that needs them below 256 says
-- so by IsBytes. A Python int is a ℤ of the library, and struct.pack refuses what its field does
-- not hold. An exception is a value of Result: one reason for each raise of ProtocolError and
-- ValidationError, and one name for each class of the interpreter's exceptions that can occur. A report under construction,
-- a bytearray in the program, is a list that each assignment replaces. A device is any value of
-- the record Hid: its calls may return or raise anything. The trace of a computation has the
-- calls of write with their results, the failed ones included, and the replies that it read, in
-- order. A report is written whole if the library took all its bytes, or all but the report ID.
-- The trace of the adb client has its runs of adb, each with what came of it; a run is told by its
-- arguments behind the selection of a serial number.
--
-- Loops are structural: over the payload, the chunks, the data frames, the nodes or the files. The
-- wait for a device is a loop on fuel, where the fuel counts the polls, and none stands for fuel
-- that is used up. The scan of a partition runs over the offsets of its range, and is total. The
-- search for an unused inode has one more turn than there are files, and the coding of an XZ
-- integer one more than its value; both are shown to be enough. The wrap-around of the checksums is
-- written out, in 16 and 8 bits.
--
-- Parameters: MD5 (with digests of 16 bytes where that matters), SHA-256, CRC-32 (below 2^32 where
-- that matters), zlib, LZMA, the decoding of UTF-8 and the folding of case.
--
-- Not modelled: the messages of the exceptions, the backup archives with their manifests,
-- wait_for_device, the temporary directory of the pulled files, the reports and the files that build_recovery writes,
-- the installation of the startup hooks, the identification of streams and the command line.
pub mod Base
pub mod Protocol
pub mod Commands
pub mod Hid
pub mod HidTransport
pub mod AdbBackup
pub mod Image
pub mod Adb
pub mod RestorePrepare
pub mod Startup
pub mod Tests
