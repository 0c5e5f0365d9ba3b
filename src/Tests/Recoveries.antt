-- ===== src/Tests/Recoveries.antt =====
-- Runs on whole flash images and their recovery.
use cc2_camera_fix.Base.{zero, suc, true, ◌++◌, ℕ, ◌≡◌, refl, arith, some, none, List, [], ◌∷◌}
use cc2_camera_fix.Base.Lists.{slice, replicate, length-replicate}
use cc2_camera_fix.Base.Result.{ok, os_error}
use cc2_camera_fix.Base.Text.{codes}
use cc2_camera_fix.Hid.{Hid}
use cc2_camera_fix.Adb.{AdbProgram, Process, finished, failed}
use cc2_camera_fix.RestorePrepare.{prepare_restore, kernel_sha256}
use cc2_camera_fix.RestorePrepare.Guarded.{Prepares}
use cc2_camera_fix.RestorePrepare.Prepared.{IsInspection, prepare_restore-Prepares}
use cc2_camera_fix.RestorePrepare.Words.{
  split_at, ends_line, stripped, lines_of, strip, strip_front, strip_back, is_text_space,
}
use cc2_camera_fix.Image.Order.{filter, sort_by, insert_by}
use cc2_camera_fix.AdbBackup.Partitions.{parse_proc_mtd}
use cc2_camera_fix.Tests.Devices.{answering}
use cc2_camera_fix.Base.Bytes.{Bytes}
use cc2_camera_fix.AdbBackup.{validate_replacement_against_backup}
use cc2_camera_fix.Image.Hardware.{
  HwRecord, invariant_bytes, patch_start, patch_end, config_start, config_end,
}
use cc2_camera_fix.Image.Recovery.{recovery_of}
use cc2_camera_fix.Image.Analysis.{Difference, difference_summary}
use cc2_camera_fix.Image.Analysis.Differences.{IsFirst, difference_summary-IsFirst}
use cc2_camera_fix.Image.Recovery.Accepted.{
  recovery_of-validate_replacement_against_backup, invariant_bytes-recovery_of,
}

abbrev blank : Bytes
blank = replicate 0x800000 0

abbrev new_patch : Bytes
new_patch = replicate 0x8000 1

abbrev new_config : Bytes
new_config = replicate 0x20000 0xFF

recovery_of-validate_replacement_against_backup_example :
    (validate_replacement_against_backup (recovery_of blank new_patch new_config) blank ≡ ok tt)
    × (slice patch_start patch_end (recovery_of blank new_patch new_config) ≡ new_patch)
    × (slice config_start config_end (recovery_of blank new_patch new_config) ≡ new_config)
recovery_of-validate_replacement_against_backup_example =
    recovery_of-validate_replacement_against_backup blank new_patch new_config
      (length-replicate {A = ℕ} 0x800000 0) (length-replicate {A = ℕ} 0x8000 1)
      (length-replicate {A = ℕ} 0x20000 0xFF)

-- A record of 261 bytes, five of which extend it.
abbrev long_record : HwRecord
long_record = record {
  record_type = 12;
  record_length = 0x105;
  record_end = 0x7D2109;
  extension_start = 0x7D2104;
  extension_length = 5;
  extension_sha256 = [];
}

invariant_bytes-recovery_of_example :
    invariant_bytes (recovery_of blank new_patch new_config) long_record
    ≡ invariant_bytes blank long_record
invariant_bytes-recovery_of_example =
    invariant_bytes-recovery_of blank new_patch new_config (length-replicate {A = ℕ} 0x800000 0)
      (length-replicate {A = ℕ} 0x8000 1) (length-replicate {A = ℕ} 0x20000 0xFF) long_record
      (omega arith) (omega arith)

-- An adb program that answers from a list
next_output : List Bytes → Process × List Bytes
next_output [] = (failed os_error, [])
next_output (reply ∷ replies) = (finished true reply [], replies)

-- The sizes of the six partitions
size_of : ℕ → ℕ
size_of zero = 0x040000
size_of (suc zero) = 0x150000
size_of (suc (suc zero)) = 0x158000
size_of (suc (suc (suc zero))) = 0x4E8000
size_of (suc (suc (suc (suc zero)))) = 0x010000
size_of (suc (suc (suc (suc (suc i))))) = 0x020000

abbrev program : AdbProgram (List Bytes)
program = record {
  serial = none;
  run = λ c s. next_output s;
  is_file = λ i s. (ok true, s);
  read_bytes = λ i s. (ok (replicate (size_of i) 0), s);
}

abbrev hid_camera : Hid (List Bytes) (Unit {0})
hid_camera = record answering {
  enumerate_all = λ s. (
    ok (
        record {
          vendor_id = some 0xA108;
          product_id = some 0x2240;
          serial_number = some (codes "A1");
          path = [];
        }
        ∷ []),
    s,
  );
}

abbrev identity_replies : List Bytes
identity_replies =
    codes "device\n"
    ∷ codes "uid=0(root) gid=0(root)\n"
    ∷ codes
        "mtd0: 00040000 00004000 \"boot\"\nmtd1: 00150000 00004000 \"kernel\"\nmtd2: 00158000 00004000 \"root\"\nmtd3: 004e8000 00004000 \"system\"\nmtd4: 00010000 00004000 \"hwconfig\"\nmtd5: 00020000 00004000 \"config\"\n"
    ∷ []

abbrev device_list : Bytes
device_list = codes "List of devices attached\nA1\tdevice\n"

-- Three reads of the flash make eighteen pulls.
abbrev replies : List Bytes
replies =
    (codes "device\n" ∷ device_list ∷ [])
    ++ (identity_replies
        ++ (replicate 18 []
            ++ (identity_replies
                ++ (codes
                      "801f06cc t recovery_norflash_erase\n801efc74 T jz_spi_norflash_erase_sector\n801f080c T direct_erase_norflash\n"
                    ∷ codes "0x3C138044"
                    ∷ codes "0x8E64B190"
                    ∷ codes "0x8C420010"
                    ∷ codes "0x8E220010"
                    ∷ codes "0x83000000"
                    ∷ codes "0x00004000"
                    ∷ codes "CC2_SYNC_OK\n"
                    ∷ device_list
                    ∷ codes "0x00001000\nCC2_ERASE_READY\n"
                    ∷ codes "0x83000000"
                    ∷ codes "0x00001000"
                    ∷ []))))

-- The parser of /proc/mtd reads the six partitions.
parsed_indices :
    parse_proc_mtd
      (codes "mtd1: 00150000 00004000 \"kernel\"\r\nnoise\nmtd0: 00040000 00004000 \"boot\"\r\n")
    ≡ ok (
        record { index = 0; size = 0x40000; erase_size = 0x4000; name = codes "boot" }
        ∷ record { index = 1; size = 0x150000; erase_size = 0x4000; name = codes "kernel" }
        ∷ [])
unfolding parse_proc_mtd filter split_at ends_line stripped lines_of strip strip_front strip_back
    is_text_space sort_by insert_by
parsed_indices = refl

prepare_restore-Prepares_example : Prepares IsInspection (
    prepare_restore hid_camera program
      (λ raw. kernel_sha256)
      (λ raw. raw)
      (λ t. t)
      none
      blank
      replies)
prepare_restore-Prepares_example =
    prepare_restore-Prepares hid_camera program (λ raw. kernel_sha256) (λ raw. raw) (λ t. t) none
      blank replies

-- Two images that differ in their second byte.
difference_summary-IsFirst_example :
    (found : Difference) × (difference_summary (1 ∷ 2 ∷ 3 ∷ []) (1 ∷ 5 ∷ 3 ∷ []) ≡ ok found)
    × IsFirst (1 ∷ 2 ∷ 3 ∷ []) (1 ∷ 5 ∷ 3 ∷ []) found.different_bytes found.first_difference
difference_summary-IsFirst_example =
    difference_summary-IsFirst (1 ∷ 2 ∷ 3 ∷ []) (1 ∷ 5 ∷ 3 ∷ []) refl
