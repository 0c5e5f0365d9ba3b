-- ===== src/RestorePrepare.antt =====
-- The preparation of a restore, cc2camera/restore_prepare.py. SHA-256, the decoding of UTF-8 and the
-- folding of case are parameters.
pub mod Words
pub mod Guarded
pub mod Erased
pub mod Prepared
use cc2_camera_fix.Base.{
  ℕ, zero, suc, ◌+◌, ◌-◌, ◌*◌, ◌%◌, Bool, true, false, not, ◌&&◌, ◌||◌, Option, none, some, List,
  [], ◌∷◌, ◌++◌,
}
use cc2_camera_fix.Base.Tests.{leb, ltb, ◌==◌, if◌then◌else◌}
use cc2_camera_fix.Base.Lists.{length, take, drop, slice}
use cc2_camera_fix.Base.Result
use cc2_camera_fix.Base.Result.{Result, Exn, Reason, ok, err, guard, protocol_error}
use cc2_camera_fix.Base.Bytes.{Bytes, equal}
use cc2_camera_fix.Base.Text.{Text, codes}
use cc2_camera_fix.Protocol.Update.{flash_size}
use cc2_camera_fix.HidTransport.{normal_vid, normal_pid, expected_devices}
use cc2_camera_fix.AdbBackup.{MtdPartition, validate_replacement_against_backup}
use cc2_camera_fix.Image.Order.{filter, any}
use cc2_camera_fix.RestorePrepare.Words.{
  hex8, hex8_upper, hex_number, is_some, strip, is_space, word_of, without_cr, decoded, split_at,
  fields, lines_of,
}
use cc2_camera_fix.Adb.{
  Command, Call, AdbProgram, Run, ran, lift, before, and_then, ◌>>=◌, ◌>>◌, require, re_raised,
}
use cc2_camera_fix.Hid.{Hid, DeviceInfo, Outcome, done}
use cc2_camera_fix.AdbBackup.Client.{run, ensure_available, identity_and_partitions, acquire_stable}

unfoldable pub kernel_sha256 : Text
kernel_sha256 = codes "0855c3a93f571c3130f1bdd38469e7c806ce713550a3ce536c81167579341545"

abbrev pub pointer_physical : ℕ
pointer_physical = 0x0043B190

abbrev pub erase_offset : ℕ
erase_offset = 0x10

abbrev pub symbols : List (Text × ℕ)
symbols =
    (codes "recovery_norflash_erase", 0x801F06CC)
    ∷ (codes "jz_spi_norflash_erase_sector", 0x801EFC74)
    ∷ (codes "direct_erase_norflash", 0x801F080C)
    ∷ []

abbrev pub instructions : List (ℕ × ℕ)
instructions =
    (0x001F06D4, 0x3C138044)
    ∷ (0x001F06E0, 0x8E64B190)
    ∷ (0x001F0764, 0x8C420010)
    ∷ (0x001EFCA4, 0x8E220010)
    ∷ []

abbrev pub present : Option ℕ → Reason → Result ℕ
present none reason = err (protocol_error reason)
present (some n) reason = ok n

unfoldable pub field_address : ℕ → Result ℕ
field_address pointer =
    if pointer % 4 == 0 && (leb 0x80450000 pointer && leb pointer (0x84000000 - 0x264))
    then ok (pointer - 0x80000000 + erase_offset)
    else err (protocol_error Result.pointer_out_of_range)

-- Whether a line is `address [tT] name`
unfoldable pub is_symbol_line : Text → Text → Bool
is_symbol_line name line =
    is_some (hex_number 0 (take 8 line))
    && length line == length name + 11
    && (equal (slice 8 11 line) (codes " t ") || equal (slice 8 11 line) (codes " T "))
    && equal (drop 11 line) name

unfoldable pub symbol_matches : Text → List Text → List Text
unfolding is_symbol_line
symbol_matches name [] = []
symbol_matches name (line ∷ lines) =
    let rest = symbol_matches name lines in
    if is_symbol_line name line then take 8 line ∷ rest else rest

abbrev pub is_only : Text → List Text → Bool
is_only text (found ∷ []) = equal found text
is_only text _ = false

-- The loop over the symbols
unfoldable pub check_symbols : List Text → List (Text × ℕ) → Result (Unit {0})
check_symbols lines [] = ok tt
check_symbols lines ((name, address) ∷ rest) =
    if is_only (hex8 address) (symbol_matches name lines)
    then check_symbols lines rest
    else err (protocol_error Result.bad_symbol)

abbrev pub is_text : Option Text → Text → Bool
is_text none text = false
is_text (some found) text = equal found text

abbrev pub is_number : Option ℕ → ℕ → Bool
is_number none n = false
is_number (some m) n = m == n

abbrev pub same_camera : Text → List DeviceInfo → Bool
same_camera serial (item ∷ []) =
    is_number item.vendor_id normal_vid
    && is_number item.product_id normal_pid
    && is_text item.serial_number serial
same_camera serial _ = false

abbrev pub single_serial : List (List Text) → Result Text
single_serial ((serial ∷ (state ∷ [])) ∷ []) =
    if equal state (codes "device") then ok serial else err (protocol_error Result.no_single_device)
single_serial _ = err (protocol_error Result.no_single_device)

abbrev pub fields_of : List Text → List (List Text)
fields_of [] = []
fields_of (line ∷ lines) = fields line ∷ fields_of lines

-- The serial number of the only line behind the heading
unfoldable pub listed_serial : List Text → Result Text
listed_serial [] = err (protocol_error Result.bad_device_list)
listed_serial (heading ∷ lines) =
    if equal heading (codes "List of devices attached")
    then single_serial (fields_of lines)
    else err (protocol_error Result.bad_device_list)

abbrev pub is_selected : Option Text → Text → Bool
is_selected none serial = true
is_selected (some selected) serial = equal selected serial

-- The remote commands
abbrev pub read_word : ℕ → Command
read_word address =
    codes "busybox" ∷ codes "devmem" ∷ (codes "0x" ++ hex8 address) ∷ codes "32" ∷ []

abbrev pub read_symbols : Command
read_symbols = codes "cat" ∷ codes "/proc/kallsyms" ∷ []

abbrev pub sync_command : Command
sync_command = codes "sync && echo CC2_SYNC_OK" ∷ []

-- `[ "$(busybox devmem 0x... 32)" = "0x..." ] && `
abbrev pub still_holds : ℕ → ℕ → Text
still_holds address value =
    codes "[ \"$(busybox devmem 0x"
    ++ (hex8 address ++ (codes " 32)\" = \"0x" ++ (hex8_upper value ++ codes "\" ] && ")))

abbrev pub write_part : ℕ → ℕ → Text
write_part field old =
    if old == 0x1000
    then []
    else codes "busybox devmem 0x" ++ (hex8 field ++ codes " 32 0x00001000 && ")

unfoldable pub guarded_write : ℕ → ℕ → ℕ → Command
guarded_write pointer field old =
    (still_holds pointer_physical pointer
      ++ (still_holds field old
          ++ (write_part field old
              ++ (codes "busybox devmem 0x"
                  ++ (hex8 field ++ codes " 32 && echo CC2_ERASE_READY")))))
    ∷ []

-- `except AdbUnavailable as exc: raise ProtocolError(...)`
abbrev pub adb_needed : Result (Unit {0}) → Result (Unit {0})
adb_needed (err (protocol_error Reason.adb_unavailable)) =
    err (protocol_error Result.restore_needs_adb)
adb_needed result = result

-- `except ProtocolError as exc: raise ProtocolError(...)`
abbrev pub maybe_patched : Result (Unit {0}) → Result (Unit {0})
maybe_patched (err (protocol_error reason)) = err (protocol_error Result.may_be_patched)
maybe_patched result = result

unfoldable pub validate_preparation_image : (Bytes → Text) → Bytes → Result (Unit {0})
validate_preparation_image sha256 image =
    guard
      (length image == flash_size && equal (sha256 (slice 0x40000 0x190000 image)) kernel_sha256)
      Result.unknown_kernel

module _ {S D : Type 0} (hid : Hid S D) (adb : AdbProgram S) where
  -- `adb.shell(...)`
  abbrev pub shell : Command → S → Run S Bytes
  shell command = run adb (Call.shell command)

  -- `expected_devices()`, which makes no run of adb
  abbrev pub unevented : {A : Type 0} → Outcome S A → Run S A
  unevented (done r es s) = ran r [] s

  abbrev pub hid_devices : S → Run S (List DeviceInfo)
  hid_devices s = unevented (expected_devices hid s)

  unfoldable pub word : ℕ → S → Run S ℕ
  word address = do
    output ← shell (read_word address)
    lift (present (word_of output) Result.bad_word)

  unfoldable pub single_camera : S → Run S (Unit {0})
  single_camera = do
    output ← run adb Call.devices
    serial ← lift (listed_serial (lines_of (without_cr (decoded output))))
    require (is_selected adb.serial serial) Result.other_serial
    found ← hid_devices
    require (same_camera serial found) Result.other_camera

  -- The loop over the instructions
  unfoldable pub check_instructions : List (ℕ × ℕ) → S → Run S (Unit {0})
  unfolding word
  check_instructions [] = lift (ok tt)
  check_instructions ((address, expected) ∷ rest) = do
    found ← word address
    require (found == expected) Result.bad_instructions
    check_instructions rest

  -- The body of the `try`
  unfoldable pub write_and_verify : ℕ → ℕ → ℕ → S → Run S (Unit {0})
  unfolding word
  write_and_verify pointer field old = do
    output ← shell (guarded_write pointer field old)
    require
        (equal (strip is_space (without_cr output))
          (codes "0x00001000" ++ (10 ∷ codes "CC2_ERASE_READY")))
        Result.unconfirmed_write
    pointer_now ← word pointer_physical
    require (pointer_now == pointer) Result.changed_readback
    erase_size ← word field
    require (erase_size == 0x1000) Result.changed_readback

  -- From the pointer on
  unfoldable pub set_erase_size : S → Run S (Unit {0})
  unfolding word single_camera write_and_verify
  set_erase_size = do
    pointer ← word pointer_physical
    field ← lift (field_address pointer)
    old ← word field
    require (old == 0x4000 || old == 0x1000) Result.bad_erase_size
    synced ← shell sync_command
    require (equal (strip is_space synced) (codes "CC2_SYNC_OK")) Result.sync_failed
    single_camera
    λ s. re_raised maybe_patched (write_and_verify pointer field old s)

  unfoldable pub prepare_restore :
      (sha256 utf8_text casefold : Bytes → Text)
      → Option (ℕ → ℕ → ℕ → ℕ → S → Result (Unit {0}) × S)
      → Bytes
      → S
      → Run S (Unit {0})
  unfolding single_camera check_instructions set_erase_size
  prepare_restore sha256 utf8_text casefold progress preserved = do
    lift (validate_preparation_image sha256 preserved)
    λ s. re_raised adb_needed (ensure_available utf8_text casefold adb s)
    single_camera
    live ← acquire_stable utf8_text casefold adb progress
    lift (validate_preparation_image sha256 live)
    lift (validate_replacement_against_backup live preserved)
    identity ← identity_and_partitions utf8_text casefold adb
    require (not (any (λ (part : MtdPartition). not (part.erase_size == 0x4000)) identity.1))
        Result.bad_erase_geometry
    listing ← shell read_symbols
    lift (check_symbols (split_at (λ c. c == 10) (without_cr (decoded listing))) symbols)
    check_instructions instructions
    set_erase_size
