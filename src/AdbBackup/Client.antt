-- ===== src/AdbBackup/Client.antt =====
-- The client of cc2camera/adb_backup.py: AdbClient and acquire_stable. The decoding of UTF-8 and the
-- folding of case are parameters.
pub mod Script
pub mod Reads
use cc2_camera_fix.Base.{
  ℕ, zero, suc, ◌+◌, Bool, true, false, not, ◌&&◌, ◌||◌, Option, none, some, List, [], ◌∷◌, ◌++◌,
}
use cc2_camera_fix.Base.Tests.{leb, ◌==◌, if◌then◌else◌}
use cc2_camera_fix.Base.Lists.{length}
use cc2_camera_fix.Base.Result.{
  Result, Exn, ok, err, protocol_error, adb_failed, adb_not_found, adb_timeout, adb_unusable,
  adb_unavailable, not_root, no_pulled_file, short_partition_read, wrong_assembled_size,
  wrong_fingerprint_size,
}
use cc2_camera_fix.Base.Bytes.{Bytes, equal}
use cc2_camera_fix.Base.Text.{Text, codes}
use cc2_camera_fix.Protocol.Update.{flash_size}
use cc2_camera_fix.RestorePrepare.Words.{strip, is_some, is_blank}
use cc2_camera_fix.AdbBackup.{MtdPartition, validate_partition_map}
use cc2_camera_fix.AdbBackup.Partitions.{ascii_text, parse_proc_mtd, device_path}
use cc2_camera_fix.AdbBackup.Acquire.{Acquisition, acquired, acquire_reads}
use cc2_camera_fix.Adb.{
  Command, Call, shell, get_state, pull, Process, finished, not_found, timed_out, failed,
  AdbProgram, Entry, made, Run, ran, lift, call, and_then, ◌>>=◌, ◌>>◌, require,
}

-- What `str.strip()` takes for a space
unfoldable pub is_str_space : ℕ → Bool
is_str_space c =
    (leb 9 c && leb c 13)
    || (leb 28 c && leb c 32)
    || c == 0x85
    || c == 0xA0
    || c == 0x1680
    || (leb 0x2000 c && leb c 0x200A)
    || c == 0x2028
    || c == 0x2029
    || c == 0x202F
    || c == 0x205F
    || c == 0x3000

abbrev starts_with : Text → Text → Bool
starts_with [] text = true
starts_with (c ∷ cs) [] = false
starts_with (c ∷ cs) (d ∷ ds) = c == d && starts_with cs ds

-- `part in text`
unfoldable pub contains : Text → Text → Bool
contains part [] = is_blank part
contains part (c ∷ cs) = starts_with part (c ∷ cs) || contains part cs

-- `a or b`
abbrev or_else : Text → Text → Text
or_else [] b = b
or_else (c ∷ cs) b = c ∷ cs

-- `run`, from the outcome of `subprocess.run`
unfoldable pub output_of : Process → Result Bytes
output_of (finished true out errors) = ok out
output_of (finished false out errors) = err (protocol_error adb_failed)
output_of not_found = err (protocol_error adb_not_found)
output_of timed_out = err (protocol_error adb_timeout)
output_of (failed e) = err e

abbrev pub identity_command : Command
identity_command = codes "id" ∷ []

abbrev pub partitions_command : Command
partitions_command = codes "cat" ∷ codes "/proc/mtd" ∷ []

module _ {S : Type 0} (adb : AdbProgram S) where
  -- `self.run(...)`
  abbrev pub run : Call → S → Run S Bytes
  run c s = ran (output_of (adb.run c s).0) (made c (adb.run c s).0 ∷ []) (adb.run c s).1

  -- The loop over the partitions
  unfoldable pub read_parts : List MtdPartition → S → Run S Bytes
  read_parts [] = lift (ok [])
  read_parts (part ∷ parts) = do
    pulled ← run (pull (device_path part.index))
    found ← call (adb.is_file part.index)
    require found no_pulled_file
    raw ← call (adb.read_bytes part.index)
    require (length raw == part.size) short_partition_read
    rest ← read_parts parts
    lift (ok (raw ++ rest))

  unfoldable pub read_flash_once : List MtdPartition → S → Run S Bytes
  unfolding read_parts
  read_flash_once parts = do
    image ← read_parts parts
    require (length image == flash_size) wrong_assembled_size
    lift (ok image)

  abbrev pub with_log : {A : Type 0} → List Entry → Run S A → Result A × (List Entry × S)
  with_log es (ran r fs t) = (r, (es ++ fs, t))

  -- The state of the loop of the reads holds the runs of adb as well.
  abbrev pub logged : {A : Type 0} → (S → Run S A) → List Entry × S → Result A × (List Entry × S)
  logged m (es, s) = with_log es (m s)

  abbrev pub unlogged : Acquisition (List Entry × S) → Run S (Bytes × ℕ × ℕ)
  unlogged (acquired r images (es, s)) = ran r es s

  -- A call of `progress`, when there is one
  abbrev pub reported :
      Option (ℕ → ℕ → ℕ → ℕ → S → Result (Unit {0}) × S)
      → ℕ
      → ℕ
      → ℕ
      → ℕ
      → List Entry × S
      → Result (Unit {0}) × (List Entry × S)
  reported none a b c d (es, s) = (ok tt, (es, s))
  reported (some progress) a b c d (es, s) = ((progress a b c d s).0, (es, (progress a b c d s).1))

module _ (utf8_text casefold : Bytes → Text) where
  unfoldable pub unavailable : Option Text → Text → Result (Unit {0})
  unfolding contains
  unavailable serial detail =
      let lowered = casefold detail in
      if contains (codes "no devices") lowered
        || (contains (codes "device") lowered && contains (codes "not found") lowered)
        || (not (is_some serial) && equal detail (codes "no device"))
        || contains (codes "device offline") lowered
        || equal detail (codes "offline")
      then err (protocol_error adb_unavailable)
      else err (protocol_error adb_unusable)

  -- `ensure_available`, from the outcome of `subprocess.run`. The timeout is the positive default.
  unfoldable pub availability : Option Text → Process → Result (Unit {0})
  unfolding unavailable is_str_space strip
  availability serial (finished success out errors) =
      let state = strip is_str_space (utf8_text out) in
      let stderr = strip is_str_space (utf8_text errors) in
      if success && equal state (codes "device")
      then ok tt
      else unavailable serial (or_else stderr (or_else state (codes "no device")))
  availability serial not_found = err (protocol_error adb_not_found)
  availability serial timed_out = err (protocol_error adb_timeout)
  availability serial (failed e) = err e

  module _ {S : Type 0} (adb : AdbProgram S) where
    unfoldable pub ensure_available : S → Run S (Unit {0})
    ensure_available s =
        ran (availability adb.serial (adb.run get_state s).0)
          (made get_state (adb.run get_state s).0 ∷ []) (adb.run get_state s).1

    unfoldable pub identity_and_partitions : S → Run S (Text × List MtdPartition)
    unfolding ensure_available contains strip is_str_space
    identity_and_partitions = do
      ensure_available
      output ← run adb (shell identity_command)
      require (contains (codes "uid=0") (strip is_str_space (utf8_text output))) not_root
      raw ← run adb (shell partitions_command)
      text ← lift (ascii_text raw)
      parts ← lift (parse_proc_mtd text)
      lift (validate_partition_map casefold parts)
      lift (ok (strip is_str_space (utf8_text output), parts))

    -- The image of `acquire_stable`; the manifest is not modelled, but for the exception that its
    -- reference to the bootloader can raise.
    unfoldable pub acquire_stable :
        Option (ℕ → ℕ → ℕ → ℕ → S → Result (Unit {0}) × S) → S → Run S Bytes
    unfolding identity_and_partitions read_flash_once
    acquire_stable progress = do
      identity ← identity_and_partitions
      accepted ← λ s. unlogged adb (
          acquire_reads (logged adb (read_flash_once adb identity.1)) (reported adb progress)
            ([], s))
      require (length accepted.0 == flash_size) wrong_fingerprint_size
      lift (ok accepted.0)
