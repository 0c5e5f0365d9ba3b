-- ===== src/AdbBackup.antt =====
-- The partition map and the checks of restore images in cc2camera/adb_backup.py.
pub mod Recovery
pub mod Acquire
pub mod Partitions
pub mod Client
use cc2_camera_fix.Base.{ℕ, ◌+◌, Bool, true, ◌&&◌, Option, none, some, List, [], ◌∷◌}
use cc2_camera_fix.Base.Tests.{◌==◌, if◌then◌else◌}
use cc2_camera_fix.Base.Lists.{length, slice, take, drop}
use cc2_camera_fix.Base.Result.{
  Result, ok, err, protocol_error, guard, ◌>>=◌, ◌>>◌, wrong_backup_size, outside_recovery_regions,
  wrong_readback_size, readback_differs, partition_indices, partition_sizes, partition_names,
  partition_cover,
}
use cc2_camera_fix.Base.Bytes.{Bytes, equal}
use cc2_camera_fix.Base.Text.{Text, codes}
use cc2_camera_fix.Protocol.Update.{flash_size}

abbrev pub hardware_recovery_patch_start : ℕ
hardware_recovery_patch_start = 0x463000

abbrev pub hardware_recovery_patch_end : ℕ
hardware_recovery_patch_end = 0x46B000

abbrev pub hardware_recovery_config_start : ℕ
hardware_recovery_config_start = 0x7E0000

pub record MtdPartition : Type 0 where
  pub index : ℕ
  pub size : ℕ
  pub erase_size : ℕ
  pub name : Text

abbrev pub expected_partitions : List (Text × ℕ)
expected_partitions =
    (codes "boot", 0x040000)
    ∷ (codes "kernel", 0x150000)
    ∷ (codes "root", 0x158000)
    ∷ (codes "system", 0x4E8000)
    ∷ (codes "hwconfig", 0x010000)
    ∷ (codes "config", 0x020000)
    ∷ []

-- `[part.index for part in parts] == list(range(first, ...))`
unfoldable pub are_indexed : ℕ → List MtdPartition → Bool
are_indexed first [] = true
are_indexed first (part ∷ parts) = (part.index == first) && are_indexed (first + 1) parts

unfoldable pub sizes : List MtdPartition → List ℕ
sizes [] = []
sizes (part ∷ parts) = part.size ∷ sizes parts

unfoldable pub total : List MtdPartition → ℕ
total [] = 0
total (part ∷ parts) = part.size + total parts

unfoldable pub wanted_sizes : List (Text × ℕ) → List ℕ
wanted_sizes [] = []
wanted_sizes ((name, size) ∷ rest) = size ∷ wanted_sizes rest

-- The loop over `zip`, which ends with the shorter list. `casefold` is a parameter.
unfoldable pub are_named : (Text → Text) → List MtdPartition → List (Text × ℕ) → Bool
unfolding equal
are_named casefold (part ∷ parts) ((name, size) ∷ rest) =
    equal (casefold part.name) name && are_named casefold parts rest
are_named casefold _ _ = true

unfoldable pub validate_partition_map : (Text → Text) → List MtdPartition → Result (Unit {0})
validate_partition_map casefold parts = do
  guard (are_indexed 0 parts) partition_indices
  guard (equal (sizes parts) (wanted_sizes expected_partitions)) partition_sizes
  guard (are_named casefold parts expected_partitions) partition_names
  guard (total parts == flash_size) partition_cover

-- The loop over the two ranges that must not change.
unfoldable pub same_range : ℕ → ℕ → Bytes → Bytes → Bool
same_range start end replacement preserved =
    equal (slice start end replacement) (slice start end preserved)

unfoldable pub validate_replacement_against_backup : Bytes → Bytes → Result (Unit {0})
unfolding same_range
validate_replacement_against_backup replacement preserved = do
  guard (length replacement == flash_size && length preserved == flash_size) wrong_backup_size
  guard (same_range 0 hardware_recovery_patch_start replacement preserved) outside_recovery_regions
  guard
      (same_range hardware_recovery_patch_end hardware_recovery_config_start replacement preserved)
      outside_recovery_regions

unfoldable pub validate_post_restore_readback : Bytes → Bytes → Result Bool
validate_post_restore_readback expected actual = do
  guard (length expected == flash_size && length actual == flash_size) wrong_readback_size
  guard
      (equal (take hardware_recovery_config_start expected)
        (take hardware_recovery_config_start actual))
      readback_differs
  ok (
      equal (drop hardware_recovery_config_start expected)
        (drop hardware_recovery_config_start actual))
