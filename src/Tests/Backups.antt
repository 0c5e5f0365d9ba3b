-- ===== src/Tests/Backups.antt =====
-- Runs on the partition map and on whole flash images.
use cc2_camera_fix.Base.{refl, ℕ, ◌≡◌, ◌↔◌, true, List, [], ◌∷◌}
use cc2_camera_fix.Base.Lists.{length, replicate}
use cc2_camera_fix.Base.Result.{Result, ok, err, os_error}
use cc2_camera_fix.AdbBackup.Acquire.{acquired, acquire_reads, read_turns, is_repeated}
use cc2_camera_fix.AdbBackup.Acquire.Stable.{IsStable, acquire_reads-IsStable}
use cc2_camera_fix.Base.Bytes.{Bytes, equal}
use cc2_camera_fix.Base.Text.{Text, codes}
use cc2_camera_fix.Protocol.Update.{flash_size}
use cc2_camera_fix.AdbBackup.{
  MtdPartition, validate_partition_map, validate_replacement_against_backup,
  validate_post_restore_readback,
}
use cc2_camera_fix.AdbBackup.Recovery.{
  IsRecovery, IsCameraMap, validate_replacement_against_backup_lem,
  validate_post_restore_readback-exact, validate_partition_map_lem,
}

abbrev zeros : Bytes
zeros = replicate 0x800000 0

validate_replacement_against_backup_lem_example :
    (validate_replacement_against_backup zeros zeros ≡ ok tt) ↔ IsRecovery zeros zeros
validate_replacement_against_backup_lem_example =
    validate_replacement_against_backup_lem zeros zeros

validate_post_restore_readback-exact_example :
    (validate_post_restore_readback zeros zeros ≡ ok true)
    ↔ ((length zeros ≡ flash_size) × (zeros ≡ zeros))
validate_post_restore_readback-exact_example = validate_post_restore_readback-exact zeros zeros

abbrev part : ℕ → ℕ → Text → MtdPartition
part i n t = record { index = i; size = n; erase_size = 0x4000; name = t }

abbrev camera : List MtdPartition
camera =
    part 0 0x040000 (codes "boot")
    ∷ part 1 0x150000 (codes "kernel")
    ∷ part 2 0x158000 (codes "root")
    ∷ part 3 0x4E8000 (codes "system")
    ∷ part 4 0x010000 (codes "hwconfig")
    ∷ part 5 0x020000 (codes "config")
    ∷ []

validate_partition_map_lem_example :
    (validate_partition_map (λ t. t) camera ≡ ok tt) ↔ IsCameraMap (λ t. t) camera
validate_partition_map_lem_example = validate_partition_map_lem (λ t. t) camera

next_read : List Bytes → Result Bytes × List Bytes
next_read [] = (err os_error, [])
next_read (image ∷ images) = (ok image, images)

abbrev quiet : ℕ → ℕ → ℕ → ℕ → List Bytes → Result (Unit {0}) × List Bytes
quiet attempt attempts consecutive required s = (ok tt, s)

-- The second read differs from the first, and the next two do not.
abbrev settling : List Bytes
settling = (1 ∷ []) ∷ (2 ∷ []) ∷ (2 ∷ []) ∷ (2 ∷ []) ∷ (1 ∷ []) ∷ []

settles :
    acquire_reads next_read quiet settling
    ≡ acquired (ok (2 ∷ [], 4, 3)) ((1 ∷ []) ∷ (2 ∷ []) ∷ (2 ∷ []) ∷ (2 ∷ []) ∷ []) ((1 ∷ []) ∷ [])
unfolding acquire_reads read_turns is_repeated equal next_read
settles = refl

acquire_reads-IsStable_example :
    IsStable (2 ∷ []) 4 3 ((1 ∷ []) ∷ (2 ∷ []) ∷ (2 ∷ []) ∷ (2 ∷ []) ∷ [])
acquire_reads-IsStable_example = acquire_reads-IsStable next_read quiet settling settles
