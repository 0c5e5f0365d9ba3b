-- ===== src/Image/Recovery/Accepted.antt =====
-- The recovery image against the checks of the restore in cc2camera/adb_backup.py.
use cc2_camera_fix.Base.{ℕ, ◌≤◌, ◌≡◌, ◌∙◌, arith, ◌++◌}
use cc2_camera_fix.Base.Lists.{length, take, slice, assign, replicate}
use cc2_camera_fix.Base.Lists.Assign.{
  length-assign, take-assign, slice-assign, slice-assign_below, slice-assign_above,
}
use cc2_camera_fix.Base.Result.{ok}
use cc2_camera_fix.Base.Bytes.{Bytes, le16}
use cc2_camera_fix.Protocol.Update.{flash_size}
use cc2_camera_fix.AdbBackup.{validate_replacement_against_backup}
use cc2_camera_fix.AdbBackup.Recovery.{IsRecovery, validate_replacement_against_backup_lem}
use cc2_camera_fix.Image.Hardware.{
  HwRecord, invariant_bytes, normalized_hwconfig_after_unit_fields, patch_start, patch_end,
  config_start, config_end,
}
use cc2_camera_fix.Image.Recovery.{recovery_of}

-- The six parts of the fingerprint that come from the image.
same_parts :
    {a a' b b' c c' d d' e e' f f' : Bytes} (length_field zeros : Bytes)
    → a ≡ a'
    → b ≡ b'
    → c ≡ c'
    → d ≡ d'
    → e ≡ e'
    → f ≡ f'
    → a ++ (b ++ (length_field ++ (c ++ (d ++ (e ++ (zeros ++ f))))))
      ≡ a' ++ (b' ++ (length_field ++ (c' ++ (d' ++ (e' ++ (zeros ++ f'))))))
same_parts length_field zeros ha hb hc hd he hf = cc

module _ (image patched_region rebuilt_config : Bytes) (whole : length image ≡ flash_size)
    (patch_fits : length patched_region ≡ 0x8000)
    (config_fits : length rebuilt_config ≡ 0x20000) where
  patched : Bytes
  patched = assign patch_start patch_end patched_region image

  length-patched : length patched ≡ flash_size
  unfolding patched
  length-patched =
      length-assign patch_start patch_end patched_region image (omega arith) (omega arith)
        (omega arith)
      ∙ whole

  recovery : Bytes
  unfolding recovery_of
  recovery = recovery_of image patched_region rebuilt_config

  start_kept : take patch_start recovery ≡ take patch_start image
  unfolding recovery patched recovery_of
  start_kept =
      take-assign config_start config_end rebuilt_config patched (omega arith)
        (omega (arith, length-patched)) (omega arith) patch_start (omega arith)
      ∙ take-assign patch_start patch_end patched_region image (omega arith) (omega arith)
          (omega arith) patch_start (omega arith)

  -- A slice between the two regions
  slice_kept :
      (x y : ℕ) → patch_end ≤ x → x ≤ y → y ≤ config_start → slice x y recovery ≡ slice x y image
  unfolding recovery patched recovery_of
  slice_kept x y hx hxy hy =
      slice-assign_below config_start config_end rebuilt_config patched (omega arith)
        (omega (arith, length-patched)) (omega arith) x y hxy hy
      ∙ slice-assign_above patch_start patch_end patched_region image (omega arith) (omega arith)
          (omega arith) x y hx

  region_written : slice patch_start patch_end recovery ≡ patched_region
  unfolding recovery patched recovery_of
  region_written =
      slice-assign_below config_start config_end rebuilt_config patched (omega arith)
        (omega (arith, length-patched)) (omega arith) patch_start patch_end (omega arith)
        (omega arith)
      ∙ slice-assign patch_start patch_end patched_region image (omega arith) (omega arith)
          (omega arith)

  config_written : slice config_start config_end recovery ≡ rebuilt_config
  unfolding recovery patched recovery_of
  config_written =
      slice-assign config_start config_end rebuilt_config patched (omega arith)
        (omega (arith, length-patched)) (omega arith)

  recovery-IsRecovery : IsRecovery recovery image
  unfolding recovery patched recovery_of
  recovery-IsRecovery = record {
    replacement_size =
        length-assign config_start config_end rebuilt_config patched (omega arith)
          (omega (arith, length-patched)) (omega arith)
        ∙ length-patched;
    preserved_size = whole;
    start_kept = start_kept;
    middle_kept = slice_kept patch_end config_start (omega arith) (omega arith) (omega arith);
  }

  -- An image of 8 MiB with a patched region of 32 KiB and a config partition of 128 KiB written into
  -- it is accepted by the restore as a replacement for the image, and holds both parts in their places.
  pub recovery_of-validate_replacement_against_backup :
      (validate_replacement_against_backup (recovery_of image patched_region rebuilt_config) image
        ≡ ok tt)
      × (slice patch_start patch_end (recovery_of image patched_region rebuilt_config)
          ≡ patched_region)
      × (slice config_start config_end (recovery_of image patched_region rebuilt_config)
          ≡ rebuilt_config)
  unfolding recovery
  recovery_of-validate_replacement_against_backup = (
    (validate_replacement_against_backup_lem _ image).1 recovery-IsRecovery,
    region_written,
    config_written,
  )

  -- Writing both regions does not change the firmware fingerprint of an image: the bytes that are
  -- hashed for it are the same, whatever the end of the hardware record, as long as that lies between
  -- the patch and the config partition.
  pub invariant_bytes-recovery_of :
      (found : HwRecord)
      → patch_end ≤ found.record_end
      → found.record_end ≤ config_start
      → invariant_bytes (recovery_of image patched_region rebuilt_config) found
        ≡ invariant_bytes image found
  unfolding recovery invariant_bytes normalized_hwconfig_after_unit_fields
  invariant_bytes-recovery_of found low high =
      same_parts (le16 0x100) (replicate found.extension_length 0) start_kept
        (slice_kept patch_end 0x7D2002 (omega arith) (omega arith) (omega arith))
        (slice_kept 0x7D2004 0x7D200A (omega arith) (omega arith) (omega arith))
        (slice_kept 0x7D200D 0x7D2011 (omega arith) (omega arith) (omega arith))
        (slice_kept 0x7D2073 0x7D2104 (omega arith) (omega arith) (omega arith))
        (slice_kept found.record_end config_start low high (omega arith))
