-- ===== src/Image/Recovery.antt =====
-- The recovery image that `build_recovery` of cc2camera/image.py makes: everything between the analysis
-- of the input and the files it writes.
pub mod Accepted
use cc2_camera_fix.Base.{
  ℕ, zero, suc, ◌+◌, ◌-◌, Bool, true, false, not, ◌&&◌, ◌||◌, Option, none, some, List, [], ◌∷◌,
  ◌++◌,
}
use cc2_camera_fix.Base.Tests.{leb, ltb, ◌==◌, if◌then◌else◌}
use cc2_camera_fix.Base.Lists.{length, take, drop, slice, assign}
use cc2_camera_fix.Base.Result.{
  Result, ok, err, ◌>>=◌, ◌>>◌, validate, validation_error, wipe_without_serial_only, too_few_reads,
  changed_outside, unpatched_output, not_canonical_output, differing_config, unequal_reads,
  output_contains_input,
}
use cc2_camera_fix.Base.Bytes.{Bytes, equal}
use cc2_camera_fix.Base.Text.{Text}
use cc2_camera_fix.Image.Live.{Decompressed, ConfigFile}
use cc2_camera_fix.Image.Info.{ConfigInfo}
use cc2_camera_fix.Image.Config.{build_minimal_config, build_preserved_config}
use cc2_camera_fix.Image.Hardware.{patch_start, patch_end, config_start, config_end}
use cc2_camera_fix.Image.SystemPatch.{
  SystemState, known_bashrc_patched, stock_unpatched, unknown_state, apply_system_patch,
}
use cc2_camera_fix.Image.Analysis.{Analysis, analyze_image, present}

abbrev pub min_identical_reads : ℕ
min_identical_reads = 3

pub data ConfigMode : Type 0 where
  serial_only preserve_files : ConfigMode

abbrev pub preserves : ConfigMode → Bool
preserves serial_only = false
preserves preserve_files = true

-- An image that was read from a file, how many reads its source stands for, and the parts of the
-- file's resolved path.
pub record Source : Type 0 where
  pub resolved : List Text
  pub image : Bytes
  pub evidenced_identical_reads : ℕ

abbrev pub max : ℕ → ℕ → ℕ
max a b = if leb a b then b else a

-- The loop over the confirmation reads, which keeps the number of reads of each
unfoldable pub verify_confirmation_reads : Bytes → List Source → Result (List ℕ)
verify_confirmation_reads primary [] = ok []
verify_confirmation_reads primary (source ∷ sources) = do
  validate (length source.image == length primary) unequal_reads
  validate (equal source.image primary) unequal_reads
  results ← verify_confirmation_reads primary sources
  ok (source.evidenced_identical_reads ∷ results)

unfoldable pub max_of : ℕ → List ℕ → ℕ
max_of largest [] = largest
max_of largest (n ∷ ns) = max_of (max largest n) ns

unfoldable pub total_reads : ℕ → List ℕ → ℕ
unfolding max_of
total_reads evidenced confirmed_reads =
    max_of (max evidenced (1 + length confirmed_reads)) confirmed_reads

-- `protected == output or protected.is_relative_to(output)`, on resolved paths by their parts
unfoldable pub is_relative_to : List Text → List Text → Bool
is_relative_to protected [] = true
is_relative_to [] (part ∷ output) = false
is_relative_to (name ∷ protected) (part ∷ output) =
    equal name part && is_relative_to protected output

-- The loop over the input and the confirmation reads
unfoldable pub check_output : List Text → List Source → Result (Unit {0})
unfolding is_relative_to
check_output output [] = ok tt
check_output output (source ∷ sources) = do
  validate (not (is_relative_to source.resolved output)) output_contains_input
  check_output output sources

pub record Recovery : Type 0 where
  pub recovery_bytes : Bytes
  pub rebuilt_config : Bytes
  pub patch_changed : Bool
  pub config_changed : Bool
  pub total_identical_reads : ℕ
  pub analysis : Analysis

abbrev pub is_patched : SystemState → Bool
is_patched known_bashrc_patched = true
is_patched stock_unpatched = false
is_patched unknown_state = false

-- Both assignments to the copy of the image
unfoldable pub recovery_of : Bytes → Bytes → Bytes → Bytes
recovery_of image patched_region rebuilt_config =
    assign config_start config_end rebuilt_config
      (assign patch_start patch_end patched_region image)

module _ (sha256 : Bytes → Text) (crc crc32 : Bytes → ℕ) (inflate : Bytes → ℕ → Option Decompressed)
    (compress : Bytes → Bytes) (decompress : Bytes → Option Bytes) where
  unfoldable pub rebuilt_config_of : ConfigMode → Bytes → Option (List ConfigFile) → Result Bytes
  rebuilt_config_of serial_only canonical_config files = ok canonical_config
  rebuilt_config_of preserve_files canonical_config files = do
    live_config_files ← present files
    build_preserved_config crc inflate live_config_files

  -- From the assignment of the patched region to the last check
  unfoldable pub recover : Bytes → Analysis → ConfigMode → ℕ → Result Recovery
  unfolding recovery_of rebuilt_config_of
  recover image analysis config_mode total_identical_reads = do
    patched ← apply_system_patch sha256 crc32 compress decompress image analysis.system_state
    canonical_config ← build_minimal_config crc inflate analysis.config_info.serial_payload
    rebuilt_config ←
        rebuilt_config_of config_mode canonical_config analysis.config_info.live_config_files
    let recovery_bytes = recovery_of image patched.0 rebuilt_config
    validate
        (equal (take patch_start recovery_bytes) (take patch_start image)
          && equal (slice patch_end config_start recovery_bytes)
              (slice patch_end config_start image)
          && equal (drop config_end recovery_bytes) (drop config_end image))
        changed_outside
    output_analysis ←
        analyze_image sha256 crc inflate recovery_bytes (preserves config_mode)
          (preserves config_mode)
    validate (is_patched output_analysis.system_state) unpatched_output
    validate (preserves config_mode || output_analysis.config_is_canonical) not_canonical_output
    validate (equal (slice config_start config_end recovery_bytes) rebuilt_config) differing_config
    let recovery : Recovery = record {
      recovery_bytes = recovery_bytes;
      rebuilt_config = rebuilt_config;
      patch_changed = patched.1;
      config_changed = not (equal (slice config_start config_end image) rebuilt_config);
      total_identical_reads = total_identical_reads;
      analysis = analysis;
    }
    ok recovery

  unfoldable pub build_recovery :
      Source → List Text → List Source → ConfigMode → Bool → Bool → Result Recovery
  unfolding check_output
  build_recovery source output confirmations config_mode wipe_unknown_config allow_fewer_reads = do
    validate (not (wipe_unknown_config && preserves config_mode)) wipe_without_serial_only
    confirmed_reads ← verify_confirmation_reads source.image confirmations
    analysis ←
        analyze_image sha256 crc inflate source.image (wipe_unknown_config || preserves config_mode)
          (preserves config_mode)
    let total = total_reads source.evidenced_identical_reads confirmed_reads
    validate (leb min_identical_reads total || allow_fewer_reads) too_few_reads
    check_output output (source ∷ confirmations)
    recover source.image analysis config_mode total
