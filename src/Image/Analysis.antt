-- ===== src/Image/Analysis.antt =====
-- The strict validation of a flash image in cc2camera/image.py. The part of the result that is only
-- displayed is left out.
pub mod Differences
use cc2_camera_fix.Base.{
  ℕ, suc, Bool, true, false, not, ◌&&◌, ◌||◌, Option, none, some, List, [], ◌∷◌, ◌++◌,
}
use cc2_camera_fix.Base.Tests.{leb, ◌==◌, if◌then◌else◌}
use cc2_camera_fix.Base.Lists.{length, take, drop, slice}
use cc2_camera_fix.Base.Result.{
  Result, ok, err, Reason, ◌>>=◌, ◌>>◌, validate, validation_error, value_error, assertion_error,
  wrong_image_length, unlike_reference, unknown_system_state, bad_uoid, failed_validation,
}
use cc2_camera_fix.Base.Bytes.{Bytes, equal}
use cc2_camera_fix.Base.Text.{Text, codes}
use cc2_camera_fix.Protocol.Update.{flash_size}
use cc2_camera_fix.Image.Order.{any}
use cc2_camera_fix.Image.Live.{Decompressed}
use cc2_camera_fix.Image.Serial.{is_model_digit}
use cc2_camera_fix.Image.Info.{ConfigInfo, extract_serial_and_config_info}
use cc2_camera_fix.Image.Config.{build_minimal_config}
use cc2_camera_fix.Image.Hardware.{
  HwRecord, Date, identify_hwconfig_variant, normalized_hwconfig_before_identity,
  normalized_hwconfig_after_unit_fields, invariant_bytes, decode_hwconfig_date, patch_start,
  patch_end, config_start, config_end, hw_uoid_start, hw_uoid_end, hw_check_start, hw_check_end,
}
use cc2_camera_fix.Image.SystemPatch.{
  SystemState, stock_unpatched, known_bashrc_patched, unknown_state, original_patch_sha256,
  patched_patch_sha256,
}

pub record Segment : Type 0 where
  pub start : ℕ
  pub end : ℕ
  pub expected_sha256 : Text

abbrev segment_boot : Segment
segment_boot = record {
  start = 0x000000;
  end = 0x040000;
  expected_sha256 = codes "5602ec961b4410ccceea0d4910e4fa768c6998bd4ba86143ba50855bdd0b7a54";
}

abbrev segment_kernel : Segment
segment_kernel = record {
  start = 0x040000;
  end = 0x190000;
  expected_sha256 = codes "0855c3a93f571c3130f1bdd38469e7c806ce713550a3ce536c81167579341545";
}

abbrev segment_root : Segment
segment_root = record {
  start = 0x190000;
  end = 0x2E8000;
  expected_sha256 = codes "6049eaacfaba6a2c3db2ed7a5f31cd02df8d793e166249f6a8a2180e89824cba";
}

abbrev segment_system_before_patch : Segment
segment_system_before_patch = record {
  start = 0x2E8000;
  end = 0x463000;
  expected_sha256 = codes "0e76c9eb0dfb499c7556a6a111608757b6c9e32705c07492f172253255fe8041";
}

abbrev segment_system_after_patch : Segment
segment_system_after_patch = record {
  start = 0x46B000;
  end = 0x7D0000;
  expected_sha256 = codes "07a3b00fe224a8e121f760753998335e7f6d59f1cfe2dc92087c040083f46b3a";
}

abbrev segment_hwconfig_between_identity_fields : Segment
segment_hwconfig_between_identity_fields = record {
  start = 0x7D200D;
  end = 0x7D2011;
  expected_sha256 = codes "3c3351dc1dedcd627419e02de4fc8202e2d507d786c26f142b767fd9859d0cb4";
}

unfoldable pub reference_segments : List Segment
reference_segments =
    segment_boot ∷ segment_kernel ∷ segment_root ∷ segment_system_before_patch
    ∷ segment_system_after_patch ∷ segment_hwconfig_between_identity_fields ∷ []

unfoldable pub hwconfig_before_identity_sha256 : Text
hwconfig_before_identity_sha256 =
    codes "e9ba6b36ab55dd0284e7cfcaf8c6ece3b4903bf953dcae34026244a5febd701d"

unfoldable pub hwconfig_after_unit_fields_sha256 : Text
hwconfig_after_unit_fields_sha256 =
    codes "f2e10823638187acb4572437debe618bb1c27d0a8796d40445c3132cdd805601"

unfoldable pub normalized_invariant_sha256 : Text
normalized_invariant_sha256 =
    codes "4dee29ee9f996779a8af0f4e4a66ebad3c6c1ca353cf8b4287b4f1f9a8b12823"

-- `[A-Za-z0-9+/=]`
unfoldable pub is_uoid_char : ℕ → Bool
is_uoid_char c =
    (leb 65 c && leb c 90)
    || (leb 97 c && leb c 122)
    || (leb 48 c && leb c 57)
    || c == 43
    || c == 47
    || c == 61

-- `[345][A-Za-z0-9+/=]{86}`
unfoldable pub uoid_rest : Bytes → Bool
unfolding is_uoid_char
uoid_rest [] = false
uoid_rest (c ∷ cs) = is_model_digit c && length cs == 86 && not (any (λ d. not (is_uoid_char d)) cs)

-- `UOID_PATTERN.fullmatch(uoid)`
unfoldable pub uoid_is_valid : Bytes → Bool
unfolding uoid_rest
uoid_is_valid uoid = equal (take 7 uoid) (codes "12PSSSS") && uoid_rest (drop 7 uoid)

-- `try ... except ValidationError as exc: errors.append(str(exc))`
abbrev pub caught {ℓ} : {A : Type ℓ} → Result A → Result (List Reason × Option A)
caught (ok a) = ok ([], some a)
caught (err (validation_error reason)) = ok (reason ∷ [], none)
caught (err raised) = err raised

-- `if not ok: errors.append(...)`
abbrev pub error_unless : Bool → Reason → List Reason
error_unless true reason = []
error_unless false reason = reason ∷ []

abbrev pub is_none {ℓ} : {A : Type ℓ} → List A → Bool
is_none [] = true
is_none (x ∷ xs) = false

-- `assert value is not None`
abbrev pub present {ℓ} : {A : Type ℓ} → Option A → Result A
present none = err assertion_error
present (some a) = ok a

pub record Analysis : Type 0 where
  pub system_state : SystemState
  pub hwconfig : HwRecord
  pub hwconfig_date : Date
  pub check_value : Bytes
  pub uoid : Bytes
  pub config_info : ConfigInfo
  pub config_is_canonical : Bool
  pub canonical_config : Bytes

-- How many bytes differ, and where the first and the last of them are.
pub record Difference : Type 0 where
  pub different_bytes : ℕ
  pub first_difference : Option ℕ
  pub last_difference : Option ℕ

abbrev pub first_or : Option ℕ → ℕ → Option ℕ
first_or none index = some index
first_or (some first) index = some first

-- The loop, from `index` on
unfoldable pub difference_from : ℕ → Bytes → Bytes → Difference → Difference
difference_from index (old ∷ before) (new ∷ after) found =
    let counted : Difference = record {
      different_bytes = suc found.different_bytes;
      first_difference = first_or found.first_difference index;
      last_difference = some index;
    } in
    difference_from (suc index) before after (if old == new then found else counted)
difference_from index _ _ found = found

unfoldable pub no_difference : Difference
no_difference = record { different_bytes = 0; first_difference = none; last_difference = none }

unfoldable pub difference_summary : Bytes → Bytes → Result Difference
difference_summary before after =
    if length before == length after
    then ok (difference_from 0 before after no_difference)
    else err value_error

module _ (sha256 : Bytes → Text) where
  unfoldable pub segment_errors : Bytes → List Segment → List Reason
  segment_errors image [] = []
  segment_errors image (segment ∷ segments) =
      error_unless (equal (sha256 (slice segment.start segment.end image)) segment.expected_sha256)
        unlike_reference
      ++ segment_errors image segments

  -- The three fingerprints that need the record
  unfoldable pub record_errors : Bytes → Option HwRecord → List Reason
  record_errors image none = []
  record_errors image (some found) =
      error_unless
        (equal (sha256 (normalized_hwconfig_before_identity image)) hwconfig_before_identity_sha256)
        unlike_reference
      ++ (error_unless
            (equal (sha256 (normalized_hwconfig_after_unit_fields image found))
              hwconfig_after_unit_fields_sha256)
            unlike_reference
          ++ error_unless (equal (sha256 (invariant_bytes image found)) normalized_invariant_sha256)
              unlike_reference)

  unfoldable pub system_state_of : Bytes → SystemState
  system_state_of image =
      let patch_hash = sha256 (slice patch_start patch_end image) in
      if equal patch_hash original_patch_sha256
      then stock_unpatched
      else if equal patch_hash patched_patch_sha256
      then known_bashrc_patched
      else unknown_state

  abbrev pub state_errors : SystemState → List Reason
  state_errors unknown_state = unknown_system_state ∷ []
  state_errors _ = []

  module _ (crc : Bytes → ℕ) (decompress : Bytes → ℕ → Option Decompressed) where
    unfoldable pub analyze_image : Bytes → Bool → Bool → Result Analysis
    analyze_image image allow_unknown_config preserve_config_data = do
      validate (length image == flash_size) wrong_image_length
      hwconfig ← caught (identify_hwconfig_variant sha256 image)
      let state = system_state_of image
      let uoid = slice hw_uoid_start hw_uoid_end image
      date ← caught (decode_hwconfig_date image)
      let config = slice config_start config_end image
      info ← caught (
          extract_serial_and_config_info crc decompress config allow_unknown_config
            preserve_config_data)
      let errors =
          hwconfig.0
          ++ (segment_errors image reference_segments
              ++ (record_errors image hwconfig.1
                  ++ (state_errors state
                      ++ (error_unless (uoid_is_valid uoid) bad_uoid ++ (date.0 ++ info.0)))))
      validate (is_none errors) failed_validation
      hwconfig_record ← present hwconfig.1
      hwconfig_date ← present date.1
      config_info ← present info.1
      canonical_config ← build_minimal_config crc decompress config_info.serial_payload
      let analysis : Analysis = record {
        system_state = state;
        hwconfig = hwconfig_record;
        hwconfig_date = hwconfig_date;
        check_value = slice hw_check_start hw_check_end image;
        uoid = uoid;
        config_info = config_info;
        config_is_canonical = equal config canonical_config;
        canonical_config = canonical_config;
      }
      ok analysis
