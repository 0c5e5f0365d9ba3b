-- ===== src/Image/Hardware.antt =====
-- The unit-specific record of the HWCONFIG partition in cc2camera/image.py. SHA-256 is a parameter.
use cc2_camera_fix.Base.{ℕ, ◌+◌, ◌-◌, ◌*◌, ◌%◌, Bool, not, ◌&&◌, ◌||◌, [], ◌∷◌, ◌++◌}
use cc2_camera_fix.Base.Tests.{leb, ltb, ◌==◌, if◌then◌else◌}
use cc2_camera_fix.Base.Lists.{take, slice, replicate}
use cc2_camera_fix.Base.Result.{
  Result, ok, ◌>>=◌, ◌>>◌, validate, wrong_record_type, short_record, unsupported_record_length,
  record_too_long, invalid_date, unsupported_date,
}
use cc2_camera_fix.Base.Bytes.{Bytes, le16, byte_at}
use cc2_camera_fix.Base.Text.{Text}

abbrev pub patch_start : ℕ
patch_start = 0x463000

abbrev pub patch_end : ℕ
patch_end = 0x46B000

abbrev pub config_start : ℕ
config_start = 0x7E0000

abbrev pub config_end : ℕ
config_end = 0x800000

abbrev pub hwconfig_start : ℕ
hwconfig_start = 0x7D0000

abbrev pub hw_record_start : ℕ
hw_record_start = 0x7D2000

abbrev pub hw_record_payload_start : ℕ
hw_record_payload_start = 0x7D2004

abbrev pub hw_known_payload_end : ℕ
hw_known_payload_end = 0x7D2104

abbrev pub hw_check_start : ℕ
hw_check_start = 0x7D200A

abbrev pub hw_check_end : ℕ
hw_check_end = 0x7D200D

abbrev pub hw_uoid_start : ℕ
hw_uoid_start = 0x7D2011

abbrev pub hw_uoid_end : ℕ
hw_uoid_end = 0x7D206F

abbrev pub hw_date_start : ℕ
hw_date_start = 0x7D206F

abbrev pub hw_date_end : ℕ
hw_date_end = 0x7D2073

-- `int.from_bytes(raw, "little")`
unfoldable pub from_little : Bytes → ℕ
from_little [] = 0
from_little (b ∷ bs) = b + 256 * from_little bs

pub record HwRecord : Type 0 where
  pub record_type : ℕ
  pub record_length : ℕ
  pub record_end : ℕ
  pub extension_start : ℕ
  pub extension_length : ℕ
  pub extension_sha256 : Text

unfoldable pub normalized_hwconfig_before_identity : Bytes → Bytes
normalized_hwconfig_before_identity image =
    slice hwconfig_start (hw_record_start + 2) image
    ++ (le16 0x100 ++ slice hw_record_payload_start hw_check_start image)

-- `extension_length` and `record_end` are those of the record.
unfoldable pub normalized_hwconfig_after_unit_fields : Bytes → HwRecord → Bytes
normalized_hwconfig_after_unit_fields image found =
    slice hw_date_end hw_known_payload_end image
    ++ (replicate found.extension_length 0 ++ slice found.record_end config_start image)

-- With the record given
unfoldable pub invariant_bytes : Bytes → HwRecord → Bytes
unfolding normalized_hwconfig_after_unit_fields
invariant_bytes image found =
    take patch_start image
    ++ (slice patch_end (hw_record_start + 2) image
        ++ (le16 0x100
            ++ (slice hw_record_payload_start hw_check_start image
                ++ (slice hw_check_end hw_uoid_start image
                    ++ normalized_hwconfig_after_unit_fields image found))))

pub record Date : Type 0 where
  pub year : ℕ
  pub month : ℕ
  pub day : ℕ

unfoldable pub is_leap : ℕ → Bool
is_leap year = year % 4 == 0 && (not (year % 100 == 0) || year % 400 == 0)

unfoldable pub days_in_month : ℕ → ℕ → ℕ
unfolding is_leap
days_in_month year month =
    if month == 2
    then (if is_leap year then 29 else 28)
    else if month == 4 || month == 6 || month == 9 || month == 11
    then 30
    else 31

-- Whether `datetime.date(year, month, day)` raises no ValueError
unfoldable pub is_date : ℕ → ℕ → ℕ → Bool
unfolding days_in_month
is_date year month day =
    leb 1 year
    && leb year 9999
    && (leb 1 month && leb month 12)
    && (leb 1 day && leb day (days_in_month year month))

-- `value in HW_SUPPORTED_DATES`
unfoldable pub is_supported_date : ℕ → ℕ → ℕ → Bool
is_supported_date year month day =
    year == 2026 && (month == 3 && day == 2 || month == 4 && day == 1 || month == 4 && day == 17)

-- The date in place of its ISO form
unfoldable pub decode_hwconfig_date : Bytes → Result Date
unfolding is_date is_supported_date
decode_hwconfig_date image = do
  let year = from_little (slice hw_date_start (hw_date_start + 2) image)
  month ← byte_at image (hw_date_start + 2)
  day ← byte_at image (hw_date_start + 3)
  validate (is_date year month day) invalid_date
  validate (is_supported_date year month day) unsupported_date
  let found : Date = record { year = year; month = month; day = day }
  ok found

module _ (sha256 : Bytes → Text) where
  -- The name of the variant is left out: it only spells the length.
  unfoldable pub identify_hwconfig_variant : Bytes → Result HwRecord
  identify_hwconfig_variant image = do
    let record_type = from_little (slice hw_record_start (hw_record_start + 2) image)
    let record_length = from_little (slice (hw_record_start + 2) hw_record_payload_start image)
    validate (record_type == 12) wrong_record_type
    validate (not (ltb record_length 0x100)) short_record
    validate (record_length == 0x100 || record_length == 0x105) unsupported_record_length
    let record_end : ℕ = hw_record_payload_start + record_length
    validate (not (ltb config_start record_end)) record_too_long
    let found : HwRecord = record {
      record_type = record_type;
      record_length = record_length;
      record_end = record_end;
      extension_start = hw_known_payload_end;
      extension_length = record_length - 0x100;
      extension_sha256 = sha256 (slice hw_known_payload_end record_end image);
    }
    ok found
