-- ===== src/Protocol/Boot.antt =====
-- The bootloader frames and their HID reports in cc2camera/protocol.py.
pub mod Layout
pub mod RoundTrip
pub mod Sound
pub mod Detects
use cc2_camera_fix.Base.{
  ℕ, zero, suc, ◌+◌, ◌-◌, ◌%◌, Bool, true, false, ◌&&◌, ◌||◌, List, [], ◌∷◌, ◌++◌,
}
use cc2_camera_fix.Base.Tests.{leb, ltb, ◌==◌, if◌then◌else◌}
use cc2_camera_fix.Base.Lists.{length, take, drop, replicate, slice, assign}
use cc2_camera_fix.Base.Int.{ℤ, pos, negsuc}
use cc2_camera_fix.Base.Result.{
  Result, ok, err, protocol_error, guard, ◌>>=◌, ◌>>◌, boot_frame_too_large, short_boot_frame,
  bad_boot_magic, bad_boot_length, checksum_mismatch, report_overflow,
}
use cc2_camera_fix.Base.Bytes.{Bytes, equal, pack_u16, unpack_u16, byte_at}

abbrev pub boot_report_size : ℕ
boot_report_size = 3072

abbrev pub boot_report_id : ℕ
boot_report_id = 1

abbrev pub boot_frame_capacity : ℕ
boot_frame_capacity = boot_report_size - 1

abbrev pub boot_data_overhead : ℕ
boot_data_overhead = 11

abbrev pub boot_data_size : ℕ
boot_data_size = boot_frame_capacity - boot_data_overhead

abbrev pub host_magic : Bytes
host_magic = 0x80 ∷ 0x00 ∷ 0xee ∷ []

abbrev pub device_magic : Bytes
device_magic = 0x81 ∷ 0x00 ∷ 0xee ∷ []

-- `n & 0xFF`, on an integer of either sign
abbrev pub low_byte : ℤ → ℕ
low_byte (pos n) = n % 256
low_byte (negsuc n) = 255 - n % 256

unfoldable pub sum : Bytes → ℕ
sum [] = 0
sum (b ∷ bytes) = b + sum bytes

unfoldable pub additive_checksum : Bytes → ℕ
unfolding sum
additive_checksum bytes = sum bytes % 256

pub record BootFrame : Type 0 where
  pub frame_type : ℕ
  pub payload : Bytes
  pub total_length : ℕ

-- `frame[:-1]`
abbrev pub but_last : Bytes → Bytes
but_last frame = take (length frame - 1) frame

unfoldable pub build_boot_frame : ℤ → Bytes → Result Bytes
unfolding replicate
build_boot_frame frame_type payload =
    let total = length payload + 7 in
    if ltb 0xFFFF total || ltb boot_frame_capacity total
    then err (protocol_error boot_frame_too_large)
    else do
      let blank = replicate total 0
      let with_magic = assign 0 3 host_magic blank
      let with_type = assign 3 4 (low_byte frame_type ∷ []) with_magic
      length_field ← pack_u16 (pos total)
      let with_length = assign 4 6 length_field with_type
      let with_payload = assign 6 (total - 1) payload with_length
      ok (assign (total - 1) total (additive_checksum (but_last with_payload) ∷ []) with_payload)

unfoldable pub parse_boot_frame : Bytes → Bool → Result BootFrame
unfolding equal
parse_boot_frame bytes device_response = do
  guard (leb 7 (length bytes)) short_boot_frame
  guard (equal (take 3 bytes) (if device_response then device_magic else host_magic)) bad_boot_magic
  total ← unpack_u16 bytes 4
  guard (leb 7 total && leb total (length bytes)) bad_boot_length
  let frame = take total bytes
  stored ← byte_at frame (length frame - 1)
  guard (additive_checksum (but_last frame) == stored) checksum_mismatch
  frame_type ← byte_at frame 3
  ok (record {
    frame_type = frame_type;
    payload = slice 6 (length frame - 1) frame;
    total_length = total;
  })

-- `frame.ljust(n, b"\0")`
abbrev pub ljust : ℕ → Bytes → Bytes
ljust n frame = frame ++ replicate (n - length frame) 0

unfoldable pub to_boot_hid_report : Bytes → Result Bytes
to_boot_hid_report frame =
    if ltb boot_frame_capacity (length frame)
    then err (protocol_error report_overflow)
    else ok (boot_report_id ∷ ljust boot_frame_capacity frame)

-- `report[1:]` behind the report ID
unfoldable pub strip_report_id : Bytes → Bytes
strip_report_id [] = []
strip_report_id (b ∷ rest) = if b == boot_report_id then rest else b ∷ rest

unfoldable pub from_boot_hid_report : Bytes → Result BootFrame
unfolding strip_report_id parse_boot_frame
from_boot_hid_report report = parse_boot_frame (strip_report_id report) true
