-- ===== src/Protocol/Normal.antt =====
-- The 1024-byte reports of the Linux-mode updater in cc2camera/protocol.py.
pub mod Layout
pub mod RoundTrip
pub mod Detects
pub mod Accepts
use cc2_camera_fix.Base.{ℕ, zero, suc, ◌+◌, ◌-◌, Bool, ◌&&◌, ◌||◌, List, [], ◌∷◌, ◌++◌}
use cc2_camera_fix.Base.Tests.{leb, ◌==◌, if◌then◌else◌}
use cc2_camera_fix.Base.Lists.{length, take, drop, replicate, slice, assign}
use cc2_camera_fix.Base.Int.{ℤ, pos, between, equals}
use cc2_camera_fix.Base.Result.{
  Result, ok, err, guard, ◌>>=◌, ◌>>◌, command_range, unsafe_frame_type, payload_too_large,
  short_report, bad_report_id, bad_magic, length_exceeds_report, crc_mismatch,
  unknown_transport_flag,
}
use cc2_camera_fix.Base.Bytes.{
  Bytes, equal, pack_u8, pack_u16, pack_u32, unpack_u16, unpack_u32, byte_at,
}
use cc2_camera_fix.Protocol.Crc.{crc16_normal}

abbrev pub normal_report_size : ℕ
normal_report_size = 1024

abbrev pub upgrade_flag_0 : ℕ
upgrade_flag_0 = 0x55504454

abbrev pub upgrade_mode_cdc : ℕ
upgrade_mode_cdc = 0x010203A0

abbrev pub upgrade_mode_hid : ℕ
upgrade_mode_hid = 0x010203A1

abbrev pub magic : Bytes
magic = 0x5a ∷ 0x5a ∷ []

pub record NormalFrame : Type 0 where
  pub command : ℕ
  pub frame_type : ℕ
  pub status : ℕ
  pub payload : Bytes

-- Each assignment to the bytearray is a `let`; `struct` may refuse a number.
unfoldable pub build_normal_report : ℤ → Bytes → ℤ → ℤ → Result Bytes
unfolding replicate
build_normal_report command payload frame_type status = do
  guard (between 0 0xFFFF command) command_range
  guard (equals frame_type 1 || equals frame_type 2) unsafe_frame_type
  guard (leb (length payload) (normal_report_size - 14)) payload_too_large
  let blank = replicate normal_report_size 0
  let with_id = assign 0 1 (1 ∷ []) blank
  let with_magic = assign 1 3 magic with_id
  command_field ← pack_u16 command
  let with_command = assign 3 5 command_field with_magic
  type_field ← pack_u8 frame_type
  let with_type = assign 5 6 type_field with_command
  length_field ← pack_u16 (pos (length payload))
  let with_length = assign 6 8 length_field with_type
  status_field ← pack_u32 status
  let with_status = assign 8 12 status_field with_length
  let with_payload = assign 14 (14 + length payload) payload with_status
  crc_field ← pack_u16 (pos (crc16_normal (take 12 with_payload ++ payload)))
  ok (assign 12 14 crc_field with_payload)

-- The report ID that some platforms leave out is put back.
unfoldable pub restore_report_id : Bytes → Bytes
unfolding equal
restore_report_id report =
    if length report == normal_report_size - 1 && equal (take 2 report) magic
    then 1 ∷ report
    else report

unfoldable pub parse_with_id : Bytes → Result NormalFrame
unfolding equal
parse_with_id report = do
  guard (leb 14 (length report)) short_report
  report_id ← byte_at report 0
  guard (report_id == 1) bad_report_id
  guard (equal (slice 1 3 report) magic) bad_magic
  command ← unpack_u16 report 3
  frame_type ← byte_at report 5
  size ← unpack_u16 report 6
  status ← unpack_u32 report 8
  guard (leb (14 + size) (length report)) length_exceeds_report
  let payload = slice 14 (14 + size) report
  stored_crc ← unpack_u16 report 12
  let covered = if frame_type == 1 || frame_type == 2 then payload else []
  guard (crc16_normal (take 12 report ++ covered) == stored_crc) crc_mismatch
  ok (record { command = command; frame_type = frame_type; status = status; payload = payload })

unfoldable pub parse_normal_report : Bytes → Result NormalFrame
unfolding restore_report_id parse_with_id
parse_normal_report report = parse_with_id (restore_report_id report)

unfoldable pub upgrade_flag_payload : ℤ → Result Bytes
upgrade_flag_payload mode = do
  guard (equals mode upgrade_mode_cdc || equals mode upgrade_mode_hid) unknown_transport_flag
  flag_field ← pack_u32 (pos upgrade_flag_0)
  mode_field ← pack_u32 mode
  ok (flag_field ++ mode_field)
