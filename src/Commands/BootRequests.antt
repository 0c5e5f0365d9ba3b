-- ===== src/Commands/BootRequests.antt =====
-- The bootloader's frame types and their typed helpers in cc2camera/commands.py.
pub mod Replies
pub mod Metadata
use cc2_camera_fix.Base.{
  ℕ, ◌+◌, ◌-◌, ◌/◌, Bool, true, false, ◌&&◌, ◌||◌, Option, none, some, List, [], ◌∷◌, ◌++◌,
}
use cc2_camera_fix.Base.Tests.{leb, ◌==◌, if◌then◌else◌}
use cc2_camera_fix.Base.Lists.{length, take, slice}
use cc2_camera_fix.Base.Int.{ℤ, pos, negsuc, between}
use cc2_camera_fix.Base.Result
use cc2_camera_fix.Base.Result.{Result, ok, err, protocol_error, guard, ◌>>=◌, ◌>>◌}
use cc2_camera_fix.Base.Text.{Text, codes}
use cc2_camera_fix.Base.Bytes.{Bytes, equal, pack_u32, of_le32}
use cc2_camera_fix.Protocol.Boot.{
  BootFrame, boot_data_size, build_boot_frame, parse_boot_frame, from_boot_hid_report,
}
use cc2_camera_fix.Protocol.Update.{UpdatePlan, build_metadata_frame}
use cc2_camera_fix.Commands.Requests.{Value, to_bytes}

pub data BootFrameType : Type 0 where
  host_transfer_metadata device_next_packet_ack host_transfer_data : BootFrameType
  device_terminal_status : BootFrameType

abbrev pub frame_type_value : BootFrameType → ℕ
frame_type_value host_transfer_metadata = 1
frame_type_value device_next_packet_ack = 2
frame_type_value host_transfer_data = 3
frame_type_value device_terminal_status = 5

pub record BootFrameTypeDescriptor : Type 0 where
  pub frame_type : BootFrameType
  pub direction : Text
  pub payload : Text
  pub meaning : Text
  pub source_anchor : Text

abbrev described : BootFrameType → Text → Text → Text → Text → BootFrameTypeDescriptor
described t d p m a = record {
  frame_type = t;
  direction = d;
  payload = p;
  meaning = m;
  source_anchor = a;
}

abbrev pub boot_frame_types : List BootFrameTypeDescriptor
boot_frame_types =
    described host_transfer_metadata (codes "host -> device") (codes "exactly 10 bytes")
      (codes "initialize firmware transfer") (codes "U-Boot type-1 branch 0x80117d1c")
    ∷ described device_next_packet_ack (codes "device -> host")
        (codes "u32le(next expected absolute packet)")
        (codes "acknowledge or request retransmission") (codes "U-Boot send_ack path")
    ∷ described host_transfer_data (codes "host -> device") (codes "u32le(sequence) plus data")
        (codes "append numbered transfer data") (codes "U-Boot type-3 branch 0x80118094")
    ∷ described device_terminal_status (codes "device -> host")
        (codes "one byte: 01 success, 00 failure")
        (codes "RAM-image MD5 result, sent before flash erase/write")
        (codes "U-Boot finalization 0x801183b0")
    ∷ []

unfoldable pub build_boot_metadata_request : UpdatePlan → ℤ → Result Bytes
build_boot_metadata_request plan firmware_version = do
  guard (leb 1 plan.packet_payload_size && leb plan.packet_payload_size boot_data_size)
      Result.metadata_payload_size
  guard (leb 1 plan.transfer_size && leb plan.transfer_size 0xFFFFFFFF)
      Result.metadata_transfer_size
  guard (leb 1 plan.packets_per_ack && leb plan.packets_per_ack 0xFFFF) Result.metadata_acks
  guard (between 0 0xFFFF firmware_version) Result.metadata_version
  let expected_packets =
      (plan.transfer_size + plan.packet_payload_size - 1) / plan.packet_payload_size
  guard (plan.packet_count == expected_packets) Result.metadata_packet_count
  build_metadata_frame plan firmware_version

unfoldable pub build_boot_data_request : ℤ → Value → Result Bytes
build_boot_data_request sequence v = do
  guard (between 0 0xFFFFFFFF sequence) Result.boot_sequence_range
  payload ← (elim (to_bytes v) [
    | some b ↦ ok b
    | none ↦ err (protocol_error Result.boot_data_type)
  ])
  guard (leb (length payload) boot_data_size) Result.boot_data_too_large
  sequence_field ← pack_u32 sequence
  build_boot_frame (pos (frame_type_value host_transfer_data)) (sequence_field ++ payload)

-- What the decoders take: a parsed frame, or the bytes of one.
pub data Response : Type 0 where
  parsed : BootFrame → Response
  bytes : Bytes → Response

-- A report begins with its ID, a bare frame with the magic of the device.
unfoldable pub is_report : Bytes → Bool
unfolding equal
is_report [] = false
is_report (b ∷ rest) =
    leb 4 (length (b ∷ rest)) && (b == 1 && equal (take 3 rest) (0x81 ∷ 0x00 ∷ 0xee ∷ []))

unfoldable pub coerce_device_boot_frame : Response → Result BootFrame
coerce_device_boot_frame (parsed frame) = ok frame
coerce_device_boot_frame (bytes frame) =
    if is_report frame then from_boot_hid_report frame else parse_boot_frame frame true

unfoldable pub decode_boot_ack : Response → Result ℕ
unfolding coerce_device_boot_frame
decode_boot_ack response = do
  frame ← coerce_device_boot_frame response
  guard (frame.frame_type == frame_type_value device_next_packet_ack) Result.not_an_ack
  guard (length frame.payload == 4) Result.bad_ack_size
  of_le32 frame.payload

unfoldable pub decode_boot_terminal_status : Response → Result Bool
unfolding coerce_device_boot_frame equal
decode_boot_terminal_status response = do
  frame ← coerce_device_boot_frame response
  guard (frame.frame_type == frame_type_value device_terminal_status) Result.not_a_status
  guard (equal frame.payload (0 ∷ []) || equal frame.payload (1 ∷ [])) Result.bad_status
  ok (equal frame.payload (1 ∷ []))
