-- ===== src/Tests/Requests.antt =====
-- Runs on the command numbers, the catalog, the target requests and the decoders.
use cc2_camera_fix.Base.{◌<◌, ◌≡◌, ◌↔◌, inl, refl, arith, true, some, [], ◌∷◌}
use cc2_camera_fix.Base.Int.{pos}
use cc2_camera_fix.Base.Result.{ok}
use cc2_camera_fix.Base.Bytes.{Bytes, IsBytes, le32}
use cc2_camera_fix.Protocol.Normal.Layout.{layout, IsRequest, build-layout}
use cc2_camera_fix.Protocol.Boot.Layout.{sealed}
use cc2_camera_fix.Commands.Numbers.{value, of_value, with_value}
use cc2_camera_fix.Commands.Uploads.{member}
use cc2_camera_fix.Commands.Requests.{
  bytes_like, build_upload_target_request, selected_command, literal_path, encoded_path,
  matches_safe_path, all_safe, is_safe_path_byte, plain_report,
}
use cc2_camera_fix.Commands.Requests.Targets.{IsTarget, build_upload_target_request-IsTarget}
use cc2_camera_fix.Commands.BootRequests.{bytes, decode_boot_ack, decode_boot_terminal_status}
use cc2_camera_fix.Commands.BootRequests.Replies.{
  IsReply, decode_boot_ack_lem, decode_boot_terminal_status_lem, status_byte,
}
use cc2_camera_fix.Protocol.Boot.{additive_checksum, sum}

abbrev short_path : Bytes
short_path = 47 ∷ 97 ∷ []

path-IsRequest : IsRequest 0x3110 short_path 1 0
path-IsRequest = record {
  command_fits = omega arith;
  type_is = inl refl;
  payload_fits = omega arith;
  status_fits = omega arith;
}

target_built :
    build_upload_target_request (pos 0x3110) (some (bytes_like short_path))
    ≡ ok (layout 0x3110 1 0 short_path)
unfolding build_upload_target_request selected_command of_value with_value value member literal_path
    encoded_path matches_safe_path all_safe is_safe_path_byte plain_report
target_built = build-layout 0x3110 1 0 short_path path-IsRequest (ground arith)

build_upload_target_request-IsTarget_example :
    IsTarget (pos 0x3110) (some (bytes_like short_path)) (layout 0x3110 1 0 short_path)
build_upload_target_request-IsTarget_example =
    build_upload_target_request-IsTarget (pos 0x3110) (some (bytes_like short_path))
      (layout 0x3110 1 0 short_path) target_built

abbrev ack_three : Bytes
ack_three = 1 ∷ sealed 0x81 2 (3 ∷ 0 ∷ 0 ∷ 0 ∷ [])

ack-IsBytes : IsBytes ack_three
unfolding additive_checksum sum
ack-IsBytes = ground arith

decode_boot_ack_lem_example :
    (decode_boot_ack (bytes ack_three) ≡ ok 3) ↔ ((3 < 4294967296) × IsReply 2 (le32 3) ack_three)
decode_boot_ack_lem_example = decode_boot_ack_lem 3 ack_three ack-IsBytes

abbrev passed_status : Bytes
passed_status = sealed 0x81 5 (1 ∷ [])

status-IsBytes : IsBytes passed_status
unfolding additive_checksum sum
status-IsBytes = ground arith

decode_boot_terminal_status_lem_example :
    (decode_boot_terminal_status (bytes passed_status) ≡ ok true)
    ↔ IsReply 5 (status_byte true ∷ []) passed_status
decode_boot_terminal_status_lem_example =
    decode_boot_terminal_status_lem true passed_status status-IsBytes
