-- ===== src/Tests/Frames.antt =====
-- Runs on reports, frames and checksums.
use cc2_camera_fix.Base.{
  ℕ, ◌<◌, ◌≤◌, ◌^◌, ◌≡◌, ◌≢◌, ◌↔◌, inr, refl, arith, true, false, [], ◌∷◌, ◌++◌,
}
use cc2_camera_fix.Base.Lists.{length, set, drop}
use cc2_camera_fix.Base.Int.{pos, negsuc}
use cc2_camera_fix.Base.Result.{ok, err, protocol_error, crc_mismatch, checksum_mismatch}
use cc2_camera_fix.Base.Bytes.{Bytes, IsBytes, equal}
use cc2_camera_fix.Protocol.Crc.{crc16_normal}
use cc2_camera_fix.Protocol.Crc.Bounds.{crc16_normal-lt}
use cc2_camera_fix.Protocol.Crc.Detects.{crc16_normal-single_byte}
use cc2_camera_fix.Protocol.Normal.{build_normal_report, parse_normal_report}
use cc2_camera_fix.Protocol.Normal.Layout.{layout, IsRequest, build-layout}
use cc2_camera_fix.Protocol.Normal.Accepts.{IsAccepted, build-accepts, parse-built, frame_of}
use cc2_camera_fix.Protocol.Normal.Detects.{parse_corrupted}
use cc2_camera_fix.Protocol.Boot.{
  parse_boot_frame, to_boot_hid_report, build_boot_frame, additive_checksum, sum,
}
use cc2_camera_fix.Protocol.Boot.Layout.{sealed}
use cc2_camera_fix.Protocol.Boot.RoundTrip
use cc2_camera_fix.Protocol.Boot.RoundTrip.{parse-to_report}
use cc2_camera_fix.Protocol.Boot.Sound.{IsSealed, parse_sound}
use cc2_camera_fix.Protocol.Boot.Detects.{parse_boot_corrupted}

cons-ne-nil : {x : ℕ} {xs : Bytes} → x ∷ xs ≢ []
cons-ne-nil e = cc

abbrev two_bytes : Bytes
two_bytes = 7 ∷ 9 ∷ []

two_bytes-IsBytes : IsBytes two_bytes
two_bytes-IsBytes = (omega arith, (omega arith, tt))

append-IsRequest : IsRequest 0x3200 two_bytes 2 5
append-IsRequest = record {
  command_fits = omega arith;
  type_is = inr refl;
  payload_fits = omega arith;
  status_fits = omega arith;
}

append_built :
    build_normal_report (pos 0x3200) two_bytes (pos 2) (pos 5) ≡ ok (layout 0x3200 2 5 two_bytes)
append_built = build-layout 0x3200 2 5 two_bytes append-IsRequest two_bytes-IsBytes

parse-built_example :
    (parse_normal_report (layout 0x3200 2 5 two_bytes) ≡ ok (frame_of 0x3200 2 5 two_bytes))
    × (parse_normal_report (drop 1 (layout 0x3200 2 5 two_bytes))
        ≡ ok (frame_of 0x3200 2 5 two_bytes))
parse-built_example =
    parse-built 0x3200 2 5 two_bytes (layout 0x3200 2 5 two_bytes) two_bytes-IsBytes append_built

build-accepts_example :
    ((report : Bytes) × (build_normal_report (pos 0x3200) two_bytes (pos 2) (negsuc 0) ≡ ok report))
    ↔ IsAccepted (pos 0x3200) two_bytes (pos 2) (negsuc 0)
build-accepts_example = build-accepts (pos 0x3200) two_bytes (pos 2) (negsuc 0) two_bytes-IsBytes

parse_corrupted_example :
    parse_normal_report (set (layout 0x3200 2 5 two_bytes) 15 200)
    ≡ err (protocol_error crc_mismatch)
parse_corrupted_example =
    parse_corrupted 0x3200 2 5 (7 ∷ []) [] 9 200 append-IsRequest two_bytes-IsBytes (omega arith)
      (omega arith) (layout 0x3200 2 5 two_bytes) append_built

crc16_normal-lt_example : crc16_normal two_bytes < 2 ^ 13
crc16_normal-lt_example = crc16_normal-lt two_bytes two_bytes-IsBytes (λ e. absurd (cons-ne-nil e))

crc16_normal-single_byte_example : crc16_normal (7 ∷ 9 ∷ []) ≢ crc16_normal (7 ∷ 200 ∷ [])
crc16_normal-single_byte_example =
    crc16_normal-single_byte (7 ∷ []) [] 9 200 (omega arith, tt) tt (omega arith) (omega arith)
      (omega arith)

abbrev ack_zero : Bytes
ack_zero = sealed 0x81 2 (0 ∷ 0 ∷ 0 ∷ 0 ∷ [])

parse_sound_example : IsSealed true ack_zero (RoundTrip.frame_of 2 (0 ∷ 0 ∷ 0 ∷ 0 ∷ []))
unfolding parse_boot_frame additive_checksum sum equal
parse_sound_example = parse_sound true ack_zero (ground arith) refl

parse-to_report_example :
    (length two_bytes ≤ 3064)
    × (report : Bytes) × (to_boot_hid_report (sealed 0x80 3 two_bytes) ≡ ok report)
    × (length report ≡ 3072)
    × (parse_boot_frame (drop 1 report) false ≡ ok (RoundTrip.frame_of 3 two_bytes))
unfolding build_boot_frame additive_checksum sum
parse-to_report_example = parse-to_report (pos 3) two_bytes (sealed 0x80 3 two_bytes) refl

parse_boot_corrupted_example :
    parse_boot_frame (set (sealed 0x80 3 two_bytes ++ []) 7 200) false
    ≡ err (protocol_error checksum_mismatch)
parse_boot_corrupted_example =
    parse_boot_corrupted false 3 (7 ∷ []) [] [] 9 200 (omega arith) (omega arith) (omega arith)
      (omega arith)
