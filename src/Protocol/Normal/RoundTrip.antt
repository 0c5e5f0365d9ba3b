-- ===== src/Protocol/Normal/RoundTrip.antt =====
-- `parse_normal_report` reads back what `build_normal_report` writes.
use cc2_camera_fix.Base.{ℕ, ◌+◌, ◌-◌, ◌<◌, ◌||◌, [], ◌++◌, ◌≡◌, ◌⊎◌, refl, sym, ◌∙◌, arith}
use cc2_camera_fix.Base.Tests.{◌==◌, ==_iff, le→leb, if◌then◌else◌}
use cc2_camera_fix.Base.Lists.{length, drop, replicate, take-append, length-append}
use cc2_camera_fix.Base.Int.{pos}
use cc2_camera_fix.Base.Result.{ok, guard, crc_mismatch, ◌>>◌, ok_injective}
use cc2_camera_fix.Base.Bytes.{Bytes, IsBytes, le16, le16-value, le32-value}
use cc2_camera_fix.Protocol.Crc.{crc16_normal}
use cc2_camera_fix.Protocol.Normal.{
  NormalFrame, build_normal_report, restore_report_id, parse_with_id, parse_normal_report,
}
use cc2_camera_fix.Protocol.Normal.Layout.{
  fields, layout, IsRequest, build-layout, length-layout, crc_fits, frame_type-lt,
}

14+n-14 : (n : ℕ) → 14 + n - 14 ≡ n
14+n-14 n = omega arith

-- Any list of fields whose payload length is in range is parsed up to the checksum.
module _ (command frame_type status : ℕ) (payload padding : Bytes) (crc : ℕ)
    (command_fits : command < 65536) (payload_fits : length payload < 65536)
    (status_fits : status < 4294967296) (crc_fits : crc < 65536) where
  abbrev report_of : Bytes
  report_of =
      fields command frame_type (length payload) status ++ (le16 crc ++ (payload ++ padding))

  pub parse_fields : parse_with_id report_of ≡ (
      guard
        (crc16_normal (
            fields command frame_type (length payload) status
            ++ (if frame_type == 1 || frame_type == 2 then payload else []))
          == crc)
        crc_mismatch
      >> ok (record {
        command = command;
        frame_type = frame_type;
        status = status;
        payload = payload;
      }))
  unfolding parse_with_id
  parse_fields = rw (
    le→leb 14 (length report_of) (omega arith),
    le16-value command command_fits,
    le16-value (length payload) payload_fits,
    le32-value status status_fits,
    le→leb (14 + length payload) (length report_of) (omega (arith, length-append payload padding)),
    14+n-14 (length payload),
    take-append (length payload) payload padding refl,
    le16-value crc crc_fits,
  )

pub covered_test :
    (t : ℕ) (payload : Bytes)
    → (t ≡ 1) ⊎ (t ≡ 2)
    → (if t == 1 || t == 2 then payload else []) ≡ payload
covered_test t payload h = ground arith

module _ (command frame_type status : ℕ) (payload : Bytes)
    (r : IsRequest command payload frame_type status) (hp : IsBytes payload) where
  abbrev frame_of : NormalFrame
  frame_of = record {
    command = command;
    frame_type = frame_type;
    status = status;
    payload = payload;
  }

  parse-layout : parse_with_id (layout command frame_type status payload) ≡ ok frame_of
  parse-layout =
      let front = fields command frame_type (length payload) status in
      let crc = crc16_normal (front ++ payload) in
      parse_fields command frame_type status payload (replicate (1010 - length payload) 0) crc
        r.command_fits (omega (arith, r.payload_fits)) r.status_fits
        (crc_fits command frame_type (length payload) status payload (frame_type-lt r.type_is) hp)
      ∙ rw (covered_test frame_type payload r.type_is, (==_iff crc crc).1 refl)

  restore-layout :
      restore_report_id (layout command frame_type status payload)
      ≡ layout command frame_type status payload
  unfolding restore_report_id
  restore-layout = rw (length-layout command frame_type status payload r.payload_fits)

  restore-stripped :
      restore_report_id (drop 1 (layout command frame_type status payload))
      ≡ layout command frame_type status payload
  unfolding restore_report_id
  restore-stripped = rw (length-stripped)
    where
      length-stripped : length (drop 1 (layout command frame_type status payload)) ≡ 1023
      length-stripped =
          omega (arith, length-layout command frame_type status payload r.payload_fits)

  pub parse-build :
      (report : Bytes)
      → build_normal_report (pos command) payload (pos frame_type) (pos status) ≡ ok report
      → (parse_normal_report report
          ≡ ok (record {
            command = command;
            frame_type = frame_type;
            status = status;
            payload = payload;
          }))
        × (parse_normal_report (drop 1 report)
            ≡ ok (record {
              command = command;
              frame_type = frame_type;
              status = status;
              payload = payload;
            }))
  unfolding parse_normal_report
  parse-build report h =
      let e : report ≡ layout command frame_type status payload =
        ok_injective (sym h ∙ build-layout command frame_type status payload r hp) in
      rw e (rw restore-layout parse-layout, rw restore-stripped parse-layout)
