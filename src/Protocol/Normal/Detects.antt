-- ===== src/Protocol/Normal/Detects.antt =====
-- A report with one corrupted payload byte is refused.
use cc2_camera_fix.Base.{
  ℕ, ◌+◌, ◌-◌, ◌<◌, false, ◌∷◌, ◌++◌, ◌≡◌, ◌≢◌, sym, ap, ◌∙◌, arith, append_assoc,
}
use cc2_camera_fix.Base.Tests.{◌==◌}
use cc2_camera_fix.Base.Lists.{
  length, replicate, set, set-append, set-skip, length-append, length-replicate,
}
use cc2_camera_fix.Base.Int.{pos}
use cc2_camera_fix.Base.Result.{ok, err, protocol_error, crc_mismatch, ok_injective}
use cc2_camera_fix.Base.Bytes.{Bytes, IsBytes, le16, IsBytes-append, IsBytes-split}
use cc2_camera_fix.Protocol.Crc.{crc16_normal}
use cc2_camera_fix.Protocol.Crc.Detects.{crc16_normal-single_byte}
use cc2_camera_fix.Protocol.Normal.{
  build_normal_report, restore_report_id, parse_with_id, parse_normal_report,
}
use cc2_camera_fix.Protocol.Normal.Layout.{
  fields, layout, IsRequest, build-layout, crc_fits, frame_type-lt, fields-IsBytes,
}
use cc2_camera_fix.Protocol.Normal.RoundTrip.{parse_fields, covered_test}

ne-test : (a b : ℕ) → a ≢ b → (a == b) ≡ false
ne-test a b h = ground arith

module _ (command frame_type status : ℕ) (front tail : Bytes) (a b : ℕ)
    (r : IsRequest command (front ++ a ∷ tail) frame_type status)
    (bytes : IsBytes (front ++ a ∷ tail)) (hb : b < 256) (ne : a ≢ b) where
  abbrev size : ℕ
  size = length (front ++ a ∷ tail)

  same_size : length (front ++ b ∷ tail) ≡ size
  same_size = omega (arith, length-append front (a ∷ tail), length-append front (b ∷ tail))

  abbrev head : Bytes
  head = fields command frame_type size status

  abbrev zeros : Bytes
  zeros = replicate (1010 - size) 0

  abbrev sent_crc : ℕ
  sent_crc = crc16_normal (head ++ (front ++ a ∷ tail))

  crc-changes : crc16_normal (head ++ (front ++ b ∷ tail)) ≢ sent_crc
  crc-changes e =
      let (hf, ha, ht) = IsBytes-split front a tail bytes in
      crc16_normal-single_byte (head ++ front) tail a b
        (IsBytes-append head front
          (fields-IsBytes command frame_type size status (frame_type-lt r.type_is)) hf)
        ht ha hb ne (sym e)

  corrupted :
      parse_with_id (head ++ (le16 sent_crc ++ ((front ++ b ∷ tail) ++ zeros)))
      ≡ err (protocol_error crc_mismatch)
  corrupted =
      let parsed =
        parse_fields command frame_type status (front ++ b ∷ tail) zeros sent_crc r.command_fits
          (omega (arith, r.payload_fits, same_size)) r.status_fits
          (crc_fits command frame_type size status (front ++ a ∷ tail) (frame_type-lt r.type_is)
            bytes) in
      let same = rw same_size at parsed in
      same ∙ rw (covered_test frame_type (front ++ b ∷ tail) r.type_is, ne-test _ _ crc-changes)

  abbrev received : Bytes
  received = head ++ (le16 sent_crc ++ ((front ++ b ∷ tail) ++ zeros))

  change :
      set (layout command frame_type status (front ++ a ∷ tail)) (14 + length front) b ≡ received
  change =
      set-skip (head ++ le16 sent_crc) ((front ++ a ∷ tail) ++ zeros) (length front) b
      ∙ ap (λ rest. head ++ (le16 sent_crc ++ rest))
          (ap (λ xs. set xs (length front) b) (append_assoc front (a ∷ tail) zeros)
            ∙ set-append front a (tail ++ zeros) b
            ∙ sym (append_assoc front (b ∷ tail) zeros))

  restore-received : restore_report_id received ≡ received
  unfolding restore_report_id
  restore-received = rw length-received
    where
      length-received : length received ≡ 1024
      length-received = omega (
        arith,
        r.payload_fits,
        same_size,
        length-append (front ++ b ∷ tail) zeros,
        length-replicate {A = ℕ} (1010 - size) 0,
      )

  -- A report that was built, with one byte of its payload changed in transit, fails its checksum.
  pub parse_corrupted :
      (report : Bytes)
      → build_normal_report (pos command) (front ++ a ∷ tail) (pos frame_type) (pos status)
        ≡ ok report
      → parse_normal_report (set report (14 + length front) b) ≡ err (protocol_error crc_mismatch)
  unfolding parse_normal_report
  parse_corrupted report h =
      let e : report ≡ layout command frame_type status (front ++ a ∷ tail) =
        ok_injective (sym h ∙ build-layout command frame_type status (front ++ a ∷ tail) r bytes) in
      rw e (rw (change, restore-received) corrupted)
