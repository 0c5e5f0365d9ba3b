-- ===== src/Protocol/Boot/RoundTrip.antt =====
-- Frames go through a HID report and back.
use cc2_camera_fix.Base.{
  ℕ, ◌+◌, ◌-◌, ◌≤◌, ◌<◌, Bool, true, false, ◌∷◌, ◌++◌, ◌||◌, ◌≡◌, refl, sym, ◌∙◌, inl, inr, arith,
}
use cc2_camera_fix.Base.Tests.{==_iff, ltb, le→ltb, Bool-cases, if◌then◌else◌}
use cc2_camera_fix.Base.Lists.{length, drop, replicate, length-append, length-replicate}
use cc2_camera_fix.Base.Int.{ℤ}
use cc2_camera_fix.Base.Result.{Result, Exn, ok, err, ok_injective}
use cc2_camera_fix.Base.Bytes.{Bytes}
use cc2_camera_fix.Protocol.Boot.{
  BootFrame, additive_checksum, build_boot_frame, parse_boot_frame, low_byte, to_boot_hid_report,
  strip_report_id, from_boot_hid_report,
}
use cc2_camera_fix.Protocol.Boot.Layout.{
  header, sealed, sent_by, parse-frame, build-sealed, length-frame,
}

abbrev pub frame_of : ℕ → Bytes → BootFrame
frame_of frame_type payload = record {
  frame_type = frame_type;
  payload = payload;
  total_length = length payload + 7;
}

pub parse-sealed :
    (device_response : Bool) (frame_type : ℕ) (payload padding : Bytes)
    → length payload + 7 < 65536
    → parse_boot_frame
        (sealed (sent_by device_response) frame_type payload ++ padding)
        device_response
      ≡ ok (frame_of frame_type payload)
parse-sealed device_response frame_type payload padding fits =
    let checksum =
      additive_checksum (header (sent_by device_response) frame_type (length payload) ++ payload) in
    parse-frame device_response frame_type payload padding checksum fits
    ∙ rw ((==_iff checksum checksum).1 refl)

length-sealed :
    (direction frame_type : ℕ) (payload : Bytes)
    → length (sealed direction frame_type payload) ≡ length payload + 7
length-sealed direction frame_type payload = length-frame direction frame_type payload _

to_report :
    (frame_type : ℕ) (payload : Bytes)
    → length payload ≤ 3064
    → to_boot_hid_report (sealed 0x80 frame_type payload)
      ≡ ok (1 ∷ (sealed 0x80 frame_type payload ++ replicate (3064 - length payload) 0))
unfolding to_boot_hid_report
to_report frame_type payload fits =
    let e = length-sealed 0x80 frame_type payload in
    let pad : 3071 - length (sealed 0x80 frame_type payload) ≡ 3064 - length payload =
      omega (arith, e) in
    rw (le→ltb 3071 (length (sealed 0x80 frame_type payload)) (omega (arith, e)), pad)

-- The builder refuses what a report cannot hold.
built-fits :
    (frame_type : ℤ) (payload frame : Bytes)
    → build_boot_frame frame_type payload ≡ ok frame
    → length payload ≤ 3064
unfolding build_boot_frame
built-fits frame_type payload frame h = elim (Bool-cases (ltb 3071 (length payload + 7))) [
  | inl large ↦ absurd (refused (ltb 0xFFFF (length payload + 7)) _ _ _ large h)
  | inr small ↦ ltb-false (length payload + 7) small refl
]
  where
    refused :
        (a b : Bool) (k : Result Bytes) (e : Exn)
        → b ≡ true
        → (if a || b then err e else k) ≡ ok frame
        → ⊥
    refused true b k e q h = cc
    refused false b k e q h = let w = rw q at h in cc

    ltb-false : (n : ℕ) → ltb 3071 n ≡ false → length payload + 7 ≡ n → length payload ≤ 3064
    ltb-false n q e = ground arith

-- Every host frame that was built has at most 3064 bytes of payload and fits a report of 3072 bytes,
-- and the part behind the report ID is parsed, as a host frame, to the low byte of its type and its
-- payload, the padding ignored.
pub parse-to_report :
    (frame_type : ℤ) (payload frame : Bytes)
    → build_boot_frame frame_type payload ≡ ok frame
    → (length payload ≤ 3064)
      × (report : Bytes) × (to_boot_hid_report frame ≡ ok report)
      × (length report ≡ 3072)
      × (parse_boot_frame (drop 1 report) false ≡ ok (frame_of (low_byte frame_type) payload))
parse-to_report frame_type payload frame h =
    let fits = built-fits frame_type payload frame h in
    let t = low_byte frame_type in
    let e : frame ≡ sealed 0x80 t payload =
      ok_injective (sym h ∙ build-sealed frame_type payload fits) in
    let padding = replicate {A = ℕ} (3064 - length payload) 0 in
    (
      fits,
      1 ∷ (sealed 0x80 t payload ++ padding),
      rw e (to_report t payload fits),
      omega (
        arith,
        length-append (sealed 0x80 t payload) padding,
        length-sealed 0x80 t payload,
        length-replicate {A = ℕ} (3064 - length payload) 0,
      ),
      parse-sealed false t payload padding (omega arith),
    )

-- A device frame is read from a report with its ID, and from one whose ID the platform strips.
pub from-sealed :
    (frame_type : ℕ) (payload padding : Bytes)
    → length payload + 7 < 65536
    → (from_boot_hid_report (1 ∷ (sealed 0x81 frame_type payload ++ padding))
        ≡ ok (frame_of frame_type payload))
      × (from_boot_hid_report (sealed 0x81 frame_type payload ++ padding)
          ≡ ok (frame_of frame_type payload))
unfolding from_boot_hid_report strip_report_id
from-sealed frame_type payload padding fits =
    let parsed = parse-sealed true frame_type payload padding fits in (parsed, parsed)
