-- ===== src/Protocol/Boot/Layout.antt =====
-- A bootloader frame as one list, and what the parser makes of such a list.
use cc2_camera_fix.Base.{
  ℕ, suc, ◌+◌, ◌-◌, ◌/◌, ◌%◌, ◌≤◌, ◌<◌, Bool, true, false, [], ◌∷◌, ◌++◌, ◌≡◌, refl, sym, ap, ◌∙◌,
  arith, append-nil, append_assoc,
}
use cc2_camera_fix.Base.Tests.{◌==◌, le→leb, lt→ltb, le→ltb}
use cc2_camera_fix.Base.Lists.{
  length, take, drop, replicate, slice, drop-append, take-append, drop-replicate, length-append,
}
use cc2_camera_fix.Base.Int.{ℤ}
use cc2_camera_fix.Base.Result.{ok, guard, ◌>>◌, checksum_mismatch}
use cc2_camera_fix.Base.Bytes.{Bytes, le16, le16-value, byte_at, byte_at-skip}
use cc2_camera_fix.Protocol.Boot.{
  additive_checksum, build_boot_frame, parse_boot_frame, low_byte, but_last,
}

-- Everything before the payload; `direction` is 0x80 from the host and 0x81 from the device.
abbrev pub header : ℕ → ℕ → ℕ → Bytes
header direction frame_type size = direction ∷ 0 ∷ 0xee ∷ frame_type ∷ le16 (size + 7)

abbrev pub frame_bytes : ℕ → ℕ → Bytes → ℕ → Bytes
frame_bytes direction frame_type payload checksum =
    header direction frame_type (length payload) ++ (payload ++ checksum ∷ [])

-- The whole frame that the parser accepts.
abbrev pub sealed : ℕ → ℕ → Bytes → Bytes
sealed direction frame_type payload =
    frame_bytes direction frame_type payload
      (additive_checksum (header direction frame_type (length payload) ++ payload))

abbrev pub sent_by : Bool → ℕ
sent_by true = 0x81
sent_by false = 0x80

module _ (direction frame_type : ℕ) (payload : Bytes) (checksum : ℕ) where
  abbrev front : Bytes
  front = header direction frame_type (length payload)

  abbrev frame : Bytes
  frame = frame_bytes direction frame_type payload checksum

  pub length-frame : length frame ≡ length payload + 7
  length-frame = omega (arith, length-append payload (checksum ∷ []))

  before_last : length frame - 1 ≡ length (front ++ payload)
  before_last = omega (arith, length-frame)

  reassociate : frame ≡ (front ++ payload) ++ checksum ∷ []
  reassociate = sym (append_assoc front payload (checksum ∷ []))

  pub but_last-frame : but_last frame ≡ front ++ payload
  but_last-frame =
      rw (before_last)
        (take-append (length (front ++ payload)) (front ++ payload) (checksum ∷ []) refl)

  pub last-frame : byte_at frame (length frame - 1) ≡ ok checksum
  last-frame = rw (before_last) (byte_at-skip (front ++ payload) checksum [])

  pub payload-frame : slice 6 (length frame - 1) frame ≡ payload
  payload-frame =
      let e : length frame - 1 - 6 ≡ length payload = omega (arith, length-frame) in
      rw e (take-append (length payload) payload (checksum ∷ []) refl)

  pub take-frame : (padding : Bytes) → take (length payload + 7) (frame ++ padding) ≡ frame
  take-frame padding = take-append (length payload + 7) frame padding (sym length-frame)

  take-last : take (length payload + 7 - 1) frame ≡ front ++ payload
  take-last =
      let e : length payload + 7 - 1 ≡ length frame - 1 = omega (arith, length-frame) in
      rw e but_last-frame

  drop-frame : drop (length payload + 7) frame ≡ []
  drop-frame =
      rw (← append-nil frame) (drop-append (length payload + 7) frame [] (sym length-frame))

-- Any frame with a length in range is parsed up to its checksum, whatever follows it.
pub parse-frame :
    (device_response : Bool) (frame_type : ℕ) (payload padding : Bytes) (checksum : ℕ)
    → length payload + 7 < 65536
    → parse_boot_frame
        (frame_bytes (sent_by device_response) frame_type payload checksum ++ padding)
        device_response
      ≡ (guard
            (additive_checksum
                (header (sent_by device_response) frame_type (length payload) ++ payload)
              == checksum)
            checksum_mismatch
          >> ok (record {
            frame_type = frame_type;
            payload = payload;
            total_length = length payload + 7;
          }))
unfolding parse_boot_frame
parse-frame true frame_type payload padding checksum fits = rw (
  le→leb 7 (length (frame_bytes 0x81 frame_type payload checksum ++ padding)) (
      omega (
        arith,
        length-append (payload ++ checksum ∷ []) padding,
        length-append payload (checksum ∷ []),
      )),
  le16-value (length payload + 7) fits,
  le→leb 7 (length payload + 7) (omega arith),
  le→leb (length payload + 7) (length (frame_bytes 0x81 frame_type payload checksum ++ padding)) (
      omega (
        arith,
        length-append (payload ++ checksum ∷ []) padding,
        length-append payload (checksum ∷ []),
      )),
  take-frame 0x81 frame_type payload checksum padding,
  last-frame 0x81 frame_type payload checksum,
  but_last-frame 0x81 frame_type payload checksum,
  payload-frame 0x81 frame_type payload checksum,
)
parse-frame false frame_type payload padding checksum fits = rw (
  le→leb 7 (length (frame_bytes 0x80 frame_type payload checksum ++ padding)) (
      omega (
        arith,
        length-append (payload ++ checksum ∷ []) padding,
        length-append payload (checksum ∷ []),
      )),
  le16-value (length payload + 7) fits,
  le→leb 7 (length payload + 7) (omega arith),
  le→leb (length payload + 7) (length (frame_bytes 0x80 frame_type payload checksum ++ padding)) (
      omega (
        arith,
        length-append (payload ++ checksum ∷ []) padding,
        length-append payload (checksum ∷ []),
      )),
  take-frame 0x80 frame_type payload checksum padding,
  last-frame 0x80 frame_type payload checksum,
  but_last-frame 0x80 frame_type payload checksum,
  payload-frame 0x80 frame_type payload checksum,
)

blank-header : (n : ℕ) → replicate {A = ℕ} (n + 7) 0 ≡ 0 ∷ 0 ∷ 0 ∷ 0 ∷ 0 ∷ 0 ∷ replicate (n + 1) 0
unfolding replicate
blank-header n = let e : n + 7 ≡ suc (suc (suc (suc (suc (suc (n + 1)))))) = omega arith in rw e

blank_last : (n : ℕ) → drop {A = ℕ} n (replicate (n + 1) 0) ≡ 0 ∷ []
unfolding replicate
blank_last n = drop-replicate n (n + 1) 0 ∙ rest
  where
    rest : replicate {A = ℕ} (n + 1 - n) 0 ≡ 0 ∷ []
    rest = let e : n + 1 - n ≡ 1 = omega arith in rw e

blank_tail :
    (a b c d e f n : ℕ)
    → drop {A = ℕ} (n + 7 - 1) (a ∷ b ∷ c ∷ d ∷ e ∷ f ∷ replicate (n + 1) 0) ≡ 0 ∷ []
blank_tail a b c d e f n =
    let six : n + 7 - 1 ≡ suc (suc (suc (suc (suc (suc n))))) = omega arith in rw six (blank_last n)

-- A payload that fits a HID report is framed, whatever the type; only the low byte of the type is
-- sent.
pub build-sealed :
    (frame_type : ℤ) (payload : Bytes)
    → length payload ≤ 3064
    → build_boot_frame frame_type payload ≡ ok (sealed 0x80 (low_byte frame_type) payload)
unfolding build_boot_frame
build-sealed frame_type payload fits =
    rw
      (
        le→ltb 65535 (length payload + 7) (omega arith),
        le→ltb 3071 (length payload + 7) (omega arith),
        blank-header (length payload),
        lt→ltb (length payload + 7) 65536 (omega arith),
        blank_tail 0x80 0 0xee (low_byte frame_type) ((length payload + 7) % 256)
            ((length payload + 7) / 256 % 256) (length payload),
        but_last-frame 0x80 (low_byte frame_type) payload 0,
        take-last 0x80 (low_byte frame_type) payload 0,
        drop-frame 0x80 (low_byte frame_type) payload 0,
      )
      (ap ok (append_assoc (header 0x80 (low_byte frame_type) (length payload)) payload _))
