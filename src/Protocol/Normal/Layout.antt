-- ===== src/Protocol/Normal/Layout.antt =====
-- What `build_normal_report` writes, as one list, and when it refuses.
use cc2_camera_fix.Base.{ℕ, ◌-◌, ◌≤◌, ◌<◌, true, ◌||◌, ◌∷◌, ◌++◌, ◌≡◌, ◌⊎◌, ap, arith}
use cc2_camera_fix.Base.Tests.{le→leb, lt→ltb}
use cc2_camera_fix.Base.Lists.{
  length, drop, replicate, drop-add, drop-replicate, length-append, length-replicate,
}
use cc2_camera_fix.Base.Int.{pos, equals}
use cc2_camera_fix.Base.Result.{ok}
use cc2_camera_fix.Base.Bytes.{Bytes, IsBytes, le16, le32, IsBytes-append}
use cc2_camera_fix.Protocol.Crc.{crc16_normal}
use cc2_camera_fix.Protocol.Crc.Bounds.{crc16_normal-lt}
use cc2_camera_fix.Protocol.Normal.{build_normal_report}

-- The fields before the checksum.
abbrev pub fields : ℕ → ℕ → ℕ → ℕ → Bytes
fields command frame_type size status =
    1 ∷ 0x5a ∷ 0x5a ∷ (le16 command ++ (frame_type ∷ (le16 size ++ le32 status)))

abbrev pub layout : ℕ → ℕ → ℕ → Bytes → Bytes
layout command frame_type status payload =
    let front = fields command frame_type (length payload) status in
    front
    ++ (le16 (crc16_normal (front ++ payload)) ++ (payload ++ replicate (1010 - length payload) 0))

-- What the builder accepts.
pub record IsRequest (command : ℕ) (payload : Bytes) (frame_type status : ℕ) : Type 0 where
  pub command_fits : command < 65536
  pub type_is : (frame_type ≡ 1) ⊎ (frame_type ≡ 2)
  pub payload_fits : length payload ≤ 1010
  pub status_fits : status < 4294967296

pub fields-IsBytes :
    (command frame_type size status : ℕ)
    → frame_type < 256
    → IsBytes (fields command frame_type size status)
fields-IsBytes command frame_type size status h = omega arith

pub crc_fits :
    (command frame_type size status : ℕ) (payload : Bytes)
    → frame_type < 256
    → IsBytes payload
    → crc16_normal (fields command frame_type size status ++ payload) < 65536
crc_fits command frame_type size status payload h hp = omega (
  arith,
  crc16_normal-lt (fields command frame_type size status ++ payload)
      (IsBytes-append (fields command frame_type size status) payload
        (fields-IsBytes command frame_type size status h) hp)
      (λ e. cc),
)

padding : (n : ℕ) → drop {A = ℕ} n (replicate 1010 0) ≡ replicate (1010 - n) 0
padding n = drop-replicate n 1010 0

pub frame_type_test : (t : ℕ) → (t ≡ 1) ⊎ (t ≡ 2) → (equals (pos t) 1 || equals (pos t) 2) ≡ true
frame_type_test t h = ground arith

pub frame_type-lt : {t : ℕ} → (t ≡ 1) ⊎ (t ≡ 2) → t < 256
frame_type-lt h = omega arith

-- A request in range is built, as the list of its fields.
pub build-layout :
    (command frame_type status : ℕ) (payload : Bytes)
    → IsRequest command payload frame_type status
    → IsBytes payload
    → build_normal_report (pos command) payload (pos frame_type) (pos status)
      ≡ ok (layout command frame_type status payload)
unfolding build_normal_report
build-layout command frame_type status payload r hp =
    rw
      (
        le→leb 0 command (omega arith),
        le→leb command 65535 (omega arith),
        frame_type_test frame_type r.type_is,
        le→leb (length payload) 1010 r.payload_fits,
        lt→ltb command 65536 r.command_fits,
        lt→ltb frame_type 256 (frame_type-lt r.type_is),
        lt→ltb (length payload) 65536 (omega arith),
        lt→ltb status 4294967296 r.status_fits,
        drop-add 14 (length payload),
        lt→ltb (crc16_normal (fields command frame_type (length payload) status ++ payload)) 65536 (
            crc_fits command frame_type (length payload) status payload (frame_type-lt r.type_is)
              hp),
      )
      (ap
        (λ rest.
          let front = fields command frame_type (length payload) status in
          ok (front ++ (le16 (crc16_normal (front ++ payload)) ++ (payload ++ rest))))
        (padding (length payload)))

pub length-layout :
    (command frame_type status : ℕ) (payload : Bytes)
    → length payload ≤ 1010
    → length (layout command frame_type status payload) ≡ 1024
length-layout command frame_type status payload h = omega (
  arith,
  length-append payload (replicate (1010 - length payload) 0),
  length-replicate {A = ℕ} (1010 - length payload) 0,
)
