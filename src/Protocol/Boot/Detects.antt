-- ===== src/Protocol/Boot/Detects.antt =====
-- The additive checksum tells apart frames that differ in one byte.
use cc2_camera_fix.Base.{
  ℕ, ◌+◌, ◌<◌, Bool, [], ◌∷◌, ◌++◌, ◌≡◌, ◌≢◌, sym, ap, ◌∙◌, arith, append_assoc,
}
use cc2_camera_fix.Base.Tests.{ne→==}
use cc2_camera_fix.Base.Lists.{length, set, set-skip, set-append, length-append}
use cc2_camera_fix.Base.Result.{err, protocol_error, checksum_mismatch}
use cc2_camera_fix.Base.Bytes.{Bytes}
use cc2_camera_fix.Protocol.Boot.{sum, additive_checksum, parse_boot_frame}
use cc2_camera_fix.Protocol.Boot.Layout.{header, sealed, sent_by, parse-frame}

sum-append : (xs ys : Bytes) → sum (xs ++ ys) ≡ sum xs + sum ys
unfolding sum
sum-append [] ys = omega arith
sum-append (x ∷ xs) ys = omega (arith, sum-append xs ys)

-- Two byte strings that differ in exactly one byte have different checksums.
pub additive_checksum-single_byte :
    (front tail : Bytes) (a b : ℕ)
    → a < 256
    → b < 256
    → a ≢ b
    → additive_checksum (front ++ a ∷ tail) ≢ additive_checksum (front ++ b ∷ tail)
unfolding additive_checksum sum
additive_checksum-single_byte front tail a b ha hb ne e =
    absurd (omega (arith, sum-append front (a ∷ tail), sum-append front (b ∷ tail)))

set_inside :
    (front tail ys zs : Bytes) (a b : ℕ)
    → set (((front ++ a ∷ tail) ++ ys) ++ zs) (length front) b ≡ ((front ++ b ∷ tail) ++ ys) ++ zs
set_inside front tail ys zs a b = simp (append_assoc, set-append)

module _ (device_response : Bool) (frame_type : ℕ) (front tail padding : Bytes) (a b : ℕ)
    (fits : length (front ++ a ∷ tail) + 7 < 65536) (ha : a < 256) (hb : b < 256) (ne : a ≢ b) where
  abbrev from : ℕ
  from = sent_by device_response

  abbrev head : Bytes
  head = header from frame_type (length (front ++ a ∷ tail))

  abbrev checksum : ℕ
  checksum = additive_checksum (head ++ (front ++ a ∷ tail))

  same_size : length (front ++ b ∷ tail) ≡ length (front ++ a ∷ tail)
  same_size = omega (arith, length-append front (a ∷ tail), length-append front (b ∷ tail))

  change :
      set (sealed from frame_type (front ++ a ∷ tail) ++ padding) (6 + length front) b
      ≡ head ++ ((front ++ b ∷ tail) ++ checksum ∷ []) ++ padding
  change =
      set-skip head (((front ++ a ∷ tail) ++ checksum ∷ []) ++ padding) (length front) b
      ∙ ap (λ rest. head ++ rest) (set_inside front tail (checksum ∷ []) padding a b)

  -- A frame in either direction, with one byte of its payload changed in transit, fails its
  -- checksum.
  pub parse_boot_corrupted :
      parse_boot_frame
        (set (sealed from frame_type (front ++ a ∷ tail) ++ padding) (6 + length front) b)
        device_response
      ≡ err (protocol_error checksum_mismatch)
  parse_boot_corrupted =
      let parsed =
        parse-frame device_response frame_type (front ++ b ∷ tail) padding checksum
          (omega (arith, same_size)) in
      rw change (
        (rw same_size at parsed)
        ∙ rw (
            ne→== _ checksum
              (λ e. additive_checksum-single_byte (head ++ front) tail a b ha hb ne (sym e))))
