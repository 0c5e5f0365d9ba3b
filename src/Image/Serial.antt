-- ===== src/Image/Serial.antt =====
-- The serial number of the camera in cc2camera/image.py: the pattern of the bytes of `serial.cfg`.
use cc2_camera_fix.Base.{ℕ, suc, zero, ◌-◌, Bool, false, ◌&&◌, ◌||◌, [], ◌∷◌}
use cc2_camera_fix.Base.Tests.{leb, ◌==◌}
use cc2_camera_fix.Base.Lists.{length, take, drop, slice}
use cc2_camera_fix.Base.Bytes.{Bytes, equal}
use cc2_camera_fix.Base.Text.{codes}

-- `b"serial=12PSSSS"`
abbrev pub serial_prefix : Bytes
serial_prefix = codes "serial=12PSSSS"

-- `[345]`
unfoldable pub is_model_digit : ℕ → Bool
is_model_digit c = leb 51 c && leb c 53

-- `[A-Z0-9]`
unfoldable pub is_serial_char : ℕ → Bool
is_serial_char c = (leb 65 c && leb c 90) || (leb 48 c && leb c 57)

-- `[A-Z0-9]{n}\n$`
unfoldable pub serial_tail : ℕ → Bytes → Bool
serial_tail zero (c ∷ []) = c == 10
serial_tail zero _ = false
serial_tail (suc n) [] = false
serial_tail (suc n) (c ∷ cs) = let rest = serial_tail n cs in is_serial_char c && rest

unfoldable pub serial_rest : Bytes → Bool
serial_rest [] = false
serial_rest (c ∷ cs) = is_model_digit c && serial_tail 28 cs

-- `SERIAL_PATTERN.fullmatch(payload)`
unfoldable pub serial_payload_is_valid : Bytes → Bool
serial_payload_is_valid payload =
    equal (take 14 payload) serial_prefix && serial_rest (drop 14 payload)

-- `match.group(1)`: what stands between `serial=` and the line's end
unfoldable pub serial_value : Bytes → Bytes
serial_value payload = slice 7 (length payload - 1) payload
