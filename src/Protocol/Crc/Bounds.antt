-- ===== src/Protocol/Crc/Bounds.antt =====
-- The range of the checksum: a shift to the right drops the top bits for good, because the
-- polynomial has no bit above bit 12.
use cc2_camera_fix.Base.{ℕ, zero, suc, ◌*◌, ◌/◌, ◌^◌, ◌<◌, bit_xor, [], ◌∷◌, ◌≢◌, refl, arith}
use cc2_camera_fix.Base.Bytes.{Bytes, IsBytes}
use cc2_camera_fix.Base.Xor.{bit_xor-lt}
use cc2_camera_fix.Protocol.Crc.{crc_round, crc_rounds, crc_byte, crc16_from, crc16_normal}

-- One round halves the range, down to the width of the polynomial.
crc_round-lt : (k x : ℕ) → x < 2 * 2 ^ k → 0x1021 < 2 ^ k → crc_round x < 2 ^ k
unfolding crc_round
crc_round-lt k x h w = ground (arith, bit_xor-lt k (x / 2) 0x1021 (omega arith) w)

pub crc_round_13 : (x : ℕ) → x < 8192 → crc_round x < 8192
crc_round_13 x h = crc_round-lt 13 x (omega arith) (omega arith)

crc_rounds_13 : (n x : ℕ) → x < 8192 → crc_rounds n x < 8192
unfolding crc_rounds
crc_rounds_13 zero x h = h
crc_rounds_13 (suc n) x h = crc_rounds_13 n (crc_round x) (crc_round_13 x h)

crc_rounds_settle : (n x : ℕ) → x < 65536 → crc_rounds (suc (suc (suc n))) x < 8192
unfolding crc_rounds
crc_rounds_settle n x h =
    let once = crc_round-lt 15 x h (omega arith) in
    let twice = crc_round-lt 14 (crc_round x) once (omega arith) in
    crc_rounds_13 n _ (crc_round-lt 13 (crc_round (crc_round x)) twice (omega arith))

pub crc_byte-lt : (crc byte : ℕ) → crc < 65536 → byte < 65536 → crc_byte crc byte < 8192
unfolding crc_byte
crc_byte-lt crc byte h b = crc_rounds_settle 5 (bit_xor crc byte) (bit_xor-lt 16 crc byte h b)

pub crc16_from-lt :
    (bytes : Bytes) (crc : ℕ) → IsBytes bytes → crc < 8192 → crc16_from crc bytes < 8192
unfolding crc16_from
crc16_from-lt [] crc h c = c
crc16_from-lt (byte ∷ bytes) crc (hb, h) c =
    crc16_from-lt bytes (crc_byte crc byte) h (crc_byte-lt crc byte (omega arith) (omega arith))

-- The checksum of any bytes but none is below 2 ^ 13: the upper three bits of the 16-bit field
-- are always zero.
pub crc16_normal-lt : (bytes : Bytes) → IsBytes bytes → bytes ≢ [] → crc16_normal bytes < 2 ^ 13
unfolding crc16_normal
crc16_normal-lt [] h ne = absurd (ne refl)
crc16_normal-lt (byte ∷ bytes) (hb, h) ne =
    crc16_from-lt bytes (crc_byte 0xFFFF byte) h
      (crc_byte-lt 0xFFFF byte (omega arith) (omega arith))
