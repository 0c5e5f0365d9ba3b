-- ===== src/Protocol/Crc.antt =====
-- `crc16_normal` of cc2camera/protocol.py: a shift to the right under the unreflected 0x1021.
pub mod Bounds
pub mod Detects
use cc2_camera_fix.Base.{ℕ, zero, suc, ◌/◌, ◌%◌, bit_xor, List, [], ◌∷◌}
use cc2_camera_fix.Base.Tests.{◌==◌, if◌then◌else◌}
use cc2_camera_fix.Base.Bytes.{Bytes}

-- One turn of the inner loop, the mask `crc &= 0xFFFF` included.
unfoldable pub crc_round : ℕ → ℕ
crc_round crc = (if crc % 2 == 1 then bit_xor (crc / 2) 0x1021 else crc / 2) % 65536

-- `for _ in range(n)` over the inner loop
unfoldable pub crc_rounds : ℕ → ℕ → ℕ
unfolding crc_round
crc_rounds zero crc = crc
crc_rounds (suc n) crc = crc_rounds n (crc_round crc)

-- One turn of the outer loop.
unfoldable pub crc_byte : ℕ → ℕ → ℕ
unfolding crc_rounds
crc_byte crc byte = crc_rounds 8 (bit_xor crc byte)

unfoldable pub crc16_from : ℕ → Bytes → ℕ
unfolding crc_byte
crc16_from crc [] = crc
crc16_from crc (byte ∷ bytes) = crc16_from (crc_byte crc byte) bytes

unfoldable pub crc16_normal : Bytes → ℕ
unfolding crc16_from
crc16_normal bytes = crc16_from 0xFFFF bytes
