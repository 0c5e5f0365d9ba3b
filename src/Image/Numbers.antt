-- ===== src/Image/Numbers.antt =====
-- The small helpers on numbers and bytes of cc2camera/image.py.
use cc2_camera_fix.Base.{ℕ, ◌+◌, ◌*◌, ◌/◌}

abbrev pub config_size : ℕ
config_size = 0x20000

-- `value & ~3` clears the last two bits.
unfoldable pub align4 : ℕ → ℕ
align4 value = (value + 3) / 4 * 4
