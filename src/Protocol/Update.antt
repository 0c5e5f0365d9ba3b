-- ===== src/Protocol/Update.antt =====
-- The update plan, its blob and frames, and the check of a restore image in cc2camera/protocol.py.
-- `hashlib.md5(...).digest()` is a parameter.
pub mod Chunks
pub mod Plan
pub mod Restore
use cc2_camera_fix.Base.{ℕ, zero, suc, ◌+◌, ◌-◌, ◌*◌, ◌/◌, ◌%◌, not, List, [], ◌∷◌, ◌++◌}
use cc2_camera_fix.Base.Tests.{leb, ltb, ◌==◌, if◌then◌else◌}
use cc2_camera_fix.Base.Lists.{length, replicate, slice, assign}
use cc2_camera_fix.Base.Int.{ℤ, pos, negsuc}
use cc2_camera_fix.Base.Result.{
  Result, ok, err, protocol_error, guard, ◌>>=◌, ◌>>◌, bad_flash_range, flash_range_overflow,
  wrong_image_size, persistent_flag,
}
use cc2_camera_fix.Base.Bytes.{Bytes, pack_u16, pack_u32, unpack_u32}
use cc2_camera_fix.Protocol.Boot.{build_boot_frame, boot_data_size}
use cc2_camera_fix.Protocol.Normal.{upgrade_flag_0}

abbrev pub flash_size : ℕ
flash_size = 0x800000

abbrev pub upgrade_flag_offset : ℕ
upgrade_flag_offset = 0x7F8000

abbrev pub boot_image_header_size : ℕ
boot_image_header_size = 128

pub record UpdatePlan : Type 0 where
  pub flash_offset : ℕ
  pub image_size : ℕ
  pub transfer_size : ℕ
  pub image_md5 : Bytes
  pub packet_count : ℕ
  pub packet_payload_size : ℕ
  pub packets_per_ack : ℕ

unfoldable pub validate_flash_range : ℤ → ℤ → Result (Unit {0})
validate_flash_range (pos offset) (pos size) = do
  guard (ltb 0 size) bad_flash_range
  guard (leb (offset + size) flash_size) flash_range_overflow
validate_flash_range _ _ = err (protocol_error bad_flash_range)

-- `digest.hex()`, as ASCII codes
abbrev pub hex_digit : ℕ → ℕ
hex_digit n = if ltb n 10 then b'0' + n else b'a' + (n - 10)

unfoldable pub hex : Bytes → Bytes
hex [] = []
hex (b ∷ bytes) = hex_digit (b / 16) ∷ hex_digit (b % 16) ∷ hex bytes

-- `math.ceil(a / b)`: the quotients here are below 2 ^ 24, where the float is exact enough.
unfoldable pub ceil_div : ℕ → ℕ → ℕ
ceil_div a b = if a % b == 0 then a / b else a / b + 1

unfoldable pub natural : ℤ → ℕ
natural (pos n) = n
natural (negsuc n) = 0

unfoldable pub build_update_blob : (Bytes → Bytes) → Bytes → ℤ → Result (Bytes × UpdatePlan)
unfolding validate_flash_range replicate hex ceil_div natural
build_update_blob md5 image flash_offset = do
  validate_flash_range flash_offset (pos (length image))
  let header = replicate boot_image_header_size 0
  offset_field ← pack_u32 flash_offset
  size_field ← pack_u32 (pos (length image))
  let with_sizes = assign 4 12 (offset_field ++ size_field) header
  let with_digest = assign 12 28 (md5 image) with_sizes
  let blob = with_digest ++ image
  ok (
    blob,
    record {
      flash_offset = natural flash_offset;
      image_size = length image;
      transfer_size = length blob;
      image_md5 = hex (md5 image);
      packet_count = ceil_div (length blob) boot_data_size;
      packet_payload_size = boot_data_size;
      packets_per_ack = 1;
    },
  )

unfoldable pub build_metadata_frame : UpdatePlan → ℤ → Result Bytes
build_metadata_frame plan firmware_version = do
  payload_size_field ← pack_u16 (pos plan.packet_payload_size)
  transfer_field ← pack_u32 (pos plan.transfer_size)
  ack_field ← pack_u16 (pos plan.packets_per_ack)
  version_field ← pack_u16 firmware_version
  build_boot_frame (pos 1) (payload_size_field ++ (transfer_field ++ (ack_field ++ version_field)))

-- One turn of the generator: the frame for the packet `sequence`.
unfoldable pub data_frame : Bytes → ℕ → Result Bytes
data_frame blob sequence = do
  sequence_field ← pack_u32 (pos sequence)
  let start = sequence * boot_data_size
  build_boot_frame (pos 3) (sequence_field ++ slice start (start + boot_data_size) blob)

unfoldable pub data_frames_from : ℕ → ℕ → Bytes → List (ℕ × Result Bytes)
unfolding data_frame
data_frames_from zero sequence blob = []
data_frames_from (suc rounds) sequence blob =
    (sequence, data_frame blob sequence) ∷ data_frames_from rounds (sequence + 1) blob

-- `range(0, n, step)` has this many items.
abbrev pub range_length : ℕ → ℕ → ℕ
range_length n step = (n + step - 1) / step

-- An item is raised or yielded when the consumer asks for it, hence a result for each.
unfoldable pub iter_data_frames : Bytes → List (ℕ × Result Bytes)
unfolding data_frames_from
iter_data_frames blob = data_frames_from (range_length (length blob) boot_data_size) 0 blob

unfoldable pub validate_full_restore_image : Bytes → Result (Unit {0})
validate_full_restore_image image = do
  guard (length image == flash_size) wrong_image_size
  flag ← unpack_u32 image upgrade_flag_offset
  guard (not (flag == upgrade_flag_0)) persistent_flag
