-- ===== src/Startup.antt =====
-- The admission check of cc2camera/startup.py: whether the config partition has room for the hooks. The
-- checksum of a marker is a parameter, in the form that `jffs2_crc` gives it.
pub mod Space
use cc2_camera_fix.Base.{
  ℕ, zero, suc, ◌+◌, ◌*◌, ◌/◌, Bool, true, false, not, ◌&&◌, ◌||◌, List, [], ◌∷◌, ◌++◌,
}
use cc2_camera_fix.Base.Tests.{leb, ltb, ◌==◌, if◌then◌else◌}
use cc2_camera_fix.Base.Lists.{length, slice, replicate}
use cc2_camera_fix.Base.Int.{ℤ, pos, negsuc}
use cc2_camera_fix.Base.Result.{Result, ok, err, ◌>>=◌, ◌>>◌, guard}
use cc2_camera_fix.Base.Result.{invalid_space, insufficient_space}
use cc2_camera_fix.Base.Bytes.{Bytes, equal, pack_u16, pack_u32}
use cc2_camera_fix.Base.Text.{Text}

abbrev pub erase : ℕ
erase = 0x4000

abbrev pub reserve_blocks : ℕ
reserve_blocks = 5

pub record SpacePlan : Type 0 where
  pub clean_blocks : ℕ
  pub write_budget : ℕ
  pub filesystem_available : ℤ

-- A hook: its name and its bytes
pub record Payload : Type 0 where
  pub name : Text
  pub content : Bytes

-- `n <= available`
abbrev pub at_least : ℕ → ℤ → Bool
at_least n (pos available) = leb n available
at_least n (negsuc available) = false

abbrev pub is_empty : List Payload → Bool
is_empty [] = true
is_empty (payload ∷ payloads) = false

-- The clean marker of an erased block
unfoldable pub clean_marker : (Bytes → ℕ) → Result Bytes
clean_marker crc = do
  magic ← pack_u16 (pos 0x1985)
  node_type ← pack_u16 (pos 0x2003)
  total_length ← pack_u32 (pos 12)
  let header = magic ++ (node_type ++ total_length)
  checksum ← pack_u32 (pos (crc header))
  ok (header ++ checksum)

-- `range(0, len(config), ERASE)`, of a partition of 0x20000 bytes
abbrev pub block_offsets : List ℕ
block_offsets = 0 ∷ 0x4000 ∷ 0x8000 ∷ 0xC000 ∷ 0x10000 ∷ 0x14000 ∷ 0x18000 ∷ 0x1C000 ∷ []

unfoldable pub is_clean : Bytes → Bytes → ℕ → Bool
is_clean marker config o =
    equal (slice o (o + 12) config) marker
    && equal (slice (o + 12) (o + erase) config) (replicate 16372 0xFF)

-- The sum over the blocks
unfoldable pub count_clean : Bytes → Bytes → List ℕ → ℕ
count_clean marker config [] = 0
count_clean marker config (o ∷ offsets) =
    let rest = count_clean marker config offsets in
    if is_clean marker config o then suc rest else rest

-- The sum over the payloads
unfoldable pub payload_bytes : List Payload → ℕ
payload_bytes [] = 0
payload_bytes (payload ∷ payloads) =
    length payload.content
    + (length payload.content + 4095) / 4096 * 128
    + 1024
    + payload_bytes payloads

unfoldable pub budget_of : List Payload → ℕ
budget_of payloads = (4096 + payload_bytes payloads + 16383) / 16384 * 16384

unfoldable pub space_plan : (Bytes → ℕ) → Bytes → List Payload → ℤ → Result SpacePlan
space_plan crc config payloads available = do
  guard (length config == 0x20000 && not (is_empty payloads) && at_least 0 available) invalid_space
  marker ← clean_marker crc
  let clean = count_clean marker config block_offsets
  let budget = budget_of payloads
  guard
      (leb (budget + reserve_blocks * erase) (clean * erase) && at_least (budget + erase) available)
      insufficient_space
  ok (record { clean_blocks = clean; write_budget = budget; filesystem_available = available })
