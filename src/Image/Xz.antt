-- ===== src/Image/Xz.antt =====
-- The XZ container that cc2camera/image.py writes around an LZMA2 stream. `lzma.compress` and
-- `zlib.crc32` are parameters.
pub mod RoundTrip
use cc2_camera_fix.Base.{
  ℕ, zero, suc, ◌+◌, ◌-◌, ◌*◌, ◌/◌, ◌%◌, Bool, true, false, List, [], ◌∷◌, ◌++◌,
}
use cc2_camera_fix.Base.Tests.{leb, ltb, ◌==◌, if◌then◌else◌}
use cc2_camera_fix.Base.Lists.{length, replicate}
use cc2_camera_fix.Base.Int.{ℤ, pos, negsuc}
use cc2_camera_fix.Base.Result.{Result, ok, err, value_error, ◌>>=◌}
use cc2_camera_fix.Base.Bytes.{Bytes, pack_u32}

-- The loop; `value` turns are more than it takes.
unfoldable pub vli_from : ℕ → ℕ → Bytes
vli_from zero value = []
vli_from (suc turns) value =
    let rest = vli_from turns (value / 128) in
    if value / 128 == 0 then value % 128 ∷ [] else (value % 128 + 128) ∷ rest

unfoldable pub xz_vli : ℤ → Result Bytes
xz_vli (pos value) = ok (vli_from (suc value) value)
xz_vli (negsuc n) = err value_error

-- `b"\x00" * (-size % 4)`
unfoldable pub padding : ℕ → Bytes
padding size = replicate ((4 - size % 4) % 4) 0

-- `header[0] = n` on a bytearray
abbrev pub with_first : ℕ → Bytes → Result Bytes
with_first n [] = err value_error
with_first n (b ∷ bs) = if ltb n 256 then ok (n ∷ bs) else err value_error

abbrev pub stream_flags : Bytes
stream_flags = 0 ∷ 1 ∷ []

module _ (crc32 : Bytes → ℕ) where
  -- `raw + struct.pack("<I", zlib.crc32(raw) & 0xFFFFFFFF)`
  unfoldable pub sealed : Bytes → Result Bytes
  sealed raw = do check ← pack_u32 (pos (crc32 raw % 4294967296)); ok (raw ++ check)

  unfoldable pub stream_header : Result Bytes
  stream_header = do
    check ← pack_u32 (pos (crc32 stream_flags % 4294967296))
    ok ((0xFD ∷ 0x37 ∷ 0x7A ∷ 0x58 ∷ 0x5A ∷ 0 ∷ []) ++ (stream_flags ++ check))

  unfoldable pub block_header : ℕ → ℕ → Result Bytes
  block_header compressed_size size = do
    first ← xz_vli (pos compressed_size)
    second ← xz_vli (pos size)
    let fields = (0 ∷ 0xC0 ∷ []) ++ (first ++ (second ++ (0x21 ∷ 0x01 ∷ 0x0A ∷ [])))
    let padded = fields ++ padding (length fields + 4)
    sized ← with_first ((length padded + 4) / 4 - 1) padded
    sealed sized

  unfoldable pub index_bytes : ℕ → ℕ → Result Bytes
  index_bytes unpadded_size size = do
    first ← xz_vli (pos unpadded_size)
    second ← xz_vli (pos size)
    let fields = (0 ∷ 1 ∷ []) ++ (first ++ second)
    sealed (fields ++ padding (length fields))

  unfoldable pub footer_bytes : ℕ → Result Bytes
  footer_bytes index_size = do
    backward_size ← pack_u32 (pos (index_size / 4 - 1))
    let footer_fields = backward_size ++ stream_flags
    check ← pack_u32 (pos (crc32 footer_fields % 4294967296))
    ok (check ++ (footer_fields ++ (0x59 ∷ 0x5A ∷ [])))

  module _ (compress : Bytes → Bytes) where
    unfoldable pub build_squashfs_xz_fragment : Bytes → Result Bytes
    unfolding stream_header
    build_squashfs_xz_fragment content = do
      let compressed = compress content
      start ← stream_header
      header ← block_header (length compressed) (length content)
      content_check ← pack_u32 (pos (crc32 content % 4294967296))
      let block = header ++ (compressed ++ (padding (length compressed) ++ content_check))
      index ← index_bytes (length header + length compressed + 4) (length content)
      footer ← footer_bytes (length index)
      ok (start ++ (block ++ (index ++ footer)))
