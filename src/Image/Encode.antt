-- ===== src/Image/Encode.antt =====
-- The nodes that `build_minimal_config` and `build_preserved_config` of cc2camera/image.py write.
pub mod Fields
pub mod RoundTrip
use cc2_camera_fix.Base.{ℕ, ◌+◌, List, [], ◌∷◌, ◌++◌}
use cc2_camera_fix.Base.Tests.{ltb, if◌then◌else◌}
use cc2_camera_fix.Base.Lists.{length}
use cc2_camera_fix.Base.Int.{ℤ, pos, negsuc}
use cc2_camera_fix.Base.Result.{Result, ok, err, struct_error, ◌>>=◌}
use cc2_camera_fix.Base.Bytes.{Bytes, pack_u16, pack_u32}
use cc2_camera_fix.Image.Jffs2.{jffs2_magic, Dirent, Inode}

-- `struct.pack("<B", n)`
abbrev pub pack_byte : ℤ → Result Bytes
pack_byte (pos n) = if ltb n 256 then ok (n ∷ []) else err struct_error
pack_byte (negsuc n) = err struct_error

module _ (crc : Bytes → ℕ) where
  -- The first eight bytes of a node, and their checksum.
  unfoldable pub header_bytes : ℕ → ℕ → Result Bytes
  header_bytes node_type total_length = do
    magic ← pack_u16 (pos jffs2_magic)
    type_field ← pack_u16 (pos node_type)
    length_field ← pack_u32 (pos total_length)
    let header = magic ++ (type_field ++ length_field)
    header_crc ← pack_u32 (pos (crc header))
    ok (header ++ header_crc)

  unfoldable pub cleanmarker_bytes : Result Bytes
  cleanmarker_bytes = header_bytes 0x2003 12

  unfoldable pub dirent_bytes : Dirent → Result Bytes
  dirent_bytes item = do
    header ← header_bytes 0xE001 (40 + length item.name)
    parent ← pack_u32 (pos item.parent_inode)
    version ← pack_u32 (pos item.version)
    inode ← pack_u32 (pos item.inode)
    mctime ← pack_u32 (pos item.mctime)
    name_size ← pack_byte (pos (length item.name))
    dtype ← pack_byte (pos item.dtype)
    unused ← pack_u16 (pos 0)
    let dirent_prefix =
        header ++ (parent ++ (version ++ (inode ++ (mctime ++ (name_size ++ (dtype ++ unused))))))
    prefix_crc ← pack_u32 (pos (crc dirent_prefix))
    name_crc ← pack_u32 (pos (crc item.name))
    ok (dirent_prefix ++ (prefix_crc ++ (name_crc ++ item.name)))

  -- The payload is stored as it is: from offset 0, without compression.
  unfoldable pub inode_bytes : Inode → Result Bytes
  inode_bytes item = do
    header ← header_bytes 0xE002 (68 + length item.payload)
    inode ← pack_u32 (pos item.inode)
    version ← pack_u32 (pos item.version)
    mode ← pack_u32 (pos item.mode)
    uid ← pack_u16 (pos item.uid)
    gid ← pack_u16 (pos item.gid)
    file_size ← pack_u32 (pos (length item.payload))
    atime ← pack_u32 (pos item.atime)
    mtime ← pack_u32 (pos item.mtime)
    ctime ← pack_u32 (pos item.ctime)
    file_offset ← pack_u32 (pos 0)
    compressed_size ← pack_u32 (pos (length item.payload))
    decompressed_size ← pack_u32 (pos (length item.payload))
    compression ← pack_byte (pos 0)
    user_compression ← pack_byte (pos 0)
    flags ← pack_u16 (pos item.flags)
    let inode_prefix =
        header
        ++ (inode
            ++ (version
                ++ (mode
                    ++ (uid
                        ++ (gid
                            ++ (file_size
                                ++ (atime
                                    ++ (mtime
                                        ++ (ctime
                                            ++ (file_offset
                                                ++ (compressed_size
                                                    ++ (decompressed_size
                                                        ++ (compression
                                                            ++ (user_compression
                                                            ++ flags))))))))))))))
    payload_crc ← pack_u32 (pos (crc item.payload))
    prefix_crc ← pack_u32 (pos (crc inode_prefix))
    ok (inode_prefix ++ (payload_crc ++ (prefix_crc ++ item.payload)))
