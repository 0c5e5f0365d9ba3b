-- ===== src/Image/Jffs2.antt =====
-- The scan of a JFFS2 partition for nodes in cc2camera/image.py. `zlib.crc32` is a parameter, in the
-- form that `jffs2_crc` gives it: a checksum of bytes.
pub mod Kinds
pub mod Total
use cc2_camera_fix.Base.{
  ℕ, zero, suc, ◌+◌, ◌-◌, ◌*◌, ◌/◌, ◌%◌, bit_and, bit_or, Bool, true, false, not, ◌&&◌, ◌||◌,
  Option, none, some, List, [], ◌∷◌, ◌++◌,
}
use cc2_camera_fix.Base.Tests.{leb, ltb, ◌==◌, if◌then◌else◌}
use cc2_camera_fix.Base.Lists.{length, take, drop, slice, assign}
use cc2_camera_fix.Base.Int.{ℤ, pos}
use cc2_camera_fix.Base.Result.{Result, ok, err, ◌>>=◌, ◌>>◌}
use cc2_camera_fix.Base.Bytes.{Bytes, pack_u16, unpack_u16, unpack_u32, byte_at}

abbrev pub jffs2_magic : ℕ
jffs2_magic = 0x1985

abbrev pub jffs2_node_accurate : ℕ
jffs2_node_accurate = 0x2000

abbrev pub jffs2_dirent : ℕ
jffs2_dirent = 1

abbrev pub jffs2_inode : ℕ
jffs2_inode = 2

abbrev pub jffs2_cleanmarker : ℕ
jffs2_cleanmarker = 3

-- What the dict of a node holds for its kind.
pub record Dirent : Type 0 where
  pub parent_inode : ℕ
  pub version : ℕ
  pub inode : ℕ
  pub mctime : ℕ
  pub dtype : ℕ
  pub name : Bytes

pub record Inode : Type 0 where
  pub inode : ℕ
  pub version : ℕ
  pub mode : ℕ
  pub uid : ℕ
  pub gid : ℕ
  pub file_size : ℕ
  pub atime : ℕ
  pub mtime : ℕ
  pub ctime : ℕ
  pub file_offset : ℕ
  pub compressed_size : ℕ
  pub decompressed_size : ℕ
  pub compression : ℕ
  pub user_compression : ℕ
  pub flags : ℕ
  pub payload : Bytes

pub data Kind : Type 0 where
  dirent : Dirent → Kind
  inode : Inode → Kind
  cleanmarker : Kind
  other : ℕ → Kind

pub record Node : Type 0 where
  pub offset : ℕ
  pub node_type : ℕ
  pub total_length : ℕ
  pub current : Bool
  pub obsolete : Bool
  pub kind : Kind

unfoldable pub restored_accurate_slice : Bytes → ℕ → Bool → Result Bytes
restored_accurate_slice raw node_type false = ok raw
restored_accurate_slice raw node_type true = do
  field ← pack_u16 (pos (bit_or node_type jffs2_node_accurate))
  ok (assign 2 4 field raw)

module _ (crc : Bytes → ℕ) where
  -- Whether the header's checksum holds with the accurate bit put back.
  unfoldable pub is_obsolete : Bytes → ℕ → ℕ → Result Bool
  unfolding restored_accurate_slice
  is_obsolete header node_type stored_header_crc = do
    fixed_header ← restored_accurate_slice header node_type true
    ok (crc fixed_header == stored_header_crc)

  -- A `continue` is `none`. The names of the fields are those of the format "<IIII".
  unfoldable pub dirent_at : Bytes → ℕ → Bool → Result (Option Kind)
  unfolding restored_accurate_slice
  dirent_at node node_type obsolete = do
    parent_inode ← unpack_u32 node 12
    version ← unpack_u32 node 16
    inode_number ← unpack_u32 node 20
    mctime ← unpack_u32 node 24
    name_size ← byte_at node 28
    dtype ← byte_at node 29
    stored_node_crc ← unpack_u32 node 32
    stored_name_crc ← unpack_u32 node 36
    let name = slice 40 (40 + name_size) node
    node_crc_bytes ← restored_accurate_slice (take 32 node) node_type obsolete
    let found : Dirent = record {
      parent_inode = parent_inode;
      version = version;
      inode = inode_number;
      mctime = mctime;
      dtype = dtype;
      name = name;
    }
    ok (
        if crc node_crc_bytes == stored_node_crc && crc name == stored_name_crc
        then some (dirent found)
        else none)

  unfoldable pub inode_at : Bytes → ℕ → Bool → Result (Option Kind)
  unfolding restored_accurate_slice
  inode_at node node_type obsolete = do
    inode_number ← unpack_u32 node 12
    version ← unpack_u32 node 16
    mode ← unpack_u32 node 20
    uid ← unpack_u16 node 24
    gid ← unpack_u16 node 26
    file_size ← unpack_u32 node 28
    atime ← unpack_u32 node 32
    mtime ← unpack_u32 node 36
    ctime ← unpack_u32 node 40
    file_offset ← unpack_u32 node 44
    compressed_size ← unpack_u32 node 48
    decompressed_size ← unpack_u32 node 52
    compression ← byte_at node 56
    user_compression ← byte_at node 57
    flags ← unpack_u16 node 58
    stored_data_crc ← unpack_u32 node 60
    stored_node_crc ← unpack_u32 node 64
    let payload = slice 68 (68 + compressed_size) node
    node_crc_bytes ← restored_accurate_slice (take 60 node) node_type obsolete
    let found : Inode = record {
      inode = inode_number;
      version = version;
      mode = mode;
      uid = uid;
      gid = gid;
      file_size = file_size;
      atime = atime;
      mtime = mtime;
      ctime = ctime;
      file_offset = file_offset;
      compressed_size = compressed_size;
      decompressed_size = decompressed_size;
      compression = compression;
      user_compression = user_compression;
      flags = flags;
      payload = payload;
    }
    ok (
        if crc node_crc_bytes == stored_node_crc && crc payload == stored_data_crc
        then some (inode found)
        else none)

  -- The rest of a turn, for a node whose header is right.
  unfoldable pub kind_at : Bytes → ℕ → ℕ → Bool → Result (Option Kind)
  kind_at node node_type total_length obsolete =
      let base_type = bit_and node_type 0x0FFF in
      if base_type == jffs2_dirent && leb 40 total_length
      then dirent_at node node_type obsolete
      else if base_type == jffs2_inode && leb 68 total_length
      then inode_at node node_type obsolete
      else if base_type == jffs2_cleanmarker
      then ok (some cleanmarker)
      else ok (some (other base_type))

  abbrev pub made : ℕ → ℕ → ℕ → Bool → Bool → Option Kind → Option Node
  made offset node_type total_length current obsolete none = none
  made offset node_type total_length current obsolete (some kind) = some (record {
    offset = offset;
    node_type = node_type;
    total_length = total_length;
    current = current;
    obsolete = obsolete;
    kind = kind;
  })

  -- The part of a turn behind the test of the length.
  unfoldable pub checked_node_at : Bytes → ℕ → ℕ → ℕ → ℕ → Result (Option Node)
  checked_node_at node offset node_type total_length stored_header_crc =
      let header = take 8 node in
      let current = crc header == stored_header_crc in
      (if not current && bit_and node_type jffs2_node_accurate == 0
        then is_obsolete header node_type stored_header_crc
        else ok false)
      >>= λ obsolete.
          if current || obsolete
          then (kind_at node node_type total_length obsolete >>= λ kind.
              ok (made offset node_type total_length current obsolete kind))
          else ok none

  -- One turn of the loop, where `data[offset + i]` is the byte `i` of `node`.
  unfoldable pub node_at : Bytes → ℕ → Result (Option Node)
  node_at partition offset =
      let node = drop offset partition in
      unpack_u16 node 0 >>= λ magic. unpack_u16 node 2 >>= λ node_type.
      if not (magic == jffs2_magic)
      then ok none
      else (unpack_u32 node 4 >>= λ total_length. unpack_u32 node 8 >>= λ stored_header_crc.
          if ltb total_length 12 || ltb (length partition) (offset + total_length)
          then ok none
          else checked_node_at node offset node_type total_length stored_header_crc)

  abbrev pub prepend : Option Node → List Node → List Node
  prepend none nodes = nodes
  prepend (some node) nodes = node ∷ nodes

  unfoldable pub parse_from : ℕ → ℕ → Bytes → Result (List Node)
  parse_from zero offset partition = ok []
  parse_from (suc turns) offset partition = do
    found ← node_at partition offset
    nodes ← parse_from turns (offset + 4) partition
    ok (prepend found nodes)

  -- `range(0, len(data) - 11, 4)` has this many items.
  unfoldable pub turn_count : ℕ → ℕ
  turn_count size = (size - 11 + 3) / 4

  unfoldable pub parse_jffs2 : Bytes → Result (List Node)
  unfolding turn_count
  parse_jffs2 partition = parse_from (turn_count (length partition)) 0 partition
