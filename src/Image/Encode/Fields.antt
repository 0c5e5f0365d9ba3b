-- ===== src/Image/Encode/Fields.antt =====
-- The fields of a node that was written are read back.
use cc2_camera_fix.Base.{ℕ, ◌+◌, ◌-◌, ◌≤◌, ◌<◌, ◌≡◌, refl, arith, true, false, some, [], ◌∷◌, ◌++◌}
use cc2_camera_fix.Base.Tests.{==_iff, le→ltb}
use cc2_camera_fix.Base.Lists.{length, length-append, take-append, drop-append}
use cc2_camera_fix.Base.Result.{ok}
use cc2_camera_fix.Base.Bytes.{Bytes, le16, le32, le16-value, le32-value}
use cc2_camera_fix.Image.Jffs2.{
  Dirent, Inode, Kind, dirent, inode, Node, dirent_at, inode_at, kind_at, checked_node_at, node_at,
  restored_accurate_slice,
}

-- The numbers of a directory entry fit their fields.
pub record IsDirent (item : Dirent) : Type 0 where
  pub parent_fits : item.parent_inode < 4294967296
  pub version_fits : item.version < 4294967296
  pub inode_fits : item.inode < 4294967296
  pub mctime_fits : item.mctime < 4294967296
  pub dtype_fits : item.dtype < 256
  pub name_fits : length item.name < 256

-- The bytes of a header with the checksum `c`, and of the fields behind it.
abbrev pub head : ℕ → ℕ → ℕ → Bytes
head node_type total_length c = le16 0x1985 ++ (le16 node_type ++ (le32 total_length ++ le32 c))

abbrev pub dirent_fields : Dirent → Bytes
dirent_fields item =
    le32 item.parent_inode
    ++ (le32 item.version
        ++ (le32 item.inode ++ (le32 item.mctime ++ (length item.name ∷ item.dtype ∷ 0 ∷ 0 ∷ []))))

-- Reading back fields whose checksums are `p` and `n`.
pub dirent_read :
    (crc : Bytes → ℕ) (item : Dirent) (tail : Bytes) (c p n : ℕ)
    → IsDirent item
    → p < 4294967296
    → n < 4294967296
    → crc (head 0xE001 (40 + length item.name) c ++ dirent_fields item) ≡ p
    → crc item.name ≡ n
    → dirent_at crc
        ((head 0xE001 (40 + length item.name) c
            ++ (dirent_fields item ++ (le32 p ++ (le32 n ++ item.name))))
          ++ tail)
        0xE001
        false
      ≡ ok (some (dirent item))
unfolding dirent_at restored_accurate_slice
dirent_read crc item tail c p n i hp hn ep en =
    let size : 40 + length item.name - 40 ≡ length item.name = omega arith in
    rw (
      size,
      le32-value item.parent_inode i.parent_fits,
      le32-value item.version i.version_fits,
      le32-value item.inode i.inode_fits,
      le32-value item.mctime i.mctime_fits,
      le32-value p hp,
      le32-value n hn,
      take-append (length item.name) item.name tail refl,
      ep,
      en,
      (==_iff p p).1 refl,
      (==_iff n n).1 refl,
    )

-- The numbers of an inode node fit their fields.
pub record IsInode (item : Inode) : Type 0 where
  pub inode_fits : item.inode < 4294967296
  pub version_fits : item.version < 4294967296
  pub mode_fits : item.mode < 4294967296
  pub uid_fits : item.uid < 65536
  pub gid_fits : item.gid < 65536
  pub atime_fits : item.atime < 4294967296
  pub mtime_fits : item.mtime < 4294967296
  pub ctime_fits : item.ctime < 4294967296
  pub flags_fit : item.flags < 65536
  pub payload_fits : length item.payload + 68 < 4294967296

-- The node of a payload that is stored as it is.
abbrev pub stored : Inode → Inode
stored item = record item {
  file_size = length item.payload;
  file_offset = 0;
  compressed_size = length item.payload;
  decompressed_size = length item.payload;
  compression = 0;
  user_compression = 0;
}

abbrev pub inode_fields : Inode → Bytes
inode_fields item =
    let size = le32 (length item.payload) in
    le32 item.inode
    ++ (le32 item.version
        ++ (le32 item.mode
            ++ (le16 item.uid
                ++ (le16 item.gid
                    ++ (size
                        ++ (le32 item.atime
                            ++ (le32 item.mtime
                                ++ (le32 item.ctime
                                    ++ (le32 0
                                        ++ (size ++ (size ++ (0 ∷ 0 ∷ le16 item.flags))))))))))))

pub inode_read :
    (crc : Bytes → ℕ) (item : Inode) (tail : Bytes) (c p n : ℕ)
    → IsInode item
    → p < 4294967296
    → n < 4294967296
    → crc (head 0xE002 (68 + length item.payload) c ++ inode_fields item) ≡ p
    → crc item.payload ≡ n
    → inode_at crc
        ((head 0xE002 (68 + length item.payload) c
            ++ (inode_fields item ++ (le32 n ++ (le32 p ++ item.payload))))
          ++ tail)
        0xE002
        false
      ≡ ok (some (inode (stored item)))
unfolding inode_at restored_accurate_slice
inode_read crc item tail c p n i hp hn ep en =
    let size : 68 + length item.payload - 68 ≡ length item.payload = omega arith in
    rw (
      le32-value (length item.payload) (omega (arith, i.payload_fits)),
      size,
      le32-value item.inode i.inode_fits,
      le32-value item.version i.version_fits,
      le32-value item.mode i.mode_fits,
      le16-value item.uid i.uid_fits,
      le16-value item.gid i.gid_fits,
      le32-value item.atime i.atime_fits,
      le32-value item.mtime i.mtime_fits,
      le32-value item.ctime i.ctime_fits,
      le16-value item.flags i.flags_fit,
      le32-value p hp,
      le32-value n hn,
      take-append (length item.payload) item.payload tail refl,
      ep,
      en,
      (==_iff p p).1 refl,
      (==_iff n n).1 refl,
    )

-- The node of a kind at an offset, as the scan reports what the builder wrote.
abbrev pub found_node : ℕ → ℕ → ℕ → Kind → Node
found_node offset node_type total_length kind = record {
  offset = offset;
  node_type = node_type;
  total_length = total_length;
  current = true;
  obsolete = false;
  kind = kind;
}

-- A turn of the scan at a header that was written, for either kind of node.
pub node_at-head :
    (crc : Bytes → ℕ) (front rest : Bytes) (node_type total_length : ℕ) (kind : Kind)
    → (crc_fits : (bytes : Bytes) → crc bytes < 4294967296) → node_type < 65536
    → 12 ≤ total_length
    → total_length < 4294967296
    → total_length ≤ 12 + length rest
    → kind_at crc
        (head node_type total_length (crc (le16 0x1985 ++ (le16 node_type ++ le32 total_length)))
          ++ rest)
        node_type
        total_length
        false
      ≡ ok (some kind)
    → node_at crc
        (front
          ++ (head node_type total_length
                (crc (le16 0x1985 ++ (le16 node_type ++ le32 total_length)))
              ++ rest))
        (length front)
      ≡ ok (some (found_node (length front) node_type total_length kind))
unfolding node_at checked_node_at
node_at-head crc front rest node_type total_length kind crc_fits ht lo hl inside k =
    let c = crc (le16 0x1985 ++ (le16 node_type ++ le32 total_length)) in
    let node = head node_type total_length c ++ rest in
    rw (
      drop-append (length front) front node refl,
      le16-value node_type ht,
      le32-value total_length hl,
      le32-value c (crc_fits _),
      le→ltb total_length 12 lo,
      le→ltb (length (front ++ node)) (length front + total_length)
          (omega (arith, length-append front node)),
      (==_iff c c).1 refl,
      k,
    )
