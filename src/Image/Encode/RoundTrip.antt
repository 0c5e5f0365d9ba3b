-- ===== src/Image/Encode/RoundTrip.antt =====
-- A node that was written is found again, wherever it stands.
use cc2_camera_fix.Base.{ℕ, ◌+◌, ◌<◌, ◌≡◌, refl, sym, ◌∙◌, arith, some, ◌++◌}
use cc2_camera_fix.Base.Tests.{lt→ltb, le→leb}
use cc2_camera_fix.Base.Lists.{length, length-append}
use cc2_camera_fix.Base.Result.{ok, ok_injective}
use cc2_camera_fix.Base.Bytes.{Bytes, le16, le32}
use cc2_camera_fix.Image.Jffs2.{Dirent, Inode, dirent, inode, kind_at, node_at}
use cc2_camera_fix.Image.Encode.{header_bytes, dirent_bytes, inode_bytes}
use cc2_camera_fix.Image.Encode.Fields.{
  IsDirent, IsInode, head, dirent_fields, inode_fields, dirent_read, inode_read, node_at-head,
  stored, found_node,
}

module _ (crc : Bytes → ℕ) (crc_fits : (bytes : Bytes) → crc bytes < 4294967296) where
  abbrev header_crc : ℕ → ℕ → ℕ
  header_crc node_type total_length = crc (le16 0x1985 ++ (le16 node_type ++ le32 total_length))

  pub header-written :
      (node_type total_length : ℕ)
      → node_type < 65536
      → total_length < 4294967296
      → header_bytes crc node_type total_length
        ≡ ok (head node_type total_length (header_crc node_type total_length))
  unfolding header_bytes
  header-written node_type total_length ht hl = rw (
    lt→ltb node_type 65536 ht,
    lt→ltb total_length 4294967296 hl,
    lt→ltb (header_crc node_type total_length) 4294967296 (crc_fits _),
  )

  module _ (item : Dirent) (i : IsDirent item) where
    abbrev dirent_length : ℕ
    dirent_length = 40 + length item.name

    abbrev dirent_prefix : Bytes
    dirent_prefix =
        head 0xE001 dirent_length (header_crc 0xE001 dirent_length) ++ dirent_fields item

    abbrev dirent_rest : Bytes
    dirent_rest =
        dirent_fields item ++ (le32 (crc dirent_prefix) ++ (le32 (crc item.name) ++ item.name))

    pub dirent-written :
        dirent_bytes crc item
        ≡ ok (head 0xE001 dirent_length (header_crc 0xE001 dirent_length) ++ dirent_rest)
    unfolding dirent_bytes
    dirent-written = rw (
      header-written 0xE001 dirent_length (omega arith) (omega (arith, i.name_fits)),
      lt→ltb item.parent_inode 4294967296 i.parent_fits,
      lt→ltb item.version 4294967296 i.version_fits,
      lt→ltb item.inode 4294967296 i.inode_fits,
      lt→ltb item.mctime 4294967296 i.mctime_fits,
      lt→ltb (length item.name) 256 i.name_fits,
      lt→ltb item.dtype 256 i.dtype_fits,
      lt→ltb (crc dirent_prefix) 4294967296 (crc_fits _),
      lt→ltb (crc item.name) 4294967296 (crc_fits _),
    )

    -- A directory entry that is written anywhere in a partition is found there by the scan, as a
    -- current node with the very fields it was built from.
    pub node_at-dirent_bytes :
        (front node tail : Bytes)
        → dirent_bytes crc item ≡ ok node
        → node_at crc (front ++ (node ++ tail)) (length front)
          ≡ ok (some (found_node (length front) 0xE001 (40 + length item.name) (dirent item)))
    unfolding kind_at
    node_at-dirent_bytes front node tail h =
        let e : node ≡ head 0xE001 dirent_length (header_crc 0xE001 dirent_length) ++ dirent_rest =
          ok_injective (sym h ∙ dirent-written) in
        rw e (
          node_at-head crc front (dirent_rest ++ tail) 0xE001 dirent_length (dirent item) crc_fits
            (omega arith) (omega arith) (omega (arith, i.name_fits))
            (omega (arith, length-append item.name tail))
            (rw (le→leb 40 dirent_length (omega arith)) (
              dirent_read crc item tail (header_crc 0xE001 dirent_length) (crc dirent_prefix)
                (crc item.name) i (crc_fits dirent_prefix) (crc_fits item.name) refl refl)))

  module _ (item : Inode) (i : IsInode item) where
    abbrev inode_length : ℕ
    inode_length = 68 + length item.payload

    abbrev inode_prefix : Bytes
    inode_prefix = head 0xE002 inode_length (header_crc 0xE002 inode_length) ++ inode_fields item

    abbrev inode_rest : Bytes
    inode_rest =
        inode_fields item ++ (le32 (crc item.payload) ++ (le32 (crc inode_prefix) ++ item.payload))

    pub inode-written :
        inode_bytes crc item
        ≡ ok (head 0xE002 inode_length (header_crc 0xE002 inode_length) ++ inode_rest)
    unfolding inode_bytes
    inode-written = rw (
      header-written 0xE002 inode_length (omega arith) (omega (arith, i.payload_fits)),
      lt→ltb item.inode 4294967296 i.inode_fits,
      lt→ltb item.version 4294967296 i.version_fits,
      lt→ltb item.mode 4294967296 i.mode_fits,
      lt→ltb item.uid 65536 i.uid_fits,
      lt→ltb item.gid 65536 i.gid_fits,
      lt→ltb (length item.payload) 4294967296 (omega (arith, i.payload_fits)),
      lt→ltb item.atime 4294967296 i.atime_fits,
      lt→ltb item.mtime 4294967296 i.mtime_fits,
      lt→ltb item.ctime 4294967296 i.ctime_fits,
      lt→ltb item.flags 65536 i.flags_fit,
      lt→ltb (crc item.payload) 4294967296 (crc_fits _),
      lt→ltb (crc inode_prefix) 4294967296 (crc_fits _),
    )

    -- A file node that is written anywhere in a partition is found there by the scan, as a current
    -- node with the fields it was built from, its payload as a whole file without compression.
    pub node_at-inode_bytes :
        (front node tail : Bytes)
        → inode_bytes crc item ≡ ok node
        → node_at crc (front ++ (node ++ tail)) (length front)
          ≡ ok (
              some
                (found_node (length front) 0xE002 (68 + length item.payload) (inode (stored item))))
    unfolding kind_at
    node_at-inode_bytes front node tail h =
        let e : node ≡ head 0xE002 inode_length (header_crc 0xE002 inode_length) ++ inode_rest =
          ok_injective (sym h ∙ inode-written) in
        rw e (
          node_at-head crc front (inode_rest ++ tail) 0xE002 inode_length (inode (stored item))
            crc_fits (omega arith) (omega arith) (omega (arith, i.payload_fits))
            (omega (arith, length-append item.payload tail))
            (rw (le→leb 68 inode_length (omega arith)) (
              inode_read crc item tail (header_crc 0xE002 inode_length) (crc inode_prefix)
                (crc item.payload) i (crc_fits inode_prefix) (crc_fits item.payload) refl refl)))
