-- ===== src/Image/Config/Layout.antt =====
-- The layout of a config partition that holds all live files: where each file stands, and that the
-- scan finds it there.
use cc2_camera_fix.Base.{ℕ, ◌+◌, ◌%◌, ◌≤◌, ◌<◌, ◌≡◌, refl, ap, ◌∙◌, arith, Option, List, [], ◌∷◌}
use cc2_camera_fix.Base.Tests.{leb, le→leb}
use cc2_camera_fix.Base.Lists.{length, slice}
use cc2_camera_fix.Base.Lists.Assign.{length-assign, slice-assign, slice-assign_below}
use cc2_camera_fix.Base.Result.{ok, preserved_too_large}
use cc2_camera_fix.Base.Bytes.{Bytes}
use cc2_camera_fix.Base.Returns.{Returns, returned, Returns->>=, Returns-at, Returns-validate}
use cc2_camera_fix.Image.Numbers.{config_size, align4}
use cc2_camera_fix.Image.Jffs2.{Dirent, Inode}
use cc2_camera_fix.Image.Encode.{dirent_bytes, inode_bytes}
use cc2_camera_fix.Image.Encode.Fields.{IsDirent, IsInode}
use cc2_camera_fix.Image.Encode.RoundTrip.{dirent-written, inode-written}
use cc2_camera_fix.Image.Live.{ConfigFile, Decompressed}
use cc2_camera_fix.Image.Config.{dirent_of, inode_of, place_file, placed}

-- Where the entry and the data of a file end
unfoldable pub dirent_end : ℕ → ConfigFile → ℕ
dirent_end cursor file = cursor + (40 + length file.name)

unfoldable pub file_end : ℕ → ConfigFile → ℕ
unfolding dirent_end
file_end cursor file = align4 (dirent_end cursor file) + (68 + length file.content)

-- Where the last file ends, when the first one starts at `cursor`
unfoldable pub layout_end : ℕ → List ConfigFile → ℕ
unfolding file_end
layout_end cursor [] = cursor
layout_end cursor (file ∷ files) = layout_end (align4 (file_end cursor file)) files

-- The numbers of a file fit the fields of its two nodes.
pub record IsStorable (file : ConfigFile) : Type 0 where
  pub dirent_fits : IsDirent (dirent_of file)
  pub inode_fits : IsInode (inode_of file)

pub align4-le : (n : ℕ) → n ≤ align4 n
unfolding align4
align4-le n = omega arith

pub align4-aligned : (n : ℕ) → align4 n % 4 ≡ 0
unfolding align4
align4-aligned n = omega arith

pub file_end-le : (cursor : ℕ) (file : ConfigFile) → cursor ≤ file_end cursor file
unfolding file_end dirent_end
file_end-le cursor file = omega (arith, align4-le (dirent_end cursor file))

pub layout_end-le : (cursor : ℕ) (files : List ConfigFile) → cursor ≤ layout_end cursor files
unfolding layout_end
layout_end-le cursor [] = omega arith
layout_end-le cursor (file ∷ files) = omega (
  arith,
  layout_end-le (align4 (file_end cursor file)) files,
  align4-le (file_end cursor file),
  file_end-le cursor file,
)

module _ (crc : Bytes → ℕ) (crc_fits : (bytes : Bytes) → crc bytes < 4294967296)
    (decompress : Bytes → ℕ → Option Decompressed) where
  -- The bytes of both nodes of a file, in the places where they were written.
  pub record IsHeld (file : ConfigFile) (end : ℕ) (output : Bytes) : Type 0 where
    pub dirent_offset : ℕ
    pub inode_offset : ℕ
    pub dirent_node : Bytes
    pub inode_node : Bytes
    pub dirent_made : dirent_bytes crc (dirent_of file) ≡ ok dirent_node
    pub inode_made : inode_bytes crc (inode_of file) ≡ ok inode_node
    pub dirent_size : length dirent_node ≡ 40 + length file.name
    pub inode_size : length inode_node ≡ 68 + length file.content
    pub dirent_there : slice dirent_offset (dirent_offset + length dirent_node) output ≡ dirent_node
    pub inode_there : slice inode_offset (inode_offset + length inode_node) output ≡ inode_node
    pub dirent_aligned : dirent_offset % 4 ≡ 0
    pub inode_aligned : inode_offset % 4 ≡ 0
    pub in_order : dirent_offset + length dirent_node ≤ inode_offset
    pub before_end : inode_offset + length inode_node ≤ end

  Returns-dirent_bytes :
      (item : Dirent)
      → IsDirent item
      → Returns
          (λ node. (dirent_bytes crc item ≡ ok node) × (length node ≡ 40 + length item.name))
          (dirent_bytes crc item)
  Returns-dirent_bytes item i =
      Returns-at (dirent-written crc crc_fits item i)
        (dirent-written crc crc_fits item i, omega arith)

  Returns-inode_bytes :
      (item : Inode)
      → IsInode item
      → Returns
          (λ node. (inode_bytes crc item ≡ ok node) × (length node ≡ 68 + length item.payload))
          (inode_bytes crc item)
  Returns-inode_bytes item i =
      Returns-at (inode-written crc crc_fits item i)
        (inode-written crc crc_fits item i, omega arith)

  pub record IsPlaced (file : ConfigFile) (output : Bytes) (cursor : ℕ) (result : Bytes × ℕ)
      : Type 0 where
    pub same_length : length result.0 ≡ config_size
    pub kept : (x y : ℕ) → x ≤ y → y ≤ cursor → slice x y result.0 ≡ slice x y output
    pub held : IsHeld file result.1 result.0
    pub next : result.1 ≡ align4 (file_end cursor file)

  -- Both assignments, for nodes of the right lengths
  both_placed :
      (file : ConfigFile) (output : Bytes) (cursor after : ℕ) (d i : Bytes)
      → length output ≡ config_size
      → cursor % 4 ≡ 0
      → after ≡ align4 (cursor + length d)
      → align4 (after + length i) ≡ align4 (file_end cursor file)
      → after + length i ≤ 0x4000
      → dirent_bytes crc (dirent_of file) ≡ ok d
      → inode_bytes crc (inode_of file) ≡ ok i
      → length d ≡ 40 + length file.name
      → length i ≡ 68 + length file.content
      → IsPlaced file output cursor
          (placed after i (placed cursor d output), align4 (after + length i))
  both_placed file output cursor after d i size aligned ea en fits hd hi nd ni = record {
    same_length =
        length-assign after (after + length i) i middle (omega arith) (omega (arith, middle_size))
          (omega arith)
        ∙ middle_size;
    kept = λ x y hx hy.
        slice-assign_below after (after + length i) i middle (omega arith)
          (omega (arith, middle_size)) (omega arith) x y hx (omega (arith, ordered))
        ∙ slice-assign_below cursor (cursor + length d) d output (omega arith)
            (omega (arith, ordered)) (omega arith) x y hx hy;
    held = record {
      dirent_offset = cursor;
      inode_offset = after;
      dirent_node = d;
      inode_node = i;
      dirent_made = hd;
      inode_made = hi;
      dirent_size = nd;
      inode_size = ni;
      dirent_there =
          slice-assign_below after (after + length i) i middle (omega arith)
            (omega (arith, middle_size)) (omega arith) cursor (cursor + length d) (omega arith)
            ordered
          ∙ slice-assign cursor (cursor + length d) d output (omega arith) (omega (arith, ordered))
              (omega arith);
      inode_there =
          slice-assign after (after + length i) i middle (omega arith) (omega (arith, middle_size))
            (omega arith);
      dirent_aligned = aligned;
      inode_aligned = ap (λ n. n % 4) ea ∙ align4-aligned (cursor + length d);
      in_order = ordered;
      before_end = align4-le (after + length i);
    };
    next = en;
  }
    where
      ordered : cursor + length d ≤ after
      ordered = omega (arith, align4-le (cursor + length d), ea)

      middle : Bytes
      middle = placed cursor d output

      middle_size : length (placed cursor d output) ≡ config_size
      middle_size =
          length-assign cursor (cursor + length d) d output (omega arith) (omega (arith, ordered))
            (omega arith)
          ∙ size

  pub place_file-IsPlaced :
      (file : ConfigFile) (output : Bytes) (cursor : ℕ)
      → IsStorable file
      → length output ≡ config_size
      → cursor % 4 ≡ 0
      → file_end cursor file ≤ 0x4000
      → Returns (IsPlaced file output cursor) (place_file crc decompress file output cursor)
  unfolding place_file file_end dirent_end dirent_of inode_of
  place_file-IsPlaced file output cursor storable size aligned fits =
      Returns->>= _ _ (Returns-dirent_bytes (dirent_of file) storable.dirent_fits) (λ d (hd, nd).
        Returns-validate (leb (cursor + length d) 0x4000) preserved_too_large _
          (le→leb _ _ (omega (arith, align4-le (dirent_end cursor file))))
          (Returns->>= _ _ (Returns-inode_bytes (inode_of file) storable.inode_fits) (λ i (hi, ni).
            let ed : align4 (cursor + length d) ≡ align4 (dirent_end cursor file) =
              ap (λ n. align4 (cursor + n)) nd in
            Returns-validate (leb (align4 (cursor + length d) + length i) 0x4000)
              preserved_too_large _ (le→leb _ _ (omega (arith, ed)))
              (returned (
                both_placed file output cursor (align4 (cursor + length d)) d i size aligned refl
                  (ap align4 (omega (arith, ed))) (omega (arith, ed)) hd hi nd ni)))))
