-- ===== src/Image/Config/Found.antt =====
-- The scan finds every file of a config partition that was built with all live files.
use cc2_camera_fix.Base.{
  ℕ, ◌+◌, ◌%◌, ◌≤◌, ◌<◌, ◌≡◌, refl, sym, ap, ◌∙◌, arith, Option, some, List, [], ◌∷◌, ◌++◌,
}
use cc2_camera_fix.Base.Lists.{
  All, length, take, drop, slice, replicate, length-take, length-replicate,
}
use cc2_camera_fix.Base.Lists.Assign.{length-assign, slice-split}
use cc2_camera_fix.Base.Result.{ok}
use cc2_camera_fix.Base.Bytes.{Bytes}
use cc2_camera_fix.Base.Returns.{
  Returns, returned, Returns->>=, Returns-at, Returns-map, Returns-ok,
}
use mathlib.Core.Path.{subst}
use cc2_camera_fix.Image.Numbers.{config_size, align4}
use cc2_camera_fix.Image.Jffs2.{Kind, dirent, inode, node_at}
use cc2_camera_fix.Image.Encode.{cleanmarker_bytes}
use cc2_camera_fix.Image.Encode.Fields.{found_node}
use cc2_camera_fix.Image.Encode.RoundTrip.{
  header-written, node_at-dirent_bytes, node_at-inode_bytes,
}
use cc2_camera_fix.Image.Live.{ConfigFile, Decompressed}
use cc2_camera_fix.Image.Config.{dirent_of, inode_of, place_files, placed, preserved_layout}
use cc2_camera_fix.Image.Config.Layout.{
  IsStorable, IsHeld, file_end, layout_end, align4-le, align4-aligned, layout_end-le, file_end-le,
  place_file-IsPlaced,
}

module _ (crc : Bytes → ℕ) (crc_fits : (bytes : Bytes) → crc bytes < 4294967296)
    (decompress : Bytes → ℕ → Option Decompressed) where
  -- A node that stands in a partition is found there, if it is found wherever it stands.
  found_there :
      (partition node : Bytes) (offset node_type total_length : ℕ) (kind : Kind)
      → offset + length node ≤ length partition
      → slice offset (offset + length node) partition ≡ node
      → ((front tail : Bytes)
          → node_at crc (front ++ (node ++ tail)) (length front)
            ≡ ok (some (found_node (length front) node_type total_length kind)))
      → node_at crc partition offset ≡ ok (some (found_node offset node_type total_length kind))
  found_there partition node offset node_type total_length kind inside there found =
      let front = take offset partition in
      let tail = drop (offset + length node) partition in
      let e : length (take offset partition) ≡ offset =
        omega (arith, length-take offset partition) in
      subst
        (λ whole.
          node_at crc whole offset ≡ ok (some (found_node offset node_type total_length kind)))
        (sym (slice-split offset (offset + length node) partition node (omega arith) there))
        (subst
          (λ n.
            node_at crc (front ++ (node ++ tail)) n
            ≡ ok (some (found_node n node_type total_length kind)))
          e (found front tail))

  -- Both nodes of a file are found by the scan, its entry before its data.
  pub record IsFoundIn (partition : Bytes) (file : ConfigFile) : Type 0 where
    pub dirent_offset : ℕ
    pub inode_offset : ℕ
    pub dirent_found :
        node_at crc partition dirent_offset
        ≡ ok (
            some
              (found_node dirent_offset 0xE001 (40 + length file.name) (dirent (dirent_of file))))
    pub inode_found :
        node_at crc partition inode_offset
        ≡ ok (
            some
              (found_node inode_offset 0xE002 (68 + length file.content) (inode (inode_of file))))
    pub dirent_aligned : dirent_offset % 4 ≡ 0
    pub inode_aligned : inode_offset % 4 ≡ 0
    pub in_order : dirent_offset + (40 + length file.name) ≤ inode_offset
    pub in_first_eraseblock : inode_offset + (68 + length file.content) ≤ 0x4000

  held-IsFoundIn :
      (file : ConfigFile) (partition : Bytes)
      → IsStorable file
      → length partition ≡ config_size
      → IsHeld crc crc_fits decompress file 0x4000 partition
      → IsFoundIn partition file
  unfolding dirent_of inode_of
  held-IsFoundIn file partition storable size h = record {
    dirent_offset = h.dirent_offset;
    inode_offset = h.inode_offset;
    dirent_found =
        found_there partition h.dirent_node h.dirent_offset 0xE001 (40 + length file.name)
          (dirent (dirent_of file)) (omega (arith, h.in_order, h.before_end)) h.dirent_there
          (λ front tail.
            node_at-dirent_bytes crc crc_fits (dirent_of file) storable.dirent_fits front
              h.dirent_node tail h.dirent_made);
    inode_found =
        found_there partition h.inode_node h.inode_offset 0xE002 (68 + length file.content)
          (inode (inode_of file)) (omega (arith, h.before_end)) h.inode_there
          (λ front tail.
            node_at-inode_bytes crc crc_fits (inode_of file) storable.inode_fits front h.inode_node
              tail h.inode_made);
    dirent_aligned = h.dirent_aligned;
    inode_aligned = h.inode_aligned;
    in_order = omega (arith, h.in_order, h.dirent_size);
    in_first_eraseblock = omega (arith, h.before_end, h.inode_size);
  }

  record IsLaidOut (files : List ConfigFile) (output : Bytes) (cursor : ℕ) (result : Bytes)
      : Type 0 where
    same_length : length result ≡ config_size
    kept : (x y : ℕ) → x ≤ y → y ≤ cursor → slice x y result ≡ slice x y output
    held : All (λ file. IsHeld crc crc_fits decompress file 0x4000 result) files

  kept-IsHeld :
      (file : ConfigFile) (before after : Bytes) (cursor : ℕ)
      → cursor ≤ 0x4000
      → IsHeld crc crc_fits decompress file cursor before
      → ((x y : ℕ) → x ≤ y → y ≤ cursor → slice x y after ≡ slice x y before)
      → IsHeld crc crc_fits decompress file 0x4000 after
  kept-IsHeld file before after cursor low h kept = record {
    dirent_offset = h.dirent_offset;
    inode_offset = h.inode_offset;
    dirent_node = h.dirent_node;
    inode_node = h.inode_node;
    dirent_made = h.dirent_made;
    inode_made = h.inode_made;
    dirent_size = h.dirent_size;
    inode_size = h.inode_size;
    dirent_aligned = h.dirent_aligned;
    inode_aligned = h.inode_aligned;
    in_order = h.in_order;
    dirent_there =
        kept h.dirent_offset (h.dirent_offset + length h.dirent_node) (omega arith)
          (omega (arith, h.in_order, h.before_end))
        ∙ h.dirent_there;
    inode_there =
        kept h.inode_offset (h.inode_offset + length h.inode_node) (omega arith) h.before_end
        ∙ h.inode_there;
    before_end = omega (arith, h.before_end);
  }

  place_files-IsLaidOut :
      (files : List ConfigFile) (output : Bytes) (cursor : ℕ)
      → All IsStorable files
      → length output ≡ config_size
      → cursor % 4 ≡ 0
      → layout_end cursor files ≤ 0x4000
      → Returns (IsLaidOut files output cursor) (place_files crc decompress files output cursor)
  unfolding place_files layout_end
  place_files-IsLaidOut [] output cursor storable size aligned fits =
      returned (record { same_length = size; kept = λ x y hx hy. refl; held = tt })
  place_files-IsLaidOut (file ∷ files) output cursor (first, others) size aligned fits =
      let rest_fits = layout_end-le (align4 (file_end cursor file)) files in
      Returns->>= _ _
        (place_file-IsPlaced crc crc_fits decompress file output cursor first size aligned
          (omega (arith, align4-le (file_end cursor file))))
        (λ result p.
          let forward = file_end-le cursor file in
          let e : cursor ≤ result.1 = omega (arith, p.next, align4-le (file_end cursor file)) in
          let low : result.1 ≤ 0x4000 = omega (arith, p.next) in
          Returns-map
            (λ out (q : IsLaidOut files result.0 result.1 out). record {
              same_length = q.same_length;
              kept = λ x y hx hy. q.kept x y hx (omega arith) ∙ p.kept x y hx hy;
              held = (kept-IsHeld file result.0 out result.1 low p.held q.kept, q.held);
            })
            (place_files-IsLaidOut files result.0 result.1 others p.same_length
              (ap (λ n. n % 4) p.next ∙ align4-aligned (file_end cursor file))
              (subst (λ n. layout_end n files ≤ 0x4000) (sym p.next) fits)))

  held_files-IsFoundIn :
      (files : List ConfigFile) (partition : Bytes)
      → All IsStorable files
      → length partition ≡ config_size
      → All (λ file. IsHeld crc crc_fits decompress file 0x4000 partition) files
      → All (IsFoundIn partition) files
  held_files-IsFoundIn [] partition storable size held = tt
  held_files-IsFoundIn (file ∷ files) partition (first, others) size (h, held) = (
    held-IsFoundIn file partition first size h,
    held_files-IsFoundIn files partition others size held,
  )

  laid_out :
      (files : List ConfigFile)
      → All IsStorable files
      → layout_end 12 files ≤ 0x4000
      → Returns
          (λ built. (length built ≡ config_size) × All (IsFoundIn built) files)
          (preserved_layout crc decompress files)
  unfolding preserved_layout cleanmarker_bytes
  laid_out files storable fits =
      Returns->>= _ _
        (Returns-at {P = λ cleanmarker. length cleanmarker ≡ 12}
          (header-written crc crc_fits 0x2003 12 (omega arith) (omega arith)) refl)
        (λ cleanmarker size.
          Returns-map
            (λ built q.
              (q.same_length, held_files-IsFoundIn files built storable q.same_length q.held))
            (place_files-IsLaidOut files (placed 0 cleanmarker (replicate config_size 0xFF)) 12
              storable
              (length-assign 0 (0 + length cleanmarker) cleanmarker (replicate config_size 0xFF)
                  (omega arith) (omega (arith, length-replicate {A = ℕ} config_size 0xFF))
                  (omega arith)
                ∙ length-replicate {A = ℕ} config_size 0xFF)
              refl fits))

  -- If the numbers of all files fit their fields and the nodes end within the first 16 KiB, the
  -- partition is laid out without an exception. It has 128 KiB, and at multiples of four in its first
  -- eraseblock the scan finds the entry and the data of each file as current nodes, with the very
  -- contents and attributes the file has.
  pub preserved_layout-node_at :
      (files : List ConfigFile)
      → All IsStorable files
      → layout_end 12 files ≤ 0x4000
      → (built : Bytes) × (preserved_layout crc decompress files ≡ ok built)
        × ((length built ≡ config_size) × All (IsFoundIn built) files)
  preserved_layout-node_at files storable fits =
      Returns-ok {P = λ built. (length built ≡ config_size) × All (IsFoundIn built) files}
        (laid_out files storable fits)
