-- ===== src/Image/Config.antt =====
-- The two ways in which cc2camera/image.py builds a config partition: with the serial number alone,
-- and with all live files.
pub mod Layout
pub mod Found
use cc2_camera_fix.Base.{
  ℕ, zero, suc, ◌+◌, ◌-◌, Bool, true, false, not, ◌&&◌, ◌||◌, Option, none, some, List, [], ◌∷◌,
  ◌++◌, map,
}
use cc2_camera_fix.Base.Tests.{leb, ltb, ◌==◌, if◌then◌else◌}
use cc2_camera_fix.Base.Lists.{length, replicate, assign}
use cc2_camera_fix.Base.Result.{
  Result, ok, err, ◌>>=◌, ◌>>◌, validate, validation_error, assertion_error, invalid_serial_payload,
  serial_too_large, round_trip_failed, unexpected_node_count, unexpected_obsolete_nodes,
  no_live_files, duplicate_names, no_single_serial, preserved_too_large,
}
use cc2_camera_fix.Base.Bytes.{Bytes, equal}
use cc2_camera_fix.Base.Text.{codes}
use cc2_camera_fix.Image.Order.{filter, any, sort_by}
use cc2_camera_fix.Image.Numbers.{config_size, align4}
use cc2_camera_fix.Image.Jffs2.{Dirent, Inode}
use cc2_camera_fix.Image.Encode.{cleanmarker_bytes, dirent_bytes, inode_bytes}
use cc2_camera_fix.Image.Serial.{serial_payload_is_valid}
use cc2_camera_fix.Image.Live.{ConfigFile, Decompressed}
use cc2_camera_fix.Image.Info.{
  ConfigInfo, by_name, get_file, distinct, extract_serial_and_config_info,
}

-- `output[offset : offset + len(node)] = node`
abbrev pub placed : ℕ → Bytes → Bytes → Bytes
placed offset node output = assign offset (offset + length node) node output

unfoldable pub dirent_of : ConfigFile → Dirent
dirent_of file = record {
  parent_inode = 1;
  version = 1;
  inode = file.inode;
  mctime = file.dirent_mctime;
  dtype = file.dtype;
  name = file.name;
}

unfoldable pub inode_of : ConfigFile → Inode
inode_of file = record {
  inode = file.inode;
  version = 1;
  mode = file.mode;
  uid = file.uid;
  gid = file.gid;
  file_size = length file.content;
  atime = file.atime;
  mtime = file.mtime;
  ctime = file.ctime;
  file_offset = 0;
  compressed_size = length file.content;
  decompressed_size = length file.content;
  compression = 0;
  user_compression = 0;
  flags = file.flags;
  payload = file.content;
}

unfoldable pub minimal_dirent : Dirent
minimal_dirent = record {
  parent_inode = 1;
  version = 123;
  inode = 7;
  mctime = 1;
  dtype = 8;
  name = codes "serial.cfg";
}

unfoldable pub minimal_inode : Bytes → Inode
minimal_inode serial_payload = record {
  inode = 7;
  version = 2;
  mode = 0x81A4;
  uid = 0;
  gid = 0;
  file_size = length serial_payload;
  atime = 18;
  mtime = 18;
  ctime = 18;
  file_offset = 0;
  compressed_size = length serial_payload;
  decompressed_size = length serial_payload;
  compression = 0;
  user_compression = 0;
  flags = 0;
  payload = serial_payload;
}

unfoldable pub same_file : ConfigFile → ConfigFile → Bool
same_file a b =
    equal a.content b.content
    && (a.inode == b.inode)
    && (a.mode == b.mode)
    && (a.uid == b.uid)
    && (a.gid == b.gid)
    && (a.atime == b.atime)
    && (a.mtime == b.mtime)
    && (a.ctime == b.ctime)
    && (a.flags == b.flags)
    && (a.dirent_mctime == b.dirent_mctime)
    && (a.dtype == b.dtype)

abbrev pub is_same : ConfigFile → Option ConfigFile → Bool
is_same file none = false
is_same file (some other) = same_file file other

unfoldable pub names : List ConfigFile → List Bytes
names files = distinct (map (λ file. file.name) files)

-- `actual != expected` on the dicts by name, negated: as many keys, and under each the same file
unfoldable pub same_files : List ConfigFile → List ConfigFile → Bool
same_files expected actual =
    length (names expected) == length (names actual)
    && not (any (λ name. not (same_under name)) (names expected))
  where
    same_under : Bytes → Bool
    same_under name = elim (get_file name expected) [
      | none ↦ false
      | some file ↦ is_same file (get_file name actual)
    ]

module _ (crc : Bytes → ℕ) (decompress : Bytes → ℕ → Option Decompressed) where
  -- The partition before it is parsed again
  unfoldable pub minimal_layout : Bytes → Result Bytes
  unfolding minimal_dirent minimal_inode
  minimal_layout serial_payload = do
    cleanmarker ← cleanmarker_bytes crc
    dirent ← dirent_bytes crc minimal_dirent
    let dirent_offset : ℕ = 12
    let inode_offset : ℕ = align4 (dirent_offset + (40 + 10))
    inode ← inode_bytes crc (minimal_inode serial_payload)
    validate (leb (inode_offset + length inode) 0x4000) serial_too_large
    ok (
        placed inode_offset inode
          (placed dirent_offset dirent (placed 0 cleanmarker (replicate config_size 0xFF))))

  unfoldable pub build_minimal_config : Bytes → Result Bytes
  unfolding minimal_layout
  build_minimal_config serial_payload = do
    validate (serial_payload_is_valid serial_payload) invalid_serial_payload
    built ← minimal_layout serial_payload
    parsed ← extract_serial_and_config_info crc decompress built false false
    validate (equal parsed.serial_payload serial_payload) round_trip_failed
    validate (parsed.current_node_count == 3) unexpected_node_count
    ok built

  -- One turn of the loop over the files: the output and the cursor behind the file
  unfoldable pub place_file : ConfigFile → Bytes → ℕ → Result (Bytes × ℕ)
  place_file file output cursor = do
    dirent ← dirent_bytes crc (dirent_of file)
    validate (leb (cursor + length dirent) 0x4000) preserved_too_large
    let after = align4 (cursor + length dirent)
    inode ← inode_bytes crc (inode_of file)
    validate (leb (after + length inode) 0x4000) preserved_too_large
    ok (placed after inode (placed cursor dirent output), align4 (after + length inode))

  unfoldable pub place_files : List ConfigFile → Bytes → ℕ → Result Bytes
  unfolding place_file
  place_files [] output cursor = ok output
  place_files (file ∷ files) output cursor = do
    placed_file ← place_file file output cursor
    place_files files placed_file.0 placed_file.1

  unfoldable pub preserved_layout : List ConfigFile → Result Bytes
  preserved_layout files = do
    cleanmarker ← cleanmarker_bytes crc
    place_files files (placed 0 cleanmarker (replicate config_size 0xFF)) 12

  abbrev pub has_one_serial : List ConfigFile → Bool
  has_one_serial (serial ∷ []) = serial_payload_is_valid serial.content
  has_one_serial _ = false

  -- `assert rebuilt_files is not None`
  abbrev pub rebuilt : Option (List ConfigFile) → Result (List ConfigFile)
  rebuilt none = err assertion_error
  rebuilt (some files) = ok files

  unfoldable pub build_preserved_config : List ConfigFile → Result Bytes
  build_preserved_config unsorted = do
    let files = sort_by by_name unsorted
    validate (ltb 0 (length files)) no_live_files
    validate (length (names files) == length files) duplicate_names
    validate (has_one_serial (filter (λ file. equal file.name (codes "serial.cfg")) files))
        no_single_serial
    built ← preserved_layout files
    parsed ← extract_serial_and_config_info crc decompress built true true
    rebuilt_files ← rebuilt parsed.live_config_files
    validate (same_files files rebuilt_files) round_trip_failed
    validate (parsed.obsolete_node_count == 0) unexpected_obsolete_nodes
    ok built
