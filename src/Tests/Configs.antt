-- ===== src/Tests/Configs.antt =====
-- Runs on config partitions and their live files.
use cc2_camera_fix.Base.{ℕ, ◌≤◌, ◌≡◌, ◌≢◌, refl, arith, true, false, Option, none, List, [], ◌∷◌}
use cc2_camera_fix.Base.Lists.{All, length, replicate}
use cc2_camera_fix.Base.Result.{Result, ok, err}
use cc2_camera_fix.Base.Bytes.{Bytes, equal}
use cc2_camera_fix.Tests.Nodes.{sum_check, sum_check_fits}
use cc2_camera_fix.Image.Order.{bytes_leb, filter, any, insert_by, sort_by}
use cc2_camera_fix.Image.Numbers.{config_size, align4}
use cc2_camera_fix.Image.Jffs2.{
  Dirent, Inode, Node, Kind, turn_count, parse_jffs2, parse_from, node_at, checked_node_at, kind_at,
  is_obsolete, dirent_at, inode_at, restored_accurate_slice,
}
use cc2_camera_fix.Image.Serial.{
  is_model_digit, is_serial_char, serial_tail, serial_rest, serial_payload_is_valid, serial_value,
}
use cc2_camera_fix.Image.Live.{
  ConfigFile, Decompressed, DirentMap, live_root, current_inodes, fragments_of, overlaid,
  decode_jffs2_fragment, overlay, file_data, recreated, recreate_all, reconstruct_live_config_files,
}
use cc2_camera_fix.Image.Live.Safe.{IsPlain, Distinct, reconstruct_live_config_files-IsPlain}
use cc2_camera_fix.Image.Info.{
  ConfigInfo, live_current, inodes, valid_dirents, has_unexpected_name, get, put,
  current_dirents_of, is_serial_inode, inode_candidates, live_serial, recovered_serial, live_files,
  new_serial_file, extract_serial_and_config_info,
}
use cc2_camera_fix.Image.Info.Recovers.{IsRecovered, extract_serial_and_config_info-IsRecovered}
use cc2_camera_fix.Image.Info.Fresh.{new_serial_file_fresh}
use cc2_camera_fix.Image.Config.{dirent_of, inode_of, preserved_layout}
use cc2_camera_fix.Image.Config.Layout.{IsStorable, dirent_end, file_end, layout_end}
use cc2_camera_fix.Image.Config.Found.{IsFoundIn, preserved_layout-node_at}

abbrev no_zlib : Bytes → ℕ → Option Decompressed
no_zlib payload max_length = none

abbrev camera_file : ConfigFile
camera_file = record {
  name = 97 ∷ [];
  content = 1 ∷ 2 ∷ 3 ∷ [];
  inode = 2;
  mode = 0x81A4;
  uid = 0;
  gid = 0;
  atime = 1;
  mtime = 2;
  ctime = 3;
  flags = 0;
  dirent_mctime = 3;
  dtype = 8;
}

camera_file-IsStorable : IsStorable camera_file
unfolding dirent_of inode_of
camera_file-IsStorable = record {
  dirent_fits = record {
    parent_fits = omega arith;
    version_fits = omega arith;
    inode_fits = omega arith;
    mctime_fits = omega arith;
    dtype_fits = omega arith;
    name_fits = omega arith;
  };
  inode_fits = record {
    inode_fits = omega arith;
    version_fits = omega arith;
    mode_fits = omega arith;
    uid_fits = omega arith;
    gid_fits = omega arith;
    atime_fits = omega arith;
    mtime_fits = omega arith;
    ctime_fits = omega arith;
    flags_fit = omega arith;
    payload_fits = omega arith;
  };
}

camera_file-fits : layout_end 12 (camera_file ∷ []) ≤ 0x4000
unfolding layout_end file_end dirent_end align4
camera_file-fits = omega arith

preserved_layout-node_at_example :
    (built : Bytes) × (preserved_layout sum_check no_zlib (camera_file ∷ []) ≡ ok built)
    × ((length built ≡ config_size)
        × All (IsFoundIn sum_check sum_check_fits no_zlib built) (camera_file ∷ []))
preserved_layout-node_at_example =
    preserved_layout-node_at sum_check sum_check_fits no_zlib (camera_file ∷ [])
      (camera_file-IsStorable, tt) camera_file-fits

new_serial_file_fresh_example :
    All
      (λ (other : ConfigFile). other.inode ≢ (new_serial_file (65 ∷ []) (camera_file ∷ [])).inode)
      (camera_file ∷ [])
    × (2 ≤ (new_serial_file (65 ∷ []) (camera_file ∷ [])).inode)
    × ((new_serial_file (65 ∷ []) (camera_file ∷ [])).inode ≤ 3)
new_serial_file_fresh_example = new_serial_file_fresh (65 ∷ []) (camera_file ∷ [])

abbrev camera_entry : Dirent
camera_entry = record {
  parent_inode = 1;
  version = 1;
  inode = 2;
  mctime = 3;
  dtype = 8;
  name = 97 ∷ [];
}

-- The second fragment writes over the end of the first.
abbrev fragment : ℕ → ℕ → Bytes → Inode
fragment version file_offset payload = record {
  inode = 2;
  version = version;
  mode = 0x81A4;
  uid = 0;
  gid = 0;
  file_size = 3;
  atime = 1;
  mtime = 2;
  ctime = 3;
  file_offset = file_offset;
  compressed_size = length payload;
  decompressed_size = length payload;
  compression = 0;
  user_compression = 0;
  flags = 0;
  payload = payload;
}

abbrev fragment_node : Inode → Node
fragment_node found = record {
  offset = 0;
  node_type = 0xE002;
  total_length = 70;
  current = true;
  obsolete = false;
  kind = Kind.inode found;
}

abbrev fragments : List Node
fragments =
    fragment_node (fragment 2 1 (2 ∷ 3 ∷ [])) ∷ fragment_node (fragment 1 0 (1 ∷ 9 ∷ [])) ∷ []

abbrev camera_dirents : DirentMap
camera_dirents = ((1, 97 ∷ []), camera_entry) ∷ []

camera_file-live :
    reconstruct_live_config_files no_zlib fragments camera_dirents ≡ ok (camera_file ∷ [])
unfolding reconstruct_live_config_files recreate_all recreated file_data overlay
    decode_jffs2_fragment overlaid fragments_of current_inodes live_root bytes_leb filter any
    insert_by sort_by replicate
camera_file-live = refl

reconstruct_live_config_files-IsPlain_example :
    All IsPlain (camera_file ∷ []) × Distinct (camera_file ∷ [])
reconstruct_live_config_files-IsPlain_example =
    reconstruct_live_config_files-IsPlain no_zlib fragments camera_dirents (camera_file ∷ [])
      camera_file-live

-- The entry and the data of a `serial.cfg`
abbrev serial_config : Bytes
serial_config =
    133 ∷ 25 ∷ 1 ∷ 224 ∷ 50 ∷ 0 ∷ 0 ∷ 0 ∷ 177 ∷ 1 ∷ 0 ∷ 0 ∷ 1 ∷ 0 ∷ 0 ∷ 0 ∷ 1 ∷ 0 ∷ 0 ∷ 0 ∷ 2 ∷ 0
    ∷ 0 ∷ 0 ∷ 3 ∷ 0 ∷ 0 ∷ 0 ∷ 10 ∷ 8 ∷ 0 ∷ 0 ∷ 124 ∷ 2 ∷ 0 ∷ 0 ∷ 222 ∷ 3 ∷ 0 ∷ 0 ∷ 115 ∷ 101 ∷ 114
    ∷ 105 ∷ 97 ∷ 108 ∷ 46 ∷ 99 ∷ 102 ∷ 103 ∷ 255 ∷ 255 ∷ 133 ∷ 25 ∷ 2 ∷ 224 ∷ 112 ∷ 0 ∷ 0 ∷ 0 ∷ 240
    ∷ 1 ∷ 0 ∷ 0 ∷ 2 ∷ 0 ∷ 0 ∷ 0 ∷ 1 ∷ 0 ∷ 0 ∷ 0 ∷ 164 ∷ 129 ∷ 0 ∷ 0 ∷ 0 ∷ 0 ∷ 0 ∷ 0 ∷ 44 ∷ 0 ∷ 0 ∷ 0
    ∷ 1 ∷ 0 ∷ 0 ∷ 0 ∷ 2 ∷ 0 ∷ 0 ∷ 0 ∷ 3 ∷ 0 ∷ 0 ∷ 0 ∷ 0 ∷ 0 ∷ 0 ∷ 0 ∷ 44 ∷ 0 ∷ 0 ∷ 0 ∷ 44 ∷ 0 ∷ 0
    ∷ 0 ∷ 0 ∷ 0 ∷ 0 ∷ 0 ∷ 21 ∷ 12 ∷ 0 ∷ 0 ∷ 147 ∷ 4 ∷ 0 ∷ 0 ∷ 115 ∷ 101 ∷ 114 ∷ 105 ∷ 97 ∷ 108 ∷ 61
    ∷ 49 ∷ 50 ∷ 80 ∷ 83 ∷ 83 ∷ 83 ∷ 83 ∷ 51 ∷ 65 ∷ 65 ∷ 65 ∷ 65 ∷ 65 ∷ 65 ∷ 65 ∷ 65 ∷ 65 ∷ 65 ∷ 65
    ∷ 65 ∷ 65 ∷ 65 ∷ 65 ∷ 65 ∷ 65 ∷ 65 ∷ 65 ∷ 65 ∷ 65 ∷ 65 ∷ 65 ∷ 65 ∷ 65 ∷ 65 ∷ 65 ∷ 65 ∷ 10 ∷ []

abbrev no_info : ConfigInfo
no_info = record {
  nodes = [];
  node_count = 0;
  current_node_count = 0;
  obsolete_node_count = 0;
  serial_payload = [];
  serial_value = [];
  serial_source = live_current;
  live_config_files = none;
  non_ff_bytes = 0;
  ff_bytes = 0;
}

abbrev info_of : Result ConfigInfo → ConfigInfo
info_of (ok info) = info
info_of (err raised) = no_info

abbrev serial_info : ConfigInfo
serial_info = info_of (extract_serial_and_config_info sum_check no_zlib serial_config false false)

serial_extracted :
    extract_serial_and_config_info sum_check no_zlib serial_config false false ≡ ok serial_info
unfolding extract_serial_and_config_info parse_jffs2 turn_count parse_from node_at checked_node_at
    kind_at is_obsolete dirent_at inode_at restored_accurate_slice valid_dirents has_unexpected_name
    get put current_dirents_of inodes is_serial_inode inode_candidates live_serial recovered_serial
    live_files equal any filter insert_by sort_by current_inodes is_model_digit is_serial_char
    serial_tail serial_rest serial_payload_is_valid serial_value
serial_extracted = refl

extract_serial_and_config_info-IsRecovered_example : IsRecovered sum_check serial_config serial_info
extract_serial_and_config_info-IsRecovered_example =
    extract_serial_and_config_info-IsRecovered sum_check no_zlib serial_config false false
      serial_info serial_extracted
