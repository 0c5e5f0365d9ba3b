-- ===== src/Image/Info.antt =====
-- What cc2camera/image.py reads out of a config partition: the current directory entries, the serial
-- number and the live files. The lists and counts that are only displayed (`kind_counts`, the names in
-- ASCII) are left out of the result.
pub mod Unique
pub mod Recovers
pub mod Fresh
use cc2_camera_fix.Base.{
  ℕ, zero, suc, ◌+◌, ◌-◌, Bool, true, false, not, ◌&&◌, ◌||◌, Option, none, some, List, [], ◌∷◌,
  ◌++◌, map,
}
use cc2_camera_fix.Base.Tests.{leb, ltb, ◌==◌, if◌then◌else◌}
use cc2_camera_fix.Base.Lists.{length}
use cc2_camera_fix.Base.Result.{
  Result, ok, err, ◌>>=◌, ◌>>◌, validate, validation_error, no_nodes, unexpected_names,
  ambiguous_entries, ambiguous_serial, no_unique_serial, differing_serial,
}
use cc2_camera_fix.Base.Bytes.{Bytes, equal}
use cc2_camera_fix.Base.Text.{codes}
use cc2_camera_fix.Image.Order.{bytes_leb, filter, any, sort_by}
use cc2_camera_fix.Image.Jffs2.{Dirent, Inode, Node, Kind, parse_jffs2}
use cc2_camera_fix.Image.Serial.{serial_payload_is_valid, serial_value}
use cc2_camera_fix.Image.Live.{
  ConfigFile, Decompressed, DirentMap, is_live, current_inodes, reconstruct_live_config_files,
}

abbrev pub known_config_names : List Bytes
known_config_names =
    codes "serial.cfg"
    ∷ codes "uvc.attr"
    ∷ codes "uvc2.attr"
    ∷ codes "uvc.config"
    ∷ codes "uvc_dualstream.config"
    ∷ codes "dev_config.cfg"
    ∷ []

-- The inode nodes, and the directory nodes with their `current`
unfoldable pub inodes : List Node → List Inode
inodes [] = []
inodes (node ∷ nodes) = elim (node.kind) [
  | Kind.inode found ↦ found ∷ inodes nodes
  | _ ↦ inodes nodes
]

unfoldable pub valid_dirents : List Node → List (Bool × Dirent)
valid_dirents [] = []
valid_dirents (node ∷ nodes) = elim (node.kind) [
  | Kind.dirent found ↦ (node.current, found) ∷ valid_dirents nodes
  | _ ↦ valid_dirents nodes
]

unfoldable pub has_unexpected_name : List (Bool × Dirent) → Bool
has_unexpected_name dirents = any (λ item. not (any (equal item.1.name) known_config_names)) dirents

unfoldable pub get : ℕ → Bytes → DirentMap → Option Dirent
get parent name [] = none
get parent name (((other_parent, other_name), node) ∷ entries) =
    if parent == other_parent && equal name other_name then some node else get parent name entries

-- `current_dirents[key] = node` keeps the place of a key.
unfoldable pub put : ℕ → Bytes → Dirent → DirentMap → DirentMap
put parent name node [] = ((parent, name), node) ∷ []
put parent name node (((other_parent, other_name), other_node) ∷ entries) =
    let rest = put parent name node entries in
    if parent == other_parent && equal name other_name
    then ((other_parent, other_name), node) ∷ entries
    else ((other_parent, other_name), other_node) ∷ rest

abbrev pub replaced : Dirent → Option Dirent → DirentMap → Result DirentMap
replaced node none current_dirents = ok (put node.parent_inode node.name node current_dirents)
replaced node (some previous) current_dirents =
    validate (not (node.version == previous.version)) ambiguous_entries
    >> ok (
        if ltb previous.version node.version
        then put node.parent_inode node.name node current_dirents
        else current_dirents)

-- The loop over the directory nodes
unfoldable pub current_dirents_of : List (Bool × Dirent) → DirentMap → Result DirentMap
current_dirents_of [] current_dirents = ok current_dirents
current_dirents_of ((false, node) ∷ nodes) current_dirents =
    current_dirents_of nodes current_dirents
current_dirents_of ((true, node) ∷ nodes) current_dirents = do
  next ← replaced node (get node.parent_inode node.name current_dirents) current_dirents
  current_dirents_of nodes next

-- The part of the two tests for a serial that does not concern the directory
unfoldable pub is_serial_inode : Inode → Bool
is_serial_inode node =
    node.file_offset == 0
    && (node.compression == 0)
    && (node.compressed_size == node.decompressed_size)
    && (node.file_size == node.decompressed_size)
    && serial_payload_is_valid node.payload

unfoldable pub inode_candidates : List Node → ℕ → List Inode
inode_candidates nodes inode_number =
    filter (λ node. node.inode == inode_number && is_serial_inode node) (current_inodes nodes)

abbrev pub newest_payload : List Inode → Result (Option Bytes)
newest_payload (candidate ∷ []) = ok (some candidate.payload)
newest_payload _ = err (validation_error ambiguous_serial)

abbrev pub newest_candidate : List Inode → Result (Option Bytes)
newest_candidate [] = ok none
newest_candidate (first ∷ rest) =
    newest_payload (filter (λ item. item.version == first.version) (first ∷ rest))

-- `serial_payload` before the fallback
unfoldable pub live_serial : List Node → Option Dirent → Result (Option Bytes)
live_serial nodes none = ok none
live_serial nodes (some serial_dirent) =
    newest_candidate
      (sort_by (λ a b. leb b.version a.version) (inode_candidates nodes serial_dirent.inode))

-- A set of bytes
unfoldable pub distinct : List Bytes → List Bytes
distinct [] = []
distinct (x ∷ xs) = let rest = distinct xs in if any (equal x) xs then rest else x ∷ rest

unfoldable pub historical : List Node → List Bytes
historical nodes = distinct (map (λ node. node.payload) (filter is_serial_inode (inodes nodes)))

pub data SerialSource : Type 0 where
  live_current unique_historical_fallback : SerialSource

abbrev pub only : List Bytes → Result (Bytes × SerialSource)
only (payload ∷ []) = ok (payload, unique_historical_fallback)
only _ = err (validation_error no_unique_serial)

unfoldable pub recovered_serial : List Node → Option Bytes → Result (Bytes × SerialSource)
recovered_serial nodes (some payload) = ok (payload, live_current)
recovered_serial nodes none = only (historical nodes)

abbrev pub get_live : Bytes → DirentMap → Option Dirent
get_live name current_dirents = get 1 name (filter is_live current_dirents)

-- `next(inode for inode in range(2, 0xFFFFFFFF) if inode not in used_inodes)`
unfoldable pub next_unused : ℕ → ℕ → List ℕ → ℕ
next_unused zero inode used_inodes = inode
next_unused (suc fuel) inode used_inodes =
    let later = next_unused fuel (inode + 1) used_inodes in
    if any (λ used. used == inode) used_inodes then later else inode

unfoldable pub get_file : Bytes → List ConfigFile → Option ConfigFile
get_file name [] = none
get_file name (file ∷ files) = elim (get_file name files) [
  | some later ↦ some later
  | none ↦ if equal name file.name then some file else none
]

unfoldable pub new_serial_file : Bytes → List ConfigFile → ConfigFile
new_serial_file serial_payload files = record {
  name = codes "serial.cfg";
  content = serial_payload;
  inode = next_unused (suc (length files)) 2 (map (λ file. file.inode) files);
  mode = 0x81A4;
  uid = 0;
  gid = 0;
  atime = 18;
  mtime = 18;
  ctime = 18;
  flags = 0;
  dirent_mctime = 1;
  dtype = 8;
}

abbrev pub by_name : ConfigFile → ConfigFile → Bool
by_name a b = bytes_leb a.name b.name

abbrev pub with_serial : Bytes → Option ConfigFile → List ConfigFile → Result (List ConfigFile)
with_serial serial_payload none files =
    ok (sort_by by_name (files ++ (new_serial_file serial_payload files ∷ [])))
with_serial serial_payload (some live) files =
    validate (equal live.content serial_payload) differing_serial >> ok files

pub record ConfigInfo : Type 0 where
  pub nodes : List Node
  pub node_count : ℕ
  pub current_node_count : ℕ
  pub obsolete_node_count : ℕ
  pub serial_payload : Bytes
  pub serial_value : Bytes
  pub serial_source : SerialSource
  pub live_config_files : Option (List ConfigFile)
  pub non_ff_bytes : ℕ
  pub ff_bytes : ℕ

module _ (crc : Bytes → ℕ) (decompress : Bytes → ℕ → Option Decompressed) where
  unfoldable pub live_files :
      Bool → List Node → DirentMap → Bytes → Result (Option (List ConfigFile))
  live_files false nodes current_dirents serial_payload = ok none
  live_files true nodes current_dirents serial_payload = do
    files ← reconstruct_live_config_files decompress nodes current_dirents
    complete ← with_serial serial_payload (get_file (codes "serial.cfg") files) files
    ok (some complete)

  unfoldable pub extract_serial_and_config_info : Bytes → Bool → Bool → Result ConfigInfo
  extract_serial_and_config_info config allow_unknown_names preserve_live_files = do
    nodes ← parse_jffs2 crc config
    validate (ltb 0 (length nodes)) no_nodes
    let dirents = valid_dirents nodes
    validate (not (has_unexpected_name dirents) || allow_unknown_names) unexpected_names
    current_dirents ← current_dirents_of dirents []
    live ← live_serial nodes (get_live (codes "serial.cfg") current_dirents)
    recovered ← recovered_serial nodes live
    let payload = recovered.0
    files ← live_files preserve_live_files nodes current_dirents payload
    let info : ConfigInfo = record {
      nodes = nodes;
      node_count = length nodes;
      current_node_count = length (filter (λ node. node.current) nodes);
      obsolete_node_count = length (filter (λ node. node.obsolete) nodes);
      serial_payload = payload;
      serial_value = serial_value payload;
      serial_source = recovered.1;
      live_config_files = files;
      non_ff_bytes = length (filter (λ byte. not (byte == 0xFF)) config);
      ff_bytes = length (filter (λ byte. byte == 0xFF) config);
    }
    ok info
