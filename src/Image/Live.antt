-- ===== src/Image/Live.antt =====
-- The live files of the config partition in cc2camera/image.py: how `reconstruct_live_config_files`
-- puts each of them together from its fragments. `zlib.decompressobj` is a parameter.
pub mod Safe
use cc2_camera_fix.Base.{
  ℕ, zero, suc, ◌+◌, ◌-◌, bit_and, Bool, true, false, not, ◌&&◌, ◌||◌, Option, none, some, List, [],
  ◌∷◌,
}
use cc2_camera_fix.Base.Tests.{leb, ltb, ◌==◌, if◌then◌else◌}
use cc2_camera_fix.Base.Lists.{length, take, replicate, assign}
use cc2_camera_fix.Base.Result.{
  Result, ok, err, ◌>>=◌, ◌>>◌, validate, validation_error, live_subdirectories, unsafe_entry,
  invalid_inode, shared_inode, missing_inode, ambiguous_metadata, not_a_regular_file,
  impossible_size, oversized_fragment, malformed_zero_compression, invalid_zlib_data,
  decompressed_size_mismatch, unsupported_compression,
}
use cc2_camera_fix.Base.Bytes.{Bytes, equal}
use cc2_camera_fix.Image.Order.{bytes_leb, filter, any, sort_by}
use cc2_camera_fix.Image.Numbers.{config_size}
use cc2_camera_fix.Image.Jffs2.{Dirent, Inode, Node, Kind}

pub record ConfigFile : Type 0 where
  pub name : Bytes
  pub content : Bytes
  pub inode : ℕ
  pub mode : ℕ
  pub uid : ℕ
  pub gid : ℕ
  pub atime : ℕ
  pub mtime : ℕ
  pub ctime : ℕ
  pub flags : ℕ
  pub dirent_mctime : ℕ
  pub dtype : ℕ

-- The decompressor after one call of `decompress`, and what the call produced.
pub record Decompressed : Type 0 where
  pub produced : Bytes
  pub eof : Bool
  pub unconsumed_tail : Bytes
  pub unused_data : Bytes

-- `current_dirents`: a key is the inode of the directory and the name.
abbrev pub DirentMap : Type 0
DirentMap = List ((ℕ × Bytes) × Dirent)

abbrev pub is_empty : Bytes → Bool
is_empty [] = true
is_empty (x ∷ xs) = false

abbrev pub is_nonroot : (ℕ × Bytes) × Dirent → Bool
is_nonroot ((parent, name), node) = not (parent == 1) && not (node.inode == 0)

abbrev pub is_live : (ℕ × Bytes) × Dirent → Bool
is_live ((parent, name), node) = parent == 1 && not (node.inode == 0)

abbrev pub named : List ((ℕ × Bytes) × Dirent) → List (Bytes × Dirent)
named [] = []
named (((parent, name), node) ∷ entries) = (name, node) ∷ named entries

-- The live entries of the root directory by name
unfoldable pub live_root : DirentMap → List (Bytes × Dirent)
live_root current_dirents =
    sort_by (λ a b. bytes_leb a.0 b.0) (named (filter is_live current_dirents))

-- The current inode nodes
unfoldable pub current_inodes : List Node → List Inode
current_inodes [] = []
current_inodes (node ∷ nodes) = elim (node.kind) [
  | Kind.inode found ↦
      let rest = current_inodes nodes in if node.current then found ∷ rest else rest
  | _ ↦ current_inodes nodes
]

unfoldable pub fragments_of : ℕ → List Node → List Inode
fragments_of inode_number nodes =
    sort_by (λ a b. leb a.version b.version)
      (filter (λ node. node.inode == inode_number) (current_inodes nodes))

abbrev pub last_version : ℕ → List Inode → ℕ
last_version version [] = version
last_version version (node ∷ nodes) = last_version node.version nodes

-- `data[start:end] = decoded[: end - start]`, unless the loop continues before it
unfoldable pub overlaid : ℕ → Bytes → ℕ → Bytes → Bytes
overlaid file_size decoded start buffer =
    if leb file_size start || is_empty decoded
    then buffer
    else if leb (start + length decoded) file_size
    then assign start (start + length decoded) decoded buffer
    else assign start file_size (take (file_size - start) decoded) buffer

module _ (decompress : Bytes → ℕ → Option Decompressed) where
  abbrev pub decompressed : ℕ → Option Decompressed → Result Bytes
  decompressed decompressed_size none = err (validation_error invalid_zlib_data)
  decompressed decompressed_size (some result) =
      validate (length result.produced == decompressed_size) decompressed_size_mismatch
      >> (validate (result.eof && is_empty result.unconsumed_tail && is_empty result.unused_data)
            invalid_zlib_data
          >> ok result.produced)

  abbrev pub fragment_data : Inode → Result Bytes
  fragment_data node =
      if node.compression == 0
      then ok node.payload
      else if node.compression == 1
      then validate (node.compressed_size == 0) malformed_zero_compression
        >> ok (replicate node.decompressed_size 0)
      else if node.compression == 6
      then decompressed node.decompressed_size
          (decompress node.payload (node.decompressed_size + 1))
      else err (validation_error unsupported_compression)

  unfoldable pub decode_jffs2_fragment : Inode → Result Bytes
  decode_jffs2_fragment node = do
    validate (leb node.decompressed_size config_size) oversized_fragment
    decoded ← fragment_data node
    validate (length decoded == node.decompressed_size) decompressed_size_mismatch
    ok decoded

  -- The loop over the fragments
  unfoldable pub overlay : ℕ → List Inode → Bytes → Result Bytes
  overlay file_size [] buffer = ok buffer
  overlay file_size (fragment ∷ fragments) buffer = do
    decoded ← decode_jffs2_fragment fragment
    overlay file_size fragments (overlaid file_size decoded fragment.file_offset buffer)

  -- The only node of the newest version
  abbrev pub newest_metadata : List Inode → Result Inode
  newest_metadata (metadata ∷ []) = ok metadata
  newest_metadata _ = err (validation_error ambiguous_metadata)

  -- The data of a live file and its newest metadata
  unfoldable pub file_data : List Inode → Result (Inode × Bytes)
  file_data [] = err (validation_error missing_inode)
  file_data (first ∷ rest) = do
    let newest_version = last_version first.version rest
    metadata ← newest_metadata (filter (λ node. node.version == newest_version) (first ∷ rest))
    validate (bit_and metadata.mode 0xF000 == 0x8000) not_a_regular_file
    validate (leb metadata.file_size config_size) impossible_size
    content ← overlay metadata.file_size (first ∷ rest) (replicate metadata.file_size 0)
    ok (metadata, content)

  abbrev pub is_safe_entry : Bytes → Dirent → Bool
  is_safe_entry name entry =
      not (is_empty name)
      && leb (length name) 255
      && not (any (λ c. c == 47) name)
      && not (any (λ c. c == 0) name)
      && (entry.dtype == 8)

  -- One turn of the loop over the names
  unfoldable pub recreated : List Node → List ℕ → Bytes → Dirent → Result ConfigFile
  recreated nodes seen_inodes name entry = do
    validate (is_safe_entry name entry) unsafe_entry
    validate (ltb 1 entry.inode) invalid_inode
    validate (not (any (λ inode. inode == entry.inode) seen_inodes)) shared_inode
    found ← file_data (fragments_of entry.inode nodes)
    let metadata = found.0
    let file : ConfigFile = record {
      name = name;
      content = found.1;
      inode = entry.inode;
      mode = metadata.mode;
      uid = metadata.uid;
      gid = metadata.gid;
      atime = metadata.atime;
      mtime = metadata.mtime;
      ctime = metadata.ctime;
      flags = metadata.flags;
      dirent_mctime = entry.mctime;
      dtype = entry.dtype;
    }
    ok file

  unfoldable pub recreate_all :
      List Node → List ℕ → List (Bytes × Dirent) → Result (List ConfigFile)
  recreate_all nodes seen_inodes [] = ok []
  recreate_all nodes seen_inodes ((name, entry) ∷ entries) = do
    file ← recreated nodes seen_inodes name entry
    files ← recreate_all nodes (entry.inode ∷ seen_inodes) entries
    ok (file ∷ files)

  unfoldable pub reconstruct_live_config_files : List Node → DirentMap → Result (List ConfigFile)
  reconstruct_live_config_files nodes current_dirents = do
    validate (not (any is_nonroot current_dirents)) live_subdirectories
    recreate_all nodes [] (live_root current_dirents)
