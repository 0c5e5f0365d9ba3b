-- ===== src/Image/Live/Safe.antt =====
-- Every live file that is put together can be written again: its name, its kind and its size are those
-- of a plain file in the root directory, and no two files share an inode.
use cc2_camera_fix.Base.{
  ℕ, ◌+◌, ◌-◌, ◌≤◌, ◌<◌, ◌≡◌, ◌≢◌, refl, sym, ◌∙◌, arith, bit_and, Bool, true, false, not, ◌&&◌,
  ◌||◌, List, [], ◌∷◌, Option,
}
use cc2_camera_fix.Base.Tests.{leb, ltb, ◌==◌, leb→le, ltb→lt, ==_iff, if-cases}
use cc2_camera_fix.Base.Lists.{All, length, take, replicate, length-replicate, length-take}
use cc2_camera_fix.Base.Lists.Assign.{length-assign}
use cc2_camera_fix.Base.Result.{
  ok, not_a_regular_file, impossible_size, unsafe_entry, invalid_inode, shared_inode,
  live_subdirectories,
}
use cc2_camera_fix.Base.Bytes.{Bytes}
use mathlib.Core.Path.{subst}
use cc2_camera_fix.Base.Returns.{
  WhenOk, when_ok, when_err, WhenOk->>=, WhenOk-validate, WhenOk-holds,
}
use cc2_camera_fix.Image.Order.{any, filter}
use cc2_camera_fix.Image.Numbers.{config_size}
use cc2_camera_fix.Image.Jffs2.{Dirent, Inode, Node}
use cc2_camera_fix.Image.Live.{
  ConfigFile, Decompressed, DirentMap, is_nonroot, live_root, is_safe_entry, is_empty, overlaid,
  overlay, decode_jffs2_fragment, fragments_of, file_data, newest_metadata, last_version, recreated,
  recreate_all, reconstruct_live_config_files,
}

-- A file as `build_preserved_config` can take it.
pub record IsPlain (file : ConfigFile) : Type 0 where
  pub named : is_empty file.name ≡ false
  pub name_fits : length file.name ≤ 255
  pub no_slash : any (λ c. c == 47) file.name ≡ false
  pub no_nul : any (λ c. c == 0) file.name ≡ false
  pub is_file : file.dtype ≡ 8
  pub own_inode : 1 < file.inode
  pub is_regular : bit_and file.mode 0xF000 ≡ 0x8000
  pub content_fits : length file.content ≤ config_size

abbrev pub Distinct : List ConfigFile → Type 0
Distinct [] = Unit
Distinct (file ∷ files) =
    All (λ (other : ConfigFile). other.inode ≢ file.inode) files × Distinct files

overlaid-length :
    (file_size : ℕ) (decoded : Bytes) (start : ℕ) (buffer : Bytes)
    → length buffer ≡ file_size
    → length (overlaid file_size decoded start buffer) ≡ file_size
unfolding overlaid
overlaid-length file_size decoded start buffer h =
    if-cases Kept (leb file_size start || is_empty decoded) (λ _. h)
      (λ written.
        if-cases Kept (leb (start + length decoded) file_size)
          (λ inside.
            length-assign start (start + length decoded) decoded buffer (omega arith)
              (omega (arith, leb→le (start + length decoded) file_size inside)) (omega arith)
            ∙ h)
          (λ outside.
            length-assign start file_size (take (file_size - start) decoded) buffer
              (omega (arith, starts (is_empty decoded) written)) (omega arith)
              (omega (
                arith,
                length-take (file_size - start) decoded,
                ends outside,
                starts (is_empty decoded) written,
              ))
            ∙ h))
  where
    Kept : Bytes → Type 0
    Kept result = length result ≡ file_size

    starts : (empty : Bool) → (leb file_size start || empty) ≡ false → start ≤ file_size
    starts empty e = ground arith

    ends : leb (start + length decoded) file_size ≡ false → file_size ≤ start + length decoded
    ends e = ground arith

not-true : (b : Bool) → not b ≡ true → b ≡ false
not-true false h = refl
not-true true h = cc

-- The five tests of an entry
five :
    (a b c d e : Bool)
    → (not a && b && not c && not d && e) ≡ true
    → (a ≡ false) × (b ≡ true) × (c ≡ false) × (d ≡ false) × (e ≡ true)
five false true false false e h = (refl, refl, refl, refl, h)
five true b c d e h = cc
five false false c d e h = cc
five false true true d e h = cc
five false true false true e h = cc

module _ (decompress : Bytes → ℕ → Option Decompressed) where
  overlay-length :
      (file_size : ℕ) (fragments : List Inode) (buffer : Bytes)
      → length buffer ≡ file_size
      → WhenOk (λ result. length result ≡ file_size) (overlay decompress file_size fragments buffer)
  unfolding overlay
  overlay-length file_size [] buffer h = when_ok buffer h
  overlay-length file_size (fragment ∷ fragments) buffer h =
      WhenOk->>= (decode_jffs2_fragment decompress fragment) _ (λ decoded _.
        overlay-length file_size fragments (overlaid file_size decoded fragment.file_offset buffer)
          (overlaid-length file_size decoded fragment.file_offset buffer h))

  -- Regular, and of a size that the partition holds
  IsWhole : Inode × Bytes → Type 0
  IsWhole found = (bit_and found.0.mode 0xF000 ≡ 0x8000) × (length found.1 ≤ config_size)

  file_data-IsWhole : (fragments : List Inode) → WhenOk IsWhole (file_data decompress fragments)
  unfolding file_data IsWhole
  file_data-IsWhole [] = when_err _
  file_data-IsWhole (first ∷ rest) =
      WhenOk->>=
        (newest_metadata decompress
          (filter (λ node. node.version == last_version first.version rest) (first ∷ rest)))
        _
        (λ metadata _.
          WhenOk-validate (bit_and metadata.mode 0xF000 == 0x8000) not_a_regular_file _ (λ regular.
            WhenOk-validate (leb metadata.file_size config_size) impossible_size _ (λ fits.
              WhenOk->>=
                (overlay decompress metadata.file_size (first ∷ rest)
                  (replicate metadata.file_size 0))
                _
                (λ content hc. when_ok _ (
                  (==_iff (bit_and metadata.mode 0xF000) 0x8000).0 regular,
                  omega (
                    arith,
                    leb→le metadata.file_size config_size fits,
                    WhenOk-holds
                        (overlay-length metadata.file_size (first ∷ rest)
                          (replicate metadata.file_size 0) (length-replicate metadata.file_size 0))
                        hc,
                  ),
                )))))

  -- A new file beside those whose inodes were seen
  IsNew : List ℕ → ConfigFile → Type 0
  IsNew seen_inodes file = any (λ inode. inode == file.inode) seen_inodes ≡ false

  IsRecreated : List ℕ → Dirent → ConfigFile → Type 0
  IsRecreated seen_inodes entry file =
      IsPlain file × IsNew seen_inodes file × (file.inode ≡ entry.inode)

  recreated-IsRecreated :
      (nodes : List Node) (seen_inodes : List ℕ) (name : Bytes) (entry : Dirent)
      → WhenOk (IsRecreated seen_inodes entry) (recreated decompress nodes seen_inodes name entry)
  unfolding recreated IsRecreated IsNew IsWhole
  recreated-IsRecreated nodes seen_inodes name entry =
      WhenOk-validate (is_safe_entry decompress name entry) unsafe_entry _ (λ safe.
        WhenOk-validate (ltb 1 entry.inode) invalid_inode _ (λ own.
          WhenOk-validate (not (any (λ inode. inode == entry.inode) seen_inodes)) shared_inode _
            (λ fresh.
              WhenOk->>= (file_data decompress (fragments_of entry.inode nodes)) _ (λ found hf.
                when_ok _ (
                  record {
                    named = (parts safe).0;
                    name_fits = leb→le (length name) 255 (parts safe).1;
                    no_slash = (parts safe).2;
                    no_nul = (parts safe).3;
                    is_file = (==_iff entry.dtype 8).0 (parts safe).4;
                    own_inode = ltb→lt 1 entry.inode own;
                    is_regular = (whole hf).0;
                    content_fits = (whole hf).1;
                  },
                  not-true _ fresh,
                  refl,
                )))))
    where
      parts :
          is_safe_entry decompress name entry ≡ true
          → (is_empty name ≡ false)
            × (leb (length name) 255 ≡ true)
            × (any (λ c. c == 47) name ≡ false)
            × (any (λ c. c == 0) name ≡ false)
            × ((entry.dtype == 8) ≡ true)
      parts h = five (is_empty name) (leb (length name) 255) (any (λ c. c == 47) name) _ _ h

      whole :
          {found : Inode × Bytes}
          → file_data decompress (fragments_of entry.inode nodes) ≡ ok found
          → IsWhole found
      whole h = WhenOk-holds (file_data-IsWhole (fragments_of entry.inode nodes)) h

  IsComplete : List ℕ → List ConfigFile → Type 0
  IsComplete seen_inodes files = All IsPlain files × All (IsNew seen_inodes) files × Distinct files

  one_more-IsNew :
      (inode : ℕ) (seen_inodes : List ℕ) (files : List ConfigFile)
      → All (IsNew (inode ∷ seen_inodes)) files
      → All (IsNew seen_inodes) files × All (λ (other : ConfigFile). other.inode ≢ inode) files
  unfolding IsNew any
  one_more-IsNew inode seen_inodes [] h = (tt, tt)
  one_more-IsNew inode seen_inodes (file ∷ files) (new, news) =
      let (later, others) = one_more-IsNew inode seen_inodes files news in
      ((ground arith, later), (ground arith, others))

  recreate_all-IsComplete :
      (nodes : List Node) (seen_inodes : List ℕ) (entries : List (Bytes × Dirent))
      → WhenOk (IsComplete seen_inodes) (recreate_all decompress nodes seen_inodes entries)
  unfolding recreate_all IsComplete IsRecreated
  recreate_all-IsComplete nodes seen_inodes [] = when_ok [] (tt, tt, tt)
  recreate_all-IsComplete nodes seen_inodes ((name, entry) ∷ entries) =
      WhenOk->>= (recreated decompress nodes seen_inodes name entry) _ (λ file hf.
        WhenOk->>= (recreate_all decompress nodes (entry.inode ∷ seen_inodes) entries) _
          (λ files hs.
            let (plain, new, same) =
              WhenOk-holds (recreated-IsRecreated nodes seen_inodes name entry) hf in
            let (plains, news, distinct) =
              WhenOk-holds (recreate_all-IsComplete nodes (entry.inode ∷ seen_inodes) entries) hs in
            let (later, others) = one_more-IsNew entry.inode seen_inodes files news in
            when_ok _ (
              (plain, plains),
              (new, later),
              (
                subst (λ inode. All (λ (other : ConfigFile). other.inode ≢ inode) files) (sym same)
                    others,
                distinct,
              ),
            )))

  -- If the live files of a partition are put together without an exception, each of them has a name
  -- of 1 to 255 bytes without a slash and without a NUL, is a regular file of an inode above 1 with at
  -- most 128 KiB of data, and no two of them have the same inode.
  pub reconstruct_live_config_files-IsPlain :
      (nodes : List Node) (current_dirents : DirentMap) (files : List ConfigFile)
      → reconstruct_live_config_files decompress nodes current_dirents ≡ ok files
      → All IsPlain files × Distinct files
  unfolding reconstruct_live_config_files IsComplete
  reconstruct_live_config_files-IsPlain nodes current_dirents files h =
      let (plain, _, distinct) =
        WhenOk-holds
          (WhenOk-validate (not (any is_nonroot current_dirents)) live_subdirectories _
            (λ _. recreate_all-IsComplete nodes [] (live_root current_dirents)))
          h in
      (plain, distinct)
