-- ===== src/Image/SystemPatch.antt =====
-- The patch of the system partition in cc2camera/image.py: the exact bytes that are replaced, and the
-- checks around it. SHA-256, LZMA and CRC-32 are parameters.
use Prim.Native.String.{String}
use cc2_camera_fix.Base.{
  ℕ, zero, suc, ◌+◌, ◌-◌, Bool, true, false, ◌&&◌, Option, none, some, [], ◌∷◌, ◌++◌,
}
use cc2_camera_fix.Base.Tests.{leb, ◌==◌, if◌then◌else◌}
use cc2_camera_fix.Base.Lists.{length, take, drop, slice, replicate, assign}
use cc2_camera_fix.Base.Int.{pos}
use cc2_camera_fix.Base.Result.{
  Result, ok, err, ◌>>=◌, ◌>>◌, validate, validation_error, struct_error, non_stock_window,
  non_stock_fragment, bad_fragment_data, unaudited_fragment, non_stock_bashrc, no_single_copy_block,
  bad_patched_bashrc, changed_bashrc_length, bad_patched_fragment, unaudited_xz, unaudited_window,
  unpatchable_state, replacement_too_large,
}
use cc2_camera_fix.Base.Bytes.{Bytes, equal, pack_u32}
use cc2_camera_fix.Base.Text.{Text, codes}
use cc2_camera_fix.Image.Hardware.{patch_start, patch_end}
use cc2_camera_fix.Image.Xz.{build_squashfs_xz_fragment}

abbrev pub squashfs_fragment_start : ℕ
squashfs_fragment_start = 0x463600

abbrev pub squashfs_fragment_size_field : ℕ
squashfs_fragment_size_field = 0x46A11A

abbrev pub original_fragment_xz_size : ℕ
original_fragment_xz_size = 26268

abbrev pub patched_fragment_xz_size : ℕ
patched_fragment_xz_size = 25564

abbrev pub fragment_uncompressed_size : ℕ
fragment_uncompressed_size = 100167

abbrev pub bashrc_fragment_offset : ℕ
bashrc_fragment_offset = 29000

unfoldable pub original_patch_sha256 : Text
original_patch_sha256 = codes "5591f5350feabb73fd29e21ae72ee9c3c9dab0c6bb78e02178267e5cb2ab4780"

unfoldable pub patched_patch_sha256 : Text
patched_patch_sha256 = codes "36e9b9b29dffcd775b094ff67a121fbb78b1871a7eda059371cbafc562251b2b"

unfoldable pub original_bashrc_sha256 : Text
original_bashrc_sha256 = codes "984e1d34fb69bd83d43335e62911503461b389f96f86c5c837f7aab57a48417d"

unfoldable pub patched_bashrc_sha256 : Text
patched_bashrc_sha256 = codes "eab95c4ef39ba900fdd87684feee916f36e2901d3a7abe3fe65d2cde459e0f88"

unfoldable pub original_fragment_xz_sha256 : Text
original_fragment_xz_sha256 =
    codes "4c6d2cf7ce219721a8f027056c207d05fb01e1ae2165bf17e5208f37d690869f"

unfoldable pub patched_fragment_xz_sha256 : Text
patched_fragment_xz_sha256 =
    codes "ca9162b4b6b7a898901be0503d5c4cb10e94f01c44e79caf4f7c3a5172e768f5"

unfoldable pub original_fragment_sha256 : Text
original_fragment_sha256 = codes "322825a20f30d04d5ad6fc2f677cd8fce2b0c43189d802d1fbb05d2049c07329"

unfoldable pub patched_fragment_sha256 : Text
patched_fragment_sha256 = codes "a6a65889a5d79a8b8935cbf1602c1a152a52c2d28f66821f0a5adaac9546c905"

-- A line of a shell script
abbrev line : String → Bytes
line text = codes text ++ (10 ∷ [])

unfoldable pub original_copy_block : Bytes
original_copy_block =
    line "# [ ! -f /etc/conf.d/uvc.attr ] && cp /system/config/uvc.attr /etc/conf.d/uvc.attr"
    ++ (line
          "# [ ! -f /etc/conf.d/uvc.config ] && cp /system/config/uvc.config /etc/conf.d/uvc.config"
        ++ (line
              "# [ ! -f /etc/conf.d/dev_config.cfg ] && cp /system/config/dev_config.cfg /etc/conf.d/dev_config.cfg"
            ++ (line "cp /system/config/uvc.attr /etc/conf.d/uvc.attr"
                ++ (line "cp /system/config/uvc2.attr /etc/conf.d/uvc2.attr"
                    ++ (line "cp /system/config/uvc_dualstream.config /etc/conf.d/uvc.config"
                        ++ (line
                              "cp /system/config/uvc_dualstream.config /etc/conf.d/uvc_dualstream.config"
                            ++ (line "cp /system/config/dev_config.cfg /etc/conf.d/dev_config.cfg"
                                ++ ((10 ∷ [])
                                    ++ (line
                                          "# [ ! -f /etc/conf.d/uvc2.attr ] && cp /system/config/uvc2.attr /etc/conf.d/uvc2.attr"
                                        ++ (line
                                              "# [ ! -f /etc/conf.d/uvc_dualstream.config ] && cp /system/config/uvc_dualstream.config /etc/conf.d/uvc_dualstream.config"
                                            ++ (10 ∷ [])))))))))))

unfoldable pub patched_copy_block_visible : Bytes
patched_copy_block_visible =
    line "# Copy defaults only when absent.  The original unconditional copies"
    ++ (line "# consume JFFS2 space on every boot, while this firmware cannot reclaim it."
        ++ (line "[ -f /etc/conf.d/uvc.attr ] || cp /system/config/uvc.attr /etc/conf.d/uvc.attr"
            ++ (line
                  "[ -f /etc/conf.d/uvc2.attr ] || cp /system/config/uvc2.attr /etc/conf.d/uvc2.attr"
                ++ (line
                      "[ -f /etc/conf.d/uvc.config ] || cp /system/config/uvc_dualstream.config /etc/conf.d/uvc.config"
                    ++ (line
                          "[ -f /etc/conf.d/uvc_dualstream.config ] || cp /system/config/uvc_dualstream.config /etc/conf.d/uvc_dualstream.config"
                        ++ (line
                              "[ -f /etc/conf.d/dev_config.cfg ] || cp /system/config/dev_config.cfg /etc/conf.d/dev_config.cfg"
                            ++ ((10 ∷ [])
                                ++ line
                                    "# SquashFS in-place patch padding; keep bashrc.sh length unchanged.")))))))

-- Whether `sub` is a prefix
unfoldable pub starts_with : Bytes → Bytes → Bool
starts_with [] content = true
starts_with (x ∷ xs) [] = false
starts_with (x ∷ xs) (y ∷ ys) = let rest = starts_with xs ys in x == y && rest

-- `content.count(sub)` for a `sub` that is not empty: `skip` bytes of a match are still to pass.
unfoldable pub count : ℕ → Bytes → Bytes → ℕ
unfolding starts_with
count skip sub [] = 0
count (suc skip) sub (x ∷ xs) = count skip sub xs
count zero sub (x ∷ xs) =
    let here = count (length sub - 1) sub xs in
    let later = count zero sub xs in if starts_with sub (x ∷ xs) then suc here else later

-- `content.replace(sub, replacement)`
unfoldable pub replace : ℕ → Bytes → Bytes → Bytes → Bytes
unfolding starts_with
replace skip sub replacement [] = []
replace (suc skip) sub replacement (x ∷ xs) = replace skip sub replacement xs
replace zero sub replacement (x ∷ xs) =
    let here = replace (length sub - 1) sub replacement xs in
    let later = replace zero sub replacement xs in
    if starts_with sub (x ∷ xs) then replacement ++ here else x ∷ later

-- The visible block with its last line padded by blanks
unfoldable pub padded_replacement : Bytes → Bytes → Bytes
padded_replacement original visible =
    take (length visible - 1) visible
    ++ (replicate (length original - length visible) 32 ++ (10 ∷ []))

-- `struct.pack_into` with the packed field
unfoldable pub packed_into : ℕ → Bytes → Bytes → Result Bytes
packed_into offset field buffer =
    if leb (offset + length field) (length buffer)
    then ok (assign offset (offset + length field) field buffer)
    else err struct_error

pub data SystemState : Type 0 where
  stock_unpatched known_bashrc_patched unknown_state : SystemState

module _ (sha256 : Bytes → Text) where
  unfoldable pub patch_bashrc : Bytes → Result Bytes
  patch_bashrc original = do
    validate (equal (sha256 original) original_bashrc_sha256) non_stock_bashrc
    validate (count 0 original_copy_block original == 1) no_single_copy_block
    validate (leb (length patched_copy_block_visible) (length original_copy_block))
        replacement_too_large
    let replacement = padded_replacement original_copy_block patched_copy_block_visible
    let patched = replace 0 original_copy_block replacement original
    validate (length patched == length original) changed_bashrc_length
    validate (equal (sha256 patched) patched_bashrc_sha256) bad_patched_bashrc
    ok patched

  module _ (crc32 : Bytes → ℕ) (compress : Bytes → Bytes) (decompress : Bytes → Option Bytes) where
    -- `lzma.decompress`, where `none` is a LZMAError
    abbrev pub fragment_of : Option Bytes → Result Bytes
    fragment_of none = err (validation_error bad_fragment_data)
    fragment_of (some fragment) = ok fragment

    -- The fragment with the patched script
    unfoldable pub patched_fragment : Bytes → Result Bytes
    patched_fragment fragment = do
      let bashrc_end : ℕ = bashrc_fragment_offset + 5699
      patched_bashrc ← patch_bashrc (slice bashrc_fragment_offset bashrc_end fragment)
      ok (take bashrc_fragment_offset fragment ++ (patched_bashrc ++ drop bashrc_end fragment))

    -- The window with the new stream, and with its size in the field of the fragment table
    unfoldable pub patched_window : Bytes → Bytes → Result Bytes
    patched_window stock_window patched_xz = do
      let fragment_relative : ℕ = squashfs_fragment_start - patch_start
      let size_relative : ℕ = squashfs_fragment_size_field - patch_start
      size_field ← pack_u32 (pos (length patched_xz))
      packed_into size_relative size_field
          (assign fragment_relative (fragment_relative + length patched_xz) patched_xz stock_window)

    unfoldable pub build_system_patch_window : Bytes → Result Bytes
    unfolding patched_fragment patched_window
    build_system_patch_window image = do
      let stock_window = slice patch_start patch_end image
      validate (equal (sha256 stock_window) original_patch_sha256) non_stock_window
      let original_xz =
          slice squashfs_fragment_start (squashfs_fragment_start + original_fragment_xz_size) image
      validate (equal (sha256 original_xz) original_fragment_xz_sha256) non_stock_fragment
      fragment ← fragment_of (decompress original_xz)
      validate
          (length fragment == fragment_uncompressed_size
            && equal (sha256 fragment) original_fragment_sha256)
          unaudited_fragment
      patched ← patched_fragment fragment
      validate (equal (sha256 patched) patched_fragment_sha256) bad_patched_fragment
      patched_xz ← build_squashfs_xz_fragment crc32 compress patched
      validate
          (length patched_xz == patched_fragment_xz_size
            && equal (sha256 patched_xz) patched_fragment_xz_sha256)
          unaudited_xz
      result ← patched_window stock_window patched_xz
      validate (equal (sha256 result) patched_patch_sha256) unaudited_window
      ok result

    unfoldable pub apply_system_patch : Bytes → SystemState → Result (Bytes × Bool)
    apply_system_patch image known_bashrc_patched = ok (slice patch_start patch_end image, false)
    apply_system_patch image stock_unpatched = do
      window ← build_system_patch_window image
      ok (window, true)
    apply_system_patch image unknown_state = err (validation_error unpatchable_state)
