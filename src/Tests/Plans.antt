-- ===== src/Tests/Plans.antt =====
-- Runs on blobs, plans and images.
use cc2_camera_fix.Base.{ℕ, zero, suc, ◌≡◌, ◌≢◌, ◌↔◌, refl, arith, false, [], ◌∷◌, ◌++◌}
use cc2_camera_fix.Base.Lists.{length, replicate, length-append, length-replicate}
use cc2_camera_fix.Base.Int.{pos}
use cc2_camera_fix.Base.Result.{ok, err, protocol_error, persistent_flag}
use cc2_camera_fix.Base.Bytes.{Bytes, IsBytes}
use cc2_camera_fix.Protocol.Boot.{parse_boot_frame}
use cc2_camera_fix.Protocol.Boot.Layout.{sealed}
use cc2_camera_fix.Protocol.Boot.RoundTrip.{frame_of}
use cc2_camera_fix.Protocol.Normal.{upgrade_flag_payload, upgrade_mode_hid}
use cc2_camera_fix.Protocol.Update.{
  UpdatePlan, build_update_blob, iter_data_frames, validate_full_restore_image, flash_size,
}
use cc2_camera_fix.Protocol.Update.Chunks.{receive, receive-iter_data_frames}
use cc2_camera_fix.Protocol.Update.Plan.{
  InFlash, IsBlob, build_update_blob-accepts, build_update_blob-IsBlob,
}
use cc2_camera_fix.Protocol.Update.Restore.{
  flag_slot, flag_bytes, validate_full_restore_image_lem, restore-upgrade_flags,
}
use cc2_camera_fix.Commands.BootRequests.{build_boot_metadata_request}
use cc2_camera_fix.Commands.BootRequests.Metadata.{
  IsAnnounced, metadata, build_boot_metadata_request-accepts, parse-build_boot_metadata_request,
  build_boot_metadata_request-blob,
}

-- A digest of sixteen bytes: the length of the input, and zeros.
abbrev length_digest : Bytes → Bytes
length_digest bytes = length bytes ∷ 0 ∷ 0 ∷ 0 ∷ 0 ∷ 0 ∷ 0 ∷ 0 ∷ 0 ∷ 0 ∷ 0 ∷ 0 ∷ 0 ∷ 0 ∷ 0 ∷ 0 ∷ []

abbrev small_image : Bytes
small_image = 1 ∷ 2 ∷ 3 ∷ []

receive-iter_data_frames_example : receive 0 (iter_data_frames small_image) ≡ ok small_image
receive-iter_data_frames_example = receive-iter_data_frames small_image (omega arith)

build_update_blob-accepts_example :
    ((blob : Bytes) × (plan : UpdatePlan) × (build_update_blob length_digest small_image
          (pos 0x7FFFFD)
        ≡ ok (blob, plan)))
    ↔ InFlash (pos 0x7FFFFD) 3
build_update_blob-accepts_example =
    build_update_blob-accepts length_digest small_image refl (pos 0x7FFFFD)

built :
    (blob : Bytes) × (plan : UpdatePlan) × (build_update_blob length_digest small_image
        (pos 0x7FFFFD)
      ≡ ok (blob, plan))
built = build_update_blob-accepts_example.1 (omega arith, omega arith)

build_update_blob-IsBlob_example : IsBlob length_digest small_image (pos 0x7FFFFD) built.0 built.1
build_update_blob-IsBlob_example =
    build_update_blob-IsBlob length_digest small_image refl (pos 0x7FFFFD) built.0 built.1 built.2

build_boot_metadata_request-blob_example :
    build_boot_metadata_request built.1 (pos 7) ≡ ok (sealed 0x80 1 (metadata built.1 7))
build_boot_metadata_request-blob_example =
    build_boot_metadata_request-blob length_digest small_image built.0 (pos 0x7FFFFD) built.1 7 refl
      built.2 (omega arith)

abbrev one_packet : UpdatePlan
one_packet = record {
  flash_offset = 0;
  image_size = 1;
  transfer_size = 129;
  image_md5 = [];
  packet_count = 1;
  packet_payload_size = 3060;
  packets_per_ack = 1;
}

build_boot_metadata_request-accepts_example :
    ((frame : Bytes) × (build_boot_metadata_request one_packet (pos 7) ≡ ok frame))
    ↔ IsAnnounced one_packet (pos 7)
build_boot_metadata_request-accepts_example = build_boot_metadata_request-accepts one_packet (pos 7)

announced : (frame : Bytes) × (build_boot_metadata_request one_packet (pos 7) ≡ ok frame)
announced = build_boot_metadata_request-accepts_example.1 (record {
  version = 7;
  version_is = refl;
  version_fits = omega arith;
  payload_size_pos = omega arith;
  payload_size_fits = omega arith;
  transfer_pos = omega arith;
  transfer_fits = omega arith;
  acks_pos = omega arith;
  acks_fit = omega arith;
  packets = omega arith;
})

parse-build_boot_metadata_request_example :
    parse_boot_frame announced.0 false ≡ ok (frame_of 1 (metadata one_packet 7))
parse-build_boot_metadata_request_example =
    parse-build_boot_metadata_request one_packet 7 announced.0 announced.1

replicate-IsBytes : (n : ℕ) → IsBytes (replicate n 0)
unfolding replicate
replicate-IsBytes zero = tt
replicate-IsBytes (suc n) = (omega arith, replicate-IsBytes n)

-- An image of the whole flash, all zeros.
validate_full_restore_image_lem_example :
    (validate_full_restore_image (replicate 0x800000 0) ≡ ok tt) ↔ (
      (length (replicate {A = ℕ} 0x800000 0) ≡ flash_size)
      × (flag_slot (replicate 0x800000 0) ≢ flag_bytes))
validate_full_restore_image_lem_example =
    validate_full_restore_image_lem (replicate 0x800000 0) (replicate-IsBytes 0x800000)

abbrev hid_flags : Bytes
hid_flags = 0x54 ∷ 0x44 ∷ 0x50 ∷ 0x55 ∷ 0xA1 ∷ 3 ∷ 2 ∷ 1 ∷ []

flags_built : upgrade_flag_payload (pos upgrade_mode_hid) ≡ ok hid_flags
unfolding upgrade_flag_payload
flags_built = refl

restore-upgrade_flags_example :
    validate_full_restore_image (replicate 0x7F8000 0 ++ (hid_flags ++ replicate 0x7FF8 0))
    ≡ err (protocol_error persistent_flag)
restore-upgrade_flags_example =
    restore-upgrade_flags (pos upgrade_mode_hid) hid_flags (replicate 0x7F8000 0)
      (replicate 0x7FF8 0) flags_built (length-replicate {A = ℕ} 0x7F8000 0)
      (omega (
        arith,
        length-append (replicate 0x7F8000 0) (hid_flags ++ replicate 0x7FF8 0),
        length-append hid_flags (replicate 0x7FF8 0),
        length-replicate {A = ℕ} 0x7F8000 0,
        length-replicate {A = ℕ} 0x7FF8 0,
      ))
