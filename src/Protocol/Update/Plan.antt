-- ===== src/Protocol/Update/Plan.antt =====
-- What `build_update_blob` accepts, and what the blob and the plan hold.
use cc2_camera_fix.Base.{
  ℕ, zero, suc, ◌+◌, ◌≤◌, ◌<◌, ◌∷◌, ◌++◌, ◌≡◌, ◌↔◌, refl, sym, ap, ◌∙◌, arith, append_assoc,
}
use cc2_camera_fix.Base.Tests.{lt→ltb, le→leb}
use cc2_camera_fix.Base.Lists.{
  length, take, drop, replicate, slice, length-append, take-append, drop-append, length-replicate,
}
use cc2_camera_fix.Base.Int.{ℤ, pos, negsuc}
use cc2_camera_fix.Base.Result.{ok, ok_injective, >>=-eq-ok}
use cc2_camera_fix.Base.Bytes.{Bytes, le32, unpack_u32, le32-value}
use cc2_camera_fix.Protocol.Boot.{boot_data_size}
use cc2_camera_fix.Protocol.Update.Chunks.{receive, receive-iter_data_frames}
use cc2_camera_fix.Protocol.Update.{
  UpdatePlan, build_update_blob, validate_flash_range, data_frames_from, iter_data_frames,
  range_length, ceil_div, natural, hex, flash_size,
}

abbrev blob_of : Bytes → ℕ → Bytes → Bytes
blob_of digest offset image =
    0 ∷ 0 ∷ 0 ∷ 0 ∷ ((le32 offset ++ (le32 (length image) ++ (digest ++ replicate 100 0))) ++ image)

length-data_frames_from : (n k : ℕ) (blob : Bytes) → length (data_frames_from n k blob) ≡ n
unfolding data_frames_from
length-data_frames_from zero k blob = refl
length-data_frames_from (suc n) k blob = ap suc (length-data_frames_from n (k + 1) blob)

pub ceil_div-range : (n : ℕ) → ceil_div n boot_data_size ≡ range_length n boot_data_size
unfolding ceil_div
ceil_div-range n = ground arith

-- The number of data frames is the rounded-up quotient that the plan announces.
pub length-iter_data_frames :
    (blob : Bytes) → length (iter_data_frames blob) ≡ ceil_div (length blob) boot_data_size
unfolding iter_data_frames
length-iter_data_frames blob =
    length-data_frames_from (range_length (length blob) boot_data_size) 0 blob
    ∙ sym (ceil_div-range (length blob))

-- A flash range: not empty, from a nonnegative offset, and within the 8 MiB.
abbrev pub InFlash : ℤ → ℕ → Type 0
InFlash (pos offset) size = (0 < size) × (offset + size ≤ flash_size)
InFlash (negsuc n) size = ⊥

in_flash :
    (offset : ℤ) (size : ℕ) {u : Unit {0}}
    → validate_flash_range offset (pos size) ≡ ok u
    → InFlash offset size
unfolding validate_flash_range
in_flash (pos offset) size h = ground arith
in_flash (negsuc n) size h = cc

plan_of : (Bytes → Bytes) → Bytes → ℕ → ℕ → UpdatePlan
plan_of md5 image offset transfer = record {
  flash_offset = offset;
  image_size = length image;
  transfer_size = transfer;
  image_md5 = hex (md5 image);
  packet_count = ceil_div transfer boot_data_size;
  packet_payload_size = boot_data_size;
  packets_per_ack = 1;
}

-- What the bootloader reads in the blob, and what the plan tells of it.
pub record IsBlob (md5 : Bytes → Bytes) (image : Bytes) (flash_offset : ℤ) (blob : Bytes)
    (plan : UpdatePlan) : Type 0 where
  pub offset_field : unpack_u32 blob 4 ≡ ok (natural flash_offset)
  pub size_field : unpack_u32 blob 8 ≡ ok (length image)
  pub digest_field : slice 12 28 blob ≡ md5 image
  pub image_part : drop 128 blob ≡ image
  pub transfer_size : plan.transfer_size ≡ length image + 128
  pub blob_size : length blob ≡ plan.transfer_size
  pub packets : plan.packet_count ≡ length (iter_data_frames blob)
  pub payload_size : plan.packet_payload_size ≡ boot_data_size
  pub acks : plan.packets_per_ack ≡ 1
  pub received : receive 0 (iter_data_frames blob) ≡ ok blob

module _ (md5 : Bytes → Bytes) (image : Bytes) (digest_size : length (md5 image) ≡ 16) where
  length-blob : (offset : ℕ) → length (blob_of (md5 image) offset image) ≡ length image + 128
  length-blob offset = omega (
    arith,
    digest_size,
    length-append (md5 image ++ replicate 100 0) image,
    length-append (md5 image) (replicate {A = ℕ} 100 0),
    length-replicate {A = ℕ} 100 0,
  )

  built-InFlash :
      (flash_offset : ℤ) {out : Bytes × UpdatePlan}
      → build_update_blob md5 image flash_offset ≡ ok out
      → InFlash flash_offset (length image)
  unfolding build_update_blob
  built-InFlash flash_offset h =
      let (u, valid, _) = >>=-eq-ok (validate_flash_range flash_offset (pos (length image))) _ h in
      in_flash flash_offset (length image) valid

  build-blob :
      (offset : ℕ)
      → InFlash (pos offset) (length image)
      → build_update_blob md5 image (pos offset)
        ≡ ok (blob_of (md5 image) offset image, plan_of md5 image offset (length image + 128))
  unfolding build_update_blob plan_of
  build-blob offset (positive, fits) =
      rw
        (
          lt→ltb 0 (length image) positive,
          le→leb (offset + length image) flash_size fits,
          lt→ltb offset 4294967296 (omega arith),
          lt→ltb (length image) 4294967296 (omega arith),
        )
        (ap (λ transfer. ok (blob_of (md5 image) offset image, plan_of md5 image offset transfer))
          (length-blob offset))

  blob_of-IsBlob :
      (offset : ℕ)
      → InFlash (pos offset) (length image)
      → IsBlob md5 image
          (pos offset)
          (blob_of (md5 image) offset image)
          (plan_of md5 image offset (length image + 128))
  unfolding plan_of natural
  blob_of-IsBlob offset (positive, fits) = record {
    offset_field = ap ok (le32-value offset (omega arith));
    size_field = ap ok (le32-value (length image) (omega arith));
    digest_field =
        ap (take 16) (append_assoc (md5 image) (replicate 100 0) image)
        ∙ take-append 16 (md5 image) (replicate 100 0 ++ image) (sym digest_size);
    image_part = drop-append 116 (md5 image ++ replicate 100 0) image (
        omega (
          arith,
          digest_size,
          length-append (md5 image) (replicate {A = ℕ} 100 0),
          length-replicate {A = ℕ} 100 0,
        ));
    transfer_size = refl;
    blob_size = length-blob offset;
    packets =
        ap (λ n. ceil_div n boot_data_size) (sym (length-blob offset))
        ∙ sym (length-iter_data_frames (blob_of (md5 image) offset image));
    payload_size = refl;
    acks = refl;
    received =
        receive-iter_data_frames (blob_of (md5 image) offset image)
          (omega (arith, length-blob offset));
  }

  -- A blob is built exactly if the image is not empty and the range that it would occupy lies
  -- within the 8 MiB of flash, where the digest has 16 bytes.
  pub build_update_blob-accepts :
      (flash_offset : ℤ)
      → ((blob : Bytes) × (plan : UpdatePlan) × (build_update_blob md5 image flash_offset
            ≡ ok (blob, plan)))
        ↔ InFlash flash_offset (length image)
  build_update_blob-accepts flash_offset =
      (λ (blob, plan, h). built-InFlash flash_offset h, outside flash_offset)
    where
      outside :
          (flash_offset : ℤ)
          → InFlash flash_offset (length image)
          → (blob : Bytes) × (plan : UpdatePlan) × (build_update_blob md5 image flash_offset
              ≡ ok (blob, plan))
      outside (pos offset) f = (_, _, build-blob offset f)
      outside (negsuc n) f = absurd f

  -- With a digest of 16 bytes, the header of every blob that is built holds the offset, the size
  -- and the digest, the image follows at byte 128, and the plan announces the blob's size, the
  -- packet size, one packet for each acknowledgement, and the number of the data frames, from which
  -- a receiver gets the blob back.
  pub build_update_blob-IsBlob :
      (flash_offset : ℤ) (blob : Bytes) (plan : UpdatePlan)
      → build_update_blob md5 image flash_offset ≡ ok (blob, plan)
      → IsBlob md5 image flash_offset blob plan
  build_update_blob-IsBlob (pos offset) blob plan h =
      let f = built-InFlash (pos offset) h in
      let e = ok_injective (sym h ∙ build-blob offset f) in
      let e1 = ap (λ (p : Bytes × UpdatePlan). p.0) e in
      let e2 = ap (λ (p : Bytes × UpdatePlan). p.1) e in rw (e1, e2) (blob_of-IsBlob offset f)
  build_update_blob-IsBlob (negsuc n) blob plan h = absurd (built-InFlash (negsuc n) h)
