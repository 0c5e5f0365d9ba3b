-- ===== src/Commands/BootRequests/Metadata.antt =====
-- The metadata frame announces the plan, and every plan that was built is accepted.
use cc2_camera_fix.Base.{
  ℕ, ◌+◌, ◌-◌, ◌/◌, ◌≤◌, ◌<◌, false, ◌&&◌, ◌≡◌, ◌↔◌, refl, sym, ap, ◌∙◌, arith, [], ◌++◌,
  append-nil,
}
use cc2_camera_fix.Base.Tests.{leb, ◌==◌, ==_iff, leb→le, le→leb, lt→ltb, and-true}
use cc2_camera_fix.Base.Lists.{length}
use cc2_camera_fix.Base.Int.{ℤ, pos, negsuc, between}
use cc2_camera_fix.Base.Result
use cc2_camera_fix.Base.Result.{Result, ok, err, guard, ◌>>=◌, ◌>>◌, guard-eq-ok, ok_injective}
use cc2_camera_fix.Base.Bytes.{Bytes, le16, le32, between-pos}
use cc2_camera_fix.Protocol.Boot.{parse_boot_frame, boot_data_size}
use cc2_camera_fix.Protocol.Boot.Layout.{sealed, build-sealed}
use cc2_camera_fix.Protocol.Boot.RoundTrip.{parse-sealed, frame_of}
use cc2_camera_fix.Protocol.Update.{UpdatePlan, build_update_blob, build_metadata_frame}
use cc2_camera_fix.Protocol.Update.Plan.{
  InFlash, build_update_blob-IsBlob, build_update_blob-accepts, ceil_div-range,
  length-iter_data_frames,
}
use cc2_camera_fix.Protocol.Normal.Accepts.{pos_injective}
use cc2_camera_fix.Commands.BootRequests.{build_boot_metadata_request}

-- The ten bytes of a metadata frame.
abbrev pub metadata : UpdatePlan → ℕ → Bytes
metadata plan version =
    le16 plan.packet_payload_size
    ++ (le32 plan.transfer_size ++ (le16 plan.packets_per_ack ++ le16 version))

-- The plans and versions that are announced.
pub record IsAnnounced (plan : UpdatePlan) (firmware_version : ℤ) : Type 0 where
  pub version : ℕ
  pub version_is : firmware_version ≡ pos version
  pub version_fits : version < 65536
  pub payload_size_pos : 0 < plan.packet_payload_size
  pub payload_size_fits : plan.packet_payload_size ≤ 3060
  pub transfer_pos : 0 < plan.transfer_size
  pub transfer_fits : plan.transfer_size < 4294967296
  pub acks_pos : 0 < plan.packets_per_ack
  pub acks_fit : plan.packets_per_ack < 65536
  pub packets :
      plan.packet_count
      ≡ (plan.transfer_size + plan.packet_payload_size - 1) / plan.packet_payload_size

module _ (plan : UpdatePlan) where
  metadata_frame :
      (version : ℕ)
      → version < 65536
      → plan.packet_payload_size ≤ 3060
      → plan.transfer_size < 4294967296
      → plan.packets_per_ack < 65536
      → build_metadata_frame plan (pos version) ≡ ok (sealed 0x80 1 (metadata plan version))
  unfolding build_metadata_frame
  metadata_frame version v p t a =
      rw
        (
          lt→ltb plan.packet_payload_size 65536 (omega arith),
          lt→ltb plan.transfer_size 4294967296 t,
          lt→ltb plan.packets_per_ack 65536 a,
          lt→ltb version 65536 v,
        )
        (build-sealed (pos 1) (metadata plan version) (omega arith))

  announced :
      (firmware_version : ℤ) (a : IsAnnounced plan firmware_version)
      → build_boot_metadata_request plan firmware_version
        ≡ ok (sealed 0x80 1 (metadata plan a.version))
  unfolding build_boot_metadata_request
  announced firmware_version a =
      rw
        (
          a.version_is,
          le→leb 1 plan.packet_payload_size a.payload_size_pos,
          le→leb plan.packet_payload_size 3060 a.payload_size_fits,
          le→leb 1 plan.transfer_size a.transfer_pos,
          le→leb plan.transfer_size 0xFFFFFFFF (omega (arith, a.transfer_fits)),
          le→leb 1 plan.packets_per_ack a.acks_pos,
          le→leb plan.packets_per_ack 0xFFFF (omega (arith, a.acks_fit)),
          le→leb 0 a.version (omega arith),
          le→leb a.version 0xFFFF (omega (arith, a.version_fits)),
          (==_iff plan.packet_count
                ((plan.transfer_size + plan.packet_payload_size - 1) / plan.packet_payload_size)).1
              a.packets,
        )
        (metadata_frame a.version a.version_fits a.payload_size_fits a.transfer_fits a.acks_fit)

  inverse :
      (firmware_version : ℤ) (frame : Bytes)
      → build_boot_metadata_request plan firmware_version ≡ ok frame
      → IsAnnounced plan firmware_version
  unfolding build_boot_metadata_request
  inverse firmware_version frame h =
      let (g1, h1) =
        guard-eq-ok (leb 1 plan.packet_payload_size && leb plan.packet_payload_size boot_data_size)
          Result.metadata_payload_size _ h in
      let (g2, h2) =
        guard-eq-ok (leb 1 plan.transfer_size && leb plan.transfer_size 0xFFFFFFFF)
          Result.metadata_transfer_size _ h1 in
      let (g3, h3) =
        guard-eq-ok (leb 1 plan.packets_per_ack && leb plan.packets_per_ack 0xFFFF)
          Result.metadata_acks _ h2 in
      let (g4, h4) = guard-eq-ok (between 0 0xFFFF firmware_version) Result.metadata_version _ h3 in
      let expected =
        (plan.transfer_size + plan.packet_payload_size - 1) / plan.packet_payload_size in
      let (g5, h5) =
        guard-eq-ok (plan.packet_count == expected) Result.metadata_packet_count _ h4 in
      let (p1, p2) = and-true (leb 1 plan.packet_payload_size) _ g1 in
      let (t1, t2) = and-true (leb 1 plan.transfer_size) _ g2 in
      let (a1, a2) = and-true (leb 1 plan.packets_per_ack) _ g3 in
      let (version, is, _, fits) = between-pos 0 0xFFFF firmware_version g4 in
      record {
        version = version;
        version_is = is;
        version_fits = omega arith;
        payload_size_pos = leb→le 1 plan.packet_payload_size p1;
        payload_size_fits = leb→le plan.packet_payload_size 3060 p2;
        transfer_pos = leb→le 1 plan.transfer_size t1;
        transfer_fits = omega (arith, leb→le plan.transfer_size 0xFFFFFFFF t2);
        acks_pos = leb→le 1 plan.packets_per_ack a1;
        acks_fit = omega (arith, leb→le plan.packets_per_ack 0xFFFF a2);
        packets = (==_iff plan.packet_count expected).0 g5;
      }

  -- A metadata request is built exactly for a plan whose sizes fit their fields and are not zero,
  -- whose packets fit a HID report and are as many as the transfer needs, with a 16-bit version.
  pub build_boot_metadata_request-accepts :
      (firmware_version : ℤ)
      → ((frame : Bytes) × (build_boot_metadata_request plan firmware_version ≡ ok frame))
        ↔ IsAnnounced plan firmware_version
  build_boot_metadata_request-accepts firmware_version =
      (λ (frame, h). inverse firmware_version frame h, λ a. (_, announced firmware_version a))

  -- Every metadata request that is built is a host frame of type 1 that carries the packet size,
  -- the transfer size, the packets for each acknowledgement and the version.
  pub parse-build_boot_metadata_request :
      (version : ℕ) (frame : Bytes)
      → build_boot_metadata_request plan (pos version) ≡ ok frame
      → parse_boot_frame frame false ≡ ok (frame_of 1 (metadata plan version))
  parse-build_boot_metadata_request version frame h =
      let a = inverse (pos version) frame h in
      let e : frame ≡ sealed 0x80 1 (metadata plan a.version) =
        ok_injective (sym h ∙ announced (pos version) a) in
      let v = pos_injective version a.version a.version_is in
      rw (e, v)
        (rw (← append-nil (sealed 0x80 1 (metadata plan a.version)))
          (parse-sealed false 1 (metadata plan a.version) [] (omega arith)))

-- The sizes of an image that was built into a blob.
image_fits :
    (flash_offset : ℤ) (size : ℕ) → InFlash flash_offset size → (0 < size) × (size ≤ 0x800000)
image_fits (pos offset) size (positive, fits) = (positive, omega arith)
image_fits (negsuc n) size f = absurd f

-- With a digest of 16 bytes, and any 16-bit version, the metadata request for the plan of every
-- blob that is built is returned: the sealed host frame of type 1 with the plan's metadata.
pub build_boot_metadata_request-blob :
    (md5 : Bytes → Bytes) (image blob : Bytes) (flash_offset : ℤ) (plan : UpdatePlan) (version : ℕ)
    → length (md5 image) ≡ 16
    → build_update_blob md5 image flash_offset ≡ ok (blob, plan)
    → version < 65536
    → build_boot_metadata_request plan (pos version) ≡ ok (sealed 0x80 1 (metadata plan version))
build_boot_metadata_request-blob md5 image blob flash_offset plan version digest h v =
    let b = build_update_blob-IsBlob md5 image digest flash_offset blob plan h in
    let (positive, fits) =
      image_fits flash_offset (length image)
        ((build_update_blob-accepts md5 image digest flash_offset).0 (blob, plan, h)) in
    let count : plan.packet_count ≡ (plan.transfer_size + boot_data_size - 1) / boot_data_size =
      b.packets
      ∙ length-iter_data_frames blob
      ∙ ceil_div-range (length blob)
      ∙ ap (λ n. (n + boot_data_size - 1) / boot_data_size) b.blob_size in
    let size = b.payload_size in
    let acks = b.acks in
    let transfer = b.transfer_size in
    announced plan (pos version) (record {
      version = version;
      version_is = refl;
      version_fits = v;
      payload_size_pos = omega arith;
      payload_size_fits = omega arith;
      transfer_pos = omega arith;
      transfer_fits = omega arith;
      acks_pos = omega arith;
      acks_fit = omega arith;
      packets = count ∙ ap (λ s. (plan.transfer_size + s - 1) / s) (sym size);
    })
