-- ===== src/Tests/Devices.antt =====
-- Runs of the transport on a device that answers from a list of replies.
use cc2_camera_fix.Base.{◌≡◌, inl, refl, true, none, some, List, [], ◌∷◌}
use cc2_camera_fix.Base.Lists.{length, replicate}
use cc2_camera_fix.Base.Int.{pos}
use cc2_camera_fix.Base.Result.{Result, Exn, ok, err, os_error}
use cc2_camera_fix.Base.Bytes.{Bytes, equal}
use cc2_camera_fix.Protocol.Normal.Layout.{layout}
use cc2_camera_fix.Protocol.Boot.{
  parse_boot_frame, build_boot_frame, additive_checksum, sum, to_boot_hid_report,
  from_boot_hid_report, strip_report_id,
}
use cc2_camera_fix.Protocol.Boot.Layout.{sealed}
use cc2_camera_fix.Protocol.Update.{
  UpdatePlan, build_metadata_frame, iter_data_frames, data_frames_from, data_frame,
}
use cc2_camera_fix.Commands.BootRequests.{
  build_boot_metadata_request, decode_boot_ack, decode_boot_terminal_status,
  coerce_device_boot_frame,
}
use cc2_camera_fix.Hid.{Hid, done}
use cc2_camera_fix.Hid.Sends.{Sends, events}
use cc2_camera_fix.HidTransport.{
  restore_blob, with_handle, open_handle, write_exact, read, restore_frames, check_reply,
  packet_timeout, upload_normal_file, start_adb_through_upload_command,
}
use cc2_camera_fix.HidTransport.Restore.{restore_reports, restore_blob-Sends}
use cc2_camera_fix.HidTransport.Acknowledged.{IsRestored, restore_blob-IsRestored}
use cc2_camera_fix.HidTransport.Uploads.{
  upload_reports, upload_normal_file-Sends, upload_normal_file-rejects,
}
use cc2_camera_fix.HidTransport.Start.{Launches, start_adb-Launches}

-- The next reply, where an empty list is a lost device.
pub next_reply : List Bytes → Result Bytes × List Bytes
next_reply [] = (err os_error, [])
next_reply (reply ∷ replies) = (ok reply, replies)

abbrev pub answering : Hid (List Bytes) (Unit {0})
answering = record {
  importable = true;
  enumerate_all = λ s. (ok [], s);
  enumerate = λ vid pid s. (
    ok (
        record { vendor_id = some vid; product_id = some pid; serial_number = none; path = [] }
        ∷ []),
    s,
  );
  device = λ s. (ok tt, s);
  open_path = λ d path s. (ok tt, s);
  close = λ d s. (ok tt, s);
  write = λ d report s. (ok (pos (length report)), s);
  read = λ d size timeout s. next_reply s;
  monotonic = λ s. (0, s);
  sleep = λ n s. s;
}

abbrev blob : Bytes
blob = 1 ∷ 2 ∷ 3 ∷ []

abbrev plan : UpdatePlan
plan = record {
  flash_offset = 0;
  image_size = 3;
  transfer_size = 3;
  image_md5 = [];
  packet_count = 1;
  packet_payload_size = 3060;
  packets_per_ack = 1;
}

-- The acknowledgement of the metadata, and the terminal status of success.
abbrev replies : List Bytes
replies = (1 ∷ sealed 0x81 2 (0 ∷ 0 ∷ 0 ∷ 0 ∷ [])) ∷ (1 ∷ sealed 0x81 5 (1 ∷ [])) ∷ []

restored :
    restore_blob answering blob plan none replies
    ≡ done (ok tt) (events (restore_blob answering blob plan none replies)) []
unfolding restore_blob with_handle open_handle write_exact read restore_frames check_reply
    packet_timeout build_boot_metadata_request build_metadata_frame build_boot_frame
    additive_checksum sum equal to_boot_hid_report from_boot_hid_report strip_report_id
    parse_boot_frame decode_boot_ack decode_boot_terminal_status coerce_device_boot_frame
    iter_data_frames data_frames_from data_frame replicate next_reply
restored = refl

restore_blob-IsRestored_example :
    IsRestored blob plan (events (restore_blob answering blob plan none replies))
restore_blob-IsRestored_example = restore_blob-IsRestored answering blob plan none replies restored

restore_blob-Sends_example :
    Sends (restore_reports blob plan) (restore_blob answering blob plan none replies)
restore_blob-Sends_example = restore_blob-Sends answering blob plan none replies

upload_normal_file-Sends_example :
    Sends (upload_reports (47 ∷ 97 ∷ []) blob) (upload_normal_file answering (47 ∷ 97 ∷ []) blob [])
upload_normal_file-Sends_example = upload_normal_file-Sends answering (47 ∷ 97 ∷ []) blob []

upload_normal_file-rejects_example :
    (e : Exn) × (upload_normal_file answering (47 ∷ 97 ∷ []) [] [] ≡ done (err e) [] [])
upload_normal_file-rejects_example =
    upload_normal_file-rejects answering (47 ∷ 97 ∷ []) [] [] (inl refl)

-- The echoes of the four requests, where the commit is answered with status 1
abbrev echoes : List Bytes
echoes =
    layout 0x3000 1 0 [] ∷ layout 0x3110 1 0 [] ∷ layout 0x3200 1 0 [] ∷ layout 0x3300 1 1 [] ∷ []

start_adb-Launches_example : Launches (start_adb_through_upload_command answering echoes)
start_adb-Launches_example = start_adb-Launches answering echoes
