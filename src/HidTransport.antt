-- ===== src/HidTransport.antt =====
-- The transport of both updater stages, cc2camera/hid_transport.py.
pub mod Exchange
pub mod Replies
pub mod Attempts
pub mod Start
pub mod Uploads
pub mod Acknowledged
pub mod Restore
pub mod Wait
use cc2_camera_fix.Base.{
  ℕ, zero, suc, ◌+◌, ◌-◌, ◌*◌, Bool, true, false, not, ◌&&◌, ◌||◌, Option, none, some, List, [],
  ◌∷◌,
}
use cc2_camera_fix.Base.Tests.{leb, ltb, ◌==◌, if◌then◌else◌}
use cc2_camera_fix.Base.Lists.{length, slice}
use cc2_camera_fix.Base.Int.{ℤ, pos, negsuc}
use cc2_camera_fix.Base.Result
use cc2_camera_fix.Base.Result.{Result, Exn, ok, err, protocol_error, os_error, checked}
use cc2_camera_fix.Base.Bytes.{Bytes}
use cc2_camera_fix.Base.Text.{Text}
use cc2_camera_fix.Protocol.Normal.{
  NormalFrame, parse_normal_report, normal_report_size, upgrade_mode_hid,
}
use cc2_camera_fix.Protocol.Boot.{
  BootFrame, boot_report_size, to_boot_hid_report, from_boot_hid_report,
}
use cc2_camera_fix.Protocol.Update.{UpdatePlan, iter_data_frames, range_length}
use cc2_camera_fix.Commands.Numbers.{value}
use cc2_camera_fix.Commands.Numbers
use cc2_camera_fix.Commands.Requests.{
  Value, text, bytes_like, build_upload_initialize_request, build_upload_target_request,
  build_upload_data_request, build_upload_commit_request, build_adb_upload_command_target_request,
  build_upgrade_request,
}
use cc2_camera_fix.Commands.BootRequests.{
  parsed, build_boot_metadata_request, decode_boot_ack, decode_boot_terminal_status,
}
use cc2_camera_fix.Hid.{
  Hid, DeviceInfo, Event, wrote, received, Outcome, done, lift, call, before, and_then, ◌>>=◌, ◌>>◌,
  require, finally,
}

abbrev pub adb_upload_command_content : Bytes
adb_upload_command_content = 10 ∷ []

abbrev pub normal_upload_chunk_size : ℕ
normal_upload_chunk_size = normal_report_size - 14

abbrev pub normal_upload_capacity : ℕ
normal_upload_capacity = 0x01000200

-- The IDs of the two devices in cc2camera/protocol.py.
abbrev pub normal_vid : ℕ
normal_vid = 0xA108

abbrev pub normal_pid : ℕ
normal_pid = 0x2240

abbrev pub boot_vid : ℕ
boot_vid = 0xA108

abbrev pub boot_hid_pid : ℕ
boot_hid_pid = 0xFF08

-- `item.get(key) == n`
abbrev has_id : Option ℕ → ℕ → Bool
has_id none n = false
has_id (some m) n = m == n

is_expected : DeviceInfo → Bool
is_expected item =
    (has_id item.vendor_id normal_vid && has_id item.product_id normal_pid)
    || (has_id item.vendor_id boot_vid && has_id item.product_id boot_hid_pid)

filter_expected : List DeviceInfo → List DeviceInfo
unfolding is_expected
filter_expected [] = []
filter_expected (item ∷ items) =
    if is_expected item then item ∷ filter_expected items else filter_expected items

-- The parts of `content`, from the byte `start`, in `count` steps of the range.
unfoldable pub chunks_from : ℕ → ℕ → Bytes → List Bytes
chunks_from zero start content = []
chunks_from (suc count) start content =
    slice start (start + normal_upload_chunk_size) content
    ∷ chunks_from count (start + normal_upload_chunk_size) content

unfoldable pub chunks_of : Bytes → List Bytes
unfolding chunks_from
chunks_of content = chunks_from (range_length (length content) normal_upload_chunk_size) 0 content

-- `count in (n, n - 1)`
abbrev pub is_full : ℤ → ℕ → Bool
is_full (pos count) n = count == n || count + 1 == n
is_full (negsuc count) n = count == 0 && n == 0

-- The classes of `except (ProtocolError, OSError)`
abbrev pub is_caught : Exn → Bool
is_caught (protocol_error reason) = true
is_caught os_error = true
is_caught _ = false

-- The rest of the turn for a packet, from the decoded report on.
unfoldable pub check_reply : UpdatePlan → ℕ → BootFrame → Result (Unit {0})
check_reply plan sequence reply =
    if sequence + 1 == plan.packet_count
    then checked (decode_boot_terminal_status (parsed reply)) (λ passed. passed) Result.md5_rejected
    else checked (decode_boot_ack (parsed reply)) (λ acknowledged. acknowledged == sequence + 1)
        Result.wrong_packet_requested

unfoldable pub packet_timeout : UpdatePlan → ℕ → ℕ
packet_timeout plan sequence = if sequence + 1 == plan.packet_count then 120000 else 10000

module _ {S D : Type 0} (hid : Hid S D) where
  abbrev pub hid_module : S → Outcome S (Unit {0})
  hid_module = require hid.importable Result.hid_not_loaded

  unfoldable pub enumerate_hid : S → Outcome S (List DeviceInfo)
  enumerate_hid = hid_module >> call hid.enumerate_all

  unfoldable pub expected_devices : S → Outcome S (List DeviceInfo)
  unfolding enumerate_hid filter_expected
  expected_devices = do items ← enumerate_hid; lift (ok (filter_expected items))

  abbrev first_path : List DeviceInfo → Bytes
  first_path [] = []
  first_path (item ∷ items) = item.path

  -- `HidHandle(vid, pid)`
  unfoldable pub open_handle : ℕ → ℕ → S → Outcome S D
  open_handle vid pid = do
    hid_module
    found ← call (hid.enumerate vid pid)
    require (length found == 1) Result.hid_match_count
    opened ← call hid.device
    call (hid.open_path opened (first_path found))
    lift (ok opened)

  -- `with HidHandle(vid, pid) as handle: body(handle)`
  unfoldable pub with_handle : ℕ → ℕ → (D → S → Outcome S (Unit {0})) → S → Outcome S (Unit {0})
  with_handle vid pid body = do
    handle ← open_handle vid pid
    finally (body handle) (call (hid.close handle))

  abbrev device_write : D → Bytes → S → Outcome S ℤ
  device_write handle report s =
      done (hid.write handle report s).0 (wrote report (hid.write handle report s).0 ∷ [])
        (hid.write handle report s).1

  -- `len(report)` or one byte less, which leaves out the report ID
  unfoldable pub write_exact : D → Bytes → S → Outcome S (Unit {0})
  write_exact handle report = do
    count ← device_write handle report
    require (is_full count (length report)) Result.short_hid_write

  abbrev pub note : ℕ → Outcome S Bytes → Outcome S Bytes
  note timeout (done (ok reply) es s) = done (ok reply) (received timeout reply ∷ es) s
  note timeout (done (err e) es s) = done (err e) es s

  unfoldable pub read : D → ℕ → ℕ → S → Outcome S Bytes
  read handle size timeout s =
      ((λ t. note timeout (call (hid.read handle size timeout) t)) >>= λ reply. do
        require (not (length reply == 0)) Result.hid_timeout
        lift (ok reply))
        s

  -- The part of an exchange behind the write: the reply to the frame that was sent.
  unfoldable pub answer : D → ℕ → NormalFrame → S → Outcome S NormalFrame
  answer handle timeout sent = do
    reply ← read handle normal_report_size timeout
    response ← lift (parse_normal_report reply)
    require (response.command == sent.command) Result.wrong_echo
    require (response.status == 0) Result.rejected_status
    lift (ok response)

  unfoldable pub exchange_normal : D → Bytes → ℕ → S → Outcome S NormalFrame
  exchange_normal handle request timeout = do
    sent ← lift (parse_normal_report request)
    write_exact handle request
    answer handle timeout sent

  unfoldable pub upload_chunks : D → ℕ → ℕ → List Bytes → S → Outcome S (Unit {0})
  upload_chunks handle count sequence [] = lift (ok tt)
  upload_chunks handle count sequence (chunk ∷ chunks) = do
    request ←
        lift (build_upload_data_request (pos sequence) (bytes_like chunk) (sequence + 1 == count))
    exchange_normal handle request 5000
    upload_chunks handle count (sequence + 1) chunks

  unfoldable pub upload_normal_file : Text → Bytes → S → Outcome S (Unit {0})
  upload_normal_file path content = do
    require (not (length content == 0)) Result.empty_upload
    require (leb (length content) normal_upload_capacity) Result.upload_too_large
    initialize_request ← lift build_upload_initialize_request
    target_request ←
        lift
          (build_upload_target_request (pos (value Numbers.upload_target_3110)) (some (text path)))
    with_handle normal_vid normal_pid (λ handle. do
      exchange_normal handle initialize_request 5000
      exchange_normal handle target_request 5000
      let chunks = chunks_of content
      upload_chunks handle (length chunks) 0 chunks
      commit_request ← lift build_upload_commit_request
      exchange_normal handle commit_request 5000
      lift (ok tt))

  -- `try: m` where the two classes are dropped
  abbrev pub catching : Outcome S NormalFrame → Outcome S (Unit {0})
  catching (done (ok frame) es s) = done (ok tt) es s
  catching (done (err e) es s) = if is_caught e then done (ok tt) es s else done (err e) es s

  unfoldable pub start_adb_through_upload_command : S → Outcome S (Unit {0})
  start_adb_through_upload_command = do
    initialize_request ← lift build_upload_initialize_request
    target_request ← lift build_adb_upload_command_target_request
    final_data_request ←
        lift (build_upload_data_request (pos 0) (bytes_like adb_upload_command_content) true)
    commit_request ← lift build_upload_commit_request
    with_handle normal_vid normal_pid (λ handle. do
      exchange_normal handle initialize_request 5000
      exchange_normal handle target_request 5000
      exchange_normal handle final_data_request 5000
      λ s. catching (exchange_normal handle commit_request 5000 s))

  unfoldable pub enter_bootloader : S → Outcome S (Unit {0})
  enter_bootloader = do
    request ←
        lift (build_upgrade_request (pos upgrade_mode_hid) (pos (value Numbers.upgrade_and_reboot)))
    with_handle normal_vid normal_pid
        (λ handle. do exchange_normal handle request 5000; lift (ok tt))

  -- The loop over the data frames. `progress` is the callback, when there is one.
  unfoldable pub restore_frames :
      D
      → UpdatePlan
      → Option (ℕ → ℕ → S → Result (Unit {0}) × S)
      → List (ℕ × Result Bytes)
      → S
      → Outcome S (Unit {0})
  restore_frames handle plan progress [] = lift (ok tt)
  restore_frames handle plan progress ((sequence, next_frame) ∷ frames) = do
    frame ← lift next_frame
    report ← lift (to_boot_hid_report frame)
    write_exact handle report
    raw ← read handle boot_report_size (packet_timeout plan sequence)
    reply ← lift (from_boot_hid_report raw)
    lift (check_reply plan sequence reply)
    elim progress [
      | some callback ↦ call (callback (sequence + 1) plan.packet_count)
      | none ↦ lift (ok tt)
    ]
    restore_frames handle plan progress frames

  unfoldable pub restore_blob :
      Bytes → UpdatePlan → Option (ℕ → ℕ → S → Result (Unit {0}) × S) → S → Outcome S (Unit {0})
  restore_blob blob plan progress = with_handle boot_vid boot_hid_pid (λ handle. do
    frame ← lift (build_boot_metadata_request plan (pos 0))
    report ← lift (to_boot_hid_report frame)
    write_exact handle report
    raw ← read handle boot_report_size 10000
    reply ← lift (from_boot_hid_report raw)
    acknowledged ← lift (decode_boot_ack (parsed reply))
    require (acknowledged == 0) Result.unexpected_metadata_ack
    restore_frames handle plan progress (iter_data_frames blob))

  -- What a poll finds: the loop goes on in the state where nothing was found.
  abbrev polled :
      Outcome S (List DeviceInfo)
      → (S → Option (Outcome S (Unit {0})))
      → Option (Outcome S (Unit {0}))
  polled (done (err e) es s) again = some (done (err e) es s)
  polled (done (ok []) es s) again = again s
  polled (done (ok (item ∷ items)) es s) again = some (done (ok tt) es s)

  abbrev poll : ℕ → ℕ → S → (S → Option (Outcome S (Unit {0}))) → Option (Outcome S (Unit {0}))
  poll vid pid s = polled ((hid_module >> call (hid.enumerate vid pid)) s)

  -- The loop of `wait_for_hid`: `none` if the fuel is used up. The clock counts milliseconds.
  unfoldable pub wait_loop : ℕ → ℕ → ℕ → ℕ → S → Option (Outcome S (Unit {0}))
  wait_loop zero vid pid deadline s = none
  wait_loop (suc fuel) vid pid deadline s =
      let (now, t) = hid.monotonic s in
      if ltb now deadline
      then poll vid pid t (λ u. wait_loop fuel vid pid deadline (hid.sleep 500 u))
      else some (done (err (protocol_error Result.wait_timeout)) [] t)

  unfoldable pub wait_for_hid : ℕ → ℕ → ℕ → ℕ → S → Option (Outcome S (Unit {0}))
  wait_for_hid fuel vid pid timeout s =
      let (now, t) = hid.monotonic s in wait_loop fuel vid pid (now + timeout) t
