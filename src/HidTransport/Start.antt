-- ===== src/HidTransport/Start.antt =====
-- The start of ADB, start_adb_through_upload_command of cc2camera/hid_transport.py.
use cc2_camera_fix.Base.{ℕ, ◌≡◌, refl, inl, inr, arith, true, [], ◌∷◌}
use cc2_camera_fix.Base.Int.{pos}
use cc2_camera_fix.Base.Result.{ok}
use cc2_camera_fix.Base.Bytes.{Bytes, IsBytes}
use cc2_camera_fix.Protocol.Normal.{build_normal_report, parse_normal_report}
use cc2_camera_fix.Protocol.Normal.Layout.{layout, IsRequest, build-layout}
use cc2_camera_fix.Protocol.Normal.Accepts.{frame_of}
use cc2_camera_fix.Commands.Numbers
use cc2_camera_fix.Commands.Numbers.{value}
use cc2_camera_fix.Commands.Requests.{
  plain_report, adb_upload_command_target, bytes_like, build_upload_initialize_request,
  build_upload_data_request, build_upload_commit_request, build_adb_upload_command_target_request,
}
use cc2_camera_fix.Commands.Requests.Targets.{plain-sent}
use cc2_camera_fix.Hid.{Hid, Outcome}
use cc2_camera_fix.HidTransport.Exchange.{writes-exchange_normal}
use cc2_camera_fix.HidTransport.{start_adb_through_upload_command}
use cc2_camera_fix.HidTransport.Attempts.{
  Attempts, Attempts-lift, Attempts-exchange, Attempts-catching, Attempts-with_handle,
}

-- The four requests are built, and the run makes this attempt of them.
pub record Launches {S : Type 0} (o : Outcome S (Unit {0})) : Type 0 where
  pub initialize_request : Bytes
  pub target_request : Bytes
  pub final_data_request : Bytes
  pub commit_request : Bytes
  pub initialize_built : build_upload_initialize_request ≡ ok initialize_request
  pub target_built : build_adb_upload_command_target_request ≡ ok target_request
  pub final_data_built :
      build_upload_data_request (pos 0) (bytes_like (10 ∷ [])) true ≡ ok final_data_request
  pub commit_built : build_upload_commit_request ≡ ok commit_request
  pub attempts :
      Attempts (initialize_request ∷ target_request ∷ final_data_request ∷ []) commit_request o

commit-parses :
    (commit : Bytes)
    → build_upload_commit_request ≡ ok commit
    → parse_normal_report commit ≡ ok (frame_of (value Numbers.upload_commit) 1 0 [])
unfolding build_upload_commit_request
commit-parses commit h = plain-sent Numbers.upload_commit [] commit tt h

report-built :
    (command frame_type status : ℕ) (payload : Bytes)
    → IsRequest command payload frame_type status
    → IsBytes payload
    → (report : Bytes) × (build_normal_report (pos command) payload (pos frame_type) (pos status)
        ≡ ok report)
report-built command frame_type status payload r b =
    (layout command frame_type status payload, build-layout command frame_type status payload r b)

initialize-built : (report : Bytes) × (build_upload_initialize_request ≡ ok report)
unfolding build_upload_initialize_request plain_report value
initialize-built =
    report-built 0x3000 1 0 []
      (record {
        command_fits = omega arith;
        type_is = inl refl;
        payload_fits = omega arith;
        status_fits = omega arith;
      })
      tt

target-built : (report : Bytes) × (build_adb_upload_command_target_request ≡ ok report)
unfolding build_adb_upload_command_target_request plain_report value
target-built =
    report-built 0x3110 1 0 adb_upload_command_target
      (record {
        command_fits = omega arith;
        type_is = inl refl;
        payload_fits = omega arith;
        status_fits = omega arith;
      })
      (omega arith)

final_data-built :
    (report : Bytes) × (build_upload_data_request (pos 0) (bytes_like (10 ∷ [])) true ≡ ok report)
unfolding build_upload_data_request value
final_data-built =
    report-built 0x3200 2 0 (10 ∷ [])
      (record {
        command_fits = omega arith;
        type_is = inr refl;
        payload_fits = omega arith;
        status_fits = omega arith;
      })
      (omega arith)

commit-built : (report : Bytes) × (build_upload_commit_request ≡ ok report)
unfolding build_upload_commit_request plain_report value
commit-built =
    report-built 0x3300 1 0 []
      (record {
        command_fits = omega arith;
        type_is = inl refl;
        payload_fits = omega arith;
        status_fits = omega arith;
      })
      tt

module _ {S D : Type 0} (hid : Hid S D) where
  -- However the device behaves, the four requests of a start of ADB are built, and one of two things
  -- happens. Either the initialize, the target and the final data request were each written whole and
  -- answered by an echo of the command with status 0, in this order and each once, and then the commit
  -- request was passed to `write` once, whatever came of it, and nothing else; or the run raises, at
  -- most a first part of the three requests was passed to `write`, in order, and the commit request
  -- never was.
  pub start_adb-Launches : (s : S) → Launches (start_adb_through_upload_command hid s)
  unfolding start_adb_through_upload_command
  start_adb-Launches s = record {
    initialize_request = initialize-built.0;
    target_request = target-built.0;
    final_data_request = final_data-built.0;
    commit_request = commit-built.0;
    initialize_built = initialize-built.1;
    target_built = target-built.1;
    final_data_built = final_data-built.1;
    commit_built = commit-built.1;
    attempts = Attempts-lift _ initialize-built.0 _ s initialize-built.1 (
        Attempts-lift _ target-built.0 _ s target-built.1 (
          Attempts-lift _ final_data-built.0 _ s final_data-built.1 (
            Attempts-lift _ commit-built.0 _ s commit-built.1 (
              Attempts-with_handle hid 0xA108 0x2240 _ s (λ handle t.
                Attempts-exchange hid handle initialize-built.0 t _ (λ _ t1.
                  Attempts-exchange hid handle target-built.0 t1 _ (λ _ t2.
                    Attempts-exchange hid handle final_data-built.0 t2 _ (λ _ t3.
                      Attempts-catching hid commit-built.0 _ (
                        writes-exchange_normal hid handle commit-built.0 5000 t3
                          (commit-parses commit-built.0 commit-built.1))))))))));
  }
