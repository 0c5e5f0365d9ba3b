-- ===== src/HidTransport/Restore.antt =====
-- The restore of a blob: what is written to the device.
use cc2_camera_fix.Base.{ℕ, ◌+◌, ◌≡◌, refl, Option, none, some, List, [], ◌∷◌, ◌++◌}
use cc2_camera_fix.Base.Tests.{◌==◌}
use cc2_camera_fix.Base.Result
use cc2_camera_fix.Base.Result.{Result, Exn, ok, err, guard}
use cc2_camera_fix.Base.Bytes.{Bytes}
use cc2_camera_fix.Base.Int.{pos}
use cc2_camera_fix.Protocol.Boot.{to_boot_hid_report, from_boot_hid_report, boot_report_size}
use cc2_camera_fix.Protocol.Update.{UpdatePlan, iter_data_frames}
use cc2_camera_fix.Commands.BootRequests.{build_boot_metadata_request, decode_boot_ack, parsed}
use cc2_camera_fix.Hid.{Hid, Outcome, lift, call, and_then}
use cc2_camera_fix.Hid.Sends.{
  Sends, sent, failed, empty, Sends->>=, Sends-lift, Sends-call, Sends-before,
}
use cc2_camera_fix.HidTransport.Exchange.{
  Sends-write_exact, Sends-read, Sends-guard, Sends-with_handle,
}
use cc2_camera_fix.HidTransport.{restore_frames, restore_blob, check_reply, packet_timeout}

-- The report of a frame, where there is one.
abbrev report_of : Result Bytes → List Bytes
report_of (ok report) = report ∷ []
report_of (err e) = []

abbrev framed : Result Bytes → Result Bytes
framed (ok frame) = to_boot_hid_report frame
framed (err e) = err e

-- The reports of data frames, in order.
abbrev pub data_reports : List (ℕ × Result Bytes) → List Bytes
data_reports [] = []
data_reports ((sequence, frame) ∷ frames) = report_of (framed frame) ++ data_reports frames

-- All reports of a restore: the metadata, and every data frame of the blob.
abbrev pub restore_reports : Bytes → UpdatePlan → List Bytes
restore_reports blob plan =
    report_of (framed (build_boot_metadata_request plan (pos 0)))
    ++ data_reports (iter_data_frames blob)

module _ {S D : Type 0} (hid : Hid S D) where
  Sends-report :
      {B : Type 0} {more : List Bytes} (frame : Result Bytes) (f : Bytes → S → Outcome S B) (s : S)
      → ((report : Bytes) (t : S) → framed frame ≡ ok report → Sends (report ∷ more) (f report t))
      → Sends
          (report_of (framed frame) ++ more)
          (and_then (lift frame s) (λ b t. and_then (lift (to_boot_hid_report b) t) f))
  Sends-report frame f s h = reported f s frame h
    where
      made :
          {B : Type 0} {more : List Bytes} (f : Bytes → S → Outcome S B) (s : S) (r : Result Bytes)
          → ((report : Bytes) (t : S) → r ≡ ok report → Sends (report ∷ more) (f report t))
          → Sends (report_of r ++ more) (and_then (lift r s) f)
      made f s (ok report) h = Sends-before [] _ tt (h report _ refl)
      made f s (err e) h = failed empty

      reported :
          {B : Type 0} {more : List Bytes} (f : Bytes → S → Outcome S B) (s : S)
          (frame : Result Bytes)
          → ((report : Bytes) (t : S)
              → framed frame ≡ ok report
              → Sends (report ∷ more) (f report t))
          → Sends
              (report_of (framed frame) ++ more)
              (and_then (lift frame s) (λ b t. and_then (lift (to_boot_hid_report b) t) f))
      reported f s (ok b) h = Sends-before [] _ tt (made f s (to_boot_hid_report b) h)
      reported f s (err e) h = failed empty

  Sends-progress :
      (progress : Option (ℕ → ℕ → S → Result (Unit {0}) × S)) (n count : ℕ) (s : S)
      → Sends [] (
          (elim progress as (λ _. S → Outcome S (Unit {0})) [
            | some callback ↦ call (callback n count)
            | none ↦ lift (ok tt)
          ])
            s)
  Sends-progress (some callback) n count s = Sends-call (callback n count s).0 _
  Sends-progress none n count s = sent refl tt

  Sends-restore_frames :
      (handle : D) (plan : UpdatePlan) (progress : Option (ℕ → ℕ → S → Result (Unit {0}) × S))
      (frames : List (ℕ × Result Bytes)) (s : S)
      → Sends (data_reports frames) (restore_frames hid handle plan progress frames s)
  unfolding restore_frames
  Sends-restore_frames handle plan progress [] s = sent refl tt
  Sends-restore_frames handle plan progress ((sequence, frame) ∷ frames) s =
      Sends-report frame _ s (λ report t _.
        Sends->>= _ _ (Sends-write_exact hid handle report t) (λ _ t1.
          Sends->>= _ _ (Sends-read hid handle boot_report_size (packet_timeout plan sequence) t1)
            (λ raw t2. Sends-lift (from_boot_hid_report raw) _ t2 (λ reply _.
              Sends-lift (check_reply plan sequence reply) _ t2 (λ _ _.
                Sends->>= _ _ (Sends-progress progress (sequence + 1) plan.packet_count t2)
                  (λ _ t3. Sends-restore_frames handle plan progress frames t3))))))

  -- However the device behaves, a restore passes to `write` the metadata report and then the reports
  -- of the blob's data frames, in order, each once and nothing else. All are written whole if it
  -- returns, and a first part of them is passed to `write` if it raises.
  pub restore_blob-Sends :
      (blob : Bytes) (plan : UpdatePlan) (progress : Option (ℕ → ℕ → S → Result (Unit {0}) × S))
      (s : S)
      → Sends (restore_reports blob plan) (restore_blob hid blob plan progress s)
  unfolding restore_blob
  restore_blob-Sends blob plan progress s =
      Sends-with_handle hid 0xA108 0xFF08 _ (restore_reports blob plan) s (λ handle t.
        Sends-report (build_boot_metadata_request plan (pos 0)) _ t (λ report t1 _.
          Sends->>= _ _ (Sends-write_exact hid handle report t1) (λ _ t2.
            Sends->>= _ _ (Sends-read hid handle boot_report_size 10000 t2) (λ raw t3.
              Sends-lift (from_boot_hid_report raw) _ t3 (λ reply _.
                Sends-lift (decode_boot_ack (parsed reply)) _ t3 (λ acknowledged _.
                  Sends->>= _ _
                    (Sends-guard hid (acknowledged == 0) Result.unexpected_metadata_ack t3)
                    (λ _ t4.
                      Sends-restore_frames handle plan progress (iter_data_frames blob) t4)))))))
