-- ===== src/HidTransport/Acknowledged.antt =====
-- What the bootloader replied, when a restore returns.
use cc2_camera_fix.Base.{
  ℕ, ◌+◌, ◌≡◌, refl, ap, ◌∙◌, true, Option, none, some, List, [], ◌∷◌, inl, inr,
}
use cc2_camera_fix.Base.Tests.{◌==◌, ==_iff, if◌then◌else◌, Bool-cases}
use cc2_camera_fix.Base.Lists.{length}
use cc2_camera_fix.Base.Int.{pos}
use cc2_camera_fix.Base.Result
use cc2_camera_fix.Base.Result.{Result, Exn, ok, err, guard, checked, checked-eq-ok, guard-ok}
use cc2_camera_fix.Base.Bytes.{Bytes}
use cc2_camera_fix.Protocol.Boot.{
  BootFrame, to_boot_hid_report, from_boot_hid_report, boot_report_size,
}
use cc2_camera_fix.Protocol.Update.{UpdatePlan, iter_data_frames}
use cc2_camera_fix.Commands.BootRequests.{
  build_boot_metadata_request, decode_boot_ack, decode_boot_terminal_status, parsed,
}
use cc2_camera_fix.Hid.{Hid, Event, received, Outcome, done, lift, call}
use cc2_camera_fix.Hid.Ensures.{
  Ensures, returned, raised, Ensures->>=, Ensures-step, Ensures-lift, Ensures-call, Ensures-after,
  Ensures-before, Ensures-done, Ensures-map,
}
use cc2_camera_fix.HidTransport.Replies.{
  IsWritten, Ensures-guard, Ensures-write_exact, Ensures-read,
}
use cc2_camera_fix.HidTransport.{
  restore_frames, restore_blob, check_reply, packet_timeout, with_handle, open_handle,
}

-- The answer to the packet `sequence`: after the last packet the terminal status of success, before
-- it the request for the next packet.
abbrev pub IsAnswer : UpdatePlan → ℕ → BootFrame → Type 0
IsAnswer plan sequence reply =
    if sequence + 1 == plan.packet_count
    then decode_boot_terminal_status (parsed reply) ≡ ok true
    else decode_boot_ack (parsed reply) ≡ ok (sequence + 1)

-- A run of the data phase: each frame is written as a report, and answered before the next one.
pub data IsAcknowledged (plan : UpdatePlan) : List (ℕ × Result Bytes) → List Event → Type 0 where
  over : IsAcknowledged plan [] []
  packet :
      {sequence : ℕ} {frame report raw : Bytes} {written : Event} {reply : BootFrame}
      {frames : List (ℕ × Result Bytes)} {es : List Event}
      → to_boot_hid_report frame ≡ ok report
      → IsWritten report written
      → from_boot_hid_report raw ≡ ok reply
      → IsAnswer plan sequence reply
      → IsAcknowledged plan frames es
      → IsAcknowledged plan
          ((sequence, ok frame) ∷ frames)
          (written ∷ received (packet_timeout plan sequence) raw ∷ es)

-- The events of a restore: the metadata and its acknowledgement, then the data phase.
pub record IsRestored (blob : Bytes) (plan : UpdatePlan) (es : List Event) : Type 0 where
  pub frame : Bytes
  pub report : Bytes
  pub written : Event
  pub raw : Bytes
  pub reply : BootFrame
  pub rest : List Event
  pub announced : build_boot_metadata_request plan (pos 0) ≡ ok frame
  pub padded : to_boot_hid_report frame ≡ ok report
  pub taken : IsWritten report written
  pub replied : from_boot_hid_report raw ≡ ok reply
  pub acknowledged : decode_boot_ack (parsed reply) ≡ ok 0
  pub events_are : es ≡ written ∷ received 10000 raw ∷ rest
  pub data_phase : IsAcknowledged plan (iter_data_frames blob) rest

answered :
    (plan : UpdatePlan) (sequence : ℕ) (reply : BootFrame) {u : Unit {0}}
    → check_reply plan sequence reply ≡ ok u
    → IsAnswer plan sequence reply
unfolding check_reply
answered plan sequence reply h = elim (Bool-cases (sequence + 1 == plan.packet_count)) [
  | inl e ↦ rw e (passes (rw e at h))
  | inr e ↦ rw e (requests (rw e at h))
]
  where
    passes :
        checked (decode_boot_terminal_status (parsed reply)) (λ passed. passed) Result.md5_rejected
          ≡ ok tt
        → decode_boot_terminal_status (parsed reply) ≡ ok true
    passes h =
        let (passed, e, proof) =
          checked-eq-ok (decode_boot_terminal_status (parsed reply)) (λ b. b) Result.md5_rejected
            h in
        e ∙ ap ok proof

    requests :
        checked
            (decode_boot_ack (parsed reply))
            (λ acknowledged. acknowledged == sequence + 1)
            Result.wrong_packet_requested
          ≡ ok tt
        → decode_boot_ack (parsed reply) ≡ ok (sequence + 1)
    requests h =
        let (n, e, proof) =
          checked-eq-ok (decode_boot_ack (parsed reply)) (λ m. m == sequence + 1)
            Result.wrong_packet_requested h in
        e ∙ ap ok ((==_iff n (sequence + 1)).0 proof)

module _ {S D : Type 0} (hid : Hid S D) where
  Ensures-progress :
      (progress : Option (ℕ → ℕ → S → Result (Unit {0}) × S)) (n count : ℕ) (s : S)
      → Ensures
          (λ _ es. es ≡ [])
          ((elim progress as (λ _. S → Outcome S (Unit {0})) [
            | some callback ↦ call (callback n count)
            | none ↦ lift (ok tt)
          ])
            s)
  Ensures-progress (some callback) n count s = Ensures-call (callback n count s).0 _
  Ensures-progress none n count s = returned refl

  Ensures-restore_frames :
      (handle : D) (plan : UpdatePlan) (progress : Option (ℕ → ℕ → S → Result (Unit {0}) × S))
      (frames : List (ℕ × Result Bytes)) (s : S)
      → Ensures
          (λ _ es. IsAcknowledged plan frames es)
          (restore_frames hid handle plan progress frames s)
  unfolding restore_frames
  Ensures-restore_frames handle plan progress [] s = returned over
  Ensures-restore_frames handle plan progress ((sequence, err e) ∷ frames) s = raised
  Ensures-restore_frames handle plan progress ((sequence, ok frame) ∷ frames) s =
      Ensures-before [] _ (
        Ensures-lift (to_boot_hid_report frame) _ s (λ report er.
          Ensures->>= _ _ _ (Ensures-write_exact hid handle report s) (λ _ es t1 (w, ew, e1).
            rw e1 (
              Ensures-step (λ raw. received (packet_timeout plan sequence) raw ∷ []) _ _
                (Ensures-read hid handle boot_report_size (packet_timeout plan sequence) t1)
                (λ raw t2. Ensures-lift (from_boot_hid_report raw) _ t2 (λ reply ep.
                  Ensures-lift (check_reply plan sequence reply) _ t2 (λ _ ec.
                    Ensures-step (λ _. []) _ _
                      (Ensures-progress progress (sequence + 1) plan.packet_count t2)
                      (λ _ t3.
                        Ensures-map (λ _ fs. packet er ew ep (answered plan sequence reply ec))
                          (Ensures-restore_frames handle plan progress frames t3)))))))))

  Ensures-open_handle :
      (vid pid : ℕ) (s : S) → Ensures (λ _ es. es ≡ []) (open_handle hid vid pid s)
  unfolding open_handle
  Ensures-open_handle vid pid s =
      Ensures-step (λ _. []) _ _ (Ensures-guard hid hid.importable Result.hid_not_loaded s)
        (λ _ t.
          Ensures-step (λ _. []) _ _ (Ensures-call (hid.enumerate vid pid t).0 _)
            (λ found t1.
              Ensures-step (λ _. []) _ _
                (Ensures-guard hid (length found == 1) Result.hid_match_count t1)
                (λ _ t2.
                  Ensures-step (λ _. []) _ _ (Ensures-call (hid.device t2).0 _)
                    (λ opened t3.
                      Ensures-step (λ _. []) _ _ (Ensures-call (hid.open_path opened _ t3).0 _)
                        (λ _ t4. returned {a = opened} {es = []} {s = t4} refl)))))

  Ensures-with_handle :
      {P : List Event → Type 0} (vid pid : ℕ) (body : D → S → Outcome S (Unit {0})) (s : S)
      → ((handle : D) (t : S) → Ensures (λ _ es. P es) (body handle t))
      → Ensures (λ _ es. P es) (with_handle hid vid pid body s)
  unfolding with_handle
  Ensures-with_handle {P} vid pid body s h =
      Ensures-step (λ _. []) _ _ (Ensures-open_handle vid pid s)
        (λ handle t. Ensures-after (body handle t) (hid.close handle) (h handle t))

  Ensures-restore_blob :
      (blob : Bytes) (plan : UpdatePlan) (progress : Option (ℕ → ℕ → S → Result (Unit {0}) × S))
      (s : S)
      → Ensures (λ _ es. IsRestored blob plan es) (restore_blob hid blob plan progress s)
  unfolding restore_blob
  Ensures-restore_blob blob plan progress s =
      Ensures-with_handle {P = IsRestored blob plan} 0xA108 0xFF08 _ s (λ handle t.
        Ensures-lift (build_boot_metadata_request plan (pos 0)) _ t (λ frame ef.
          Ensures-lift (to_boot_hid_report frame) _ t (λ report er.
            Ensures->>= _ _ _ (Ensures-write_exact hid handle report t) (λ _ es t1 (w, ew, e1).
              rw e1 (
                Ensures-step (λ raw. received 10000 raw ∷ []) _ _
                  (Ensures-read hid handle boot_report_size 10000 t1)
                  (λ raw t2. Ensures-lift (from_boot_hid_report raw) _ t2 (λ reply ep.
                    Ensures-lift (decode_boot_ack (parsed reply)) _ t2 (λ n en.
                      Ensures-lift (guard (n == 0) Result.unexpected_metadata_ack) _ t2 (λ _ eg.
                        Ensures-map
                          (λ _ fs phase. record {
                            frame = frame;
                            report = report;
                            written = w;
                            raw = raw;
                            reply = reply;
                            rest = fs;
                            announced = ef;
                            padded = er;
                            taken = ew;
                            replied = ep;
                            acknowledged =
                                en
                                ∙ ap ok (
                                    (==_iff n 0).0
                                      (guard-ok (n == 0) Result.unexpected_metadata_ack eg));
                            events_are = refl;
                            data_phase = phase;
                          })
                          (Ensures-restore_frames handle plan progress (iter_data_frames blob)
                            t2))))))))))

  -- A restore that returns has written the metadata request whole and got the acknowledgement 0, and
  -- then written each data frame of the blob whole and got its answer before the next one: the request
  -- for the next packet, or the terminal status of success after the packet that the plan counts as
  -- last.
  pub restore_blob-IsRestored :
      (blob : Bytes) (plan : UpdatePlan) (progress : Option (ℕ → ℕ → S → Result (Unit {0}) × S))
      (s : S) {es : List Event} {t : S}
      → restore_blob hid blob plan progress s ≡ done (ok tt) es t
      → IsRestored blob plan es
  restore_blob-IsRestored blob plan progress s h =
      Ensures-done (Ensures-restore_blob blob plan progress s) h
