-- ===== src/HidTransport/Exchange.antt =====
-- What one exchange writes to the device.
use cc2_camera_fix.Base.{ℕ, ◌+◌, ◌≡◌, inl, inr, refl, Bool, true, false, List, [], ◌∷◌}
use cc2_camera_fix.Base.Tests.{◌==◌, ==_iff, and-true}
use cc2_camera_fix.Base.Int.{ℤ, pos, negsuc}
use cc2_camera_fix.Base.Lists.{length}
use cc2_camera_fix.Base.Result
use cc2_camera_fix.Base.Result.{Result, Exn, ok, err, guard}
use cc2_camera_fix.Base.Bytes.{Bytes, or-cases}
use cc2_camera_fix.Protocol.Normal.{NormalFrame, parse_normal_report}
use cc2_camera_fix.Hid.{Hid, wrote, Outcome, done, lift, before, and_then, require}
use cc2_camera_fix.Hid.Sends.{
  IsWhole, Sends, sent, failed, empty, next, writes, events, writes-then, writes-lift, Sends->>=,
  Sends-then, Sends-lift, Sends-call, Sends-after,
}
use cc2_camera_fix.HidTransport.{
  write_exact, read, answer, exchange_normal, open_handle, with_handle, is_full, note,
}

-- What the test of `write_exact` lets through.
pub full-IsWhole :
    (report : Bytes) (count : ℤ) → is_full count (length report) ≡ true → IsWhole report (ok count)
full-IsWhole report (pos n) h = elim (or-cases (n == length report) (n + 1 == length report) h) [
  | inl e ↦ inl ((==_iff n (length report)).0 e)
  | inr e ↦ inr ((==_iff (n + 1) (length report)).0 e)
]
full-IsWhole report (negsuc n) h =
    let (a, b) = and-true (n == 0) (length report == 0) h in
    ((==_iff n 0).0 a, (==_iff (length report) 0).0 b)

module _ {S D : Type 0} (hid : Hid S D) where
  pub Sends-guard :
      (test : Bool) (reason : Result.Reason) (s : S) → Sends [] (lift (guard test reason) s)
  Sends-guard test reason s = Sends-call (guard test reason) s

  pub Sends-write_exact :
      (handle : D) (report : Bytes) (s : S) → Sends (report ∷ []) (write_exact hid handle report s)
  unfolding write_exact
  Sends-write_exact handle report s =
      exact (hid.write handle report s).0 (hid.write handle report s).1
    where
      tested :
          (count : ℤ) (test : Bool) (t : S)
          → is_full count (length report) ≡ test
          → Sends
              (report ∷ [])
              (before (wrote report (ok count) ∷ []) (lift (guard test Result.short_hid_write) t))
      tested count true t e = sent refl (full-IsWhole report count e, tt)
      tested count false t e = failed (next empty)

      exact :
          (r : Result ℤ) (t : S)
          → Sends (report ∷ []) (
              and_then
                (done r (wrote report r ∷ []) t)
                (λ count. require (is_full count (length report)) Result.short_hid_write))
      exact (ok count) t = tested count (is_full count (length report)) t refl
      exact (err e) t = failed (next empty)

  pub Sends-read :
      (handle : D) (size timeout : ℕ) (s : S) → Sends [] (read hid handle size timeout s)
  unfolding read
  Sends-read handle size timeout s =
      Sends->>= _ _ (noted (hid.read handle size timeout s).0 _)
        (λ reply t. Sends->>= _ _ (Sends-guard _ Result.hid_timeout t) (λ u v. sent refl tt))
    where
      noted : (r : Result Bytes) (t : S) → Sends [] (note hid timeout (done r [] t))
      noted (ok reply) t = sent refl tt
      noted (err e) t = failed empty

  pub writes-write_exact :
      (handle : D) (report : Bytes) (s : S)
      → writes (events (write_exact hid handle report s)) ≡ report ∷ []
  unfolding write_exact
  writes-write_exact handle report s =
      writes-then
        (done (hid.write handle report s).0 (wrote report (hid.write handle report s).0 ∷ [])
          (hid.write handle report s).1)
        _ refl (λ count t. Sends-guard (is_full count (length report)) Result.short_hid_write t)

  -- What follows the write of an exchange.
  Sends-answer :
      (handle : D) (timeout : ℕ) (frame : NormalFrame) (s : S)
      → Sends [] (answer hid handle timeout frame s)
  unfolding answer
  Sends-answer handle timeout frame s =
      Sends->>= _ _ (Sends-read handle 1024 timeout s) (λ reply t1.
        Sends-lift (parse_normal_report reply) _ t1 (λ response _.
          Sends->>= _ _ (Sends-guard (response.command == frame.command) Result.wrong_echo t1)
            (λ _ t2.
              Sends->>= _ _ (Sends-guard (response.status == 0) Result.rejected_status t2)
                (λ _ t3. sent {a = response} {es = []} {s = t3} refl tt))))

  -- An exchange writes the request, and nothing else.
  pub Sends-exchange_normal :
      (handle : D) (request : Bytes) (timeout : ℕ) (s : S)
      → Sends (request ∷ []) (exchange_normal hid handle request timeout s)
  unfolding exchange_normal answer
  Sends-exchange_normal handle request timeout s =
      Sends-lift (parse_normal_report request) _ s (λ frame _.
        Sends-then _ _ (Sends-write_exact handle request s)
          (λ _ t. Sends-answer handle timeout frame t))

  -- A request that is a report is written, even if the exchange raises afterwards.
  pub writes-exchange_normal :
      (handle : D) (request : Bytes) (timeout : ℕ) (s : S) {frame : NormalFrame}
      → parse_normal_report request ≡ ok frame
      → writes (events (exchange_normal hid handle request timeout s)) ≡ request ∷ []
  unfolding exchange_normal answer
  writes-exchange_normal handle request timeout s {frame} h =
      writes-lift (parse_normal_report request) _ s {a = frame} h (
        writes-then {A = Unit {0}} (write_exact hid handle request s) _
          (writes-write_exact handle request s) (λ _ t. Sends-answer handle timeout frame t))

  Sends-open_handle : (vid pid : ℕ) (s : S) → Sends [] (open_handle hid vid pid s)
  unfolding open_handle
  Sends-open_handle vid pid s =
      Sends-then _ _ (Sends-guard hid.importable Result.hid_not_loaded s) (λ _ t.
        Sends-then _ _ (Sends-call (hid.enumerate vid pid t).0 _) (λ found t1.
          Sends-then _ _ (Sends-guard _ Result.hid_match_count t1) (λ _ t2.
            Sends-then _ _ (Sends-call (hid.device t2).0 _) (λ opened t3.
              Sends-then _ _ (Sends-call (hid.open_path opened _ t3).0 _) (λ _ t4. sent refl tt)))))

  pub Sends-with_handle :
      (vid pid : ℕ) (body : D → S → Outcome S (Unit {0})) (reports : List Bytes) (s : S)
      → ((handle : D) (t : S) → Sends reports (body handle t))
      → Sends reports (with_handle hid vid pid body s)
  unfolding with_handle
  Sends-with_handle vid pid body reports s h =
      Sends->>= _ _ (Sends-open_handle vid pid s)
        (λ handle t. Sends-after _ _ (h handle t) (λ u. Sends-call (hid.close handle u).0 _))
