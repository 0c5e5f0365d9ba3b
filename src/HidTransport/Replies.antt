-- ===== src/HidTransport/Replies.antt =====
-- What a write, a read and an exchange of cc2camera/hid_transport.py have done when they return.
use cc2_camera_fix.Base.{ℕ, ◌≡◌, refl, Bool, true, false, not, List, [], ◌∷◌}
use cc2_camera_fix.Base.Tests.{◌==◌, ==_iff}
use cc2_camera_fix.Base.Lists.{length}
use cc2_camera_fix.Base.Int.{ℤ}
use cc2_camera_fix.Base.Result
use cc2_camera_fix.Base.Result.{Result, Exn, ok, err, guard, guard-ok}
use cc2_camera_fix.Base.Bytes.{Bytes}
use cc2_camera_fix.Protocol.Normal.{NormalFrame, parse_normal_report}
use cc2_camera_fix.Hid.{Hid, Event, wrote, received, done, lift, before, and_then, require}
use cc2_camera_fix.Hid.Sends.{IsWhole}
use cc2_camera_fix.Hid.Ensures.{
  Ensures, returned, raised, Ensures->>=, Ensures-step, Ensures-lift, Ensures-call,
}
use cc2_camera_fix.HidTransport.{write_exact, read, answer, exchange_normal, is_full, note}
use cc2_camera_fix.HidTransport.Exchange.{full-IsWhole}

-- The event of a write that the library took whole.
abbrev pub IsWritten : Bytes → Event → Type 0
IsWritten report event = (result : Result ℤ) × (event ≡ wrote report result) × IsWhole report result

-- An exchange that was accepted: the request was written whole, and the reply is a report that
-- echoes its command with status 0.
pub record IsExchange (request : Bytes) (es : List Event) : Type 0 where
  pub question : NormalFrame
  pub response : NormalFrame
  pub written : Event
  pub raw : Bytes
  pub asked : parse_normal_report request ≡ ok question
  pub taken : IsWritten request written
  pub answered : parse_normal_report raw ≡ ok response
  pub echoed : response.command ≡ question.command
  pub accepted : response.status ≡ 0
  pub events_are : es ≡ written ∷ received 5000 raw ∷ []

module _ {S D : Type 0} (hid : Hid S D) where
  pub Ensures-guard :
      (test : Bool) (reason : Result.Reason) (s : S)
      → Ensures (λ _ es. es ≡ []) (lift (guard test reason) s)
  Ensures-guard test reason s = Ensures-call (guard test reason) s

  pub Ensures-write_exact :
      (handle : D) (report : Bytes) (s : S)
      → Ensures
          (λ _ es. (w : Event) × IsWritten report w × (es ≡ w ∷ []))
          (write_exact hid handle report s)
  unfolding write_exact
  Ensures-write_exact handle report s =
      exact (hid.write handle report s).0 (hid.write handle report s).1
    where
      tested :
          (count : ℤ) (test : Bool) (t : S)
          → is_full count (length report) ≡ test
          → Ensures
              (λ _ es. (w : Event) × IsWritten report w × (es ≡ w ∷ []))
              (before (wrote report (ok count) ∷ []) (lift (guard test Result.short_hid_write) t))
      tested count true t e =
          returned (wrote report (ok count), (ok count, refl, full-IsWhole report count e), refl)
      tested count false t e = raised

      exact :
          (r : Result ℤ) (t : S)
          → Ensures
              (λ _ es. (w : Event) × IsWritten report w × (es ≡ w ∷ []))
              (and_then
                (done r (wrote report r ∷ []) t)
                (λ count. require (is_full count (length report)) Result.short_hid_write))
      exact (ok count) t = tested count (is_full count (length report)) t refl
      exact (err e) t = raised

  pub Ensures-read :
      (handle : D) (size timeout : ℕ) (s : S)
      → Ensures (λ raw es. es ≡ received timeout raw ∷ []) (read hid handle size timeout s)
  unfolding read
  Ensures-read handle size timeout s =
      Ensures-step (λ raw. received timeout raw ∷ []) _ _
        (noted (hid.read handle size timeout s).0 _)
        (λ reply t.
          Ensures-step (λ _. []) _ _ (Ensures-guard (not (length reply == 0)) Result.hid_timeout t)
            (λ _ u. returned {a = reply} {es = []} {s = u} refl))
    where
      noted :
          (r : Result Bytes) (t : S)
          → Ensures (λ raw es. es ≡ received timeout raw ∷ []) (note hid timeout (done r [] t))
      noted (ok reply) t = returned refl
      noted (err e) t = raised

  pub Ensures-exchange_normal :
      (handle : D) (request : Bytes) (s : S)
      → Ensures (λ _ es. IsExchange request es) (exchange_normal hid handle request 5000 s)
  unfolding exchange_normal answer
  Ensures-exchange_normal handle request s =
      Ensures-lift (parse_normal_report request) _ s (λ question eq.
        Ensures->>= _ _ _ (Ensures-write_exact handle request s) (λ _ es t (w, ew, e1). rw e1 (
          Ensures-step (λ raw. received 5000 raw ∷ []) _ _ (Ensures-read handle 1024 5000 t)
            (λ raw t1. Ensures-lift (parse_normal_report raw) _ t1 (λ response er.
              Ensures-lift (guard (response.command == question.command) Result.wrong_echo) _ t1
                (λ _ ec.
                  Ensures-lift (guard (response.status == 0) Result.rejected_status) _ t1 (λ _ es.
                    returned {a = response} {es = []} {s = t1} (record {
                      question = question;
                      response = response;
                      written = w;
                      raw = raw;
                      asked = eq;
                      taken = ew;
                      answered = er;
                      echoed =
                          (==_iff response.command question.command).0
                            (guard-ok (response.command == question.command) Result.wrong_echo ec);
                      accepted =
                          (==_iff response.status 0).0
                            (guard-ok (response.status == 0) Result.rejected_status es);
                      events_are = refl;
                    }))))))))
