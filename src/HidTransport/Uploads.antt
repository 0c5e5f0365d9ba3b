-- ===== src/HidTransport/Uploads.antt =====
-- What the upload of a file writes.
use cc2_camera_fix.Base.{
  ℕ, ◌+◌, ◌≡◌, ◌⊎◌, inl, inr, refl, not, some, List, [], ◌∷◌, ◌++◌, ◌<◌, arith,
}
use cc2_camera_fix.Base.Tests.{leb, leb→le, Bool-cases, ◌==◌}
use cc2_camera_fix.Base.Lists.{length}
use cc2_camera_fix.Base.Result
use cc2_camera_fix.Base.Result.{Result, Exn, ok, err, guard}
use cc2_camera_fix.Base.Bytes.{Bytes}
use cc2_camera_fix.Base.Text.{Text}
use cc2_camera_fix.Base.Int.{pos}
use cc2_camera_fix.Commands.Numbers
use cc2_camera_fix.Commands.Numbers.{value}
use cc2_camera_fix.Commands.Requests.{
  plain_report, text, bytes_like, build_upload_initialize_request, build_upload_target_request,
  build_upload_data_request, build_upload_commit_request,
}
use cc2_camera_fix.Protocol.Normal.Accepts.{build-accepts}
use cc2_camera_fix.Hid.{Hid, Outcome, done, lift, and_then}
use cc2_camera_fix.Hid.Sends.{
  Sends, sent, failed, empty, Sends->>=, Sends-then, Sends-lift, Sends-before,
}
use cc2_camera_fix.HidTransport.Exchange.{Sends-guard, Sends-with_handle, Sends-exchange_normal}
use cc2_camera_fix.HidTransport.{upload_chunks, chunks_of, upload_normal_file}

-- The report of a request, where there is one.
abbrev pub report_of : Result Bytes → List Bytes
report_of (ok report) = report ∷ []
report_of (err e) = []

-- The requests for the chunks of a file, which are `count`.
abbrev pub chunk_reports : ℕ → ℕ → List Bytes → List Bytes
chunk_reports count sequence [] = []
chunk_reports count sequence (chunk ∷ chunks) =
    report_of (build_upload_data_request (pos sequence) (bytes_like chunk) (sequence + 1 == count))
    ++ chunk_reports count (sequence + 1) chunks

abbrev pub target_request : Text → Result Bytes
target_request path =
    build_upload_target_request (pos (value Numbers.upload_target_3110)) (some (text path))

-- The four kinds of requests of an upload, in order.
abbrev pub upload_reports : Text → Bytes → List Bytes
upload_reports path content =
    report_of build_upload_initialize_request
    ++ (report_of (target_request path)
        ++ (chunk_reports (length (chunks_of content)) 0 (chunks_of content)
            ++ report_of build_upload_commit_request))

initialize-ok : (report : Bytes) × (build_upload_initialize_request ≡ ok report)
unfolding build_upload_initialize_request plain_report value
initialize-ok = (build-accepts (pos 0x3000) [] (pos 1) (pos 0) tt).1 (record {
  c = 0x3000;
  t = 1;
  s = 0;
  command_is = refl;
  type_is = refl;
  status_is = refl;
  in_range = record {
    command_fits = omega arith;
    type_is = inl refl;
    payload_fits = omega arith;
    status_fits = omega arith;
  };
})

module _ {S D : Type 0} (hid : Hid S D) where
  Sends-requested :
      {B : Type 0} (r : Result Bytes) (reports : List Bytes → List Bytes)
      (f : Bytes → S → Outcome S B) (s : S)
      → ((report : Bytes) → r ≡ ok report → Sends (reports (report ∷ [])) (f report s))
      → Sends (reports (report_of r)) (and_then (lift r s) f)
  Sends-requested (ok report) reports f s k = Sends-before [] _ tt (k report refl)
  Sends-requested (err e) reports f s k = failed empty

  Sends-upload_chunks :
      (handle : D) (count sequence : ℕ) (chunks : List Bytes) (s : S)
      → Sends
          (chunk_reports count sequence chunks)
          (upload_chunks hid handle count sequence chunks s)
  unfolding upload_chunks
  Sends-upload_chunks handle count sequence [] s = sent refl tt
  Sends-upload_chunks handle count sequence (chunk ∷ chunks) s =
      let request =
        build_upload_data_request (pos sequence) (bytes_like chunk) (sequence + 1 == count) in
      Sends-lift request _ s (λ report h. rw (h) (
        Sends->>= _ _ (Sends-exchange_normal hid handle report 5000 s)
          (λ _ t. Sends-upload_chunks handle count (sequence + 1) chunks t)))

  -- However the device behaves, an upload passes to `write` the initialize request, the target
  -- request, the requests for the chunks and the commit request, in order, each once and nothing else.
  -- All are written whole if it returns, and a first part of them is passed to `write` if it raises.
  pub upload_normal_file-Sends :
      (path : Text) (content : Bytes) (s : S)
      → Sends (upload_reports path content) (upload_normal_file hid path content s)
  unfolding upload_normal_file
  upload_normal_file-Sends path content s =
      let chunks = chunks_of content in
      let rest = chunk_reports (length chunks) 0 chunks ++ report_of build_upload_commit_request in
      Sends->>= _ _ (Sends-guard hid (not (length content == 0)) Result.empty_upload s) (λ _ s1.
        Sends->>= _ _ (Sends-guard hid (leb (length content) 0x01000200) Result.upload_too_large s1)
          (λ _ s2.
            Sends-requested build_upload_initialize_request
              (λ l. l ++ (report_of (target_request path) ++ rest)) _ s2
              (λ start _.
                Sends-requested (target_request path) (λ l. start ∷ (l ++ rest)) _ s2
                  (λ target _.
                    Sends-with_handle hid 0xA108 0x2240 _ (start ∷ target ∷ rest) s2 (λ handle t.
                      Sends->>= _ _ (Sends-exchange_normal hid handle start 5000 t) (λ _ t1.
                        Sends->>= _ _ (Sends-exchange_normal hid handle target 5000 t1) (λ _ t2.
                          Sends->>= _ _ (Sends-upload_chunks handle (length chunks) 0 chunks t2)
                            (λ _ t3.
                              Sends-requested build_upload_commit_request (λ l. l) _ t3
                                (λ commit _.
                                  Sends-then _ _ (Sends-exchange_normal hid handle commit 5000 t3)
                                    (λ _ t4. sent {a = tt} {es = []} {s = t4} refl tt))))))))))

  -- An upload without content, with more than 0x01000200 bytes, or with a target that may not be
  -- sent, raises before any device is looked for: nothing is written and nothing changes.
  pub upload_normal_file-rejects :
      (path : Text) (content : Bytes) (s : S)
      → (content ≡ []) ⊎ (0x01000200 < length content) ⊎ ((e : Exn) × (target_request path ≡ err e))
      → (e : Exn) × (upload_normal_file hid path content s ≡ done (err e) [] s)
  unfolding upload_normal_file
  upload_normal_file-rejects path content s h = elim (Bool-cases (length content == 0)) [
    | inl e ↦ rw e (_, refl)
    | inr e ↦ elim (Bool-cases (leb (length content) 0x01000200)) [
      | inr f ↦ rw (e, f) (_, refl)
      | inl f ↦ elim h [
        | inl nothing ↦ let bad = rw nothing at e in cc
        | inr (inl large) ↦ absurd (omega (arith, leb→le (length content) 0x01000200 f))
        | inr (inr (x, r)) ↦ rw (e, f, initialize-ok.1, r) (x, refl)
      ]
    ]
  ]
