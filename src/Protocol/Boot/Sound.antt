-- ===== src/Protocol/Boot/Sound.antt =====
-- The parser accepts sealed frames and nothing else.
use cc2_camera_fix.Base.{
  ℕ, zero, suc, ◌+◌, ◌-◌, ◌*◌, ◌/◌, ◌%◌, ◌≤◌, ◌<◌, Bool, true, false, ◌&&◌, [], ◌∷◌, ◌++◌, ◌≡◌,
  refl, sym, ap, ◌∙◌, arith,
}
use cc2_camera_fix.Base.Tests.{and-true, leb, ◌==◌, ==_iff, leb→le, if◌then◌else◌}
use cc2_camera_fix.Base.Lists.{length, take, drop, slice, length-take, take-append-drop}
use cc2_camera_fix.Base.Result.{
  Result, ok, guard, ◌>>=◌, ◌>>◌, checksum_mismatch, ok_injective, guard-eq-ok, short_boot_frame,
  bad_boot_magic, bad_boot_length,
}
use cc2_camera_fix.Base.Bytes.{Bytes, IsBytes, byte_at, equal, equal_iff}
use cc2_camera_fix.Protocol.Boot.{
  BootFrame, additive_checksum, parse_boot_frame, but_last, device_magic, host_magic,
}
use cc2_camera_fix.Protocol.Boot.Layout.{
  header, sealed, sent_by, frame_bytes, but_last-frame, last-frame, payload-frame,
}

-- A list with a last item.
pub split_last :
    (n : ℕ) (xs : Bytes)
    → length xs ≡ suc n
    → (front : Bytes) × (last : ℕ) × (xs ≡ front ++ last ∷ []) × (length front ≡ n)
split_last n [] h = absurd (omega arith)
split_last zero (x ∷ []) h = ([], x, refl, refl)
split_last (suc n) (x ∷ []) h = absurd (omega arith)
split_last zero (x ∷ y ∷ xs) h = absurd (omega arith)
split_last (suc n) (x ∷ y ∷ xs) h =
    let (front, last, e, k) = split_last n (y ∷ xs) (omega arith) in
    (x ∷ front, last, ap (◌∷◌ x) e, ap suc k)

magic_is :
    (device_response : Bool) (a b c : ℕ)
    → equal (a ∷ b ∷ c ∷ []) (if device_response then device_magic else host_magic) ≡ true
    → (a ≡ sent_by device_response) × (b ≡ 0) × (c ≡ 0xee)
magic_is true a b c h = let e = (equal_iff _ _).0 h in (cc, cc, cc)
magic_is false a b c h = let e = (equal_iff _ _).0 h in (cc, cc, cc)

total_low : (d e : ℕ) → d < 256 → (d + 256 * e) % 256 ≡ d
total_low d e h = omega arith

total_high : (d e : ℕ) → d < 256 → e < 256 → (d + 256 * e) / 256 % 256 ≡ e
total_high d e hd he = omega arith

take_header :
    (n k a b c t d e : ℕ) (rest : Bytes)
    → n ≡ suc (suc (suc (suc (suc (suc k)))))
    → take n (a ∷ b ∷ c ∷ t ∷ d ∷ e ∷ rest) ≡ a ∷ b ∷ c ∷ t ∷ d ∷ e ∷ take k rest
take_header n k a b c t d e rest h = rw h

pub record IsSealed (device_response : Bool) (bytes : Bytes) (f : BootFrame) : Type 0 where
  pub padding : Bytes
  pub bytes_are : bytes ≡ sealed (sent_by device_response) f.frame_type f.payload ++ padding
  pub total_is : f.total_length ≡ length f.payload + 7

module _ (device_response : Bool) (t d e : ℕ) (rest : Bytes) (hd : d < 256) (he : e < 256) where
  abbrev from : ℕ
  from = sent_by device_response

  abbrev total : ℕ
  total = d + 256 * e

  abbrev whole : Bytes
  whole = from ∷ 0 ∷ 0xee ∷ t ∷ d ∷ e ∷ rest

  front_is :
      (payload : Bytes) (last : ℕ)
      → take (total - 6) rest ≡ payload ++ last ∷ []
      → 7 ≤ total
      → total ≡ length payload + 7
      → take total whole ≡ frame_bytes from t payload last
  front_is payload last h low size =
      let cut = take_header total (total - 6) from 0 0xee t d e rest (omega arith) in
      rw (← size) (rw (total_low d e hd, total_high d e hd he) (cut ∙ rw h))

  body :
      7 ≤ total
      → total ≤ length whole
      → (payload : Bytes) × (last : ℕ) × (take total whole ≡ frame_bytes from t payload last)
        × (total ≡ length payload + 7)
  body low high =
      finish (
        split_last (total - 7) (take (total - 6) rest)
          (omega (arith, length-take (total - 6) rest)))
    where
      finish :
          ((front : Bytes) × (last : ℕ) × (take (total - 6) rest ≡ front ++ last ∷ [])
            × (length front ≡ total - 7))
          → (payload : Bytes) × (last : ℕ) × (take total whole ≡ frame_bytes from t payload last)
            × (total ≡ length payload + 7)
      finish (payload, last, e1, e2) =
          let size : total ≡ length payload + 7 = omega arith in
          (payload, last, front_is payload last e1 low size, size)

  -- What the parser does behind its length test, on a frame that it has cut out.
  after_cut : Bytes → Result BootFrame
  after_cut frame = do
    stored ← byte_at frame (length frame - 1)
    guard (additive_checksum (but_last frame) == stored) checksum_mismatch
    frame_type ← byte_at frame 3
    ok (record {
      frame_type = frame_type;
      payload = slice 6 (length frame - 1) frame;
      total_length = total;
    })

  after_cut-sealed :
      (payload : Bytes) (last : ℕ) {f : BootFrame}
      → after_cut (frame_bytes from t payload last) ≡ ok f
      → (f ≡ record { frame_type = t; payload = payload; total_length = total })
        × (additive_checksum (header from t (length payload) ++ payload) ≡ last)
  unfolding after_cut
  after_cut-sealed payload last {f} h =
      let h1 =
        rw
          (
            last-frame from t payload last,
            but_last-frame from t payload last,
            payload-frame from t payload last,
          )
          at h in
      let (same, h2) =
        guard-eq-ok (additive_checksum (header from t (length payload) ++ payload) == last)
          checksum_mismatch _ h1 in
      (sym (ok_injective h2), (==_iff _ last).0 same)

  sound :
      {f : BootFrame}
      → 7 ≤ total
      → total ≤ length whole
      → after_cut (take total whole) ≡ ok f
      → IsSealed device_response whole f
  sound {f} low high h = finish (body low high)
    where
      finish :
          ((payload : Bytes) × (last : ℕ) × (take total whole ≡ frame_bytes from t payload last)
            × (total ≡ length payload + 7))
          → IsSealed device_response whole f
      finish (payload, last, cut, size) =
          let (fields_are, checksum_is) = after_cut-sealed payload last (rw cut at h) in
          rw fields_are (record {
            padding = drop total whole;
            bytes_are =
                sym (take-append-drop total whole)
                ∙ ap (λ xs. xs ++ drop total whole)
                    (cut ∙ ap (frame_bytes from t payload) (sym checksum_is));
            total_is = size;
          })

-- Bytes that are parsed are a sealed frame in the expected direction, followed by anything: the
-- parsed type, payload and length are those of that frame.
pub parse_sound :
    (device_response : Bool) (bytes : Bytes) {f : BootFrame}
    → IsBytes bytes
    → parse_boot_frame bytes device_response ≡ ok f
    → IsSealed device_response bytes f
unfolding parse_boot_frame after_cut
parse_sound dr (a ∷ b ∷ c ∷ t ∷ d ∷ e ∷ rest) hb h =
    let whole = a ∷ b ∷ c ∷ t ∷ d ∷ e ∷ rest in
    let (long, h1) = guard-eq-ok (leb 7 (length whole)) short_boot_frame _ h in
    let (magic_ok, h2) =
      guard-eq-ok (equal (a ∷ b ∷ c ∷ []) (if dr then device_magic else host_magic)) bad_boot_magic
        _ h1 in
    let (sizes, h3) =
      guard-eq-ok (leb 7 (d + 256 * e) && leb (d + 256 * e) (length whole)) bad_boot_length _ h2 in
    let (ea, eb, ec) = magic_is dr a b c magic_ok in
    let (low, high) = and-true _ _ sizes in
    let hd = hb.1.1.1.1.0 in
    let he = hb.1.1.1.1.1.0 in
    rw (ea, eb, ec)
      (sound dr t d e rest hd he (leb→le 7 _ low) (leb→le _ (length whole) high)
        (rw (ea, eb, ec) at h3))
parse_sound dr [] hb h = cc
parse_sound dr _ hb h = cc
