-- ===== src/Commands/BootRequests/Replies.antt =====
-- Decoding the bootloader's replies.
use cc2_camera_fix.Base.{
  ℕ, zero, suc, ◌+◌, ◌*◌, ◌/◌, ◌%◌, ◌<◌, Bool, true, false, ◌||◌, ◌≡◌, ◌↔◌, inl, inr, refl, sym, ap,
  arith, [], ◌∷◌, ◌++◌,
}
use mathlib.Core.Path.{subst₂}
use cc2_camera_fix.Base.Tests.{leb, ◌==◌, ==_iff, le→leb, and-true, Bool-cases}
use cc2_camera_fix.Base.Lists.{length}
use cc2_camera_fix.Base.Result
use cc2_camera_fix.Base.Result.{
  Result, ok, err, protocol_error, guard, ◌>>=◌, ◌>>◌, guard-eq-ok, >>=-eq-ok, ok_injective,
}
use cc2_camera_fix.Base.Bytes.{Bytes, IsBytes, IsBytes-front, le32, of_le32, le32-value, equal}
use cc2_camera_fix.Protocol.Boot.{
  BootFrame, additive_checksum, from_boot_hid_report, strip_report_id,
}
use cc2_camera_fix.Protocol.Boot.Layout.{header, sealed}
use cc2_camera_fix.Protocol.Boot.RoundTrip.{from-sealed, frame_of}
use cc2_camera_fix.Protocol.Boot.Sound.{parse_sound}
use cc2_camera_fix.Commands.BootRequests.{
  bytes, is_report, coerce_device_boot_frame, decode_boot_ack, decode_boot_terminal_status,
}

-- A device frame, alone or behind a report ID, with any padding.
pub data IsReply (frame_type : ℕ) (payload : Bytes) : Bytes → Type 0 where
  bare : (padding : Bytes) → IsReply frame_type payload (sealed 0x81 frame_type payload ++ padding)
  report :
      (padding : Bytes)
      → IsReply frame_type payload (1 ∷ (sealed 0x81 frame_type payload ++ padding))

module _ (frame_type : ℕ) (payload : Bytes) (fits : length payload + 7 < 65536) where
  pub coerce-IsReply :
      (reply : Bytes)
      → IsReply frame_type payload reply
      → coerce_device_boot_frame (bytes reply) ≡ ok (frame_of frame_type payload)
  unfolding coerce_device_boot_frame is_report from_boot_hid_report strip_report_id
  coerce-IsReply _ (bare padding) =
      rw (le→leb 4 (length (sealed 0x81 frame_type payload ++ padding)) (omega arith))
        (from-sealed frame_type payload padding fits).1
  coerce-IsReply _ (report padding) =
      rw (le→leb 4 (length (1 ∷ (sealed 0x81 frame_type payload ++ padding))) (omega arith))
        (from-sealed frame_type payload padding fits).0

-- Every reply that acknowledges packet `n` is decoded to `n`.
decode_boot_ack-reply :
    (n : ℕ) (reply : Bytes)
    → n < 4294967296
    → IsReply 2 (le32 n) reply
    → decode_boot_ack (bytes reply) ≡ ok n
unfolding decode_boot_ack
decode_boot_ack-reply n reply h r =
    rw (coerce-IsReply 2 (le32 n) (omega arith) reply r) (ap ok (le32-value n h))

is_report-one : (b : ℕ) (rest : Bytes) → is_report (b ∷ rest) ≡ true → b ≡ 1
unfolding is_report
is_report-one b rest h =
    let (_, right) = and-true (leb 4 (length (b ∷ rest))) _ h in
    let (one, _) = and-true (b == 1) _ right in (==_iff b 1).0 one

coerce_sound :
    (reply : Bytes) (f : BootFrame)
    → IsBytes reply
    → coerce_device_boot_frame (bytes reply) ≡ ok f
    → IsReply f.frame_type f.payload reply
unfolding coerce_device_boot_frame from_boot_hid_report strip_report_id
coerce_sound reply f hb h = elim (Bool-cases (is_report reply)) [
  | inl e ↦ framed reply hb e (rw e at h)
  | inr e ↦ let s = parse_sound true reply {f = f} hb (rw e at h) in rw s.bytes_are (bare s.padding)
]
  where
    framed :
        (reply : Bytes)
        → IsBytes reply
        → is_report reply ≡ true
        → from_boot_hid_report reply ≡ ok f
        → IsReply f.frame_type f.payload reply
    framed [] hb e h = cc
    framed (b ∷ rest) (_, hr) e h =
        let one = is_report-one b rest e in
        let s = parse_sound true rest {f = f} hr (rw one at h) in
        rw (one, s.bytes_are) (report s.padding)

le32-bytes :
    (a b c d : ℕ)
    → IsBytes (a ∷ b ∷ c ∷ d ∷ [])
    → le32 (a + 256 * b + 65536 * c + 16777216 * d) ≡ a ∷ b ∷ c ∷ d ∷ []
le32-bytes a b c d h =
    let n = a + 256 * b + 65536 * c + 16777216 * d in
    let ea : n % 256 ≡ a = omega arith in
    let eb : n / 256 % 256 ≡ b = omega arith in
    let ec : n / 65536 % 256 ≡ c = omega arith in
    let ed : n / 16777216 % 256 ≡ d = omega arith in rw (ea, eb, ec, ed)

payload-le32 :
    (p : Bytes) (n : ℕ)
    → IsBytes p
    → length p ≡ 4
    → of_le32 p ≡ ok n
    → (p ≡ le32 n) × (n < 4294967296)
payload-le32 (a ∷ b ∷ c ∷ d ∷ []) n hb size h =
    let e = ok_injective h in rw (← e) (sym (le32-bytes a b c d hb), omega arith)
payload-le32 [] n hb size h = cc
payload-le32 _ n hb size h = absurd (omega arith)

sealed-IsBytes : (t : ℕ) (p padding : Bytes) → IsBytes (sealed 0x81 t p ++ padding) → IsBytes p
sealed-IsBytes t p padding hb =
    let checksum = additive_checksum (header 0x81 t (length p) ++ p) in
    IsBytes-front p (checksum ∷ []) (IsBytes-front (p ++ checksum ∷ []) padding hb.1.1.1.1.1.1)

reply-IsBytes : (t : ℕ) (p reply : Bytes) → IsBytes reply → IsReply t p reply → IsBytes p
reply-IsBytes t p _ hb (bare padding) = sealed-IsBytes t p padding hb
reply-IsBytes t p _ hb (report padding) = sealed-IsBytes t p padding hb.1

-- A reply is decoded as the acknowledgement of packet `n` exactly if it is a device frame of type
-- 2, alone or behind a report ID, whose payload is `n` in four bytes.
pub decode_boot_ack_lem :
    (n : ℕ) (reply : Bytes)
    → IsBytes reply
    → (decode_boot_ack (bytes reply) ≡ ok n) ↔ ((n < 4294967296) × IsReply 2 (le32 n) reply)
unfolding decode_boot_ack
decode_boot_ack_lem n reply hb = (
  (λ h.
      let (f, coerced, h1) = >>=-eq-ok (coerce_device_boot_frame (bytes reply)) _ h in
      let (type_ok, h2) = guard-eq-ok (f.frame_type == 2) Result.not_an_ack _ h1 in
      let (size_ok, h3) = guard-eq-ok (length f.payload == 4) Result.bad_ack_size _ h2 in
      let is = coerce_sound reply f hb coerced in
      let (e, fits) =
        payload-le32 f.payload n (reply-IsBytes f.frame_type f.payload reply hb is)
          ((==_iff (length f.payload) 4).0 size_ok) h3 in
      (fits, subst₂ (λ t p. IsReply t p reply) ((==_iff f.frame_type 2).0 type_ok) e is)),
  λ (fits, is). decode_boot_ack-reply n reply fits is,
)

abbrev pub status_byte : Bool → ℕ
status_byte true = 1
status_byte false = 0

status_payload :
    (p : Bytes) (passed : Bool)
    → (guard (equal p (0 ∷ []) || equal p (1 ∷ [])) Result.bad_status >> ok (equal p (1 ∷ [])))
      ≡ ok passed
    → p ≡ status_byte passed ∷ []
unfolding equal
status_payload (zero ∷ []) true h = cc
status_payload (zero ∷ []) false h = refl
status_payload (suc zero ∷ []) true h = refl
status_payload (suc zero ∷ []) false h = cc
status_payload (suc (suc n) ∷ []) passed h = ground arith
status_payload (b ∷ c ∷ p) passed h = ground arith
status_payload [] passed h = cc

accepts :
    (passed : Bool) (reply : Bytes)
    → IsReply 5 (status_byte passed ∷ []) reply
    → decode_boot_terminal_status (bytes reply) ≡ ok passed
unfolding decode_boot_terminal_status equal
accepts true reply is = rw (coerce-IsReply 5 (1 ∷ []) (omega arith) reply is)
accepts false reply is = rw (coerce-IsReply 5 (0 ∷ []) (omega arith) reply is)

-- A reply is decoded as a terminal status exactly if it is a device frame of type 5, alone or
-- behind a report ID, whose payload is the one byte 01 for success or 00 for failure.
pub decode_boot_terminal_status_lem :
    (passed : Bool) (reply : Bytes)
    → IsBytes reply
    → (decode_boot_terminal_status (bytes reply) ≡ ok passed)
      ↔ IsReply 5 (status_byte passed ∷ []) reply
unfolding decode_boot_terminal_status
decode_boot_terminal_status_lem passed reply hb = (
  (λ h.
      let (f, coerced, h1) = >>=-eq-ok (coerce_device_boot_frame (bytes reply)) _ h in
      let (type_ok, h2) = guard-eq-ok (f.frame_type == 5) Result.not_a_status _ h1 in
      let is = coerce_sound reply f hb coerced in
      let e = status_payload f.payload passed h2 in
      subst₂ (λ t p. IsReply t p reply) ((==_iff f.frame_type 5).0 type_ok) e is),
  λ is. accepts passed reply is,
)
