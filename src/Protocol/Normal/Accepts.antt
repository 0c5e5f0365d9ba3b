-- ===== src/Protocol/Normal/Accepts.antt =====
-- Which arguments `build_normal_report` accepts.
use cc2_camera_fix.Base.{ℕ, true, ◌||◌, ◌≡◌, ◌↔◌, ◌⊎◌, inl, inr, refl, sym, ◌∙◌, arith}
use cc2_camera_fix.Base.Int.{ℤ, pos, between, equals}
use cc2_camera_fix.Base.Lists.{length, drop}
use cc2_camera_fix.Base.Tests.{leb, leb→le}
use cc2_camera_fix.Base.Result.{
  ok, guard-eq-ok, >>=-eq-ok, ok_injective, command_range, unsafe_frame_type, payload_too_large,
}
use cc2_camera_fix.Base.Bytes.{
  Bytes, IsBytes, pack_u16, pack_u32, pack_u8, between-pos, pack_u32-pos, equals-pos, or-cases,
}
use cc2_camera_fix.Protocol.Normal.{NormalFrame, build_normal_report, parse_normal_report}
use cc2_camera_fix.Protocol.Normal.RoundTrip.{parse-build}
use cc2_camera_fix.Protocol.Normal.Layout.{IsRequest, layout, build-layout, length-layout}

-- The numbers that the builder's guards and `struct` let through, and no others.
pub record IsAccepted (command : ℤ) (payload : Bytes) (frame_type status : ℤ) : Type 0 where
  pub c : ℕ
  pub t : ℕ
  pub s : ℕ
  pub command_is : command ≡ pos c
  pub type_is : frame_type ≡ pos t
  pub status_is : status ≡ pos s
  pub in_range : IsRequest c payload t s

type-pos : (z : ℤ) → (equals z 1 || equals z 2) ≡ true → (t : ℕ) × (z ≡ pos t) × ((t ≡ 1) ⊎ (t ≡ 2))
type-pos z h = elim (or-cases (equals z 1) (equals z 2) h) [
  | inl e ↦ (1, equals-pos z 1 e, inl refl)
  | inr e ↦ (2, equals-pos z 2 e, inr refl)
]

module _ (command : ℤ) (payload : Bytes) (frame_type status : ℤ) where
  accepted :
      (report : Bytes)
      → build_normal_report command payload frame_type status ≡ ok report
      → IsAccepted command payload frame_type status
  unfolding build_normal_report
  accepted report h =
      let (command_ok, h1) = guard-eq-ok (between 0 0xFFFF command) command_range _ h in
      let (type_ok, h2) =
        guard-eq-ok (equals frame_type 1 || equals frame_type 2) unsafe_frame_type _ h1 in
      let (payload_ok, h3) = guard-eq-ok (leb (length payload) 1010) payload_too_large _ h2 in
      let (command_field, packed1, h4) = >>=-eq-ok (pack_u16 command) _ h3 in
      let (type_field, packed2, h5) = >>=-eq-ok (pack_u8 frame_type) _ h4 in
      let (length_field, packed3, h6) = >>=-eq-ok (pack_u16 (pos (length payload))) _ h5 in
      let (status_field, packed4, h7) = >>=-eq-ok (pack_u32 status) _ h6 in
      let (c, command_is, _, c_fits) = between-pos 0 0xFFFF command command_ok in
      let (t, type_is, t_is) = type-pos frame_type type_ok in
      let (s, status_is, s_fits) = pack_u32-pos status status_field packed4 in
      record {
        c = c;
        t = t;
        s = s;
        command_is = command_is;
        type_is = type_is;
        status_is = status_is;
        in_range = record {
          command_fits = omega arith;
          type_is = t_is;
          payload_fits = leb→le (length payload) 1010 payload_ok;
          status_fits = s_fits;
        };
      }

  built :
      IsBytes payload
      → (a : IsAccepted command payload frame_type status)
      → build_normal_report command payload frame_type status ≡ ok (layout a.c a.t a.s payload)
  built hp a =
      rw (a.command_is, a.type_is, a.status_is) (build-layout a.c a.t a.s payload a.in_range hp)

  -- For a payload of bytes the builder returns a report exactly if the command fits 16 bits, the
  -- frame type is 1 or 2, the payload has at most 1010 bytes and the status fits 32 bits without
  -- a sign.
  pub build-accepts :
      IsBytes payload
      → ((report : Bytes) × (build_normal_report command payload frame_type status ≡ ok report))
        ↔ IsAccepted command payload frame_type status
  build-accepts hp =
      (λ (report, h). accepted report h, λ a. (layout a.c a.t a.s payload, built hp a))

  -- Every report that is built for a payload of bytes has 1024 bytes.
  length-build :
      (report : Bytes)
      → IsBytes payload
      → build_normal_report command payload frame_type status ≡ ok report
      → length report ≡ 1024
  length-build report hp h =
      let a = accepted report h in
      let e : report ≡ layout a.c a.t a.s payload = ok_injective (sym h ∙ built hp a) in
      rw e (length-layout a.c a.t a.s payload a.in_range.payload_fits)

abbrev pub frame_of : ℕ → ℕ → ℕ → Bytes → NormalFrame
frame_of command frame_type status payload = record {
  command = command;
  frame_type = frame_type;
  status = status;
  payload = payload;
}

pub pos_injective : (a b : ℕ) → pos a ≡ pos b → a ≡ b
pos_injective a b h = cc

module _ (command frame_type status : ℕ) (payload report : Bytes) where
  pub built-IsRequest :
      build_normal_report (pos command) payload (pos frame_type) (pos status) ≡ ok report
      → IsRequest command payload frame_type status
  built-IsRequest h =
      let a = accepted (pos command) payload (pos frame_type) (pos status) report h in
      let e1 = pos_injective command a.c a.command_is in
      let e2 = pos_injective frame_type a.t a.type_is in
      let e3 = pos_injective status a.s a.status_is in rw (e1, e2, e3) a.in_range

  -- A report that is built for a payload of bytes is parsed to the very fields it was built from,
  -- and so is the same report when the platform strips its report ID.
  pub parse-built :
      IsBytes payload
      → build_normal_report (pos command) payload (pos frame_type) (pos status) ≡ ok report
      → (parse_normal_report report ≡ ok (frame_of command frame_type status payload))
        × (parse_normal_report (drop 1 report) ≡ ok (frame_of command frame_type status payload))
  parse-built hp h = parse-build command frame_type status payload (built-IsRequest h) hp report h
