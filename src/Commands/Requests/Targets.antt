-- ===== src/Commands/Requests/Targets.antt =====
-- Which upload targets are let through.
use cc2_camera_fix.Base.{
  ℕ, ◌≤◌, ◌<◌, true, not, ◌&&◌, ◌≡◌, ◌⊎◌, inl, inr, refl, sym, ap, ◌∙◌, arith, Option, none, some,
  [], ◌∷◌,
}
use cc2_camera_fix.Base.Tests.{leb, ◌==◌, leb→le, and-true, Bool-cases, Option-cases}
use cc2_camera_fix.Base.Lists.{All, length}
use cc2_camera_fix.Base.Int.{ℤ, pos, negsuc}
use cc2_camera_fix.Base.Result
use cc2_camera_fix.Base.Result.{
  Result, ok, err, protocol_error, guard, ◌>>=◌, ◌>>◌, guard-eq-ok, >>=-eq-ok, ok_injective,
}
use cc2_camera_fix.Base.Bytes.{Bytes, IsBytes}
use cc2_camera_fix.Commands.Numbers.{NormalCommand, value, of_value}
use cc2_camera_fix.Commands.Numbers.Lookup.{of_value-value}
use cc2_camera_fix.Protocol.Normal.{parse_normal_report}
use cc2_camera_fix.Protocol.Normal.Accepts.{frame_of, parse-built}
use cc2_camera_fix.Commands.Uploads.{
  member, literal_upload_target_commands, derived_upload_target_commands,
}
use cc2_camera_fix.Commands.Requests.{
  Value, is_safe_path_byte, all_safe, matches_safe_path, encoded_path, literal_path, is_absent,
  plain_report, selected_command, build_upload_target_request,
}

-- A letter, a digit, `_`, `.`, `/` or `-`.
abbrev SafeByte : ℕ → Type 0
SafeByte c =
    ((b'A' ≤ c) × (c ≤ b'Z'))
    ⊎ ((b'a' ≤ c) × (c ≤ b'z'))
    ⊎ ((b'0' ≤ c) × (c ≤ b'9'))
    ⊎ (c ≡ b'_')
    ⊎ (c ≡ b'.')
    ⊎ (c ≡ b'/')
    ⊎ (c ≡ b'-')

safe_byte : (c : ℕ) → is_safe_path_byte c ≡ true → SafeByte c
unfolding is_safe_path_byte
safe_byte c h = ground arith

safe_bytes : (cs : Bytes) → all_safe cs ≡ true → All SafeByte cs
unfolding all_safe
safe_bytes [] h = tt
safe_bytes (c ∷ cs) h =
    let (p, q) = and-true (is_safe_path_byte c) (all_safe cs) h in (safe_byte c p, safe_bytes cs q)

-- A destination path that may be sent.
pub record IsSafePath (path : Bytes) : Type 0 where
  pub not_empty : 0 < length path
  pub fits : length path ≤ 127
  pub safe : All SafeByte path

safe-IsBytes : (cs : Bytes) → All SafeByte cs → IsBytes cs
safe-IsBytes [] h = tt
safe-IsBytes (c ∷ cs) (hc, h) = (ground arith, safe-IsBytes cs h)

matches-safe : (cs : Bytes) → matches_safe_path cs ≡ true → (0 < length cs) × All SafeByte cs
unfolding matches_safe_path
matches-safe [] h = cc
matches-safe (c ∷ cs) h = (omega arith, safe_bytes (c ∷ cs) h)

literal-IsSafePath :
    (path : Option Value) (encoded : Bytes) → literal_path path ≡ ok encoded → IsSafePath encoded
unfolding literal_path
literal-IsSafePath none encoded h = cc
literal-IsSafePath (some path) encoded h =
    let (candidate, _, h1) = >>=-eq-ok (encoded_path path) _ h in
    let (good, h2) =
      guard-eq-ok
        (not (length candidate == 0) && (leb (length candidate) 127 && matches_safe_path candidate))
        Result.unsafe_path _ h1 in
    let (_, rest) = and-true (not (length candidate == 0)) _ good in
    let (short, matched) =
      and-true (leb (length candidate) 127) (matches_safe_path candidate) rest in
    let (some_bytes, safe) = matches-safe candidate matched in
    rw (← ok_injective h2)
      (record { not_empty = some_bytes; fits = leb→le (length candidate) 127 short; safe = safe })

-- What a target request sends: no payload for a path that the camera derives, or a safe path.
pub record IsTarget (command : ℤ) (path : Option Value) (report : Bytes) : Type 0 where
  pub selected : NormalCommand
  pub payload : Bytes
  pub command_is : command ≡ pos (value selected)
  pub sends : parse_normal_report report ≡ ok (frame_of (value selected) 1 0 payload)
  pub kind :
      ((member selected derived_upload_target_commands ≡ true) × (path ≡ none) × (payload ≡ []))
      ⊎ ((member selected literal_upload_target_commands ≡ true) × IsSafePath payload)

selects :
    (command : ℤ) {c : NormalCommand} → selected_command command ≡ ok c → command ≡ pos (value c)
unfolding selected_command
selects (pos n) {c} h = elim (Option-cases (of_value n)) [
  | inl e ↦ let bad = rw e at h in cc
  | inr (x, e) ↦
      let good = rw e at h in
      ap pos (sym (of_value-value n {c = c} (e ∙ ap some (ok_injective good))))
]
selects (negsuc n) h = cc

absent-none : (path : Option Value) → is_absent path ≡ true → path ≡ none
absent-none none h = refl
absent-none (some p) h = cc

pub plain-sent :
    (c : NormalCommand) (payload report : Bytes)
    → IsBytes payload
    → plain_report c payload ≡ ok report
    → parse_normal_report report ≡ ok (frame_of (value c) 1 0 payload)
unfolding plain_report
plain-sent c payload report hp h = (parse-built (value c) 1 0 payload report hp h).0

-- A target request that is built is a frame for the command that was asked for. Either the command
-- derives its path on the camera, no path was given and none is sent, or the command takes a
-- literal path, and the payload is 1 to 127 letters, digits, `_`, `.`, `/` and `-`: no space and no
-- shell metacharacter.
pub build_upload_target_request-IsTarget :
    (command : ℤ) (path : Option Value) (report : Bytes)
    → build_upload_target_request command path ≡ ok report
    → IsTarget command path report
unfolding build_upload_target_request
build_upload_target_request-IsTarget command path report h =
    let (selected, is, h1) = >>=-eq-ok (selected_command command) _ h in
    elim (Bool-cases (member selected derived_upload_target_commands)) [
      | inl d ↦
          let h2 = rw d at h1 in
          let (absent, h3) = guard-eq-ok (is_absent path) Result.derived_with_path _ h2 in
          record {
            selected = selected;
            payload = [];
            command_is = selects command is;
            sends = plain-sent selected [] report tt h3;
            kind = inl (d, absent-none path absent, refl);
          }
      | inr d ↦
          let h2 = rw d at h1 in
          let (listed, h3) =
            guard-eq-ok (member selected literal_upload_target_commands) Result.not_an_upload_target
              _ h2 in
          let (payload, literal, h4) = >>=-eq-ok (literal_path path) _ h3 in
          let safe = literal-IsSafePath path payload literal in
          record {
            selected = selected;
            payload = payload;
            command_is = selects command is;
            sends = plain-sent selected payload report (safe-IsBytes payload safe.safe) h4;
            kind = inr (listed, safe);
          }
    ]
