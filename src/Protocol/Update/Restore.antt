-- ===== src/Protocol/Update/Restore.antt =====
-- Which images `validate_full_restore_image` lets through.
use cc2_camera_fix.Base.{ℕ, ◌+◌, ◌*◌, not, ◌||◌, [], ◌∷◌, ◌++◌, ◌≡◌, ◌≢◌, ◌↔◌, sym, ap, ◌∙◌, arith}
use cc2_camera_fix.Base.Tests.{◌==◌, ==_iff, ne→==}
use cc2_camera_fix.Base.Lists.{length, take, drop, drop-append, length-take, length-drop}
use cc2_camera_fix.Base.Int.{ℤ, equals}
use cc2_camera_fix.Base.Result.{
  Result, ok, err, protocol_error, guard, ◌>>=◌, guard-eq-ok, >>=-eq-ok, persistent_flag,
  wrong_image_size, unknown_transport_flag, ok_injective,
}
use cc2_camera_fix.Base.Bytes.{Bytes, IsBytes, IsBytes-take, IsBytes-drop, of_le32, pack_u32}
use cc2_camera_fix.Protocol.Normal.{upgrade_flag_payload, upgrade_mode_cdc, upgrade_mode_hid}
use mathlib.Core.Path.{subst}
use cc2_camera_fix.Protocol.Update.{validate_full_restore_image, flash_size, upgrade_flag_offset}

-- The word 0x55504454 in little-endian order.
abbrev pub flag_bytes : Bytes
flag_bytes = 0x54 ∷ 0x44 ∷ 0x50 ∷ 0x55 ∷ []

abbrev pub flag_slot : Bytes → Bytes
flag_slot image = take 4 (drop upgrade_flag_offset image)

-- The test of `validate_full_restore_image` on the four bytes.
word_test : (field : Bytes) → Result (Unit {0})
word_test field = do flag ← of_le32 field; guard (not (flag == 0x55504454)) persistent_flag

bytes_of :
    (a b c d : ℕ)
    → IsBytes (a ∷ b ∷ c ∷ d ∷ [])
    → a + 256 * b + 65536 * c + 16777216 * d ≡ 0x55504454
    → a ∷ b ∷ c ∷ d ∷ [] ≡ flag_bytes
bytes_of a b c d h e =
    let ea : a ≡ 0x54 = omega arith in
    let eb : b ≡ 0x44 = omega arith in
    let ec : c ≡ 0x50 = omega arith in let ed : d ≡ 0x55 = omega arith in rw (ea, eb, ec, ed)

word_test_iff :
    (field : Bytes)
    → IsBytes field
    → length field ≡ 4
    → (word_test field ≡ ok tt) ↔ (field ≢ flag_bytes)
unfolding word_test
word_test_iff (a ∷ b ∷ c ∷ d ∷ []) h n = (
  λ e same. let bad = subst (λ xs. word_test xs ≡ ok tt) same e in cc,
  λ ne.
      rw (
        ne→== (a + 256 * b + 65536 * c + 16777216 * d) 0x55504454 (λ e. ne (bytes_of a b c d h e))),
)
word_test_iff [] h n = absurd (omega arith)
word_test_iff _ h n = absurd (omega arith)

length-flag_slot : (image : Bytes) → length image ≡ flash_size → length (flag_slot image) ≡ 4
length-flag_slot image h =
    omega
      (arith, length-take 4 (drop upgrade_flag_offset image), length-drop upgrade_flag_offset image)

-- An image of bytes is accepted for a full restore exactly if it has 8 MiB and the four bytes at
-- 0x7f8000 are not the upgrade word.
pub validate_full_restore_image_lem :
    (image : Bytes)
    → IsBytes image
    → (validate_full_restore_image image ≡ ok tt)
      ↔ ((length image ≡ flash_size) × (flag_slot image ≢ flag_bytes))
unfolding validate_full_restore_image word_test
validate_full_restore_image_lem image hb = (
  (λ h.
      let (size_ok, rest) = guard-eq-ok (length image == flash_size) wrong_image_size _ h in
      let size = (==_iff (length image) flash_size).0 size_ok in (size, (slot size).0 rest)),
  λ (size, ne). rw ((==_iff (length image) flash_size).1 size) ((slot size).1 ne),
)
  where
    slot :
        length image ≡ flash_size
        → (word_test (flag_slot image) ≡ ok tt) ↔ (flag_slot image ≢ flag_bytes)
    slot size =
        word_test_iff (flag_slot image)
          (IsBytes-take 4 (drop upgrade_flag_offset image)
            (IsBytes-drop upgrade_flag_offset image hb))
          (length-flag_slot image size)

flag_refused :
    (image : Bytes)
    → length image ≡ flash_size
    → flag_slot image ≡ flag_bytes
    → validate_full_restore_image image ≡ err (protocol_error persistent_flag)
unfolding validate_full_restore_image
flag_refused image size slot = rw ((==_iff (length image) flash_size).1 size, slot)

flags_start :
    (mode : ℤ) (flags : Bytes)
    → upgrade_flag_payload mode ≡ ok flags
    → (mode_field : Bytes) × (flags ≡ flag_bytes ++ mode_field)
unfolding upgrade_flag_payload
flags_start mode flags h =
    let (mode_ok, h1) =
      guard-eq-ok (equals mode upgrade_mode_cdc || equals mode upgrade_mode_hid)
        unknown_transport_flag _ h in
    let (mode_field, packed, e) = >>=-eq-ok (pack_u32 mode) _ h1 in
    (mode_field, sym (ok_injective e))

slot_of :
    (front rest : Bytes)
    → length front ≡ upgrade_flag_offset
    → flag_slot (front ++ rest) ≡ take 4 rest
slot_of front rest h = ap (take 4) (drop-append upgrade_flag_offset front rest (sym h))

-- An 8 MiB image that holds at 0x7f8000 what an upgrade request of either mode writes there is
-- refused, for the persistent flag.
pub restore-upgrade_flags :
    (mode : ℤ) (flags front tail : Bytes)
    → upgrade_flag_payload mode ≡ ok flags
    → length front ≡ upgrade_flag_offset
    → length (front ++ (flags ++ tail)) ≡ flash_size
    → validate_full_restore_image (front ++ (flags ++ tail)) ≡ err (protocol_error persistent_flag)
restore-upgrade_flags mode flags front tail h at_offset size =
    let (mode_field, e) = flags_start mode flags h in
    flag_refused (front ++ (flags ++ tail)) size
      (slot_of front (flags ++ tail) at_offset ∙ ap (λ (xs : Bytes). take 4 (xs ++ tail)) e)
