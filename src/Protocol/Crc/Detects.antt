-- ===== src/Protocol/Crc/Detects.antt =====
-- The checksum tells apart any two messages that differ in one byte.
use cc2_camera_fix.Base.{
  ℕ, zero, suc, ◌+◌, ◌*◌, ◌<◌, bit_xor, [], ◌∷◌, ◌++◌, ◌≡◌, ◌≢◌, refl, sym, ap, ◌∙◌, arith, true,
}
use cc2_camera_fix.Base.Tests.{ltb, ◌==◌, ==_iff, if◌then◌else◌, all_below, all_below_sound}
use cc2_camera_fix.Base.Bytes.{Bytes, IsBytes}
use cc2_camera_fix.Base.Xor.{bit_xor-lt, bit_xor_injective, bit_xor_injective_right}
use cc2_camera_fix.Protocol.Crc.{crc_round, crc_rounds, crc_byte, crc16_from, crc16_normal}
use cc2_camera_fix.Protocol.Crc.Bounds.{crc_round_13, crc_byte-lt}

-- A round on 13 bits can be undone: bit 12 tells whether the polynomial was added.
unround : ℕ → ℕ
unround y = if ltb y 4096 then 2 * y else 2 * bit_xor y 0x1021 + 1

unrounds : ℕ → ℕ → ℕ
unrounds zero y = y
unrounds (suc n) y = unround (unrounds n y)

unround_table : all_below 8192 (λ x. unround (crc_round x) == x) ≡ true
unfolding all_below unround crc_round
unround_table = refl

unround-crc_round : (x : ℕ) → x < 8192 → unround (crc_round x) ≡ x
unround-crc_round x h = (==_iff _ x).0 (all_below_sound 8192 _ x h unround_table)

unrounds-crc_rounds : (n x : ℕ) → x < 8192 → unrounds n (crc_rounds n x) ≡ x
unfolding unrounds crc_rounds
unrounds-crc_rounds zero x h = refl
unrounds-crc_rounds (suc n) x h =
    ap unround (unrounds-crc_rounds n (crc_round x) (crc_round_13 x h)) ∙ unround-crc_round x h

crc_rounds_injective : (n x y : ℕ) → x < 8192 → y < 8192 → crc_rounds n x ≡ crc_rounds n y → x ≡ y
crc_rounds_injective n x y hx hy e =
    sym (unrounds-crc_rounds n x hx) ∙ ap (unrounds n) e ∙ unrounds-crc_rounds n y hy

crc_byte_injective :
    (x y b : ℕ) → x < 8192 → y < 8192 → b < 256 → crc_byte x b ≡ crc_byte y b → x ≡ y
unfolding crc_byte
crc_byte_injective x y b hx hy hb e = bit_xor_injective x y b (
    crc_rounds_injective 8 _ _ (bit_xor-lt 13 x b hx (omega arith))
      (bit_xor-lt 13 y b hy (omega arith)) e)

crc_byte_injective_right :
    (x a b : ℕ) → x < 8192 → a < 256 → b < 256 → crc_byte x a ≡ crc_byte x b → a ≡ b
unfolding crc_byte
crc_byte_injective_right x a b hx ha hb e = bit_xor_injective_right a b x (
    crc_rounds_injective 8 _ _ (bit_xor-lt 13 x a hx (omega arith))
      (bit_xor-lt 13 x b hx (omega arith)) e)

crc16_from_injective :
    (bytes : Bytes) (x y : ℕ)
    → IsBytes bytes
    → x < 8192
    → y < 8192
    → crc16_from x bytes ≡ crc16_from y bytes
    → x ≡ y
unfolding crc16_from
crc16_from_injective [] x y h hx hy e = e
crc16_from_injective (b ∷ bytes) x y (hb, h) hx hy e = crc_byte_injective x y b hx hy hb (
    crc16_from_injective bytes (crc_byte x b) (crc_byte y b) h
      (crc_byte-lt x b (omega arith) (omega arith)) (crc_byte-lt y b (omega arith) (omega arith)) e)

-- From the initial value, whose upper bits are not zero, the byte is found again by linearity.
first_byte_table :
    all_below 256 (λ b. unrounds 8 (bit_xor (crc_byte 0xFFFF b) (crc_rounds 8 0xFFFF)) == b) ≡ true
unfolding all_below unrounds unround crc_byte
first_byte_table = refl

recover_first : ℕ → ℕ
recover_first crc = unrounds 8 (bit_xor crc (crc_rounds 8 0xFFFF))

recover_first-crc_byte : (b : ℕ) → b < 256 → recover_first (crc_byte 0xFFFF b) ≡ b
unfolding recover_first
recover_first-crc_byte b h = (==_iff _ b).0 (all_below_sound 256 _ b h first_byte_table)

crc16_from_tail :
    (x : ℕ) (tail : Bytes) (a b : ℕ)
    → IsBytes tail
    → a < 256
    → b < 256
    → x < 65536
    → (crc_byte x a ≡ crc_byte x b → a ≡ b)
    → crc16_from x (a ∷ tail) ≡ crc16_from x (b ∷ tail)
    → a ≡ b
unfolding crc16_from
crc16_from_tail x tail a b ht ha hb hx back e = back (
    crc16_from_injective tail (crc_byte x a) (crc_byte x b) ht (crc_byte-lt x a hx (omega arith))
      (crc_byte-lt x b hx (omega arith)) e)

crc16_from_byte :
    (front tail : Bytes) (x a b : ℕ)
    → IsBytes front
    → IsBytes tail
    → a < 256
    → b < 256
    → x < 8192
    → crc16_from x (front ++ a ∷ tail) ≡ crc16_from x (front ++ b ∷ tail)
    → a ≡ b
unfolding crc16_from
crc16_from_byte [] tail x a b hf ht ha hb hx e =
    crc16_from_tail x tail a b ht ha hb (omega arith) (crc_byte_injective_right x a b hx ha hb) e
crc16_from_byte (c ∷ front) tail x a b (hc, hf) ht ha hb hx e =
    crc16_from_byte front tail (crc_byte x c) a b hf ht ha hb
      (crc_byte-lt x c (omega arith) (omega arith)) e

-- Two messages of bytes that differ in exactly one byte, anywhere, have different checksums.
pub crc16_normal-single_byte :
    (front tail : Bytes) (a b : ℕ)
    → IsBytes front
    → IsBytes tail
    → a < 256
    → b < 256
    → a ≢ b
    → crc16_normal (front ++ a ∷ tail) ≢ crc16_normal (front ++ b ∷ tail)
unfolding crc16_normal crc16_from
crc16_normal-single_byte [] tail a b hf ht ha hb ne e = ne (
    crc16_from_tail 0xFFFF tail a b ht ha hb (omega arith)
      (λ p. sym (recover_first-crc_byte a ha) ∙ ap recover_first p ∙ recover_first-crc_byte b hb) e)
crc16_normal-single_byte (c ∷ front) tail a b (hc, hf) ht ha hb ne e = ne (
    crc16_from_byte front tail (crc_byte 0xFFFF c) a b hf ht ha hb
      (crc_byte-lt 0xFFFF c (omega arith) (omega arith)) e)
