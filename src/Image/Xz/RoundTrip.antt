-- ===== src/Image/Xz/RoundTrip.antt =====
-- The variable-length integers of the XZ container.
use cc2_camera_fix.Base.{
  ℕ, zero, suc, ◌+◌, ◌-◌, ◌*◌, ◌/◌, ◌%◌, ◌<◌, ◌≡◌, refl, arith, inl, inr, true, false, [], ◌∷◌,
  ◌++◌,
}
use cc2_camera_fix.Base.Tests.{ltb, ◌==◌, if◌then◌else◌, Bool-cases, lt→ltb, le→ltb}
use cc2_camera_fix.Base.Int.{pos}
use cc2_camera_fix.Base.Result.{ok}
use cc2_camera_fix.Base.Bytes.{Bytes, IsBytes}
use cc2_camera_fix.Image.Xz.{vli_from, xz_vli}

-- The value of an integer of the format, and the bytes behind it: a byte below 128 is the last one.
unfoldable pub vli_value : Bytes → ℕ × Bytes
vli_value [] = (0, [])
vli_value (b ∷ bs) =
    let (high, rest) = vli_value bs in if ltb b 128 then (b, bs) else (b - 128 + 128 * high, rest)

vli_from_lem :
    (turns value : ℕ) (rest : Bytes)
    → value < turns
    → vli_value (vli_from turns value ++ rest) ≡ (value, rest)
unfolding vli_from vli_value
vli_from_lem zero value rest h = absurd (omega arith)
vli_from_lem (suc turns) value rest h = elim (Bool-cases (value / 128 == 0)) [
  | inl last ↦ rw (last, lt→ltb (value % 128) 128 (omega arith), small last) refl
  | inr more ↦
      rw
        (
          more,
          vli_from_lem turns (value / 128) rest (smaller more),
          le→ltb (value % 128 + 128) 128 (omega arith),
          whole,
        )
        refl
]
  where
    small : (value / 128 == 0) ≡ true → value % 128 ≡ value
    small e = ground arith

    smaller : (value / 128 == 0) ≡ false → value / 128 < turns
    smaller e = ground arith

    whole : value % 128 + 128 - 128 + 128 * (value / 128) ≡ value
    whole = omega arith

vli_from-IsBytes : (turns value : ℕ) → IsBytes (vli_from turns value)
unfolding vli_from
vli_from-IsBytes zero value = tt
vli_from-IsBytes (suc turns) value = elim (Bool-cases (value / 128 == 0)) [
  | inl last ↦ rw last (omega arith, tt)
  | inr more ↦ rw more (omega arith, vli_from-IsBytes turns (value / 128))
]

-- A length of any size is encoded without an exception, in bytes, and a reader that stops at the first
-- byte below 128 gets back the length and whatever stands behind it. So the loop always ends.
pub xz_vli-vli_value :
    (value : ℕ) (rest : Bytes)
    → (encoded : Bytes) × (xz_vli (pos value) ≡ ok encoded)
      × IsBytes encoded
      × (vli_value (encoded ++ rest) ≡ (value, rest))
unfolding xz_vli
xz_vli-vli_value value rest = (
  vli_from (suc value) value,
  refl,
  vli_from-IsBytes (suc value) value,
  vli_from_lem (suc value) value rest (omega arith),
)
