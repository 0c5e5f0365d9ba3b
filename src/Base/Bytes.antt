-- ===== src/Base/Bytes.antt =====
-- `bytes` as lists of numbers, with what `struct` packs and unpacks in little-endian order.
use Prim.Native.Nat.{ℕ, zero, suc, ◌+◌, ◌*◌, ◌/◌, ◌%◌, ◌≤◌, ◌<◌}
use mathlib.Core.Path.{◌≡◌, refl, ap}
use mathlib.Core.Bool.{Bool, true, false, ◌&&◌, ◌||◌}
use mathlib.Core.Logic.{◌↔◌, ◌⊎◌, inl, inr}
use mathlib.Core.List.{List, [], ◌∷◌, ◌++◌}
use native.Mathlib.Omega.{arith}
use cc2_camera_fix.Base.Tests.{ltb, ◌==◌, ==_iff, if◌then◌else◌}
use cc2_camera_fix.Base.Lists.{length, take, drop, All}
use cc2_camera_fix.Base.Int.{ℤ, pos, negsuc, between, equals}
use cc2_camera_fix.Base.Result.{Result, ok, err, struct_error, index_error, value_error}

abbrev pub Bytes : Type 0
Bytes = List ℕ

abbrev pub IsBytes : Bytes → Type 0
IsBytes = All (λ b. b < 256)

-- `a == b`
unfoldable pub equal : Bytes → Bytes → Bool
equal [] [] = true
equal (x ∷ xs) (y ∷ ys) = x == y && equal xs ys
equal _ _ = false

pub equal_iff : (xs ys : Bytes) → (equal xs ys ≡ true) ↔ (xs ≡ ys)
unfolding equal
equal_iff [] ys = ground arith
equal_iff (m ∷ ms) [] = ground arith
equal_iff (m ∷ ms) (n ∷ ns) = ground (arith, equal_iff ms ns)

-- The bytes of "<H" and "<I", of a number in range.
abbrev pub le16 : ℕ → Bytes
le16 n = (n % 256) ∷ (n / 256 % 256) ∷ []

abbrev pub le32 : ℕ → Bytes
le32 n = (n % 256) ∷ (n / 256 % 256) ∷ (n / 65536 % 256) ∷ (n / 16777216 % 256) ∷ []

-- `struct.pack("<H", n)` and `struct.pack("<I", n)`
abbrev pub pack_u16 : ℤ → Result Bytes
pack_u16 (pos n) = if ltb n 65536 then ok (le16 n) else err struct_error
pack_u16 (negsuc n) = err struct_error

abbrev pub pack_u32 : ℤ → Result Bytes
pack_u32 (pos n) = if ltb n 4294967296 then ok (le32 n) else err struct_error
pack_u32 (negsuc n) = err struct_error

-- `n` as an item of a bytearray
abbrev pub pack_u8 : ℤ → Result Bytes
pack_u8 (pos n) = if ltb n 256 then ok (n ∷ []) else err value_error
pack_u8 (negsuc n) = err value_error

abbrev pub of_le16 : Bytes → Result ℕ
of_le16 (a ∷ b ∷ []) = ok (a + 256 * b)
of_le16 _ = err struct_error

abbrev pub of_le32 : Bytes → Result ℕ
of_le32 (a ∷ b ∷ c ∷ d ∷ []) = ok (a + 256 * b + 65536 * c + 16777216 * d)
of_le32 _ = err struct_error

-- `struct.unpack_from("<H", buffer, offset)[0]`, which raises on a short buffer
abbrev pub unpack_u16 : Bytes → ℕ → Result ℕ
unpack_u16 buffer offset = of_le16 (take 2 (drop offset buffer))

abbrev pub unpack_u32 : Bytes → ℕ → Result ℕ
unpack_u32 buffer offset = of_le32 (take 4 (drop offset buffer))

-- `buffer[i]`
abbrev pub byte_at : Bytes → ℕ → Result ℕ
byte_at [] i = err index_error
byte_at (b ∷ bs) zero = ok b
byte_at (b ∷ bs) (suc i) = byte_at bs i

-- The number that the little-endian fields of a number in range read as.
pub le16-value : (n : ℕ) → n < 65536 → n % 256 + 256 * (n / 256 % 256) ≡ n
le16-value n h = omega arith

pub le32-value :
    (n : ℕ)
    → n < 4294967296
    → n % 256 + 256 * (n / 256 % 256) + 65536 * (n / 65536 % 256) + 16777216 * (n / 16777216 % 256)
      ≡ n
le32-value n h = omega arith

pub IsBytes-append : (xs ys : Bytes) → IsBytes xs → IsBytes ys → IsBytes (xs ++ ys)
IsBytes-append [] ys h k = k
IsBytes-append (x ∷ xs) ys (hx, h) k = (hx, IsBytes-append xs ys h k)

pub IsBytes-split :
    (xs : Bytes) (b : ℕ) (ys : Bytes) → IsBytes (xs ++ b ∷ ys) → IsBytes xs × (b < 256) × IsBytes ys
IsBytes-split [] b ys (hb, h) = (tt, hb, h)
IsBytes-split (x ∷ xs) b ys (hx, h) = let (k, hb, l) = IsBytes-split xs b ys h in ((hx, k), hb, l)

-- What a number is that a range test or `struct` lets through.
pub between-pos :
    (lo hi : ℕ) (z : ℤ) → between lo hi z ≡ true → (n : ℕ) × (z ≡ pos n) × (lo ≤ n) × (n ≤ hi)
between-pos lo hi (pos n) h = (n, refl, ground arith, ground arith)
between-pos lo hi (negsuc n) h = cc

pub pack_u32-pos :
    (z : ℤ) (field : Bytes) → pack_u32 z ≡ ok field → (n : ℕ) × (z ≡ pos n) × (n < 4294967296)
pack_u32-pos (pos n) field h = (n, refl, ground arith)
pack_u32-pos (negsuc n) field h = cc

pub equals-pos : (z : ℤ) (n : ℕ) → equals z n ≡ true → z ≡ pos n
equals-pos (pos m) n h = ap pos ((==_iff m n).0 h)
equals-pos (negsuc m) n h = cc

pub or-cases : (a b : Bool) → (a || b) ≡ true → (a ≡ true) ⊎ (b ≡ true)
or-cases true b h = inl refl
or-cases false b h = inr h

pub byte_at-skip : (xs : Bytes) (b : ℕ) (ys : Bytes) → byte_at (xs ++ b ∷ ys) (length xs) ≡ ok b
byte_at-skip [] b ys = refl
byte_at-skip (x ∷ xs) b ys = byte_at-skip xs b ys

pub IsBytes-take : (n : ℕ) (xs : Bytes) → IsBytes xs → IsBytes (take n xs)
IsBytes-take zero xs h = tt
IsBytes-take (suc n) [] h = tt
IsBytes-take (suc n) (x ∷ xs) (hx, h) = (hx, IsBytes-take n xs h)

pub IsBytes-drop : (n : ℕ) (xs : Bytes) → IsBytes xs → IsBytes (drop n xs)
IsBytes-drop zero xs h = h
IsBytes-drop (suc n) [] h = tt
IsBytes-drop (suc n) (x ∷ xs) (hx, h) = IsBytes-drop n xs h

pub IsBytes-front : (xs ys : Bytes) → IsBytes (xs ++ ys) → IsBytes xs
IsBytes-front [] ys h = tt
IsBytes-front (x ∷ xs) ys (hx, h) = (hx, IsBytes-front xs ys h)
