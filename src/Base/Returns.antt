-- ===== src/Base/Returns.antt =====
-- Results that are no exception, with what holds of the value.
use cc2_camera_fix.Base.{
  ℕ, zero, suc, ◌+◌, ◌≤◌, ◌<◌, ◌≡◌, refl, sym, arith, Bool, true, false, [], ◌∷◌,
}
use cc2_camera_fix.Base.Lists.{length, take}
use cc2_camera_fix.Base.Result.{
  Result, Reason, Exn, ok, err, validation_error, ◌>>=◌, ◌>>◌, validate, ok_injective,
}
use mathlib.Core.Path.{subst}
use cc2_camera_fix.Base.Tests.{if◌then◌else◌}
use cc2_camera_fix.Base.Bytes.{Bytes, IsBytes, of_le16, of_le32, unpack_u16, unpack_u32, byte_at}

pub data Returns {A : Type 0} (P : A → Type 0) : Result A → Type 0 where
  returned : {a : A} → P a → Returns P (ok a)

pub Returns->>= :
    {A B : Type 0} {P : A → Type 0} {Q : B → Type 0} (m : Result A) (f : A → Result B)
    → Returns P m
    → ((a : A) → P a → Returns Q (f a))
    → Returns Q (m >>= f)
Returns->>= _ f (returned {a} p) k = k a p

pub Returns-if :
    {A : Type 0} {P : A → Type 0} (test : Bool) (m n : Result A)
    → (test ≡ true → Returns P m)
    → (test ≡ false → Returns P n)
    → Returns P (if test then m else n)
Returns-if true m n h k = h refl
Returns-if false m n h k = k refl

pub Returns-map :
    {A : Type 0} {P Q : A → Type 0} {m : Result A}
    → ((a : A) → P a → Q a)
    → Returns P m
    → Returns Q m
Returns-map f (returned {a} p) = returned (f a p)

pub Returns-at : {A : Type 0} {P : A → Type 0} {m : Result A} {a : A} → m ≡ ok a → P a → Returns P m
Returns-at {P = P} {a = a} e p = subst (Returns P) (sym e) (returned p)

pub Returns-validate :
    {B : Type 0} {Q : B → Type 0} (test : Bool) (reason : Reason) (rest : Result B)
    → test ≡ true
    → Returns Q rest
    → Returns Q (validate test reason >> rest)
Returns-validate true reason rest h k = k
Returns-validate false reason rest h k = cc

pub Returns-ok :
    {A : Type 0} {P : A → Type 0} {m : Result A} → Returns P m → (a : A) × (m ≡ ok a) × P a
Returns-ok (returned {a} p) = (a, refl, p)

four_bytes : (ys : Bytes) → 4 ≤ length ys → Returns (λ n. Unit {0}) (of_le32 (take 4 ys))
four_bytes (a ∷ b ∷ c ∷ d ∷ ys) h = returned tt
four_bytes [] h = absurd (omega arith)
four_bytes _ h = absurd (omega arith)

two_bytes :
    (ys : Bytes) → 2 ≤ length ys → IsBytes ys → Returns (λ n. n < 65536) (of_le16 (take 2 ys))
two_bytes (a ∷ b ∷ ys) h (ha, (hb, _)) = returned (omega arith)
two_bytes [] h hb = absurd (omega arith)
two_bytes _ h hb = absurd (omega arith)

pub Returns-unpack_u32 :
    (xs : Bytes) (k : ℕ) → k + 4 ≤ length xs → Returns (λ n. Unit {0}) (unpack_u32 xs k)
Returns-unpack_u32 xs zero h = four_bytes xs (omega arith)
Returns-unpack_u32 (x ∷ xs) (suc k) h = Returns-unpack_u32 xs k (omega arith)
Returns-unpack_u32 [] (suc k) h = absurd (omega arith)

pub Returns-unpack_u16 :
    (xs : Bytes) (k : ℕ)
    → k + 2 ≤ length xs
    → IsBytes xs
    → Returns (λ n. n < 65536) (unpack_u16 xs k)
Returns-unpack_u16 xs zero h hb = two_bytes xs (omega arith) hb
Returns-unpack_u16 (x ∷ xs) (suc k) h hb = Returns-unpack_u16 xs k (omega arith) hb.1
Returns-unpack_u16 [] (suc k) h hb = absurd (omega arith)

pub Returns-byte_at : (xs : Bytes) (k : ℕ) → k < length xs → Returns (λ n. Unit {0}) (byte_at xs k)
Returns-byte_at (x ∷ xs) zero h = returned tt
Returns-byte_at (x ∷ xs) (suc k) h = Returns-byte_at xs k (omega arith)
Returns-byte_at [] k h = absurd (omega arith)

-- What holds of the value, if there is one.
pub data WhenOk {A : Type 0} (P : A → Type 0) : Result A → Type 0 where
  when_err : (raised : Exn) → WhenOk P (err raised)
  when_ok : (a : A) → P a → WhenOk P (ok a)

pub WhenOk->>= :
    {A B : Type 0} {Q : B → Type 0} (m : Result A) (f : A → Result B)
    → ((a : A) → m ≡ ok a → WhenOk Q (f a))
    → WhenOk Q (m >>= f)
WhenOk->>= (ok a) f k = k a refl
WhenOk->>= (err raised) f k = when_err raised

pub WhenOk-validate :
    {B : Type 0} {Q : B → Type 0} (test : Bool) (reason : Reason) (rest : Result B)
    → (test ≡ true → WhenOk Q rest)
    → WhenOk Q (validate test reason >> rest)
WhenOk-validate true reason rest k = k refl
WhenOk-validate false reason rest k = when_err (validation_error reason)

pub WhenOk-holds :
    {A : Type 0} {P : A → Type 0} {m : Result A} {a : A} → WhenOk P m → m ≡ ok a → P a
WhenOk-holds {P = P} (when_ok a p) h = subst P (ok_injective h) p
WhenOk-holds (when_err raised) h = cc
