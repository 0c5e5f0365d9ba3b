-- ===== src/Base/Result.antt =====
-- Exceptions as values. Each `raise` of the program is a reason of its own; the exceptions of the
-- interpreter and of `struct` are kept apart, because the program catches some classes only.
mod Reasons
pub use Reasons.*
use mathlib.Core.Path.{◌≡◌, refl}
use mathlib.Core.Bool.{Bool, true, false}
use mathlib.Core.Logic.{◌⊎◌, inl, inr}

pub data Exn : Type 0 where
  protocol_error validation_error : Reason → Exn
  struct_error index_error value_error key_error unicode_error os_error assertion_error : Exn

pub data Result {ℓ} (A : Type ℓ) : Type ℓ where
  ok : A → Result A
  err : Exn → Result A

infixl 5 ◌>>=◌ ◌>>◌
-- What follows is skipped when an exception was raised.
abbrev pub ◌>>=◌ {ℓ κ} : {A : Type ℓ} {B : Type κ} → Result A → (A → Result B) → Result B
err raised >>= rest = err raised
ok got >>= rest = rest got

-- A statement whose value is not used
abbrev pub ◌>>◌ {κ} : {B : Type κ} → Result (Unit {0}) → Result B → Result B
statement >> rest = statement >>= λ _. rest

-- `if not test: raise ProtocolError(reason)`
abbrev pub guard : Bool → Reason → Result (Unit {0})
guard true r = ok tt
guard false r = err (protocol_error r)

-- `if not test: raise ValidationError(reason)`
abbrev pub validate : Bool → Reason → Result (Unit {0})
validate true r = ok tt
validate false r = err (validation_error r)

-- A value that is computed and then has to pass a test
abbrev pub checked {ℓ} : {A : Type ℓ} → Result A → (A → Bool) → Reason → Result (Unit {0})
checked m test r = m >>= λ a. guard (test a) r

-- A bind that returns has got a value from its first part.
pub >>=-eq-ok {ℓ κ} :
    {A : Type ℓ} {B : Type κ} (first : Result A) (then_do : A → Result B) {out : B}
    → (first >>= then_do) ≡ ok out
    → (got : A) × (first ≡ ok got) × (then_do got ≡ ok out)
>>=-eq-ok (err x) then_do returned = cc
>>=-eq-ok (ok x) then_do returned = (x, refl, returned)

pub guard-eq-ok {ℓ} :
    {B : Type ℓ} (t : Bool) (r : Reason) (k : Result B) {b : B}
    → (guard t r >> k) ≡ ok b
    → (t ≡ true) × (k ≡ ok b)
guard-eq-ok true r k h = (refl, h)
guard-eq-ok false r k h = cc

pub ok_injective {ℓ} : {A : Type ℓ} {a b : A} → ok a ≡ ok b → a ≡ b
ok_injective h = cc

pub guard-ok : (t : Bool) (r : Reason) {u : Unit {0}} → guard t r ≡ ok u → t ≡ true
guard-ok true r h = refl
guard-ok false r h = cc

pub checked-eq-ok {ℓ} :
    {A : Type ℓ} (m : Result A) (test : A → Bool) (r : Reason) {u : Unit {0}}
    → checked m test r ≡ ok u
    → (a : A) × (m ≡ ok a) × (test a ≡ true)
checked-eq-ok (ok a) test r h = (a, refl, guard-ok (test a) r h)
checked-eq-ok (err e) test r h = cc

pub validate-eq-ok {ℓ} :
    {B : Type ℓ} (t : Bool) (r : Reason) (k : Result B) {out : B}
    → (validate t r >> k) ≡ ok out
    → (t ≡ true) × (k ≡ ok out)
validate-eq-ok true r k h = (refl, h)
validate-eq-ok false r k h = cc
