-- ===== src/Hid.antt =====
-- The HID library and the clock that cc2camera/hid_transport.py uses, as parameters, and the
-- effects of the code that calls them: a result, the state that the calls leave, and a trace.
pub mod Sends
pub mod Ensures
use cc2_camera_fix.Base.{ℕ, Bool, Option, List, [], ◌∷◌, ◌++◌}
use cc2_camera_fix.Base.Int.{ℤ}
use cc2_camera_fix.Base.Result.{Result, Exn, Reason, ok, err, guard}
use cc2_camera_fix.Base.Bytes.{Bytes}
use cc2_camera_fix.Base.Text.{Text}

-- An entry of `hid.enumerate()`: a dict, of which these keys are read.
pub record DeviceInfo : Type 0 where
  pub vendor_id : Option ℕ
  pub product_id : Option ℕ
  pub serial_number : Option Text
  pub path : Bytes

-- The library over a state `S` of the world, with `D` for its device objects. Every call but the
-- ones on the clock may raise.
pub record Hid (S D : Type 0) : Type 0 where
  pub importable : Bool
  pub enumerate_all : S → Result (List DeviceInfo) × S
  pub enumerate : ℕ → ℕ → S → Result (List DeviceInfo) × S
  pub device : S → Result D × S
  pub open_path : D → Bytes → S → Result (Unit {0}) × S
  pub close : D → S → Result (Unit {0}) × S
  pub write : D → Bytes → S → Result ℤ × S
  pub read : D → ℕ → ℕ → S → Result Bytes × S
  pub monotonic : S → ℕ × S
  pub sleep : ℕ → S → S

-- A call of `write` with its result, and what a call of `read` returns, with its timeout.
pub data Event : Type 0 where
  wrote : Bytes → Result ℤ → Event
  received : ℕ → Bytes → Event

pub data Outcome (S A : Type 0) : Type 0 where
  done : Result A → List Event → S → Outcome S A

pub Exec : Type 0 → Type 0 → Type 0
Exec S A = S → Outcome S A

module _ {S : Type 0} where
  abbrev pub lift : {A : Type 0} → Result A → S → Outcome S A
  lift r s = done r [] s

  abbrev pub call : {A : Type 0} → (S → Result A × S) → S → Outcome S A
  call f s = done (f s).0 [] (f s).1

  abbrev pub before : {A : Type 0} → List Event → Outcome S A → Outcome S A
  before es (done r fs s) = done r (es ++ fs) s

  abbrev pub and_then : {A B : Type 0} → Outcome S A → (A → S → Outcome S B) → Outcome S B
  and_then (done (ok a) es s) f = before es (f a s)
  and_then (done (err e) es s) f = done (err e) es s

  infixl 5 ◌>>=◌ ◌>>◌
  abbrev pub ◌>>=◌ : {A B : Type 0} → (S → Outcome S A) → (A → S → Outcome S B) → S → Outcome S B
  (m >>= f) s = and_then (m s) f

  abbrev pub ◌>>◌ : {A B : Type 0} → (S → Outcome S A) → (S → Outcome S B) → S → Outcome S B
  (m >> k) s = and_then (m s) (λ _. k)

  -- `if not test: raise ProtocolError(reason)`
  abbrev pub require : Bool → Reason → S → Outcome S (Unit {0})
  require test reason = lift (guard test reason)

  abbrev pub after : {A : Type 0} → Outcome S A → (S → Outcome S (Unit {0})) → Outcome S A
  after (done r es s) k = before es (and_then (k s) (λ _ t. done r [] t))

  -- `with ...: m`: the exit `k` runs in any case, and what it raises is raised instead.
  abbrev pub finally :
      {A : Type 0} → (S → Outcome S A) → (S → Outcome S (Unit {0})) → S → Outcome S A
  finally m k s = after (m s) k
