-- ===== src/RestorePrepare/Guarded.antt =====
-- What the preparation of a restore sends to the camera from the pointer on.
use cc2_camera_fix.Base.{
  ℕ, ◌+◌, ◌-◌, ◌%◌, ◌≤◌, ◌≡◌, refl, sym, arith, Bool, true, false, ◌&&◌, ◌||◌, ◌⊎◌, inl, inr, some,
  List, [], ◌∷◌, ◌++◌,
}
use cc2_camera_fix.Base.Tests.{leb, ◌==◌, leb→le, ==_iff, if◌then◌else◌}
use cc2_camera_fix.Base.Result
use cc2_camera_fix.Base.Result.{
  Result, Exn, Reason, ok, err, guard, guard-ok, ok_injective, protocol_error,
}
use cc2_camera_fix.Base.Bytes.{Bytes, or-cases}
use cc2_camera_fix.Hid.{Hid, Outcome, done}
use cc2_camera_fix.AdbBackup.Client.{output_of}
use cc2_camera_fix.Adb.{
  Call, devices, Process, Entry, made, AdbProgram, Run, ran, re_raised, before, and_then, lift,
}
use cc2_camera_fix.Adb.Calls.{
  calls_of, Makes, gave, stopped, Only, Any, Single, single, Quiet, quiet,
}
use cc2_camera_fix.RestorePrepare.{
  pointer_physical, field_address, read_word, sync_command, guarded_write, maybe_patched, word_of,
  unevented,
}

-- The address of the field of an object in the supported part of the RAM
abbrev pub field_of : ℕ → ℕ
field_of pointer = pointer - 0x80000000 + 0x10

pub record IsSupported (pointer : ℕ) : Type 0 where
  pub aligned : pointer % 4 ≡ 0
  pub above_kernel : 0x80450000 ≤ pointer
  pub below_end : pointer + 0x264 ≤ 0x84000000

abbrev pub word_call : ℕ → Call
word_call address = Call.shell (read_word address)

-- The calls that find the field: none of them writes.
abbrev pub aim : ℕ → List Call
aim pointer =
    word_call pointer_physical
    ∷ word_call (field_of pointer)
    ∷ Call.shell sync_command
    ∷ devices
    ∷ []

-- The guarded write, and the reads that verify it
abbrev pub writing : ℕ → ℕ → List Call
writing pointer old =
    Call.shell (guarded_write pointer (field_of pointer) old)
    ∷ word_call pointer_physical
    ∷ word_call (field_of pointer)
    ∷ []

-- The camera replied with the word `n`.
abbrev pub Replied : Process → ℕ → Type 0
Replied p n = (out : Bytes) × (output_of p ≡ ok out) × (word_of out ≡ some n)

-- All of a script if the computation returned, and a first part of it if it raised
abbrev pub Ends : {A : Type 0} → Result A → List Call → List Call → Type 0
Ends (ok a) cs script = cs ≡ script
Ends (err e) cs script = (rest : List Call) × (cs ++ rest ≡ script)

-- Behind the calls of a script, either an exception was raised before anything was written; or the
-- camera replied with a supported pointer and with one of the two erase sizes, and what follows the
-- calls that find the field is the write for that pointer and that size, with its verification.
pub data Prepares {S A : Type 0} (IsScript : List Call → Type 0) : Run S A → Type 0 where
  unwritten :
      {e : Exn} {es : List Entry} {s : S} (xs rest : List Call) (pointer : ℕ)
      → IsScript xs
      → IsSupported pointer
      → calls_of es ++ rest ≡ xs ++ aim pointer
      → Prepares IsScript (ran (err e) es s)
  written :
      {r : Result A} {es : List Entry} {s : S} (es0 gs : List Entry) (pointer old : ℕ)
      (p q y d : Process)
      → IsScript (calls_of es0)
      → IsSupported pointer
      → (old ≡ 0x4000) ⊎ (old ≡ 0x1000)
      → Replied p pointer
      → Replied q old
      → es
        ≡ es0
          ++ (made (word_call pointer_physical) p
              ∷ made (word_call (field_of pointer)) q
              ∷ made (Call.shell sync_command) y
              ∷ made devices d
              ∷ gs)
      → Ends r (calls_of gs) (writing pointer old)
      → Prepares IsScript (ran r es s)

pub field_address-IsSupported :
    (pointer field : ℕ)
    → field_address pointer ≡ ok field
    → IsSupported pointer × (field ≡ field_of pointer)
unfolding field_address
field_address-IsSupported pointer field h =
    tested (pointer % 4 == 0) (leb 0x80450000 pointer) (leb pointer (0x84000000 - 0x264)) refl refl
      refl h
  where
    tested :
        (a b c : Bool)
        → (pointer % 4 == 0) ≡ a
        → leb 0x80450000 pointer ≡ b
        → leb pointer (0x84000000 - 0x264) ≡ c
        → (if a && (b && c)
            then ok (field_of pointer)
            else err (protocol_error Result.pointer_out_of_range))
          ≡ ok field
        → IsSupported pointer × (field ≡ field_of pointer)
    tested true true true ea eb ec e = (
      record {
        aligned = (==_iff (pointer % 4) 0).0 ea;
        above_kernel = leb→le 0x80450000 pointer eb;
        below_end = omega (arith, leb→le pointer (0x84000000 - 0x264) ec);
      },
      sym (ok_injective e),
    )
    tested true true false ea eb ec e = cc
    tested true false c ea eb ec e = cc
    tested false b c ea eb ec e = cc

pub known : (old : ℕ) → (old == 0x4000 || old == 0x1000) ≡ true → (old ≡ 0x4000) ⊎ (old ≡ 0x1000)
known old h = elim (or-cases (old == 0x4000) (old == 0x1000) h) [
  | inl e ↦ inl ((==_iff old 0x4000).0 e)
  | inr e ↦ inr ((==_iff old 0x1000).0 e)
]

-- A pointer for the runs that stop before one is known
pub lowest : IsSupported 0x80450000
lowest = record { aligned = refl; above_kernel = omega arith; below_end = omega arith }

-- A word that was read, with the reply it was read from
pub data WordOf {S : Type 0} (address : ℕ) : Run S ℕ → Type 0 where
  read :
      {n : ℕ} {p : Process} {s : S}
      → Replied p n
      → WordOf address (ran (ok n) (made (word_call address) p ∷ []) s)
  unread :
      {e : Exn} {p : Process} {s : S}
      → WordOf address (ran (err e) (made (word_call address) p ∷ []) s)

-- From the sync on
pub data Aims {S A : Type 0} (pointer old : ℕ) : Run S A → Type 0 where
  early :
      {e : Exn} {es : List Entry} {s : S} (rest : List Call)
      → calls_of es ++ rest ≡ Call.shell sync_command ∷ devices ∷ []
      → Aims pointer old (ran (err e) es s)
  late :
      {r : Result A} {es : List Entry} {s : S} (y d : Process) (gs : List Entry)
      → es ≡ made (Call.shell sync_command) y ∷ made devices d ∷ gs
      → Ends r (calls_of gs) (writing pointer old)
      → Aims pointer old (ran r es s)

module _ {S : Type 0} where
  pub Makes-maybe_patched :
      (C : List Call → Type 0) (o : Run S (Unit {0}))
      → Makes C Any o
      → Makes C Any (re_raised maybe_patched o)
  Makes-maybe_patched C (ran (ok u) es s) (gave v c) = gave v c
  Makes-maybe_patched C (ran (err (Exn.protocol_error r)) es s) (stopped rest c) = stopped rest c
  Makes-maybe_patched C (ran (err (Exn.validation_error r)) es s) (stopped rest c) = stopped rest c
  Makes-maybe_patched C (ran (err Exn.struct_error) es s) (stopped rest c) = stopped rest c
  Makes-maybe_patched C (ran (err Exn.index_error) es s) (stopped rest c) = stopped rest c
  Makes-maybe_patched C (ran (err Exn.value_error) es s) (stopped rest c) = stopped rest c
  Makes-maybe_patched C (ran (err Exn.key_error) es s) (stopped rest c) = stopped rest c
  Makes-maybe_patched C (ran (err Exn.unicode_error) es s) (stopped rest c) = stopped rest c
  Makes-maybe_patched C (ran (err Exn.os_error) es s) (stopped rest c) = stopped rest c
  Makes-maybe_patched C (ran (err Exn.assertion_error) es s) (stopped rest c) = stopped rest c

  pub Quiet-unevented :
      {D A : Type 0} (hid : Hid S D) (adb : AdbProgram S) (o : Outcome S A)
      → Quiet (unevented hid adb o)
  Quiet-unevented hid adb (done r es s) = quiet

  module _ (pointer old : ℕ) (y : Process) (camera : S → Run S (Unit {0}))
      (write : S → Run S (Unit {0})) (one : (s : S) → Single devices (camera s))
      (writes : (s : S) → Makes (Only (writing pointer old)) Any (write s)) where
    camera_then :
        (o : Run S (Unit {0}))
        → Single devices o
        → Aims pointer old
            (before (made (Call.shell sync_command) y ∷ []) (and_then o (λ _ s. write s)))
    camera_then (ran (ok u) es s) (single {p = d}) = after_camera (write s) (writes s)
      where
        after_camera :
            (o : Run S (Unit {0}))
            → Makes (Only (writing pointer old)) Any o
            → Aims pointer old
                (before (made (Call.shell sync_command) y ∷ []) (before (made devices d ∷ []) o))
        after_camera (ran (ok v) gs t) (gave w c) = late y d gs refl c
        after_camera (ran (err e) gs t) (stopped rest c) = late y d gs refl (rest, c)
    camera_then (ran (err e) es s) (single {p = d}) = late y d [] refl (writing pointer old, refl)

    pub synced :
        (test : Bytes → Result (Unit {0})) (r : Result Bytes) (t : S)
        → Aims pointer old (
            and_then
              (ran r (made (Call.shell sync_command) y ∷ []) t)
              (λ out u. and_then (lift (test out) u) (λ _ v. and_then (camera v) (λ _ w. write w))))
    synced test (err e) t = early (devices ∷ []) refl
    synced test (ok out) t = checked_sync (test out)
      where
        unchanged :
            (o : Run S (Unit {0}))
            → Aims pointer old (before (made (Call.shell sync_command) y ∷ []) o)
            → Aims pointer old (before (made (Call.shell sync_command) y ∷ []) (before [] o))
        unchanged (ran r es s) h = h

        checked_sync :
            (g : Result (Unit {0}))
            → Aims pointer old (
                before
                  (made (Call.shell sync_command) y ∷ [])
                  (and_then (lift g t) (λ _ v. and_then (camera v) (λ _ w. write w))))
        checked_sync (ok u) =
            unchanged (and_then (camera t) (λ _ w. write w)) (camera_then (camera t) (one t))
        checked_sync (err e) = early (devices ∷ []) refl
