-- ===== src/Adb.antt =====
-- The adb program and the host's files that cc2camera/adb_backup.py uses, as parameters, and the
-- effects of the code that calls them: a result, the runs of adb, and the state that they leave.
pub mod Calls
use cc2_camera_fix.Base.{ℕ, Bool, Option, List, [], ◌∷◌, ◌++◌}
use cc2_camera_fix.Base.Result.{Result, Exn, Reason, ok, err, guard}
use cc2_camera_fix.Base.Bytes.{Bytes}
use cc2_camera_fix.Base.Text.{Text}

-- The arguments of `shell`
abbrev pub Command : Type 0
Command = List Text

-- The arguments of adb behind the selection of a serial number. A pull names the remote path; its
-- file on the host is told by the index of the partition.
pub data Call : Type 0 where
  shell : Command → Call
  get_state devices : Call
  pull : Text → Call

-- What comes of `subprocess.run`: whether the return code is 0, with both outputs, or an exception.
pub data Process : Type 0 where
  finished : Bool → Bytes → Bytes → Process
  not_found timed_out : Process
  failed : Exn → Process

-- The program and the files that it makes, over a state `S` of the world.
pub record AdbProgram (S : Type 0) : Type 0 where
  pub serial : Option Text
  pub run : Call → S → Process × S
  pub is_file : ℕ → S → Result Bool × S
  pub read_bytes : ℕ → S → Result Bytes × S

-- A run of adb, with what came of it
pub data Entry : Type 0 where
  made : Call → Process → Entry

pub data Run (S A : Type 0) : Type 0 where
  ran : Result A → List Entry → S → Run S A

module _ {S : Type 0} where
  abbrev pub lift : {A : Type 0} → Result A → S → Run S A
  lift r s = ran r [] s

  abbrev pub call : {A : Type 0} → (S → Result A × S) → S → Run S A
  call f s = ran (f s).0 [] (f s).1

  abbrev pub before : {A : Type 0} → List Entry → Run S A → Run S A
  before es (ran r fs s) = ran r (es ++ fs) s

  abbrev pub and_then : {A B : Type 0} → Run S A → (A → S → Run S B) → Run S B
  and_then (ran (ok a) es s) f = before es (f a s)
  and_then (ran (err e) es s) f = ran (err e) es s

  infixl 5 ◌>>=◌ ◌>>◌
  abbrev pub ◌>>=◌ : {A B : Type 0} → (S → Run S A) → (A → S → Run S B) → S → Run S B
  (m >>= f) s = and_then (m s) f

  abbrev pub ◌>>◌ : {A B : Type 0} → (S → Run S A) → (S → Run S B) → S → Run S B
  (m >> k) s = and_then (m s) (λ _. k)

  -- `if not test: raise ProtocolError(reason)`
  abbrev pub require : Bool → Reason → S → Run S (Unit {0})
  require test reason = lift (guard test reason)

  -- A handler that raises something else in place of what was raised
  abbrev pub re_raised : {A : Type 0} → (Result A → Result A) → Run S A → Run S A
  re_raised handler (ran r es s) = ran (handler r) es s
