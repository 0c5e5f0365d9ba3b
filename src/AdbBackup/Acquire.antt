-- ===== src/AdbBackup/Acquire.antt =====
-- The loop of `acquire_stable` in cc2camera/adb_backup.py. The read of the flash over ADB and the
-- progress callback are parameters, over a state `S` of the world.
pub mod Stable
use cc2_camera_fix.Base.{ℕ, zero, suc, ◌+◌, Bool, true, false, Option, none, some, List, [], ◌∷◌}
use cc2_camera_fix.Base.Tests.{leb, if◌then◌else◌}
use cc2_camera_fix.Base.Result.{Result, ok, err, protocol_error, unstable_flash}
use cc2_camera_fix.Base.Bytes.{Bytes, equal}

abbrev pub required_identical_reads : ℕ
required_identical_reads = 3

abbrev pub max_read_attempts : ℕ
max_read_attempts = 5

-- The result (the image, the attempts and the consecutive reads), the images that were read, in
-- order, and the state that is left.
pub data Acquisition (S : Type 0) : Type 0 where
  acquired : Result (Bytes × ℕ × ℕ) → List Bytes → S → Acquisition S

-- `previous is not None and current == previous`
unfoldable pub is_repeated : Option Bytes → Bytes → Bool
is_repeated none current = false
is_repeated (some previous) current = equal current previous

module _ {S : Type 0} (read_once : S → Result Bytes × S)
    (progress : ℕ → ℕ → ℕ → ℕ → S → Result (Unit {0}) × S) where
  abbrev pub also_read : Bytes → Acquisition S → Acquisition S
  also_read current (acquired r images s) = acquired r (current ∷ images) s

  -- What follows the report of progress: the break, or the next turn.
  abbrev pub after_progress :
      Result (Unit {0}) × S → Bytes → ℕ → ℕ → (S → Acquisition S) → Acquisition S
  after_progress (err e, s) current attempts consecutive next = acquired (err e) (current ∷ []) s
  after_progress (ok u, s) current attempts consecutive next =
      if leb required_identical_reads consecutive
      then acquired (ok (current, attempts, consecutive)) (current ∷ []) s
      else also_read current (next s)

  abbrev pub after_read :
      Result Bytes × S → Option Bytes → ℕ → ℕ → (Bytes → ℕ → S → Acquisition S) → Acquisition S
  after_read (err e, s) previous attempts consecutive next = acquired (err e) [] s
  after_read (ok current, s) previous attempts consecutive next =
      let count = if is_repeated previous current then consecutive + 1 else 1 in
      after_progress (progress attempts max_read_attempts count required_identical_reads s) current
        attempts count (next current count)

  unfoldable pub read_turns : ℕ → ℕ → ℕ → Option Bytes → S → Acquisition S
  read_turns zero attempts consecutive previous s =
      acquired (err (protocol_error unstable_flash)) [] s
  read_turns (suc rounds) attempts consecutive previous s =
      after_read (read_once s) previous (attempts + 1) consecutive
        (λ current count t. read_turns rounds (attempts + 1) count (some current) t)

  unfoldable pub acquire_reads : S → Acquisition S
  acquire_reads = read_turns max_read_attempts 0 0 none
