-- ===== src/AdbBackup/Client/Reads.antt =====
-- The runs of adb that acquire_stable of cc2camera/adb_backup.py makes.
use cc2_camera_fix.Base.{
  ℕ, zero, suc, ◌+◌, ◌≤◌, ◌≡◌, refl, sym, ap, ◌∙◌, arith, Option, none, some, List, [], ◌∷◌, ◌++◌,
  append_assoc, append-nil,
}
use cc2_camera_fix.Base.Tests.{leb, ◌==◌, if-cases, if◌then◌else◌}
use cc2_camera_fix.Base.Lists.{length, length-append}
use cc2_camera_fix.Base.Result.{Result, Exn, ok, err, guard, wrong_fingerprint_size}
use cc2_camera_fix.Base.Bytes.{Bytes}
use cc2_camera_fix.Base.Text.{Text}
use cc2_camera_fix.Protocol.Update.{flash_size}
use cc2_camera_fix.AdbBackup.Acquire.{
  Acquisition, acquired, is_repeated, after_progress, after_read, also_read, read_turns,
  acquire_reads,
}
use cc2_camera_fix.AdbBackup.Acquire.Stable.{acquire_reads-IsStable}
use cc2_camera_fix.AdbBackup.Client.{acquire_stable, unlogged, with_log, logged, reported}
use cc2_camera_fix.AdbBackup.Client.Script.{
  identification, flash_read, Makes-identity_and_partitions, Makes-read_flash_once,
}
use cc2_camera_fix.Adb.{Call, AdbProgram, Entry, Run, ran}
use cc2_camera_fix.Adb.Calls.{
  calls_of, calls_of-append, Makes, gave, stopped, Only, Then, Any, Makes-none, Makes->>=,
  Makes-lift, Makes-map,
}

-- So many reads of the whole flash
abbrev pub flash_reads : ℕ → List Call
flash_reads zero = []
flash_reads (suc n) = flash_read ++ flash_reads n

abbrev pub IsReads : List Call → Type 0
IsReads cs = (n : ℕ) × (3 ≤ n) × (n ≤ 5) × (cs ≡ flash_reads n)

-- From a log on, an acquisition that returns has logged a read for each image, and one that raises a
-- first part of `rounds` reads.
data Logs {S : Type 0} (seen : List Call) (rounds : ℕ) : Acquisition (List Entry × S) → Type 0 where
  all :
      {image : Bytes × ℕ × ℕ} {images : List Bytes} {es : List Entry} {s : S}
      → calls_of es ≡ seen ++ flash_reads (length images)
      → Logs seen rounds (acquired (ok image) images (es, s))
  part :
      {e : Exn} {images : List Bytes} {es : List Entry} {s : S} (rest : List Call)
      → calls_of es ++ rest ≡ seen ++ flash_reads rounds
      → Logs seen rounds (acquired (err e) images (es, s))

seen-read :
    (es fs : List Entry)
    → calls_of fs ≡ flash_read
    → calls_of (es ++ fs) ≡ calls_of es ++ flash_read
seen-read es fs h = calls_of-append es fs ∙ ap (λ l. calls_of es ++ l) h

module _ {S : Type 0} (adb : AdbProgram S) (read_once : S → Run S Bytes)
    (reads : (s : S) → Makes (Only flash_read) Any (read_once s))
    (progress : ℕ → ℕ → ℕ → ℕ → List Entry × S → Result (Unit {0}) × (List Entry × S))
    (keeps : (a b c d : ℕ) (s : List Entry × S) → (progress a b c d s).1.0 ≡ s.0) where
  again :
      (es gs : List Entry) (rounds : ℕ) (current : Bytes) (o : Acquisition (List Entry × S))
      → calls_of gs ≡ calls_of es ++ flash_read
      → Logs (calls_of gs) rounds o
      → Logs (calls_of es) (suc rounds) (also_read (logged adb read_once) progress current o)
  again es gs rounds current (acquired (ok image) images (hs, s)) e (all h) = all (
      h
      ∙ ap (λ l. l ++ flash_reads (length images)) e
      ∙ append_assoc (calls_of es) flash_read (flash_reads (length images)))
  again es gs rounds current (acquired (err x) images (hs, s)) e (part rest h) = part rest (
      h
      ∙ ap (λ l. l ++ flash_reads rounds) e
      ∙ append_assoc (calls_of es) flash_read (flash_reads rounds))

  progressed :
      (es gs : List Entry) (rounds attempts count : ℕ) (current : Bytes)
      (next : List Entry × S → Acquisition (List Entry × S))
      (p : Result (Unit {0}) × (List Entry × S))
      → calls_of p.1.0 ≡ calls_of es ++ flash_read
      → ((s : List Entry × S) → Logs (calls_of s.0) rounds (next s))
      → Logs
          (calls_of es)
          (suc rounds)
          (after_progress (logged adb read_once) progress p current attempts count next)
  progressed es gs rounds attempts count current next (err x, (hs, s)) e k =
      part (flash_reads rounds) (
        ap (λ l. l ++ flash_reads rounds) e
        ∙ append_assoc (calls_of es) flash_read (flash_reads rounds))
  progressed es gs rounds attempts count current next (ok u, (hs, s)) e k =
      if-cases (Logs (calls_of es) (suc rounds)) (leb 3 count)
        (λ _. all (e ∙ ap (λ l. calls_of es ++ l) (sym (append-nil flash_read))))
        (λ _. again es hs rounds current (next (hs, s)) e (k (hs, s)))

  read_turn :
      (es : List Entry) (rounds attempts consecutive : ℕ) (previous : Option Bytes)
      (next : Bytes → ℕ → List Entry × S → Acquisition (List Entry × S)) (o : Run S Bytes)
      → Makes (Only flash_read) Any o
      → ((current : Bytes) (count : ℕ) (s : List Entry × S)
          → Logs (calls_of s.0) rounds (next current count s))
      → Logs (calls_of es) (suc rounds) (
          after_read
            (logged adb read_once)
            progress
            (with_log adb es o)
            previous
            attempts
            consecutive
            next)
  read_turn es rounds attempts consecutive previous next (ran (err x) fs t) (stopped rest h) k =
      part (rest ++ flash_reads rounds) (
        ap (λ l. l ++ (rest ++ flash_reads rounds)) (calls_of-append es fs)
        ∙ append_assoc (calls_of es) (calls_of fs) (rest ++ flash_reads rounds)
        ∙ ap (λ l. calls_of es ++ l)
            (sym (append_assoc (calls_of fs) rest (flash_reads rounds))
              ∙ ap (λ l. l ++ flash_reads rounds) h))
  read_turn es rounds attempts consecutive previous next (ran (ok current) fs t) (gave v h) k =
      let count : ℕ = if is_repeated previous current then consecutive + 1 else 1 in
      progressed es (es ++ fs) rounds attempts count current (next current count)
        (progress attempts 5 count 3 (es ++ fs, t))
        (ap calls_of (keeps attempts 5 count 3 (es ++ fs, t)) ∙ seen-read es fs h) (k current count)

  turns :
      (rounds attempts consecutive : ℕ) (previous : Option Bytes) (s : List Entry × S)
      → Logs
          (calls_of s.0)
          rounds
          (read_turns (logged adb read_once) progress rounds attempts consecutive previous s)
  unfolding read_turns
  turns zero attempts consecutive previous (es, s) =
      part [] (append-nil (calls_of es) ∙ sym (append-nil (calls_of es)))
  turns (suc rounds) attempts consecutive previous (es, s) =
      read_turn es rounds (attempts + 1) consecutive previous _ (read_once s) (reads s)
        (λ current count t. turns rounds (attempts + 1) count (some current) t)

  -- The reads of an acquisition: three to five of the whole flash.
  Makes-IsReads :
      (s : S)
      → Makes IsReads Any (unlogged adb (acquire_reads (logged adb read_once) progress ([], s)))
  unfolding acquire_reads
  Makes-IsReads s =
      finished (acquire_reads (logged adb read_once) progress ([], s)) refl
        (turns 5 0 0 none ([], s))
    where
      finished :
          (o : Acquisition (List Entry × S))
          → acquire_reads (logged adb read_once) progress ([], s) ≡ o
          → Logs [] 5 o
          → Makes IsReads Any (unlogged adb o)
      finished (acquired (ok (image, attempts, consecutive)) images (es, t)) e (all h) =
          let stable = acquire_reads-IsStable (logged adb read_once) progress ([], s) e in
          gave tt (
            length images,
            omega (
              arith,
              ap (length {A = Bytes}) stable.three_equal,
              length-append stable.earlier (image ∷ image ∷ image ∷ []),
            ),
            stable.at_most_five,
            h,
          )
      finished (acquired (err x) images (es, t)) e (part rest h) =
          stopped rest (5, omega arith, omega arith, h)

reported-keeps :
    {S : Type 0} (adb : AdbProgram S)
    (progress : Option (ℕ → ℕ → ℕ → ℕ → S → Result (Unit {0}) × S)) (a b c d : ℕ)
    (s : List Entry × S)
    → (reported adb progress a b c d s).1.0 ≡ s.0
reported-keeps adb none a b c d (es, s) = refl
reported-keeps adb (some progress) a b c d (es, s) = refl

-- The identification, and three to five reads of the whole flash
abbrev pub IsAcquisition : List Call → Type 0
IsAcquisition = Then (Only identification) IsReads

pub some-IsReads : (ys : List Call) × IsReads ys
some-IsReads = (flash_reads 5, (5, omega arith, omega arith, refl))

pub Makes-acquire_stable :
    {S : Type 0} (utf8_text casefold : Bytes → Text) (adb : AdbProgram S)
    (progress : Option (ℕ → ℕ → ℕ → ℕ → S → Result (Unit {0}) × S)) (s : S)
    → Makes IsAcquisition Any (acquire_stable utf8_text casefold adb progress s)
unfolding acquire_stable
Makes-acquire_stable utf8_text casefold adb progress s =
    Makes->>= _ _ (Makes-identity_and_partitions utf8_text casefold adb s) some-IsReads
      (λ identity t map_ok.
        Makes-map without_more (λ a v. v)
          (Makes->>= _ _
            (Makes-IsReads adb _ (λ u. Makes-read_flash_once adb identity.1 u map_ok.indices_are)
              (reported adb progress) (reported-keeps adb progress) t)
            ([], refl)
            (λ accepted u _.
              Makes-lift (guard (length accepted.0 == flash_size) wrong_fingerprint_size) _ u
                ([], refl) (λ _ _. Makes-none {V = Any} (ok accepted.0) u (λ _ _. tt)))))
  where
    without_more : (cs : List Call) → Then IsReads (Only []) cs → IsReads cs
    without_more cs (xs, ys, (n, lo, hi, ex), ey, e) =
        (n, lo, hi, e ∙ ap (λ l. xs ++ l) ey ∙ append-nil xs ∙ ex)
