-- ===== src/AdbBackup/Acquire/Stable.antt =====
-- What an image that was acquired went through.
use cc2_camera_fix.Base.{
  ℕ, zero, suc, ◌+◌, ◌≤◌, ◌<◌, ◌≡◌, inl, inr, refl, sym, ◌∙◌, arith, Option, none, some, List, [],
  ◌∷◌, ◌++◌, append_assoc,
}
use cc2_camera_fix.Base.Tests.{lt→leb, Bool-cases, if◌then◌else◌}
use cc2_camera_fix.Base.Lists.{length}
use cc2_camera_fix.Base.Result.{Result, Exn, ok, err}
use cc2_camera_fix.Base.Bytes.{Bytes, equal, equal_iff}
use cc2_camera_fix.AdbBackup.Acquire.{
  Acquisition, acquired, is_repeated, after_progress, after_read, also_read, read_turns,
  acquire_reads,
}

-- The images end with three equal ones.
pub record IsStable (image : Bytes) (attempts consecutive : ℕ) (images : List Bytes) : Type 0 where
  pub earlier : List Bytes
  pub three_equal : images ≡ earlier ++ image ∷ image ∷ image ∷ []
  pub attempts_are : attempts ≡ length images
  pub at_most_five : length images ≤ 5
  pub consecutive_are : consecutive ≡ 3

-- The images that were seen end with `consecutive` times the previous one.
data Tail (seen : List Bytes) : ℕ → Option Bytes → Type 0 where
  at_start : Tail seen 0 none
  once : {p : Bytes} → (pre : List Bytes) → seen ≡ pre ++ p ∷ [] → Tail seen 1 (some p)
  twice : {p : Bytes} → (pre : List Bytes) → seen ≡ pre ++ p ∷ p ∷ [] → Tail seen 2 (some p)

abbrev counted : Option Bytes → Bytes → ℕ → ℕ
counted previous current consecutive = if is_repeated previous current then consecutive + 1 else 1

-- A count that reached three, or the tail for the next turn.
data Step (seen : List Bytes) (current : Bytes) : ℕ → Type 0 where
  again : {count : ℕ} → count < 3 → Tail seen count (some current) → Step seen current count
  settled :
      (pre : List Bytes) → seen ≡ pre ++ current ∷ current ∷ current ∷ [] → Step seen current 3

counts :
    (seen : List Bytes) (consecutive : ℕ) (previous : Option Bytes) (current : Bytes)
    → Tail seen consecutive previous
    → Step (seen ++ current ∷ []) current (counted previous current consecutive)
unfolding is_repeated
counts seen _ _ current at_start = again (omega arith) (once seen refl)
counts seen _ _ current (once {p} pre e) = elim (Bool-cases (equal current p)) [
  | inl same ↦ rw same (
      again (omega arith)
        (twice pre (rw (e, (equal_iff current p).0 same) (append_assoc pre (p ∷ []) (p ∷ [])))))
  | inr new ↦ rw new (again (omega arith) (once seen refl))
]
counts seen _ _ current (twice {p} pre e) = elim (Bool-cases (equal current p)) [
  | inl same ↦
      rw same (
        settled pre (rw (e, (equal_iff current p).0 same) (append_assoc pre (p ∷ p ∷ []) (p ∷ []))))
  | inr new ↦ rw new (again (omega arith) (once seen refl))
]

-- If the acquisition accepts an image, then it is stable with the images read before.
data Accepts {S : Type 0} (seen : List Bytes) (start limit : ℕ) : Acquisition S → Type 0 where
  accepted :
      {image : Bytes} {attempts consecutive : ℕ} {images : List Bytes} {s : S}
      → (earlier : List Bytes) → seen ++ images ≡ earlier ++ image ∷ image ∷ image ∷ []
      → attempts ≡ start + length images
      → length images ≤ limit
      → consecutive ≡ 3
      → Accepts seen start limit (acquired (ok (image, attempts, consecutive)) images s)
  raised :
      {e : Exn} {images : List Bytes} {s : S} → Accepts seen start limit (acquired (err e) images s)

module _ {S : Type 0} (read_once : S → Result Bytes × S)
    (progress : ℕ → ℕ → ℕ → ℕ → S → Result (Unit {0}) × S) where
  -- The next turn, seen from the turn before it.
  turn :
      (seen : List Bytes) (current : Bytes) (start limit : ℕ) (o : Acquisition S)
      → Accepts (seen ++ current ∷ []) (start + 1) limit o
      → Accepts seen start (suc limit) (also_read read_once progress current o)
  turn seen current start limit _ (accepted {images} earlier e n l c) =
      accepted earlier (sym (append_assoc seen (current ∷ []) images) ∙ e) (omega (arith, n))
        (omega (arith, l)) c
  turn seen current start limit _ raised = raised

  progressed :
      (seen : List Bytes) (current : Bytes) (start limit count : ℕ) (next : S → Acquisition S)
      (p : Result (Unit {0}) × S)
      → Step (seen ++ current ∷ []) current count
      → ((t : S)
          → Tail (seen ++ current ∷ []) count (some current)
          → Accepts (seen ++ current ∷ []) (start + 1) limit (next t))
      → Accepts seen start
          (suc limit)
          (after_progress read_once progress p current (start + 1) count next)
  progressed seen current start limit count next (err e, t) step k = raised
  progressed seen current start limit count next (ok u, t) (again below tail) k =
      rw (lt→leb 3 count below) (turn seen current start limit (next t) (k t tail))
  progressed seen current start limit _ next (ok u, t) (settled pre e) k =
      accepted pre e (omega arith) (omega arith) refl

  read_turn :
      (rounds start consecutive : ℕ) (previous : Option Bytes) (seen : List Bytes)
      (next : Bytes → ℕ → S → Acquisition S) (r : Result Bytes × S)
      → Tail seen consecutive previous
      → ((current : Bytes) (count : ℕ) (t : S)
          → Tail (seen ++ current ∷ []) count (some current)
          → Accepts (seen ++ current ∷ []) (start + 1) rounds (next current count t))
      → Accepts seen start
          (suc rounds)
          (after_read read_once progress r previous (start + 1) consecutive next)
  read_turn rounds start consecutive previous seen next (err e, t) tail k = raised
  read_turn rounds start consecutive previous seen next (ok current, t) tail k =
      let count = counted previous current consecutive in
      progressed seen current start rounds count (next current count) _
        (counts seen consecutive previous current tail) (k current count)

  turns :
      (rounds start consecutive : ℕ) (previous : Option Bytes) (seen : List Bytes) (s : S)
      → Tail seen consecutive previous
      → Accepts seen start rounds
          (read_turns read_once progress rounds start consecutive previous s)
  unfolding read_turns
  turns zero start consecutive previous seen s tail = raised
  turns (suc rounds) start consecutive previous seen s tail =
      read_turn rounds start consecutive previous seen _ (read_once s) tail
        (λ current count t next_tail.
          turns rounds (start + 1) count (some current) (seen ++ current ∷ []) t next_tail)

  -- An image that is accepted was read three times in a row, last of all, in at most five reads;
  -- the counts that are returned are the number of reads and three.
  pub acquire_reads-IsStable :
      (s : S) {image : Bytes} {attempts consecutive : ℕ} {images : List Bytes} {t : S}
      → acquire_reads read_once progress s ≡ acquired (ok (image, attempts, consecutive)) images t
      → IsStable image attempts consecutive images
  unfolding acquire_reads
  acquire_reads-IsStable s h = finish (turns 5 0 0 none [] s at_start) h
    where
      finish :
          {o : Acquisition S} {image : Bytes} {attempts consecutive : ℕ} {images : List Bytes}
          {t : S}
          → Accepts [] 0 5 o
          → o ≡ acquired (ok (image, attempts, consecutive)) images t
          → IsStable image attempts consecutive images
      finish {image} {attempts} {consecutive} {images}
            (accepted {image = i} {attempts = n} {consecutive = c} {images = js} earlier e en l ec)
            h =
          let ei : i ≡ image = cc in
          let ea : n ≡ attempts = cc in
          let ex : c ≡ consecutive = cc in
          let es : js ≡ images = cc in
          rw (← ei, ← ea, ← ex, ← es)
            (record {
              earlier = earlier;
              three_equal = e;
              attempts_are = omega (arith, en);
              at_most_five = l;
              consecutive_are = ec;
            })
      finish raised h = cc
