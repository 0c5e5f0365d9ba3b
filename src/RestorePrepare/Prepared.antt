-- ===== src/RestorePrepare/Prepared.antt =====
-- All the runs of adb that the preparation of a restore makes.
use cc2_camera_fix.Base.{
  ℕ, ◌≤◌, ◌≡◌, refl, sym, ap, ◌∙◌, not, Option, List, [], ◌∷◌, ◌++◌, append_assoc,
}
use cc2_camera_fix.Base.Tests.{◌==◌}
use cc2_camera_fix.Base.Result
use cc2_camera_fix.Base.Result.{Result, Exn, ok, err, guard}
use cc2_camera_fix.Base.Bytes.{Bytes}
use cc2_camera_fix.Base.Text.{Text}
use cc2_camera_fix.Hid.{Hid}
use cc2_camera_fix.AdbBackup.{MtdPartition, validate_replacement_against_backup}
use cc2_camera_fix.AdbBackup.Client.Script.{
  identification, Makes-run, Makes-join, Single-ensure_available, Makes-identity_and_partitions,
}
use cc2_camera_fix.AdbBackup.Client.Reads.{
  flash_reads, IsAcquisition, some-IsReads, Makes-acquire_stable,
}
use cc2_camera_fix.Image.Order.{any}
use cc2_camera_fix.Adb.{
  Call, get_state, devices, AdbProgram, Run, ran, re_raised, before, and_then, lift,
}
use cc2_camera_fix.Adb.Calls.{
  calls_of, calls_of-append, Makes, gave, stopped, Only, Then, Any, Makes-lift, Single, single,
  Makes-Single,
}
use cc2_camera_fix.RestorePrepare.Words.{without_cr, decoded, split_at}
use cc2_camera_fix.RestorePrepare.{
  instructions, read_symbols, validate_preparation_image, shell, check_instructions, set_erase_size,
  prepare_restore, check_symbols, symbols, adb_needed,
}
use cc2_camera_fix.RestorePrepare.Guarded.{Prepares, unwritten, written, word_call, aim, lowest}
use cc2_camera_fix.RestorePrepare.Erased.{Makes-word, Single-single_camera, set_erase_size-Prepares}

abbrev pub words : List Call
words =
    word_call 0x001F06D4 ∷ word_call 0x001F06E0 ∷ word_call 0x001F0764 ∷ word_call 0x001EFCA4 ∷ []

-- What is called before the pointer is read, with so many reads of the whole flash
abbrev pub inspection : ℕ → List Call
inspection reads =
    get_state
    ∷ devices
    ∷ (identification ++ (flash_reads reads ++ (identification ++ Call.shell read_symbols ∷ words)))

abbrev pub IsInspection : List Call → Type 0
IsInspection cs = (reads : ℕ) × (3 ≤ reads) × (reads ≤ 5) × (cs ≡ inspection reads)

calls_of_instructions : List (ℕ × ℕ) → List Call
calls_of_instructions [] = []
calls_of_instructions ((address, expected) ∷ rest) = word_call address ∷ calls_of_instructions rest

module _ {S : Type 0} where
  Single-adb_needed :
      (o : Run S (Unit {0})) → Single get_state o → Single get_state (re_raised adb_needed o)
  Single-adb_needed (ran r es s) single = single

  Prepares->>= :
      {A B : Type 0} {C D : List Call → Type 0} {V : A → Type 0} (m : Run S A) (f : A → S → Run S B)
      → Makes C V m
      → (ys : List Call) × D ys
      → ((a : A) (s : S) → V a → Prepares D (f a s))
      → Prepares (Then C D) (and_then m f)
  Prepares->>= {B = B} {C} {D} (ran (ok a) es s) f (gave v c) some_script k =
      sequenced (f a s) (k a s v)
    where
      sequenced : (o : Run S B) → Prepares D o → Prepares (Then C D) (before es o)
      sequenced (ran (err x) fs t) (unwritten xs rest pointer d supported h) =
          unwritten (calls_of es ++ xs) rest pointer (calls_of es, xs, c, d, refl) supported
            (ap (λ l. l ++ rest) (calls_of-append es fs)
              ∙ append_assoc (calls_of es) (calls_of fs) rest
              ∙ ap (λ l. calls_of es ++ l) h
              ∙ sym (append_assoc (calls_of es) xs (aim pointer)))
      sequenced (ran r fs t) (written es0 gs pointer old p q y d in_d supported size hp hq h end) =
          written (es ++ es0) gs pointer old p q y d
            (calls_of es, calls_of es0, c, in_d, calls_of-append es es0) supported size hp hq
            (ap (λ l. es ++ l) h ∙ sym (append_assoc es es0 _)) end
  Prepares->>= (ran (err x) es s) f (stopped rest c) (ys, d) k =
      unwritten ((calls_of es ++ rest) ++ ys) (rest ++ (ys ++ aim 0x80450000)) 0x80450000
        (calls_of es ++ rest, ys, c, d, refl) lowest
        (sym (append_assoc (calls_of es) rest (ys ++ aim 0x80450000))
          ∙ sym (append_assoc (calls_of es ++ rest) ys (aim 0x80450000)))

  Prepares-lift :
      {A B : Type 0} {C : List Call → Type 0} (r : Result A) (f : A → S → Run S B) (s : S)
      → (ys : List Call) × C ys
      → ((a : A) → r ≡ ok a → Prepares C (f a s))
      → Prepares C (and_then (ran r [] s) f)
  Prepares-lift {B = B} {C} (ok a) f s some_script k = unchanged (f a s) (k a refl)
    where
      unchanged : (o : Run S B) → Prepares C o → Prepares C (before [] o)
      unchanged (ran (err x) fs t) (unwritten xs rest pointer c supported h) =
          unwritten xs rest pointer c supported h
      unchanged (ran r fs t) (written es0 gs pointer old p q y d c supported size hp hq h end) =
          written es0 gs pointer old p q y d c supported size hp hq h end
  Prepares-lift (err e) f s (ys, c) k = unwritten ys (ys ++ aim 0x80450000) 0x80450000 c lowest refl

  Prepares-map :
      {A : Type 0} {C D : List Call → Type 0} (o : Run S A)
      → ((cs : List Call) → C cs → D cs)
      → Prepares C o
      → Prepares D o
  Prepares-map (ran (err x) fs t) f (unwritten xs rest pointer c supported h) =
      unwritten xs rest pointer (f xs c) supported h
  Prepares-map (ran r fs t) f (written es0 gs pointer old p q y d c supported size hp hq h end) =
      written es0 gs pointer old p q y d (f (calls_of es0) c) supported size hp hq h end

-- The scripts of the steps, one after another
abbrev Inspected : List Call → Type 0
Inspected = Then (Only (Call.shell read_symbols ∷ [])) (Then (Only words) (Only []))

abbrev Identified : List Call → Type 0
Identified = Then (Only identification) Inspected

abbrev Acquired : List Call → Type 0
Acquired = Then IsAcquisition Identified

some-Inspected : (ys : List Call) × Inspected ys
some-Inspected = (_, (_, _, refl, (_, _, refl, refl, refl), refl))

some-Identified : (ys : List Call) × Identified ys
some-Identified = (_, (_, _, refl, some-Inspected.1, refl))

some-Acquired : (ys : List Call) × Acquired ys
some-Acquired = (_, (_, _, (_, _, refl, some-IsReads.1, refl), some-Identified.1, refl))

identified :
    (cs : List Call) → Identified cs → cs ≡ identification ++ Call.shell read_symbols ∷ words
identified cs (x4, y4, e4, (x5, y5, e5, (x6, y6, e6, e7, c6), c5), c4) =
    rw (c4, e4, c5, e5, c6, e6, e7)

joined :
    (cs : List Call)
    → Then (Only (get_state ∷ [])) (Then (Only (devices ∷ [])) Acquired) cs
    → IsInspection cs
joined cs (x1, y1, e1, (x2, y2, e2, (x3, y3, (i, r, ei, (n, lo, hi, er), ci), d, c3), c2), c1) = (
  n,
  lo,
  hi,
  rw (c1, e1, c2, e2, c3, ci, ei, er, identified y3 d)
      (ap (λ l. get_state ∷ devices ∷ l)
        (append_assoc identification (flash_reads n)
          (identification ++ Call.shell read_symbols ∷ words))),
)

module _ {S D : Type 0} (hid : Hid S D) (adb : AdbProgram S) where
  Makes-check_instructions :
      (list : List (ℕ × ℕ)) (s : S)
      → Makes (Only (calls_of_instructions list)) Any (check_instructions hid adb list s)
  unfolding check_instructions calls_of_instructions
  Makes-check_instructions [] s = gave tt refl
  Makes-check_instructions ((address, expected) ∷ rest) s =
      Makes-join (word_call address ∷ []) (calls_of_instructions rest) _ _
        (Makes-word hid adb address s)
        (λ found t _.
          Makes-lift (guard (found == expected) Result.bad_instructions) _ t (_, refl)
            (λ _ _. Makes-check_instructions rest t))

  -- From the symbols on
  inspected :
      (s : S)
      → Prepares Inspected (
          and_then (shell hid adb read_symbols s) (λ listing t.
            and_then
              (lift
                (check_symbols (split_at (λ c. c == 10) (without_cr (decoded listing))) symbols)
                t)
              (λ _ u.
                and_then
                  (check_instructions hid adb instructions u)
                  (λ _ v. set_erase_size hid adb v))))
  unfolding calls_of_instructions
  inspected s =
      Prepares->>= _ _ (Makes-run adb (Call.shell read_symbols) s) (_, (_, _, refl, refl, refl))
        (λ listing t _.
          Prepares-lift
            (check_symbols (split_at (λ c. c == 10) (without_cr (decoded listing))) symbols) _ t
            (_, (_, _, refl, refl, refl))
            (λ _ _.
              Prepares->>= _ _ (Makes-check_instructions instructions t) ([], refl)
                (λ _ v _. set_erase_size-Prepares hid adb v)))

  -- However adb and the camera behave, a preparation makes these runs of adb, in this order and no
  -- others. It inspects: it asks for the state and the devices, identifies the camera (the state, `id`
  -- and /proc/mtd), reads the six partitions three to five times, identifies the camera again, lists
  -- the symbols and reads the four instructions. It finds the field: it reads the pointer and the
  -- field, syncs and asks for the devices. Then it sends the guarded command for the pointer and the
  -- size that the camera replied with, an aligned pointer in the supported part of the RAM and 0x4000
  -- or 0x1000, and reads the pointer and the field again. If it returns it has made all of them; if it
  -- raises it has made a first part of them, and the guarded command only after those replies.
  pub prepare_restore-Prepares :
      (sha256 utf8_text casefold : Bytes → Text)
      (progress : Option (ℕ → ℕ → ℕ → ℕ → S → Result (Unit {0}) × S)) (preserved : Bytes) (s : S)
      → Prepares IsInspection
          (prepare_restore hid adb sha256 utf8_text casefold progress preserved s)
  unfolding prepare_restore
  prepare_restore-Prepares sha256 utf8_text casefold progress preserved s = Prepares-map _ joined (
      Prepares-lift (validate_preparation_image sha256 preserved) _ s
        (_, (_, _, refl, (_, _, refl, some-Acquired.1, refl), refl))
        (λ _ _.
          Prepares->>= _ _
            (Makes-Single _
              (Single-adb_needed _ (Single-ensure_available utf8_text casefold adb s)))
            (_, (_, _, refl, some-Acquired.1, refl))
            (λ _ t _.
              Prepares->>= _ _ (Makes-Single _ (Single-single_camera hid adb t)) some-Acquired
                (λ _ u _.
                  Prepares->>= _ _ (Makes-acquire_stable utf8_text casefold adb progress u)
                    some-Identified
                    (λ live v _.
                      Prepares-lift (validate_preparation_image sha256 live) _ v some-Identified
                        (λ _ _.
                          Prepares-lift (validate_replacement_against_backup live preserved) _ v
                            some-Identified
                            (λ _ _.
                              Prepares->>= _ _
                                (Makes-identity_and_partitions utf8_text casefold adb v)
                                some-Inspected
                                (λ identity w _.
                                  Prepares-lift
                                    (guard
                                      (not (
                                        any
                                          (λ (part : MtdPartition). not (part.erase_size == 0x4000))
                                          identity.1))
                                      Result.bad_erase_geometry)
                                    _ w some-Inspected (λ _ _. inspected w)))))))))
