-- ===== src/RestorePrepare/Erased.antt =====
-- The calls of the preparation of a restore from the pointer on, step by step.
use cc2_camera_fix.Base.{
  ℕ, ◌≡◌, refl, ap, Bool, true, false, ◌||◌, ◌⊎◌, Option, none, some, [], ◌∷◌, ◌++◌,
}
use cc2_camera_fix.Base.Tests.{◌==◌}
use cc2_camera_fix.Base.Result
use cc2_camera_fix.Base.Result.{
  Result, Exn, Reason, ok, err, guard, guard-ok, ok_injective, protocol_error,
}
use cc2_camera_fix.Base.Bytes.{Bytes, equal}
use cc2_camera_fix.Base.Text.{codes}
use cc2_camera_fix.Hid.{Hid}
use cc2_camera_fix.HidTransport.{expected_devices}
use cc2_camera_fix.AdbBackup.Client.{output_of}
use cc2_camera_fix.AdbBackup.Client.Script.{Makes-run, Makes-join, Makes-last}
use cc2_camera_fix.Adb.{
  Call, devices, Process, made, AdbProgram, Run, ran, require, re_raised, before, and_then, lift,
}
use cc2_camera_fix.Adb.Calls.{
  Makes, Only, Any, Makes-none, Makes-lift, Single, single, Single-run, Single-then, Makes-Single,
  Quiet-lift, Quiet-then,
}
use cc2_camera_fix.RestorePrepare.Words.{strip, is_space, lines_of, without_cr, decoded}
use cc2_camera_fix.RestorePrepare.{
  pointer_physical, field_address, sync_command, guarded_write, maybe_patched, shell, word,
  single_camera, write_and_verify, set_erase_size, present, word_of, listed_serial, is_selected,
  same_camera,
}
use cc2_camera_fix.RestorePrepare.Guarded.{
  field_of, IsSupported, word_call, writing, Replied, Prepares, unwritten, written,
  field_address-IsSupported, known, lowest, WordOf, read, unread, Aims, early, late,
  Makes-maybe_patched, Quiet-unevented, synced,
}

module _ {S : Type 0} (pointer : ℕ) (ok_pointer : IsSupported pointer) (p : Process)
    (pointer_read : Replied p pointer) (stage : ℕ → S → Run S (Unit {0}))
    (aims : (old : ℕ) (s : S) → Aims pointer old (stage old s)) where
  -- From the field on
  field_then :
      (o : Run S ℕ)
      → WordOf (field_of pointer) o
      → Prepares (Only []) (
          before (made (word_call pointer_physical) p ∷ []) (
            and_then o (λ old s.
              and_then
                (lift (guard (old == 0x4000 || old == 0x1000) Result.bad_erase_size) s)
                (λ _ t. stage old t))))
  field_then (ran (err e) es s) unread =
      unwritten [] (Call.shell sync_command ∷ devices ∷ []) pointer refl ok_pointer refl
  field_then (ran (ok old) es s) (read {p = q} old_read) =
      sized (old == 0x4000 || old == 0x1000) refl
    where
      staged :
          (o : Run S (Unit {0}))
          → (old ≡ 0x4000) ⊎ (old ≡ 0x1000)
          → Aims pointer old o
          → Prepares (Only []) (
              before
                (made (word_call pointer_physical) p ∷ [])
                (before (made (word_call (field_of pointer)) q ∷ []) (before [] o)))
      staged (ran (err e) es t) size (early rest h) =
          unwritten [] rest pointer refl ok_pointer
            (ap (λ l. word_call pointer_physical ∷ word_call (field_of pointer) ∷ l) h)
      staged (ran r es t) size (late y d gs h end) =
          written [] gs pointer old p q y d refl ok_pointer size pointer_read old_read
            (ap
              (λ l. made (word_call pointer_physical) p ∷ made (word_call (field_of pointer)) q ∷ l)
              h)
            end

      sized :
          (test : Bool)
          → (old == 0x4000 || old == 0x1000) ≡ test
          → Prepares (Only []) (
              before (made (word_call pointer_physical) p ∷ []) (
                before
                  (made (word_call (field_of pointer)) q ∷ [])
                  (and_then (lift (guard test Result.bad_erase_size) s) (λ _ t. stage old t))))
      sized true e = staged (stage old s) (known old e) (aims old s)
      sized false e =
          unwritten [] (Call.shell sync_command ∷ devices ∷ []) pointer refl ok_pointer refl

module _ {S D : Type 0} (hid : Hid S D) (adb : AdbProgram S) where
  pub word-WordOf : (address : ℕ) (s : S) → WordOf address (word hid adb address s)
  unfolding word
  word-WordOf address s =
      replied (adb.run (word_call address) s).0 (output_of (adb.run (word_call address) s).0) _ refl
    where
      presented :
          (p : Process) (out : Bytes) (o : Option ℕ) (t : S)
          → output_of p ≡ ok out
          → word_of out ≡ o
          → WordOf address
              (before (made (word_call address) p ∷ []) (lift (present o Result.bad_word) t))
      presented p out (some n) t e h = read (out, e, h)
      presented p out none t e h = unread

      replied :
          (p : Process) (r : Result Bytes) (t : S)
          → output_of p ≡ r
          → WordOf address (
              and_then
                (ran r (made (word_call address) p ∷ []) t)
                (λ out u. lift (present (word_of out) Result.bad_word) u))
      replied p (ok out) t e = presented p out (word_of out) t e refl
      replied p (err x) t e = unread

  Single-WordOf : (address : ℕ) (o : Run S ℕ) → WordOf address o → Single (word_call address) o
  Single-WordOf address (ran (ok n) es s) (read h) = single
  Single-WordOf address (ran (err e) es s) unread = single

  pub Makes-word :
      (address : ℕ) (s : S) → Makes (Only (word_call address ∷ [])) Any (word hid adb address s)
  Makes-word address s = Makes-Single _ (Single-WordOf address _ (word-WordOf address s))

  pub Single-single_camera : (s : S) → Single devices (single_camera hid adb s)
  unfolding single_camera
  Single-single_camera s =
      Single-then _ _ (Single-run devices (adb.run devices s).0 (output_of (adb.run devices s).0) _)
        (λ output t.
          Quiet-then _ _ (Quiet-lift (listed_serial (lines_of (without_cr (decoded output)))) t)
            (λ serial t1.
              Quiet-then _ _
                (Quiet-lift (guard (is_selected adb.serial serial) Result.other_serial) t1)
                (λ _ t2.
                  Quiet-then _ _ (Quiet-unevented hid adb (expected_devices hid t2)) (λ found t3.
                    Quiet-lift (guard (same_camera serial found) Result.other_camera) t3))))

  Makes-write_and_verify :
      (pointer old : ℕ) (s : S)
      → Makes
          (Only (writing pointer old))
          Any
          (write_and_verify hid adb pointer (field_of pointer) old s)
  unfolding write_and_verify
  Makes-write_and_verify pointer old s =
      let field = field_of pointer in
      Makes-join (Call.shell (guarded_write pointer field old) ∷ [])
        (word_call pointer_physical ∷ word_call field ∷ []) _ _
        (Makes-run adb (Call.shell (guarded_write pointer field old)) s)
        (λ output t _.
          Makes-lift
            (guard
              (equal (strip is_space (without_cr output))
                (codes "0x00001000" ++ (10 ∷ codes "CC2_ERASE_READY")))
              Result.unconfirmed_write)
            _ t (_, refl)
            (λ _ _.
              Makes-join (word_call pointer_physical ∷ []) (word_call field ∷ []) _ _
                (Makes-word pointer_physical t)
                (λ now u _.
                  Makes-lift (guard (now == pointer) Result.changed_readback) _ u (_, refl)
                    (λ _ _. Makes-last _ _ (Makes-word field u) (λ size v _.
                      Makes-none {V = Any} (guard (size == 0x1000) Result.changed_readback) v
                        (λ _ _. tt))))))

  -- From the pointer on
  pub set_erase_size-Prepares : (s : S) → Prepares (Only []) (set_erase_size hid adb s)
  unfolding set_erase_size
  set_erase_size-Prepares s =
      aimed (word hid adb pointer_physical s) (word-WordOf pointer_physical s)
    where
      stage : ℕ → ℕ → ℕ → S → Run S (Unit {0})
      stage pointer field old t = and_then (shell hid adb sync_command t) (λ out u.
          and_then (require (equal (strip is_space out) (codes "CC2_SYNC_OK")) Result.sync_failed u)
            (λ _ v.
              and_then (single_camera hid adb v)
                (λ _ w. re_raised maybe_patched (write_and_verify hid adb pointer field old w))))

      stage-Aims :
          (pointer old : ℕ) (t : S) → Aims pointer old (stage pointer (field_of pointer) old t)
      stage-Aims pointer old t =
          synced pointer old (adb.run (Call.shell sync_command) t).0 (single_camera hid adb)
            (λ w.
              re_raised maybe_patched (write_and_verify hid adb pointer (field_of pointer) old w))
            Single-single_camera
            (λ w. Makes-maybe_patched _ _ (Makes-write_and_verify pointer old w))
            (λ out. guard (equal (strip is_space out) (codes "CC2_SYNC_OK")) Result.sync_failed)
            (output_of (adb.run (Call.shell sync_command) t).0) _

      rest_of : ℕ → ℕ → S → Run S (Unit {0})
      rest_of pointer field t = and_then (word hid adb field t) (λ old u.
          and_then (require (old == 0x4000 || old == 0x1000) Result.bad_erase_size u)
            (λ _ v. stage pointer field old v))

      addressed :
          (pointer : ℕ) (p : Process) (t : S) (r : Result ℕ)
          → Replied p pointer
          → field_address pointer ≡ r
          → Prepares (Only []) (
              before
                (made (word_call pointer_physical) p ∷ [])
                (and_then (lift r t) (λ field u. rest_of pointer field u)))
      addressed pointer p t (err e) h a =
          unwritten [] (word_call (field_of 0x80450000) ∷ Call.shell sync_command ∷ devices ∷ [])
            0x80450000 refl lowest refl
      addressed pointer p t (ok field) h a =
          let (supported, e) = field_address-IsSupported pointer field a in
          rw e (
            unchanged (rest_of pointer (field_of pointer) t) (
              field_then pointer supported p h (stage pointer (field_of pointer))
                (λ old u. stage-Aims pointer old u) (word hid adb (field_of pointer) t)
                (word-WordOf (field_of pointer) t)))
        where
          unchanged :
              (o : Run S (Unit {0}))
              → Prepares (Only []) (before (made (word_call pointer_physical) p ∷ []) o)
              → Prepares (Only []) (before (made (word_call pointer_physical) p ∷ []) (before [] o))
          unchanged (ran r es u) q = q

      aimed :
          (o : Run S ℕ)
          → WordOf pointer_physical o
          → Prepares (Only []) (
              and_then o (λ pointer t.
                and_then (lift (field_address pointer) t) (λ field u. rest_of pointer field u)))
      aimed (ran (err e) es t) unread =
          unwritten [] (word_call (field_of 0x80450000) ∷ Call.shell sync_command ∷ devices ∷ [])
            0x80450000 refl lowest refl
      aimed (ran (ok pointer) es t) (read {p} h) =
          addressed pointer p t (field_address pointer) h refl
