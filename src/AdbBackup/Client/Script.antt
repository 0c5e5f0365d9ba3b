-- ===== src/AdbBackup/Client/Script.antt =====
-- The runs of adb that the identification of the camera and a read of its flash make.
use cc2_camera_fix.Base.{ℕ, ◌≡◌, refl, ap, ◌∙◌, List, [], ◌∷◌, ◌++◌, map, append-nil}
use cc2_camera_fix.Base.Tests.{◌==◌}
use cc2_camera_fix.Base.Lists.{length}
use cc2_camera_fix.Base.Result.{
  ok, guard, ok_injective, not_root, no_pulled_file, short_partition_read, wrong_assembled_size,
}
use cc2_camera_fix.Base.Bytes.{Bytes}
use cc2_camera_fix.Base.Text.{Text, codes}
use cc2_camera_fix.Protocol.Update.{flash_size}
use cc2_camera_fix.RestorePrepare.Words.{strip}
use cc2_camera_fix.AdbBackup.{MtdPartition, validate_partition_map}
use cc2_camera_fix.AdbBackup.Recovery.{indices, IsCameraMap, validate_partition_map_lem}
use cc2_camera_fix.AdbBackup.Partitions.{ascii_text, parse_proc_mtd, device_path, decimal_of}
use cc2_camera_fix.AdbBackup.Client.{
  run, ensure_available, availability, identity_command, partitions_command,
  identity_and_partitions, read_parts, read_flash_once, output_of, contains, is_str_space,
}
use cc2_camera_fix.Adb.{Call, shell, get_state, pull, AdbProgram, Run, and_then}
use cc2_camera_fix.Adb.Calls.{
  Makes, gave, Only, Then, Any, Single, Single-run, Makes-Single, Makes-none, Makes->>=, Makes-lift,
  Makes-map,
}

-- What identifies the camera
abbrev pub identification : List Call
identification = get_state ∷ shell identity_command ∷ shell partitions_command ∷ []

-- One read of the whole flash
abbrev pub flash_read : List Call
flash_read =
    pull (codes "/dev/mtd0")
    ∷ pull (codes "/dev/mtd1")
    ∷ pull (codes "/dev/mtd2")
    ∷ pull (codes "/dev/mtd3")
    ∷ pull (codes "/dev/mtd4")
    ∷ pull (codes "/dev/mtd5")
    ∷ []

abbrev pulls : List MtdPartition → List Call
pulls parts = map (λ (part : MtdPartition). pull (device_path part.index)) parts

pulls-indices :
    (parts : List MtdPartition)
    → pulls parts ≡ map (λ (i : ℕ). pull (device_path i)) (indices parts)
pulls-indices [] = refl
pulls-indices (part ∷ parts) = ap (λ l. pull (device_path part.index) ∷ l) (pulls-indices parts)

pulls-flash_read :
    (parts : List MtdPartition)
    → indices parts ≡ 0 ∷ 1 ∷ 2 ∷ 3 ∷ 4 ∷ 5 ∷ []
    → pulls parts ≡ flash_read
unfolding device_path decimal_of
pulls-flash_read parts e = pulls-indices parts ∙ ap (map (λ (i : ℕ). pull (device_path i))) e

-- A script of one call and then another script
pub join :
    (first : List Call) (more cs : List Call)
    → Then (Only first) (Only more) cs
    → cs ≡ first ++ more
join first more cs (xs, ys, ex, ey, e) = e ∙ ap (λ l. l ++ ys) ex ∙ ap (λ l. first ++ l) ey

module _ {S : Type 0} where
  -- A first script that is known, and one that is known after it
  pub Makes-join :
      {A B : Type 0} {V : A → Type 0} {W : B → Type 0} (first more : List Call) (m : Run S A)
      (f : A → S → Run S B)
      → Makes (Only first) V m
      → ((a : A) (s : S) → V a → Makes (Only more) W (f a s))
      → Makes (Only (first ++ more)) W (and_then m f)
  Makes-join first more m f h k =
      Makes-map (λ cs. join first more cs) (λ a w. w) (Makes->>= m f h (more, refl) k)

  -- What follows makes no calls.
  pub Makes-last :
      {A B : Type 0} {V : A → Type 0} {W : B → Type 0} {first : List Call} (m : Run S A)
      (f : A → S → Run S B)
      → Makes (Only first) V m
      → ((a : A) (s : S) → V a → Makes (Only []) W (f a s))
      → Makes (Only first) W (and_then m f)
  Makes-last {first} m f h k =
      Makes-map (λ cs e. e ∙ append-nil first) (λ a w. w) (Makes-join first [] m f h k)

module _ {S : Type 0} (adb : AdbProgram S) where
  pub Makes-run : (c : Call) (s : S) → Makes (Only (c ∷ [])) Any (run adb c s)
  Makes-run c s = Makes-Single _ (Single-run c (adb.run c s).0 (output_of (adb.run c s).0) _)

  Makes-read_parts :
      (parts : List MtdPartition) (s : S) → Makes (Only (pulls parts)) Any (read_parts adb parts s)
  unfolding read_parts
  Makes-read_parts [] s = gave tt refl
  Makes-read_parts (part ∷ parts) s =
      Makes-join (pull (device_path part.index) ∷ []) (pulls parts) _ _
        (Makes-run (pull (device_path part.index)) s)
        (λ pulled t _.
          let t1 = (adb.is_file part.index t).1 in
          let t2 = (adb.read_bytes part.index t1).1 in
          Makes-lift (adb.is_file part.index t).0 _ t1 (_, refl)
            (λ found _.
              Makes-lift (guard found no_pulled_file) _ t1 (_, refl)
                (λ _ _.
                  Makes-lift (adb.read_bytes part.index t1).0 _ t2 (_, refl)
                    (λ raw _.
                      Makes-lift (guard (length raw == part.size) short_partition_read) _ t2
                        (_, refl)
                        (λ _ _.
                          Makes-last _ _ (Makes-read_parts parts t2)
                            (λ rest u _. Makes-none {V = Any} (ok (raw ++ rest)) u (λ _ _. tt)))))))

  pub Makes-read_flash_once :
      (parts : List MtdPartition) (s : S)
      → indices parts ≡ 0 ∷ 1 ∷ 2 ∷ 3 ∷ 4 ∷ 5 ∷ []
      → Makes (Only flash_read) Any (read_flash_once adb parts s)
  unfolding read_flash_once
  Makes-read_flash_once parts s e =
      Makes-map (λ cs h. h ∙ pulls-flash_read parts e) (λ a v. v)
        (Makes-last _ _ (Makes-read_parts parts s) (λ image t _.
          Makes-lift (guard (length image == flash_size) wrong_assembled_size) _ t (_, refl)
            (λ _ _. Makes-none {V = Any} (ok image) t (λ _ _. tt))))

module _ {S : Type 0} (utf8_text casefold : Bytes → Text) (adb : AdbProgram S) where
  pub Single-ensure_available :
      (s : S) → Single get_state (ensure_available utf8_text casefold adb s)
  unfolding ensure_available
  Single-ensure_available s =
      Single-run get_state (adb.run get_state s).0
        (availability utf8_text casefold adb.serial (adb.run get_state s).0) _

  -- Partitions that are returned are the camera's.
  pub Makes-identity_and_partitions :
      (s : S)
      → Makes
          (Only identification)
          (λ identity. IsCameraMap casefold identity.1)
          (identity_and_partitions utf8_text casefold adb s)
  unfolding identity_and_partitions
  Makes-identity_and_partitions s =
      Makes-join (get_state ∷ []) (shell identity_command ∷ shell partitions_command ∷ []) _ _
        (Makes-Single _ (Single-ensure_available s))
        (λ _ t _.
          Makes-join (shell identity_command ∷ []) (shell partitions_command ∷ []) _ _
            (Makes-run adb (shell identity_command) t)
            (λ output t1 _.
              Makes-lift
                (guard (contains (codes "uid=0") (strip is_str_space (utf8_text output))) not_root)
                _ t1 (_, refl)
                (λ _ _. Makes-last _ _ (Makes-run adb (shell partitions_command) t1) (λ raw t2 _.
                  Makes-lift (ascii_text raw) _ t2 (_, refl)
                    (λ text _.
                      Makes-lift (parse_proc_mtd text) _ t2 (_, refl)
                        (λ parts _.
                          Makes-lift (validate_partition_map casefold parts) _ t2 (_, refl)
                            (λ u e.
                              Makes-none (ok (strip is_str_space (utf8_text output), parts)) t2
                                (λ identity h.
                                  rw (← ok_injective h)
                                    ((validate_partition_map_lem casefold parts).0 e)))))))))
