-- ===== src/AdbBackup/Recovery.antt =====
-- What the checks of a replacement image, of a readback and of the partition map let through.
use cc2_camera_fix.Base.{
  ℕ, zero, suc, ◌+◌, ◌≡◌, ◌↔◌, refl, sym, ap, ◌∙◌, arith, true, ◌&&◌, List, [], ◌∷◌, ◌++◌, map,
}
use cc2_camera_fix.Base.Tests.{◌==◌, ==_iff, and-true}
use cc2_camera_fix.Base.Lists.{length, slice, take, drop, take-append-drop}
use cc2_camera_fix.Base.Result.{
  ok, guard-eq-ok, guard-ok, ok_injective, wrong_backup_size, outside_recovery_regions,
  wrong_readback_size, readback_differs, partition_indices, partition_sizes, partition_names,
}
use cc2_camera_fix.Base.Bytes.{Bytes, equal, equal_iff}
use cc2_camera_fix.Protocol.Update.{flash_size}
use cc2_camera_fix.Base.Text.{Text, codes}
use cc2_camera_fix.AdbBackup.{
  MtdPartition, total, sizes, wanted_sizes, expected_partitions, are_indexed, are_named,
  validate_partition_map, same_range, validate_replacement_against_backup,
  validate_post_restore_readback,
}

-- Two flash images that agree outside of the patch window and of the configuration.
pub record IsRecovery (replacement preserved : Bytes) : Type 0 where
  pub replacement_size : length replacement ≡ flash_size
  pub preserved_size : length preserved ≡ flash_size
  pub start_kept : take 0x463000 replacement ≡ take 0x463000 preserved
  pub middle_kept : slice 0x46B000 0x7E0000 replacement ≡ slice 0x46B000 0x7E0000 preserved

-- A replacement is accepted for a preserved backup exactly if both have 8 MiB and they agree below
-- 0x463000 and from 0x46b000 to 0x7e0000.
pub validate_replacement_against_backup_lem :
    (replacement preserved : Bytes)
    → (validate_replacement_against_backup replacement preserved ≡ ok tt)
      ↔ IsRecovery replacement preserved
unfolding validate_replacement_against_backup same_range
validate_replacement_against_backup_lem r p = (
  (λ h.
      let (g1, h1) =
        guard-eq-ok (length r == flash_size && length p == flash_size) wrong_backup_size _ h in
      let (g2, h2) =
        guard-eq-ok (equal (take 0x463000 r) (take 0x463000 p)) outside_recovery_regions _ h1 in
      let g3 =
        guard-ok (equal (slice 0x46B000 0x7E0000 r) (slice 0x46B000 0x7E0000 p))
          outside_recovery_regions h2 in
      let (sr, sp) = and-true (length r == flash_size) (length p == flash_size) g1 in
      record {
        replacement_size = (==_iff (length r) flash_size).0 sr;
        preserved_size = (==_iff (length p) flash_size).0 sp;
        start_kept = (equal_iff (take 0x463000 r) (take 0x463000 p)).0 g2;
        middle_kept = (equal_iff _ _).0 g3;
      }),
  λ i. rw (
    (==_iff (length r) flash_size).1 i.replacement_size,
    (==_iff (length p) flash_size).1 i.preserved_size,
    (equal_iff (take 0x463000 r) (take 0x463000 p)).1 i.start_kept,
    (equal_iff (slice 0x46B000 0x7E0000 r) (slice 0x46B000 0x7E0000 p)).1 i.middle_kept,
  ),
)

exact :
    (expected actual : Bytes)
    → validate_post_restore_readback expected actual ≡ ok true
    → (length expected ≡ flash_size) × (actual ≡ expected)
unfolding validate_post_restore_readback
exact e a h =
    let (sizes_ok, h1) =
      guard-eq-ok (length e == flash_size && length a == flash_size) wrong_readback_size _ h in
    let (se, _) = and-true (length e == flash_size) (length a == flash_size) sizes_ok in
    let (g, h2) = guard-eq-ok (equal (take 0x7E0000 e) (take 0x7E0000 a)) readback_differs _ h1 in
    let front = (equal_iff (take 0x7E0000 e) (take 0x7E0000 a)).0 g in
    let back = (equal_iff (drop 0x7E0000 e) (drop 0x7E0000 a)).0 (ok_injective h2) in
    (
      (==_iff (length e) flash_size).0 se,
      sym (take-append-drop 0x7E0000 a)
          ∙ ap (λ xs. xs ++ drop 0x7E0000 a) (sym front)
          ∙ ap (λ ys. take 0x7E0000 e ++ ys) (sym back)
          ∙ take-append-drop 0x7E0000 e,
    )

-- A readback is reported as exact if and only if the expected image has 8 MiB and the readback is
-- that image, byte for byte.
pub validate_post_restore_readback-exact :
    (expected actual : Bytes)
    → (validate_post_restore_readback expected actual ≡ ok true)
      ↔ ((length expected ≡ flash_size) × (actual ≡ expected))
unfolding validate_post_restore_readback
validate_post_restore_readback-exact e a = (
  exact e a,
  λ (size, same). rw (
    same,
    (==_iff (length e) flash_size).1 size,
    (equal_iff (take 0x7E0000 e) (take 0x7E0000 e)).1 refl,
    (equal_iff (drop 0x7E0000 e) (drop 0x7E0000 e)).1 refl,
  ),
)

abbrev pub indices : List MtdPartition → List ℕ
indices parts = map (λ (part : MtdPartition). part.index) parts

abbrev pub folded_names : (Text → Text) → List MtdPartition → List Text
folded_names casefold parts = map (λ (part : MtdPartition). casefold part.name) parts

-- What the camera's map is, written out.
pub record IsCameraMap (casefold : Text → Text) (parts : List MtdPartition) : Type 0 where
  pub indices_are : indices parts ≡ 0 ∷ 1 ∷ 2 ∷ 3 ∷ 4 ∷ 5 ∷ []
  pub sizes_are : sizes parts ≡ 0x040000 ∷ 0x150000 ∷ 0x158000 ∷ 0x4E8000 ∷ 0x010000 ∷ 0x020000 ∷ []
  pub names_are :
      folded_names casefold parts
      ≡ codes "boot"
        ∷ codes "kernel"
        ∷ codes "root"
        ∷ codes "system"
        ∷ codes "hwconfig"
        ∷ codes "config"
        ∷ []

abbrev count_up : ℕ → ℕ → List ℕ
count_up first zero = []
count_up first (suc n) = first ∷ count_up (first + 1) n

sum_of : List ℕ → ℕ
sum_of [] = 0
sum_of (n ∷ ns) = n + sum_of ns

total-sizes : (parts : List MtdPartition) → total parts ≡ sum_of (sizes parts)
unfolding total sizes sum_of
total-sizes [] = refl
total-sizes (part ∷ parts) = ap (λ n. part.size + n) (total-sizes parts)

covers :
    (parts : List MtdPartition)
    → equal (sizes parts) (wanted_sizes expected_partitions) ≡ true
    → total parts ≡ flash_size
unfolding wanted_sizes sum_of
covers parts h =
    total-sizes parts ∙ ap sum_of ((equal_iff (sizes parts) (wanted_sizes expected_partitions)).0 h)

indexed :
    (first : ℕ) (parts : List MtdPartition)
    → (are_indexed first parts ≡ true) ↔ (indices parts ≡ count_up first (length parts))
unfolding are_indexed
indexed first [] = (λ h. refl, λ h. refl)
indexed first (part ∷ parts) = ground (arith, indexed (first + 1) parts)

named :
    (casefold : Text → Text) (parts : List MtdPartition) (wanted : List (Text × ℕ))
    → length parts ≡ length wanted
    → (are_named casefold parts wanted ≡ true)
      ↔ (folded_names casefold parts ≡ map (λ w. w.0) wanted)
unfolding are_named
named casefold [] [] h = (λ n. refl, λ n. refl)
named casefold (part ∷ parts) ((name, size) ∷ wanted) h =
    ground (arith, named casefold parts wanted, equal_iff (casefold part.name) name)
named casefold [] (w ∷ wanted) h = absurd (omega arith)
named casefold (part ∷ parts) [] h = absurd (omega arith)

length-sizes : (parts : List MtdPartition) → length (sizes parts) ≡ length parts
unfolding sizes
length-sizes [] = refl
length-sizes (part ∷ parts) = ap suc (length-sizes parts)

-- The partition map is accepted exactly if it has six partitions, in this order: their indices are 0
-- to 5, their sizes are 0x40000, 0x150000, 0x158000, 0x4e8000, 0x10000 and 0x20000, and their folded
-- names are boot, kernel, root, system, hwconfig and config.
pub validate_partition_map_lem :
    (casefold : Text → Text) (parts : List MtdPartition)
    → (validate_partition_map casefold parts ≡ ok tt) ↔ IsCameraMap casefold parts
unfolding validate_partition_map wanted_sizes
validate_partition_map_lem casefold parts = (
  (λ h.
      let (g1, h1) = guard-eq-ok (are_indexed 0 parts) partition_indices _ h in
      let (g2, h2) =
        guard-eq-ok (equal (sizes parts) (wanted_sizes expected_partitions)) partition_sizes _ h1 in
      let (g3, h3) =
        guard-eq-ok (are_named casefold parts expected_partitions) partition_names _ h2 in
      let s = (equal_iff _ _).0 g2 in
      let six : length parts ≡ 6 = omega (arith, length-sizes parts, ap (length {A = ℕ}) s) in
      record {
        indices_are = (indexed 0 parts).0 g1 ∙ ap (count_up 0) six;
        sizes_are = s;
        names_are = (named casefold parts expected_partitions six).0 g3;
      }),
  λ m.
      let same = (equal_iff (sizes parts) (wanted_sizes expected_partitions)).1 m.sizes_are in
      let six : length parts ≡ 6 =
        omega (arith, length-sizes parts, ap (length {A = ℕ}) m.sizes_are) in
      rw (
        (indexed 0 parts).1 (m.indices_are ∙ sym (ap (count_up 0) six)),
        same,
        (named casefold parts expected_partitions six).1 m.names_are,
        (==_iff (total parts) flash_size).1 (covers parts same),
      ),
)
