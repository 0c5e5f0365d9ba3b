-- ===== src/Image/Info/Fresh.antt =====
-- The search for an inode number that no live file has.
use cc2_camera_fix.Base.{
  ℕ, zero, suc, ◌+◌, ◌≤◌, ◌<◌, ◌≡◌, ◌≢◌, refl, ap, arith, Bool, true, false, ◌||◌, List, [], ◌∷◌,
  map,
}
use cc2_camera_fix.Base.Tests.{leb, ◌==◌, if◌then◌else◌, if-cases}
use cc2_camera_fix.Base.Lists.{All, length}
use cc2_camera_fix.Base.Bytes.{Bytes}
use cc2_camera_fix.Image.Order.{any}
use cc2_camera_fix.Image.Live.{ConfigFile}
use cc2_camera_fix.Image.Info.{next_unused, new_serial_file}

-- How many numbers the search can still meet from `inode` on
count_from : ℕ → List ℕ → ℕ
count_from inode [] = 0
count_from inode (used ∷ rest) =
    let others = count_from inode rest in if leb inode used then suc others else others

count_from-length :
    (inode : ℕ) (used_inodes : List ℕ) → count_from inode used_inodes ≤ length used_inodes
unfolding count_from
count_from-length inode [] = omega arith
count_from-length inode (used ∷ rest) = ground (arith, count_from-length inode rest)

count_from-suc :
    (inode : ℕ) (used_inodes : List ℕ)
    → count_from (inode + 1) used_inodes ≤ count_from inode used_inodes
unfolding count_from
count_from-suc inode [] = omega arith
count_from-suc inode (used ∷ rest) = ground (arith, count_from-suc inode rest)

count_from-used :
    (inode : ℕ) (used_inodes : List ℕ)
    → any (λ used. used == inode) used_inodes ≡ true
    → count_from (inode + 1) used_inodes < count_from inode used_inodes
unfolding count_from any
count_from-used inode [] h = cc
count_from-used inode (used ∷ rest) h =
    ground (arith, count_from-used inode rest, count_from-suc inode rest)

IsUnused : List ℕ → ℕ → ℕ → Type 0
IsUnused used_inodes low inode =
    (any (λ used. used == inode) used_inodes ≡ false)
    × (low ≤ inode)
    × (inode ≤ low + count_from low used_inodes)

next_unused-IsUnused :
    (fuel inode : ℕ) (used_inodes : List ℕ)
    → count_from inode used_inodes < fuel
    → IsUnused used_inodes inode (next_unused fuel inode used_inodes)
unfolding next_unused IsUnused
next_unused-IsUnused zero inode used_inodes h = absurd (omega arith)
next_unused-IsUnused (suc fuel) inode used_inodes h =
    if-cases (IsUnused used_inodes inode) (any (λ used. used == inode) used_inodes)
      (λ met.
        let fewer = count_from-used inode used_inodes met in
        let (unused, low, high) = next_unused-IsUnused fuel (inode + 1) used_inodes (omega arith) in
        (unused, omega arith, omega arith))
      (λ unused. (unused, omega arith, omega arith))

any-All :
    (inode : ℕ) (files : List ConfigFile)
    → any (λ used. used == inode) (map (λ file. file.inode) files) ≡ false
    → All (λ (other : ConfigFile). other.inode ≢ inode) files
unfolding any
any-All inode [] h = tt
any-All inode (file ∷ files) h =
    (ground arith, any-All inode files (rest (file.inode == inode) _ h))
  where
    rest : (a b : Bool) → (a || b) ≡ false → b ≡ false
    rest true b e = cc
    rest false b e = e

length-inodes :
    (files : List ConfigFile)
    → length (map (λ (file : ConfigFile). file.inode) files) ≡ length files
length-inodes [] = refl
length-inodes (file ∷ files) = ap suc (length-inodes files)

-- The search for the inode of a missing `serial.cfg` ends: among n + 1 numbers from 2 on it finds one
-- that none of the n live files has.
pub new_serial_file_fresh :
    (serial_payload : Bytes) (files : List ConfigFile)
    → All (λ (other : ConfigFile). other.inode ≢ (new_serial_file serial_payload files).inode) files
      × (2 ≤ (new_serial_file serial_payload files).inode)
      × ((new_serial_file serial_payload files).inode ≤ 2 + length files)
unfolding new_serial_file IsUnused
new_serial_file_fresh serial_payload files =
    let used_inodes = map (λ (file : ConfigFile). file.inode) files in
    let enough = count_from-length 2 used_inodes in
    let (unused, low, high) =
      next_unused-IsUnused (suc (length files)) 2 used_inodes
        (omega (arith, length-inodes files)) in
    (any-All _ files unused, low, omega (arith, length-inodes files))
