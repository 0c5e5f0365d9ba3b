-- ===== src/Startup/Space.antt =====
-- An admitted plan has room: for every hook, and for the blocks held in reserve.
use cc2_camera_fix.Base.{
  ℕ, suc, ◌+◌, ◌*◌, ◌%◌, ◌≤◌, ◌≡◌, refl, arith, Bool, true, false, List, [], ◌∷◌,
}
use cc2_camera_fix.Base.Tests.{leb, if◌then◌else◌, and-true}
use cc2_camera_fix.Base.Lists.{length, slice, replicate, All}
use cc2_camera_fix.Base.Int.{ℤ, pos, negsuc}
use cc2_camera_fix.Base.Result.{
  Result, Reason, ok, guard, protocol_error, ◌>>◌, invalid_space, insufficient_space,
}
use cc2_camera_fix.Base.Returns.{WhenOk, when_ok, when_err, WhenOk->>=, WhenOk-holds}
use cc2_camera_fix.Base.Bytes.{Bytes, equal, equal_iff}
use cc2_camera_fix.Startup.{
  SpacePlan, Payload, at_least, clean_marker, block_offsets, is_clean, count_clean, payload_bytes,
  budget_of, space_plan,
}

-- Some of the offsets, in their order and none twice.
pub data IsPicked : List ℕ → List ℕ → Type 0 where
  none_left : IsPicked [] []
  skipped : (o : ℕ) {os offsets : List ℕ} → IsPicked os offsets → IsPicked os (o ∷ offsets)
  picked : (o : ℕ) {os offsets : List ℕ} → IsPicked os offsets → IsPicked (o ∷ os) (o ∷ offsets)

-- The block at `o` has the marker, and only erased bytes after it.
pub IsClean : Bytes → Bytes → ℕ → Type 0
IsClean marker config o =
    (slice o (o + 12) config ≡ marker) × (slice (o + 12) (o + 0x4000) config ≡ replicate 16372 0xFF)

pub record HasRoom (crc : Bytes → ℕ) (config : Bytes) (payloads : List Payload) (available : ℤ)
    (plan : SpacePlan) : Type 0 where
  pub marker : Bytes
  pub is_marker : clean_marker crc ≡ ok marker
  pub blocks : List ℕ
  pub of_config : IsPicked blocks block_offsets
  pub are_clean : All (IsClean marker config) blocks
  pub counted : length blocks ≡ plan.clean_blocks
  pub whole_blocks : plan.write_budget % 0x4000 ≡ 0
  pub each_fits : All (λ (p : Payload). length p.content ≤ plan.write_budget) payloads
  pub all_fit : 4096 + payload_bytes payloads ≤ plan.write_budget
  pub reserved : plan.write_budget + 5 * 0x4000 ≤ plan.clean_blocks * 0x4000
  pub same_space : plan.filesystem_available ≡ available
  pub free : (n : ℕ) × (available ≡ pos n) × (plan.write_budget + 0x4000 ≤ n)

is_clean-IsClean :
    (marker config : Bytes) (o : ℕ) → is_clean marker config o ≡ true → IsClean marker config o
unfolding is_clean IsClean
is_clean-IsClean marker config o h =
    let (a, b) = and-true (equal (slice o (o + 12) config) marker) _ h in
    ((equal_iff _ _).0 a, (equal_iff _ _).0 b)

HasClean : Bytes → Bytes → List ℕ → ℕ → Type 0
HasClean marker config offsets count =
    (blocks : List ℕ) × IsPicked blocks offsets
    × All (IsClean marker config) blocks
    × (length blocks ≡ count)

one_block :
    (marker config : Bytes) (o : ℕ) (offsets : List ℕ) (clean : Bool) (count : ℕ)
    → is_clean marker config o ≡ clean
    → HasClean marker config offsets count
    → HasClean marker config (o ∷ offsets) (if clean then suc count else count)
unfolding HasClean
one_block marker config o offsets true count h (blocks, of, are, n) =
    (o ∷ blocks, picked o of, (is_clean-IsClean marker config o h, are), omega arith)
one_block marker config o offsets false count h (blocks, of, are, n) =
    (blocks, skipped o of, are, n)

count_clean-HasClean :
    (marker config : Bytes) (offsets : List ℕ)
    → HasClean marker config offsets (count_clean marker config offsets)
unfolding count_clean HasClean
count_clean-HasClean marker config [] = ([], none_left, tt, refl)
count_clean-HasClean marker config (o ∷ offsets) =
    one_block marker config o offsets (is_clean marker config o) (count_clean marker config offsets)
      refl (count_clean-HasClean marker config offsets)

fits_each :
    (payloads : List Payload) (bound : ℕ)
    → payload_bytes payloads ≤ bound
    → All (λ (p : Payload). length p.content ≤ bound) payloads
unfolding payload_bytes
fits_each [] bound h = tt
fits_each (p ∷ ps) bound h = (omega arith, fits_each ps bound (omega arith))

budget_of-covers : (payloads : List Payload) → 4096 + payload_bytes payloads ≤ budget_of payloads
unfolding budget_of
budget_of-covers payloads = omega arith

budget_of-whole : (payloads : List Payload) → budget_of payloads % 0x4000 ≡ 0
unfolding budget_of
budget_of-whole payloads = omega arith

free_of :
    (n : ℕ) (available : ℤ) → at_least n available ≡ true → (m : ℕ) × (available ≡ pos m) × (n ≤ m)
free_of n (pos m) h = (m, refl, ground arith)
free_of n (negsuc m) h = cc

WhenOk-guard :
    {B : Type 0} {Q : B → Type 0} (test : Bool) (reason : Reason) (rest : Result B)
    → (test ≡ true → WhenOk Q rest)
    → WhenOk Q (guard test reason >> rest)
WhenOk-guard true reason rest k = k refl
WhenOk-guard false reason rest k = when_err (protocol_error reason)

WhenOk-space_plan :
    (crc : Bytes → ℕ) (config : Bytes) (payloads : List Payload) (available : ℤ)
    → WhenOk (HasRoom crc config payloads available) (space_plan crc config payloads available)
unfolding space_plan HasClean
WhenOk-space_plan crc config payloads available = WhenOk-guard _ invalid_space _ (λ _.
    WhenOk->>= (clean_marker crc) _ (λ marker is_marker.
      let (blocks, of, are, n) = count_clean-HasClean marker config block_offsets in
      let covers = budget_of-covers payloads in
      WhenOk-guard _ insufficient_space _ (λ h.
        let (enough, space) =
          and-true
            (leb (budget_of payloads + 5 * 0x4000)
              (count_clean marker config block_offsets * 0x4000))
            _ h in
        when_ok _ (record {
          marker = marker;
          is_marker = is_marker;
          blocks = blocks;
          of_config = of;
          are_clean = are;
          counted = n;
          whole_blocks = budget_of-whole payloads;
          each_fits = fits_each payloads (budget_of payloads) (omega arith);
          all_fit = covers;
          reserved = ground arith;
          same_space = refl;
          free = free_of _ available space;
        }))))

-- What `space_plan` admits has room. The clean blocks that it counts are different blocks of the
-- partition, each with the marker and only erased bytes; the budget is a number of whole blocks that
-- covers the payloads and their overhead; the clean blocks hold the budget and five blocks in reserve;
-- and the file system has a block more than the budget available.
pub space_plan-HasRoom :
    (crc : Bytes → ℕ) (config : Bytes) (payloads : List Payload) (available : ℤ) {plan : SpacePlan}
    → space_plan crc config payloads available ≡ ok plan
    → HasRoom crc config payloads available plan
space_plan-HasRoom crc config payloads available =
    WhenOk-holds (WhenOk-space_plan crc config payloads available)
