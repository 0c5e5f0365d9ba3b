-- ===== src/Commands/Catalog/Trigger.antt =====
-- The group of commands that reach the destructive branch.
use cc2_camera_fix.Base.{
  ℕ, ◌≤◌, ◌<◌, Bool, true, false, not, ◌&&◌, ◌≡◌, ◌↔◌, refl, sym, ◌∙◌, arith, bit_and,
}
use cc2_camera_fix.Base.Tests.{
  and-true, leb→le, ltb→lt, le→leb, lt→ltb, tests, leb, ltb, ◌==◌, all_below, all_below_sound,
}
use cc2_camera_fix.Base.Int.{pos}
use cc2_camera_fix.Commands.Catalog.{is_upgrade_trigger_command}

same : Bool → Bool → Bool
same true b = b
same false b = not b

same-eq : (a b : Bool) → same a b ≡ true → a ≡ b
unfolding same
same-eq true b h = sym h
same-eq false true h = cc
same-eq false false h = refl

abbrev in_group : ℕ → Bool
in_group n = leb 0x4000 n && ltb n 0x5000

mask_table : all_below 65536 (λ n. same (bit_and n 0xF000 == 0x4000) (in_group n)) ≡ true
unfolding all_below same
mask_table = refl

mask : (n : ℕ) → n < 65536 → (bit_and n 0xF000 == 0x4000) ≡ in_group n
mask n h = same-eq _ _ (all_below_sound 65536 _ n h mask_table)

-- A command triggers the upgrade exactly if it is a 16-bit number of the 0x4xxx group.
is_upgrade_trigger_command_lem :
    (n : ℕ) → (is_upgrade_trigger_command (pos n) ≡ true) ↔ ((0x4000 ≤ n) × (n < 0x5000))
unfolding is_upgrade_trigger_command
is_upgrade_trigger_command_lem n = (
  (λ h.
      let (word, masked) = and-true (leb n 0xFFFF) (bit_and n 0xF000 == 0x4000) h in
      let (low, high) =
        and-true (leb 0x4000 n) (ltb n 0x5000) (sym (mask n (omega tests)) ∙ masked) in
      (leb→le 0x4000 n low, ltb→lt n 0x5000 high)),
  λ (low, high). rw (
    le→leb n 0xFFFF (omega arith),
    mask n (omega arith),
    le→leb 0x4000 n low,
    lt→ltb n 0x5000 high,
  ),
)
