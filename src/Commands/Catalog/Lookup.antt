-- ===== src/Commands/Catalog/Lookup.antt =====
-- The catalog covers the enum, and a description is that of its command.
use cc2_camera_fix.Base.{
  ℕ, false, ◌≡◌, ◌≢◌, ◌↔◌, inl, inr, refl, sym, ◌∙◌, arith, none, some, List, [], ◌∷◌, map,
}
use cc2_camera_fix.Base.Tests.{◌==◌, ne→==, Bool-cases, Option-cases}
use mathlib.Core.Path.{subst}
use cc2_camera_fix.Base.Lists.{All}
use cc2_camera_fix.Base.Int.{pos}
use cc2_camera_fix.Commands.Numbers.{NormalCommand, value, commands, with_value, of_value}
use cc2_camera_fix.Commands.Catalog.{
  NormalCommandDescriptor, build_normal_catalog, last_entry, command_by_value,
  is_upgrade_trigger_command, trigger_entry, describe_trigger, describe_normal_command,
}

abbrev Absent : ℕ → List ℕ → Type 0
Absent n = All (λ m. m ≢ n)

of_value_upgrade : of_value 0x4000 ≢ none
unfolding of_value
of_value_upgrade h = cc

-- The catalog has each member of the enum once, in the order of the enum.
catalog_commands :
    map (λ (d : NormalCommandDescriptor). d.command) build_normal_catalog ≡ map value commands
unfolding build_normal_catalog value
catalog_commands = refl

last_entry-Absent :
    (n : ℕ) (ds : List NormalCommandDescriptor)
    → last_entry n ds ≡ none
    → Absent n (map (λ (d : NormalCommandDescriptor). d.command) ds)
unfolding last_entry
last_entry-Absent n [] h = tt
last_entry-Absent n (d ∷ ds) h = elim (Option-cases (last_entry n ds)) [
  | inl e ↦ let here = rw e at h in ((λ same. ground arith), last_entry-Absent n ds e)
  | inr (x, e) ↦ let here = rw e at h in cc
]

last_entry-none :
    (n : ℕ) (ds : List NormalCommandDescriptor)
    → Absent n (map (λ (d : NormalCommandDescriptor). d.command) ds)
    → last_entry n ds ≡ none
unfolding last_entry
last_entry-none n [] h = refl
last_entry-none n (d ∷ ds) (ne, h) = rw (last_entry-none n ds h, ne→== d.command n ne)

last_entry-command :
    (n : ℕ) (ds : List NormalCommandDescriptor) {d : NormalCommandDescriptor}
    → last_entry n ds ≡ some d
    → d.command ≡ n
unfolding last_entry
last_entry-command n [] h = cc
last_entry-command n (e ∷ ds) {d} h = elim (Option-cases (last_entry n ds)) [
  | inl none_later ↦ let here = rw none_later at h in ground arith
  | inr (x, later) ↦ let here = rw later at h in last_entry-command n ds {d = d} (later ∙ here)
]

with_value-Absent :
    (n : ℕ) (cs : List NormalCommand) → with_value n cs ≡ none → Absent n (map value cs)
unfolding with_value
with_value-Absent n [] h = tt
with_value-Absent n (c ∷ cs) h = elim (Bool-cases (value c == n)) [
  | inl e ↦ let here = rw e at h in cc
  | inr e ↦ let here = rw e at h in ((λ same. ground arith), with_value-Absent n cs here)
]

with_value-none :
    (n : ℕ) (cs : List NormalCommand) → Absent n (map value cs) → with_value n cs ≡ none
unfolding with_value
with_value-none n [] h = refl
with_value-none n (c ∷ cs) (ne, h) = rw (ne→== (value c) n ne) (with_value-none n cs h)

by_value-command :
    (n : ℕ) {d : NormalCommandDescriptor} → command_by_value (pos n) ≡ some d → d.command ≡ n
unfolding command_by_value
by_value-command n {d} h = last_entry-command n build_normal_catalog {d = d} h

some-ne-none : {d : NormalCommandDescriptor} → some d ≢ none
some-ne-none h = cc

-- The catalog and the enum know the same command numbers.
by_value_iff : (n : ℕ) → (command_by_value (pos n) ≡ none) ↔ (of_value n ≡ none)
unfolding command_by_value of_value
by_value_iff n = (
  (λ h.
      with_value-none n commands
        (subst (Absent n) catalog_commands (last_entry-Absent n build_normal_catalog h))),
  λ h.
      last_entry-none n build_normal_catalog
        (subst (Absent n) (sym catalog_commands) (with_value-Absent n commands h)),
)

canonical : command_by_value (pos 0x4000) ≢ none
canonical h = of_value_upgrade ((by_value_iff 0x4000).0 h)

trigger-none :
    (n : ℕ) → (describe_trigger (pos n) ≡ none) ↔ (is_upgrade_trigger_command (pos n) ≡ false)
unfolding describe_trigger value
trigger-none n = elim (Bool-cases (is_upgrade_trigger_command (pos n))) [
  | inl yes_trigger ↦ elim (Option-cases (command_by_value (pos 0x4000))) [
    | inl e ↦ absurd (canonical e)
    | inr (d, e) ↦ rw (yes_trigger, e) ((λ h. cc), λ h. cc)
  ]
  | inr no_trigger ↦ rw no_trigger ((λ h. refl), λ h. refl)
]

-- A number that is not negative has no description exactly if it is no member of the enum and
-- lies outside the upgrade group.
describe_normal_command-none :
    (n : ℕ)
    → (describe_normal_command (pos n) ≡ none)
      ↔ ((of_value n ≡ none) × (is_upgrade_trigger_command (pos n) ≡ false))
unfolding describe_normal_command
describe_normal_command-none n = elim (Option-cases (command_by_value (pos n))) [
  | inl e ↦
      rw (e, describe_normal_command)
        ((λ h. ((by_value_iff n).0 e, (trigger-none n).0 h)), λ (_, h). (trigger-none n).1 h)
  | inr (d, e) ↦
      rw (e, describe_normal_command)
        ((λ h. absurd (some-ne-none h)), λ (unknown, _). sym e ∙ (by_value_iff n).1 unknown)
]

trigger-command :
    (n : ℕ) {d : NormalCommandDescriptor} → describe_trigger (pos n) ≡ some d → d.command ≡ n
unfolding describe_trigger trigger_entry
trigger-command n h = ground arith

-- A description is that of the number that was asked for.
describe_normal_command-command :
    (n : ℕ) {d : NormalCommandDescriptor} → describe_normal_command (pos n) ≡ some d → d.command ≡ n
unfolding describe_normal_command
describe_normal_command-command n {d} h = elim (Option-cases (command_by_value (pos n))) [
  | inl e ↦ trigger-command n {d = d} (rw (e, describe_normal_command) at h)
  | inr (x, e) ↦ exact x e (rw (e, describe_normal_command) at h)
]
  where
    exact :
        (x : NormalCommandDescriptor)
        → command_by_value (pos n) ≡ some x
        → some x ≡ some d
        → d.command ≡ n
    exact x e same = by_value-command n {d = d} (e ∙ same)
