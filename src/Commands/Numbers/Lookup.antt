-- ===== src/Commands/Numbers/Lookup.antt =====
-- `NormalCommand(n)` and `int(command)` undo one another.
use cc2_camera_fix.Base.{ℕ, ◌≡◌, ◌↔◌, refl, sym, ap, ◌∙◌, inl, inr, some, List, [], ◌∷◌}
use cc2_camera_fix.Base.Tests.{◌==◌, ==_iff, Bool-cases}
use cc2_camera_fix.Commands.Numbers.{NormalCommand, value, commands, with_value, of_value}
use cc2_camera_fix.Commands.Numbers

with_value-value :
    (n : ℕ) (cs : List NormalCommand) {c : NormalCommand} → with_value n cs ≡ some c → value c ≡ n
unfolding with_value
with_value-value n [] h = cc
with_value-value n (d ∷ cs) {c} h = elim (Bool-cases (value d == n)) [
  | inl e ↦ let here = rw e at h in ap value (sym (same d c here)) ∙ (==_iff (value d) n).0 e
  | inr e ↦ with_value-value n cs {c = c} (rw e at h)
]
  where
    same : (a b : NormalCommand) → some a ≡ some b → a ≡ b
    same a b p = cc

pub of_value-value : (n : ℕ) {c : NormalCommand} → of_value n ≡ some c → value c ≡ n
unfolding of_value
of_value-value n {c} h = with_value-value n commands {c = c} h

round : (c : NormalCommand) → of_value (value c) ≡ some c
unfolding of_value value
round Numbers.version_query = refl
round _ = refl

-- A number is looked up as a member of the enum exactly if it is that member's value.
of_value_lem : (n : ℕ) (c : NormalCommand) → (of_value n ≡ some c) ↔ (n ≡ value c)
of_value_lem n c = ((λ h. sym (of_value-value n h)), λ e. rw e (round c))
