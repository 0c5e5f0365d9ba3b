-- ===== src/Image/Order.antt =====
-- Python's `sorted` and the order of `bytes`, as cc2camera/image.py uses them.
pub mod Members
use cc2_camera_fix.Base.{
  ℕ, suc, zero, ◌+◌, ◌≡◌, refl, Bool, true, false, List, [], ◌∷◌, ◌||◌, ◌&&◌, arith,
}
use cc2_camera_fix.Base.Tests.{ltb, leb, ◌==◌, if◌then◌else◌}
use cc2_camera_fix.Base.Lists.{length, All}
use cc2_camera_fix.Base.Bytes.{Bytes}

-- `a <= b` on bytes
unfoldable pub bytes_leb : Bytes → Bytes → Bool
bytes_leb [] ys = true
bytes_leb (x ∷ xs) [] = false
bytes_leb (x ∷ xs) (y ∷ ys) = ltb x y || (x == y && bytes_leb xs ys)

module _ {A : Type 0} where
  -- `[item for item in items if test(item)]`
  unfoldable pub filter : (A → Bool) → List A → List A
  filter test [] = []
  filter test (x ∷ xs) = let rest = filter test xs in if test x then x ∷ rest else rest

  unfoldable pub any : (A → Bool) → List A → Bool
  any test [] = false
  any test (x ∷ xs) = test x || any test xs

  -- Before the items that are not smaller.
  unfoldable pub insert_by : (A → A → Bool) → A → List A → List A
  insert_by le x [] = x ∷ []
  insert_by le x (y ∷ ys) =
      let rest = insert_by le x ys in if le x y then x ∷ (y ∷ ys) else y ∷ rest

  -- `sorted`, which keeps the order of equal items
  unfoldable pub sort_by : (A → A → Bool) → List A → List A
  unfolding insert_by
  sort_by le [] = []
  sort_by le (x ∷ xs) = insert_by le x (sort_by le xs)
