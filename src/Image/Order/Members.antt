-- ===== src/Image/Order/Members.antt =====
-- What a filter and a sort keep: every item of the result is one of the list.
use cc2_camera_fix.Base.{◌≡◌, refl, ap, ◌∙◌, Bool, true, false, List, [], ◌∷◌, ◌⊎◌, inl, inr}
use cc2_camera_fix.Base.Tests.{if◌then◌else◌}
use mathlib.Core.List.{Memᴰ}
use mathlib.Core.List.Memᴰ.{head, tail}
use cc2_camera_fix.Image.Order.{filter, insert_by, sort_by}

module _ {A : Type 0} where
  kept-Mem :
      (test : Bool) (y : A) (rest : List A) {x : A}
      → Memᴰ x (if test then y ∷ rest else rest)
      → ((x ≡ y) × (test ≡ true)) ⊎ Memᴰ x rest
  kept-Mem true y rest (head e) = inl (e, refl)
  kept-Mem true y rest (tail m) = inr m
  kept-Mem false y rest m = inr m

  pub filter-Mem :
      (test : A → Bool) (xs : List A) {x : A}
      → Memᴰ x (filter test xs)
      → Memᴰ x xs × (test x ≡ true)
  unfolding filter
  filter-Mem test [] m = elim m [ ]
  filter-Mem test (y ∷ ys) m = elim (kept-Mem (test y) y (filter test ys) m) [
    | inl (e, t) ↦ (head e, ap test e ∙ t)
    | inr later ↦ let (inside, t) = filter-Mem test ys later in (tail inside, t)
  ]

  inserted-Mem :
      (first : Bool) (x y : A) (ys rest : List A) {z : A}
      → (Memᴰ z rest → (z ≡ x) ⊎ Memᴰ z ys)
      → Memᴰ z (if first then x ∷ (y ∷ ys) else y ∷ rest)
      → (z ≡ x) ⊎ Memᴰ z (y ∷ ys)
  inserted-Mem true x y ys rest h (head e) = inl e
  inserted-Mem true x y ys rest h (tail m) = inr m
  inserted-Mem false x y ys rest h (head e) = inr (head e)
  inserted-Mem false x y ys rest h (tail m) = elim (h m) [ inl e ↦ inl e | inr n ↦ inr (tail n) ]

  insert_by-Mem :
      (le : A → A → Bool) (x : A) (ys : List A) {z : A}
      → Memᴰ z (insert_by le x ys)
      → (z ≡ x) ⊎ Memᴰ z ys
  unfolding insert_by
  insert_by-Mem le x [] (head e) = inl e
  insert_by-Mem le x [] (tail m) = inr m
  insert_by-Mem le x (y ∷ ys) m =
      inserted-Mem (le x y) x y ys (insert_by le x ys) (insert_by-Mem le x ys) m

  pub sort_by-Mem : (le : A → A → Bool) (xs : List A) {z : A} → Memᴰ z (sort_by le xs) → Memᴰ z xs
  unfolding sort_by
  sort_by-Mem le [] m = m
  sort_by-Mem le (x ∷ xs) m = elim (insert_by-Mem le x (sort_by le xs) m) [
    | inl e ↦ head e
    | inr later ↦ tail (sort_by-Mem le xs later)
  ]
