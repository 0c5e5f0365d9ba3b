-- ===== src/Base/Lists/Assign.antt =====
-- What a slice that is written to a bytearray changes, and what it keeps.
use Prim.Native.Nat.{ℕ, zero, suc, ◌+◌, ◌-◌, ◌≤◌}
use mathlib.Core.Path.{◌≡◌, refl, sym, ap, ◌∙◌}
use mathlib.Core.List.{List, [], ◌∷◌, ◌++◌}
use native.Mathlib.Omega.{arith}
use cc2_camera_fix.Base.Lists.{
  length, take, drop, slice, assign, length-append, length-take, length-drop, take-append,
  drop-append, drop-add, take-append-drop,
}

module _ {ℓ} {A : Type ℓ} where
  pub take-take : (k n : ℕ) (xs : List A) → k ≤ n → take k (take n xs) ≡ take k xs
  take-take zero n xs h = refl
  take-take (suc k) zero xs h = absurd (omega arith)
  take-take (suc k) (suc n) [] h = refl
  take-take (suc k) (suc n) (x ∷ xs) h = ap (◌∷◌ x) (take-take k n xs (omega arith))

  take-front : (k : ℕ) (xs ys : List A) → k ≤ length xs → take k (xs ++ ys) ≡ take k xs
  take-front zero xs ys h = refl
  take-front (suc k) [] ys h = absurd (omega arith)
  take-front (suc k) (x ∷ xs) ys h = ap (◌∷◌ x) (take-front k xs ys (omega arith))

  pub drop-take : (k n m : ℕ) (xs : List A) → m ≡ k + n → drop k (take m xs) ≡ take n (drop k xs)
  drop-take zero n m xs h = let e : m ≡ n = omega arith in rw e
  drop-take (suc k) n zero xs h = absurd (omega arith)
  drop-take (suc k) zero (suc m) [] h = refl
  drop-take (suc k) (suc n) (suc m) [] h = refl
  drop-take (suc k) n (suc m) (x ∷ xs) h = drop-take k n m xs (omega arith)

  -- A list is what stands before a slice, the slice and what stands behind it.
  pub slice-split :
      (a b : ℕ) (xs node : List A)
      → a ≤ b
      → slice a b xs ≡ node
      → xs ≡ take a xs ++ (node ++ drop b xs)
  slice-split a b xs node le there =
      let e : a + (b - a) ≡ b = omega arith in
      sym (take-append-drop a xs)
      ∙ ap (◌++◌ (take a xs)) (
          sym (take-append-drop (b - a) (drop a xs))
          ∙ ap (λ front. front ++ drop (b - a) (drop a xs)) there
          ∙ ap (◌++◌ node) (sym (drop-add a (b - a) xs) ∙ ap (λ n. drop n xs) e))

  module _ (a b : ℕ) (xs buffer : List A) (le : a ≤ b) (inside : b ≤ length buffer)
      (fits : length xs ≡ b - a) where
    pub length-assign : length (assign a b xs buffer) ≡ length buffer
    length-assign = omega (
      arith,
      length-append (take a buffer) (xs ++ drop b buffer),
      length-append xs (drop b buffer),
      length-take a buffer,
      length-drop b buffer,
    )

    pub take-assign : (k : ℕ) → k ≤ a → take k (assign a b xs buffer) ≡ take k buffer
    take-assign k h =
        take-front k (take a buffer) (xs ++ drop b buffer) (omega (arith, length-take a buffer))
        ∙ take-take k a buffer h

    front : drop a (assign a b xs buffer) ≡ xs ++ drop b buffer
    front = drop-append a (take a buffer) _ (omega (arith, length-take a buffer))

    pub slice-assign : slice a b (assign a b xs buffer) ≡ xs
    slice-assign = rw front (take-append (b - a) xs (drop b buffer) (omega arith))

    back : drop b (assign a b xs buffer) ≡ drop b buffer
    back =
        let e : a + (b - a) ≡ b = omega arith in
        ap (λ n. drop n (assign a b xs buffer)) (sym e)
        ∙ drop-add a (b - a) (assign a b xs buffer)
        ∙ ap (drop (b - a)) front
        ∙ drop-append (b - a) xs (drop b buffer) (omega arith)

    pub drop-assign : (k : ℕ) → b ≤ k → drop k (assign a b xs buffer) ≡ drop k buffer
    drop-assign k h =
        let e : b + (k - b) ≡ k = omega arith in
        ap (λ n. drop n (assign a b xs buffer)) (sym e)
        ∙ drop-add b (k - b) (assign a b xs buffer)
        ∙ ap (drop (k - b)) back
        ∙ sym (drop-add b (k - b) buffer)
        ∙ ap (λ n. drop n buffer) e

    pub slice-assign_below :
        (x y : ℕ) → x ≤ y → y ≤ a → slice x y (assign a b xs buffer) ≡ slice x y buffer
    slice-assign_below x y h hy =
        sym (drop-take x (y - x) y (assign a b xs buffer) (omega arith))
        ∙ ap (drop x) (take-assign y hy)
        ∙ drop-take x (y - x) y buffer (omega arith)

    pub slice-assign_above : (x y : ℕ) → b ≤ x → slice x y (assign a b xs buffer) ≡ slice x y buffer
    slice-assign_above x y h = ap (take (y - x)) (drop-assign x h)
