-- ===== src/Image/Analysis/Differences.antt =====
-- The comparison of two images, and the check of the confirmation reads.
use cc2_camera_fix.Base.{
  ℕ, suc, ◌+◌, ◌<◌, ◌≡◌, ◌≢◌, refl, sym, ap, ◌∙◌, arith, Bool, true, false, Option, none, some, [],
  ◌∷◌,
}
use cc2_camera_fix.Base.Tests.{◌==◌, ==_iff, if◌then◌else◌}
use cc2_camera_fix.Base.Lists.{length, get_elem?, take}
use mathlib.Core.Path.{subst}
use cc2_camera_fix.Base.Result.{ok}
use cc2_camera_fix.Base.Bytes.{Bytes}
use cc2_camera_fix.Image.Analysis.{
  Difference, no_difference, first_or, difference_from, difference_summary,
}

-- How many of the bytes differ
differing : Bytes → Bytes → ℕ
differing (x ∷ xs) (y ∷ ys) = let rest = differing xs ys in if x == y then rest else suc rest
differing _ _ = 0

shifted : ℕ → Option ℕ → Option ℕ
shifted k none = none
shifted k (some i) = some (k + i)

first_of : Option ℕ → Option ℕ → Option ℕ
first_of none later = later
first_of (some i) later = some i

-- The place of the first byte that differs
first_differing : Bytes → Bytes → Option ℕ
first_differing (x ∷ xs) (y ∷ ys) =
    let rest = first_differing xs ys in if x == y then shifted 1 rest else some 0
first_differing _ _ = none

FromFound : ℕ → Bytes → Bytes → Difference → Difference → Type 0
FromFound index before after found result =
    (result.different_bytes ≡ found.different_bytes + differing before after)
    × (result.first_difference
        ≡ first_of found.first_difference (shifted index (first_differing before after)))

none_more : (o : Option ℕ) → o ≡ first_of o none
unfolding first_of
none_more none = refl
none_more (some i) = refl

one_later : (index : ℕ) (o : Option ℕ) → shifted (suc index) o ≡ shifted index (shifted 1 o)
unfolding shifted
one_later index none = refl
one_later index (some i) = ap some (omega arith)

one_turn :
    (index : ℕ) (same : Bool) (count : ℕ) (first : Option ℕ) (found : Difference)
    (rest : Difference → Difference)
    → ((next : Difference)
        → ((rest next).different_bytes ≡ next.different_bytes + count)
          × ((rest next).first_difference
              ≡ first_of next.first_difference (shifted (suc index) first)))
    → let counted : Difference = record {
      different_bytes = suc found.different_bytes;
      first_difference = first_or found.first_difference index;
      last_difference = some index;
    } in
      let result = rest (if same then found else counted) in
      (result.different_bytes ≡ found.different_bytes + (if same then count else suc count))
      × (result.first_difference
          ≡ first_of found.first_difference
              (shifted index (if same then shifted 1 first else some 0)))
unfolding first_of shifted
one_turn index true count first found rest h =
    ((h found).0, (h found).1 ∙ ap (first_of found.first_difference) (one_later index first))
one_turn index false count first found rest h =
    ((h _).0 ∙ omega arith, (h _).1 ∙ kept found.first_difference)
  where
    kept :
        (o : Option ℕ)
        → first_of (first_or o index) (shifted (suc index) first) ≡ first_of o (some (index + 0))
    kept none = ap some (omega arith)
    kept (some i) = refl

difference_from-FromFound :
    (index : ℕ) (before after : Bytes) (found : Difference)
    → FromFound index before after found (difference_from index before after found)
unfolding difference_from differing first_differing FromFound shifted
difference_from-FromFound index [] after found = (omega arith, none_more found.first_difference)
difference_from-FromFound index (x ∷ xs) [] found = (omega arith, none_more found.first_difference)
difference_from-FromFound index (x ∷ xs) (y ∷ ys) found =
    one_turn index (x == y) (differing xs ys) (first_differing xs ys) found
      (difference_from (suc index) xs ys) (λ next. difference_from-FromFound (suc index) xs ys next)

-- Two images are the same, or `i` is the first place where they are not.
pub data IsFirst (before after : Bytes) (count : ℕ) : Option ℕ → Type 0 where
  same : before ≡ after → count ≡ 0 → IsFirst before after count none
  other :
      (i x y : ℕ)
      → take i before ≡ take i after
      → get_elem? before i ≡ some x
      → get_elem? after i ≡ some y
      → x ≢ y
      → 0 < count
      → IsFirst before after count (some i)

one_more-IsFirst :
    (equal : Bool) (x y count : ℕ) (xs ys : Bytes) (first : Option ℕ)
    → (x == y) ≡ equal
    → IsFirst xs ys count first
    → IsFirst
        (x ∷ xs)
        (y ∷ ys)
        (if equal then count else suc count)
        (if equal then shifted 1 first else some 0)
unfolding shifted
one_more-IsFirst true x y count xs ys none e (same h n) =
    same (ap (λ b. b ∷ xs) ((==_iff x y).0 e) ∙ ap (λ l. y ∷ l) h) n
one_more-IsFirst true x y count xs ys (some i) e (other j a b before_same ha hb ne more) =
    subst (λ k. IsFirst (x ∷ xs) (y ∷ ys) count (some k)) (omega arith)
      (other (suc j) a b (ap (λ b. b ∷ take j xs) ((==_iff x y).0 e) ∙ ap (λ l. y ∷ l) before_same)
        ha hb ne more)
one_more-IsFirst false x y count xs ys first e h =
    other 0 x y refl refl refl (λ same_byte. different same_byte) (omega arith)
  where
    different : x ≡ y → ⊥
    different same_byte = ground arith

differing-IsFirst :
    (before after : Bytes)
    → length before ≡ length after
    → IsFirst before after (differing before after) (first_differing before after)
unfolding differing first_differing
differing-IsFirst [] [] h = same refl refl
differing-IsFirst (x ∷ xs) (y ∷ ys) h =
    one_more-IsFirst (x == y) x y (differing xs ys) xs ys (first_differing xs ys) refl
      (differing-IsFirst xs ys (omega arith))
differing-IsFirst [] (y ∷ ys) h = absurd (omega arith)
differing-IsFirst (x ∷ xs) [] h = absurd (omega arith)

-- Two images of the same length are compared without an exception. If no first difference is reported,
-- they are equal and the count is 0; otherwise the count is positive, the images agree before the
-- reported place, and their bytes there differ.
pub difference_summary-IsFirst :
    (before after : Bytes)
    → length before ≡ length after
    → (found : Difference) × (difference_summary before after ≡ ok found)
      × IsFirst before after found.different_bytes found.first_difference
unfolding difference_summary no_difference FromFound first_of shifted
difference_summary-IsFirst before after h =
    let result = difference_from 0 before after no_difference in
    let (counted, first) = difference_from-FromFound 0 before after no_difference in
    (
      result,
      rw ((==_iff (length before) (length after)).1 h) refl,
      subst (λ n. IsFirst before after n result.first_difference) (sym (counted ∙ omega arith))
          (subst (IsFirst before after (differing before after))
            (sym (first ∙ unshifted (first_differing before after)))
            (differing-IsFirst before after h)),
    )
  where
    unshifted : (o : Option ℕ) → shifted 0 o ≡ o
    unshifted none = refl
    unshifted (some i) = ap some (omega arith)
