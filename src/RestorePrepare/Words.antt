-- ===== src/RestorePrepare/Words.antt =====
-- Texts and numbers in the replies of the camera: hexadecimal words, lines and fields.
use cc2_camera_fix.Base.{
  ℕ, zero, suc, ◌+◌, ◌-◌, ◌*◌, ◌/◌, ◌%◌, Bool, true, false, not, ◌&&◌, ◌||◌, Option, none, some,
  List, [], ◌∷◌, ◌++◌,
}
use cc2_camera_fix.Base.Tests.{leb, ltb, ◌==◌, if◌then◌else◌}
use cc2_camera_fix.Base.Lists.{length, take, drop}
use cc2_camera_fix.Base.Bytes.{Bytes, equal}
use cc2_camera_fix.Base.Text.{Text, codes}
use cc2_camera_fix.Image.Order.{filter}

-- A digit of `f"{n:x}"`, with 97 for the letter `a`, or of `f"{n:X}"`, with 65
abbrev pub hex_digit : ℕ → ℕ → ℕ
hex_digit letter n = if ltb n 10 then 48 + n else letter + (n - 10)

-- `f"{n:08x}"` in `width` digits, for a number that has no more of them
unfoldable pub hex_of : ℕ → ℕ → ℕ → Text
hex_of letter zero n = []
hex_of letter (suc width) n = hex_of letter width (n / 16) ++ (hex_digit letter (n % 16) ∷ [])

abbrev pub hex8 : ℕ → Text
hex8 n = hex_of 97 8 n

abbrev pub hex8_upper : ℕ → Text
hex8_upper n = hex_of 65 8 n

-- `[0-9a-fA-F]`, with its value
unfoldable pub hex_value : ℕ → Option ℕ
hex_value c =
    if leb 48 c && leb c 57
    then some (c - 48)
    else if leb 97 c && leb c 102
    then some (c - 87)
    else if leb 65 c && leb c 70
    then some (c - 55)
    else none

abbrev pub extended : Option ℕ → Option ℕ → Option ℕ
extended (some value) (some digit) = some (16 * value + digit)
extended _ _ = none

-- `int(text, 16)` for a text of such digits
unfoldable pub hex_number : ℕ → Text → Option ℕ
unfolding hex_value
hex_number value [] = some value
hex_number value (c ∷ cs) = elim (hex_value c) [
  | some digit ↦ hex_number (16 * value + digit) cs
  | none ↦ none
]

abbrev pub is_some {ℓ} : {A : Type ℓ} → Option A → Bool
is_some none = false
is_some (some a) = true

-- `\s` on bytes, and what `bytes.strip()` removes
unfoldable pub is_space : ℕ → Bool
is_space c = (leb 9 c && leb c 13) || c == 32

-- `strip()` for the spaces that pass the test
unfoldable pub strip_front : (ℕ → Bool) → Text → Text
strip_front space [] = []
strip_front space (c ∷ cs) = let rest = strip_front space cs in if space c then rest else c ∷ cs

unfoldable pub strip_back : (ℕ → Bool) → Text → Text
strip_back space [] = []
strip_back space (c ∷ cs) = elim (strip_back space cs) [
  | [] ↦ if space c then [] else c ∷ []
  | d ∷ ds ↦ c ∷ (d ∷ ds)
]

unfoldable pub strip : (ℕ → Bool) → Text → Text
unfolding strip_front strip_back
strip space text = strip_front space (strip_back space text)

-- `re.fullmatch(rb"\s*0x[0-9a-fA-F]{8}\s*", output)` and `int(output.strip(), 16)`
unfoldable pub word_of : Bytes → Option ℕ
unfolding strip hex_number is_space
word_of output =
    let word = strip is_space output in
    if length word == 10 && equal (take 2 word) (codes "0x")
    then hex_number 0 (drop 2 word)
    else none

-- `text.replace("\r", "")`
abbrev pub without_cr : Text → Text
without_cr text = filter (λ c. not (c == 13)) text

-- `raw.decode("ascii", "replace")`
unfoldable pub decoded : Bytes → Text
decoded [] = []
decoded (b ∷ bs) = (if ltb b 128 then b else 0xFFFD) ∷ decoded bs

abbrev pub in_first : ℕ → List Text → List Text
in_first c [] = (c ∷ []) ∷ []
in_first c (line ∷ lines) = (c ∷ line) ∷ lines

-- The pieces between the characters that pass the test
unfoldable pub split_at : (ℕ → Bool) → Text → List Text
split_at ends [] = [] ∷ []
split_at ends (c ∷ cs) =
    let rest = split_at ends cs in if ends c then [] ∷ rest else in_first c rest

abbrev pub is_blank : Text → Bool
is_blank [] = true
is_blank (c ∷ cs) = false

-- What `str.strip()` and `str.split()` take for a space, in ASCII
unfoldable pub is_text_space : ℕ → Bool
is_text_space c = (leb 9 c && leb c 13) || (leb 28 c && leb c 32)

-- `line.split()`
unfoldable pub fields : Text → List Text
unfolding is_text_space split_at
fields line = filter (λ field. not (is_blank field)) (split_at is_text_space line)

-- The ends of a line for `str.splitlines()`, in ASCII without `\r`
unfoldable pub ends_line : ℕ → Bool
ends_line c = (leb 10 c && leb c 12) || (leb 28 c && leb c 30)

-- `[line.strip() for line in text.splitlines() if line.strip()]`
unfoldable pub stripped : List Text → List Text
unfolding strip is_text_space
stripped [] = []
stripped (line ∷ lines) =
    let rest = stripped lines in
    let text = strip is_text_space line in if is_blank text then rest else text ∷ rest

unfoldable pub lines_of : Text → List Text
unfolding ends_line split_at stripped
lines_of text = stripped (split_at ends_line text)
