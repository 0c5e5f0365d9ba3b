-- ===== src/AdbBackup/Partitions.antt =====
-- The parser of /proc/mtd, parse_proc_mtd of cc2camera/adb_backup.py.
use cc2_camera_fix.Base.{
  ℕ, zero, suc, ◌+◌, ◌-◌, ◌*◌, ◌/◌, ◌%◌, Bool, not, ◌&&◌, Option, none, some, List, [], ◌∷◌, ◌++◌,
}
use cc2_camera_fix.Base.Tests.{leb, ltb, ◌==◌, if◌then◌else◌}
use cc2_camera_fix.Base.Result.{Result, ok, err, protocol_error, unicode_error, no_partitions}
use cc2_camera_fix.Base.Bytes.{Bytes}
use cc2_camera_fix.Base.Text.{Text, codes}
use cc2_camera_fix.Image.Order.{sort_by}
use cc2_camera_fix.RestorePrepare.Words.{
  hex_value, hex_number, is_some, is_text_space, without_cr, lines_of, is_blank,
}
use cc2_camera_fix.AdbBackup.{MtdPartition}

infixl 5 ◌>>=◌
abbrev ◌>>=◌ {ℓ κ} : {A : Type ℓ} {B : Type κ} → Option A → (A → Option B) → Option B
none >>= f = none
some a >>= f = f a

-- `raw.decode("ascii", "strict")`
unfoldable pub ascii_text : Bytes → Result Text
ascii_text [] = ok []
ascii_text (b ∷ bs) = elim (ascii_text bs) [
  | ok text ↦ if ltb b 128 then ok (b ∷ text) else err unicode_error
  | err e ↦ err e
]

-- The rest behind a fixed text
unfoldable pub behind : Text → Text → Option Text
behind [] text = some text
behind (c ∷ cs) [] = none
behind (c ∷ cs) (d ∷ ds) = if c == d then behind cs ds else none

-- The characters at the start that pass the test, and the rest
unfoldable pub span : (ℕ → Bool) → Text → Text × Text
span test [] = ([], [])
span test (c ∷ cs) =
    let (front, rest) = span test cs in if test c then (c ∷ front, rest) else ([], c ∷ cs)

-- `[...]+` of a pattern, where what follows does not pass the test
abbrev some_of : (ℕ → Bool) → Text → Option (Text × Text)
some_of test text = if is_blank (span test text).0 then none else some (span test text)

-- `\d`, `[0-9a-fA-F]` and `[^"]`, in ASCII
abbrev is_digit : ℕ → Bool
is_digit c = leb 48 c && leb c 57

abbrev is_hex : ℕ → Bool
is_hex c = is_some (hex_value c)

abbrev is_unquoted : ℕ → Bool
is_unquoted c = not (c == 34)

-- `int(digits)`
unfoldable pub decimal_number : ℕ → Text → ℕ
decimal_number value [] = value
decimal_number value (c ∷ cs) = decimal_number (10 * value + (c - 48)) cs

-- The `$` of the pattern
abbrev at_end : Text → MtdPartition → Option MtdPartition
at_end [] part = some part
at_end (c ∷ cs) part = none

-- `MTD_LINE.match(line)`, for a line without spaces at its ends
unfoldable pub mtd_line : Text → Option MtdPartition
unfolding behind span decimal_number hex_number is_text_space hex_value
mtd_line line = do
  a ← behind (codes "mtd") line
  index ← some_of is_digit a
  b ← behind (codes ":") index.1
  space1 ← some_of is_text_space b
  size ← some_of is_hex space1.1
  space2 ← some_of is_text_space size.1
  erase ← some_of is_hex space2.1
  space3 ← some_of is_text_space erase.1
  c ← behind (codes "\"") space3.1
  name ← some_of is_unquoted c
  d ← behind (codes "\"") name.1
  size_number ← hex_number 0 size.0
  erase_number ← hex_number 0 erase.0
  at_end d (record {
    index = decimal_number 0 index.0;
    size = size_number;
    erase_size = erase_number;
    name = name.0;
  })

-- The loop over the lines, which skips the ones that do not match
unfoldable pub mtd_lines : List Text → List MtdPartition
unfolding mtd_line
mtd_lines [] = []
mtd_lines (line ∷ lines) = elim (mtd_line line) [
  | some part ↦ part ∷ mtd_lines lines
  | none ↦ mtd_lines lines
]

abbrev some_partitions : List MtdPartition → Result (List MtdPartition)
some_partitions [] = err (protocol_error no_partitions)
some_partitions (part ∷ parts) = ok (part ∷ parts)

-- A line of spaces, which `lines_of` drops, does not match.
unfoldable pub parse_proc_mtd : Text → Result (List MtdPartition)
unfolding mtd_lines
parse_proc_mtd text =
    some_partitions (
      sort_by (λ (a b : MtdPartition). leb a.index b.index)
        (mtd_lines (lines_of (without_cr text))))

-- `f"{n}"`, on fuel above `n`
unfoldable pub decimal_of : ℕ → ℕ → Text
decimal_of zero n = []
decimal_of (suc fuel) n =
    let digits = decimal_of fuel (n / 10) in
    if ltb n 10 then (48 + n) ∷ [] else digits ++ ((48 + n % 10) ∷ [])

-- The property `device`
unfoldable pub device_path : ℕ → Text
unfolding decimal_of
device_path index = codes "/dev/mtd" ++ decimal_of (suc index) index
