-- ===== src/Base/Text.antt =====
-- Python's `str` as a list of code points, with the encodings that the program uses.
use Prim.Native.Nat.{ℕ, ◌+◌, ◌/◌, ◌%◌}
use Prim.Native.Char.{code}
use Prim.Native.String.{String}
use mathlib.Core.Bool.{◌&&◌}
use mathlib.Core.List.{List, [], ◌∷◌, ◌++◌}
use cc2_camera_fix.Base.Tests.{ltb, leb, if◌then◌else◌}
use cc2_camera_fix.Base.Result.{Result, ok, err, unicode_error, ◌>>=◌}
use cc2_camera_fix.Base.Bytes.{Bytes}

abbrev pub Text : Type 0
Text = List ℕ

abbrev pub codes : String → Text
codes String.[] = []
codes (String.◌∷◌ c s) = code c ∷ codes s

-- `str.encode("utf-8")`: a surrogate has no encoding.
unfoldable pub utf8_char : ℕ → Result Bytes
utf8_char c =
    if ltb c 0x80
    then ok (c ∷ [])
    else if ltb c 0x800
    then ok ((0xc0 + c / 64) ∷ (0x80 + c % 64) ∷ [])
    else if leb 0xd800 c && ltb c 0xe000
    then err unicode_error
    else if ltb c 0x10000
    then ok ((0xe0 + c / 4096) ∷ (0x80 + c / 64 % 64) ∷ (0x80 + c % 64) ∷ [])
    else ok
        ((0xf0 + c / 262144) ∷ (0x80 + c / 4096 % 64) ∷ (0x80 + c / 64 % 64) ∷ (0x80 + c % 64) ∷ [])

unfoldable pub utf8 : Text → Result Bytes
unfolding utf8_char
utf8 [] = ok []
utf8 (c ∷ text) = do first ← utf8_char c; rest ← utf8 text; ok (first ++ rest)

-- `str.encode("ascii")`
unfoldable pub ascii : Text → Result Bytes
ascii [] = ok []
ascii (c ∷ text) = do rest ← ascii text; if ltb c 0x80 then ok (c ∷ rest) else err unicode_error
