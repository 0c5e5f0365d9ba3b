-- ===== src/Tests/Nodes.antt =====
-- Runs on single JFFS2 nodes, with a sum in place of the CRC.
use cc2_camera_fix.Base.{ℕ, ◌+◌, ◌%◌, ◌<◌, ◌≡◌, arith, List, [], ◌∷◌, ◌++◌}
use cc2_camera_fix.Base.Lists.{All}
use cc2_camera_fix.Base.Int.{pos}
use cc2_camera_fix.Base.Result.{ok}
use cc2_camera_fix.Base.Bytes.{Bytes, IsBytes}
use cc2_camera_fix.Image.Jffs2.{Node, parse_jffs2}
use cc2_camera_fix.Image.Jffs2.Total.{IsFound, parse_jffs2_total}
use cc2_camera_fix.Image.Xz.{xz_vli}
use cc2_camera_fix.Image.Xz.RoundTrip.{vli_value, xz_vli-vli_value}

abbrev pub sum_check : Bytes → ℕ
sum_check [] = 0
sum_check (b ∷ bs) = (b + sum_check bs) % 4294967296

pub sum_check_fits : (bytes : Bytes) → sum_check bytes < 4294967296
sum_check_fits [] = omega arith
sum_check_fits (b ∷ bs) = omega arith

-- A cleanmarker
abbrev marker : Bytes
marker = 133 ∷ 25 ∷ 3 ∷ 32 ∷ 12 ∷ 0 ∷ 0 ∷ 0 ∷ 205 ∷ 0 ∷ 0 ∷ 0 ∷ []

marker-IsBytes : IsBytes marker
marker-IsBytes = ground arith

parse_jffs2_total_example :
    (nodes : List Node) × (parse_jffs2 sum_check marker ≡ ok nodes) × All (IsFound 12) nodes
parse_jffs2_total_example = parse_jffs2_total sum_check marker marker-IsBytes

xz_vli-vli_value_example :
    (encoded : Bytes) × (xz_vli (pos 25564) ≡ ok encoded)
    × IsBytes encoded
    × (vli_value (encoded ++ (33 ∷ [])) ≡ (25564, 33 ∷ []))
xz_vli-vli_value_example = xz_vli-vli_value 25564 (33 ∷ [])
