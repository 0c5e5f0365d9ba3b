-- ===== src/Tests/Spaces.antt =====
-- Runs of the admission check of the startup hooks.
use cc2_camera_fix.Base.{ℕ, ◌≡◌, refl, List, [], ◌∷◌, ◌++◌}
use cc2_camera_fix.Base.Lists.{replicate}
use cc2_camera_fix.Base.Int.{pos}
use cc2_camera_fix.Base.Bytes.{Bytes, equal}
use cc2_camera_fix.Base.Result.{ok}
use cc2_camera_fix.Base.Text.{codes}
use cc2_camera_fix.Startup.{
  Payload, SpacePlan, space_plan, clean_marker, count_clean, is_clean, budget_of, payload_bytes,
}
use cc2_camera_fix.Startup.Space.{HasRoom, space_plan-HasRoom}

-- A checksum of four fixed bytes.
abbrev fixed : Bytes → ℕ
fixed bytes = 0x11223344

-- A block with the marker of that checksum, erased after it.
abbrev clean_block : Bytes
clean_block =
    0x85 ∷ 0x19 ∷ 0x03 ∷ 0x20 ∷ 12 ∷ 0 ∷ 0 ∷ 0 ∷ 0x44 ∷ 0x33 ∷ 0x22 ∷ 0x11 ∷ replicate 16372 0xFF

abbrev half : Bytes
half = clean_block ++ (clean_block ++ (clean_block ++ clean_block))

abbrev one_hook : List Payload
one_hook = record { name = codes "rcS"; content = replicate 300 0x20 } ∷ []

-- The marker that the program looks for is the one of the blocks.
marker :
    clean_marker fixed
    ≡ ok (0x85 ∷ 0x19 ∷ 0x03 ∷ 0x20 ∷ 12 ∷ 0 ∷ 0 ∷ 0 ∷ 0x44 ∷ 0x33 ∷ 0x22 ∷ 0x11 ∷ [])
unfolding clean_marker
marker = refl

abbrev room : SpacePlan
room = record { clean_blocks = 8; write_budget = 0x4000; filesystem_available = pos 0x10000 }

-- Eight clean blocks are counted, and there is room for one hook.
admitted : space_plan fixed (half ++ half) one_hook (pos 0x10000) ≡ ok room
unfolding space_plan clean_marker count_clean is_clean equal replicate budget_of payload_bytes
admitted = refl

space_plan-HasRoom_example : HasRoom fixed (half ++ half) one_hook (pos 0x10000) room
space_plan-HasRoom_example =
    space_plan-HasRoom fixed (half ++ half) one_hook (pos 0x10000) {plan = room} admitted
