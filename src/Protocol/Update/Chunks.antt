-- ===== src/Protocol/Update/Chunks.antt =====
-- The data frames carry the blob: a receiver that takes them in order gets it back.
use cc2_camera_fix.Base.{
  ℕ, zero, suc, ◌+◌, ◌-◌, ◌*◌, ◌/◌, ◌≤◌, ◌<◌, false, ◌&&◌, List, [], ◌∷◌, ◌++◌, ◌≡◌, refl, sym, ap,
  ◌∙◌, arith, append-nil,
}
use cc2_camera_fix.Base.Tests.{◌==◌, ==_iff, lt→ltb}
use cc2_camera_fix.Base.Lists.{length, take, drop, slice, length-take, take_all, take-add, drop-add}
use cc2_camera_fix.Base.Int.{pos}
use cc2_camera_fix.Base.Result.{Result, ok, guard, ◌>>=◌, ◌>>◌, bad_boot_magic}
use cc2_camera_fix.Base.Bytes.{Bytes, le32, unpack_u32, le32-value}
use cc2_camera_fix.Protocol.Boot.{parse_boot_frame, boot_data_size}
use cc2_camera_fix.Protocol.Boot.Layout.{sealed, build-sealed}
use cc2_camera_fix.Protocol.Boot.RoundTrip.{parse-sealed, frame_of}
use cc2_camera_fix.Protocol.Update.{data_frame, data_frames_from, iter_data_frames, range_length}

-- A receiver of data frames: it takes a frame of type 3 with the sequence number that it expects,
-- and appends what stands behind that number.
pub receive : ℕ → List (ℕ × Result Bytes) → Result Bytes
receive expected [] = ok []
receive expected ((sequence, sent) ∷ frames) = do
  frame ← sent
  parsed ← parse_boot_frame frame false
  number ← unpack_u32 parsed.payload 0
  guard (parsed.frame_type == 3 && (number == expected && sequence == expected)) bad_boot_magic
  rest ← receive (expected + 1) frames
  ok (drop 4 parsed.payload ++ rest)

abbrev chunk : Bytes → ℕ → Bytes
chunk blob n = slice (n * boot_data_size) (n * boot_data_size + boot_data_size) blob

abbrev data_payload : Bytes → ℕ → Bytes
data_payload blob n = le32 n ++ chunk blob n

length-chunk : (blob : Bytes) (n : ℕ) → length (chunk blob n) ≤ 3060
length-chunk blob n = omega (arith, length-take (n * 3060 + 3060 - n * 3060) (drop (n * 3060) blob))

data_frame-sealed :
    (blob : Bytes) (n : ℕ)
    → n < 4294967296
    → data_frame blob n ≡ ok (sealed 0x80 3 (data_payload blob n))
unfolding data_frame
data_frame-sealed blob n h =
    rw (lt→ltb n 4294967296 h)
      (build-sealed (pos 3) (data_payload blob n) (omega (arith, length-chunk blob n)))

parse-data_frame :
    (blob : Bytes) (n : ℕ)
    → parse_boot_frame (sealed 0x80 3 (data_payload blob n)) false
      ≡ ok (frame_of 3 (data_payload blob n))
parse-data_frame blob n =
    rw (← append-nil (sealed 0x80 3 (data_payload blob n)))
      (parse-sealed false 3 (data_payload blob n) [] (omega (arith, length-chunk blob n)))

-- One step of the receiver on a frame that was built.
receive_step :
    (blob : Bytes) (n : ℕ) (frames : List (ℕ × Result Bytes))
    → n < 4294967296
    → receive n ((n, data_frame blob n) ∷ frames)
      ≡ (receive (n + 1) frames >>= λ rest. ok (chunk blob n ++ rest))
unfolding receive
receive_step blob n frames h =
    rw (data_frame-sealed blob n h, parse-data_frame blob n, le32-value n h, (==_iff n n).1 refl)

-- The receiver gets `rounds` chunks, from the one that it expects.
receive_from :
    (rounds n : ℕ) (blob : Bytes)
    → n + rounds ≤ 4294967296
    → receive n (data_frames_from rounds n blob) ≡ ok (take (rounds * 3060) (drop (n * 3060) blob))
unfolding data_frames_from
receive_from zero n blob h = unfold receive in refl
receive_from (suc rounds) n blob h =
    receive_step blob n (data_frames_from rounds (n + 1) blob) (omega arith)
    ∙ rw (receive_from rounds (n + 1) blob (omega arith)) (ap ok (join rounds n blob))
  where
    join :
        (rounds n : ℕ) (blob : Bytes)
        → chunk blob n ++ take (rounds * 3060) (drop ((n + 1) * 3060) blob)
          ≡ take (suc rounds * 3060) (drop (n * 3060) blob)
    join rounds n blob =
        let a : n * 3060 + 3060 - n * 3060 ≡ 3060 = omega arith in
        let b : (n + 1) * 3060 ≡ n * 3060 + 3060 = omega arith in
        let c : suc rounds * 3060 ≡ 3060 + rounds * 3060 = omega arith in
        rw (a, b, c, drop-add (n * 3060) 3060 blob)
          (sym (take-add 3060 (rounds * 3060) (drop (n * 3060) blob)))

enough_rounds : (n : ℕ) → n ≤ (n + 3060 - 1) / 3060 * 3060
enough_rounds n = omega arith

-- Of a blob below 2 ^ 32 bytes every data frame is built, and a receiver that takes the frames in
-- order, and checks each frame, its type and its sequence number, gets exactly the blob.
pub receive-iter_data_frames :
    (blob : Bytes) → length blob < 4294967296 → receive 0 (iter_data_frames blob) ≡ ok blob
unfolding iter_data_frames
receive-iter_data_frames blob h =
    receive_from (range_length (length blob) 3060) 0 blob (omega arith)
    ∙ ap ok (take_all (range_length (length blob) 3060 * 3060) blob (enough_rounds (length blob)))
