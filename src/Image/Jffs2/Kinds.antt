-- ===== src/Image/Jffs2/Kinds.antt =====
-- The fields of a node are read without an exception.
use cc2_camera_fix.Base.{
  ℕ, ◌+◌, ◌≤◌, ◌<◌, ◌≡◌, refl, arith, bit_and, bit_or, Bool, true, false, ◌&&◌,
}
use cc2_camera_fix.Base.Tests.{
  leb, ltb, ◌==◌, leb→le, lt→ltb, all_below, all_below_sound, and-true, ltb→lt,
}
use cc2_camera_fix.Base.Lists.{length, take}
use cc2_camera_fix.Base.Result.{Result, ◌>>=◌}
use cc2_camera_fix.Base.Bytes.{Bytes, IsBytes, unpack_u16, unpack_u32, byte_at}
use cc2_camera_fix.Base.Returns.{
  Returns, returned, Returns->>=, Returns-if, Returns-unpack_u32, Returns-unpack_u16,
  Returns-byte_at,
}
use cc2_camera_fix.Image.Jffs2.{
  restored_accurate_slice, dirent_at, inode_at, kind_at, jffs2_dirent, jffs2_inode,
  jffs2_cleanmarker,
}

accurate_table : all_below 65536 (λ n. ltb (bit_or n 0x2000) 65536) ≡ true
unfolding all_below
accurate_table = refl

accurate-lt : (n : ℕ) → n < 65536 → bit_or n 0x2000 < 65536
accurate-lt n h =
    ltb→lt _ 65536 (all_below_sound 65536 (λ m. ltb (bit_or m 0x2000) 65536) n h accurate_table)

pub Returns-slice :
    (raw : Bytes) (node_type : ℕ) (obsolete : Bool)
    → node_type < 65536
    → Returns (λ b. Unit {0}) (restored_accurate_slice raw node_type obsolete)
unfolding restored_accurate_slice
Returns-slice raw node_type false h = returned tt
Returns-slice raw node_type true h =
    rw (lt→ltb (bit_or node_type 0x2000) 65536 (accurate-lt node_type h)) (returned tt)

le_trans : {k n m : ℕ} → k ≤ n → n ≤ m → k ≤ m
le_trans h k = omega arith

-- A guard's second half, when the first held as well
long_enough : (t : Bool) (k n m : ℕ) → (t && leb k n) ≡ true → n ≤ m → k ≤ m
long_enough t k n m h inside = le_trans (leb→le k n (and-true t (leb k n) h).1) inside

module _ (crc : Bytes → ℕ) where
  -- A field is read, and what follows returns whatever it is.
  u32 :
      {B : Type 0} (node : Bytes) (k : ℕ) (f : ℕ → Result B)
      → k + 4 ≤ length node
      → ((n : ℕ) → Returns (λ _. Unit {0}) (f n))
      → Returns (λ _. Unit {0}) (unpack_u32 node k >>= f)
  u32 node k f h next = Returns->>= _ f (Returns-unpack_u32 node k h) (λ n _. next n)

  u16 :
      {B : Type 0} (node : Bytes) (k : ℕ) (f : ℕ → Result B)
      → IsBytes node
      → k + 2 ≤ length node
      → ((n : ℕ) → Returns (λ _. Unit {0}) (f n))
      → Returns (λ _. Unit {0}) (unpack_u16 node k >>= f)
  u16 node k f hb h next = Returns->>= _ f (Returns-unpack_u16 node k h hb) (λ n _. next n)

  u8 :
      {B : Type 0} (node : Bytes) (k : ℕ) (f : ℕ → Result B)
      → k < length node
      → ((n : ℕ) → Returns (λ _. Unit {0}) (f n))
      → Returns (λ _. Unit {0}) (byte_at node k >>= f)
  u8 node k f h next = Returns->>= _ f (Returns-byte_at node k h) (λ n _. next n)

  Returns-dirent_at :
      (node : Bytes) (node_type : ℕ) (obsolete : Bool)
      → node_type < 65536
      → 40 ≤ length node
      → Returns (λ k. Unit {0}) (dirent_at crc node node_type obsolete)
  unfolding dirent_at
  Returns-dirent_at node node_type obsolete ht h = u32 node 12 _ (omega arith) (λ _.
      u32 node 16 _ (omega arith) (λ _. u32 node 20 _ (omega arith) (λ _.
        u32 node 24 _ (omega arith) (λ _. u8 node 28 _ (omega arith) (λ _.
          u8 node 29 _ (omega arith) (λ _. u32 node 32 _ (omega arith) (λ _.
            u32 node 36 _ (omega arith) (λ _.
              Returns->>= _ _ (Returns-slice (take 32 node) node_type obsolete ht)
                (λ _ _. returned tt)))))))))

  Returns-inode_at :
      (node : Bytes) (node_type : ℕ) (obsolete : Bool)
      → node_type < 65536
      → IsBytes node
      → 68 ≤ length node
      → Returns (λ k. Unit {0}) (inode_at crc node node_type obsolete)
  unfolding inode_at
  Returns-inode_at node node_type obsolete ht hb h = u32 node 12 _ (omega arith) (λ _.
      u32 node 16 _ (omega arith) (λ _. u32 node 20 _ (omega arith) (λ _.
        u16 node 24 _ hb (omega arith) (λ _. u16 node 26 _ hb (omega arith) (λ _.
          u32 node 28 _ (omega arith) (λ _. u32 node 32 _ (omega arith) (λ _.
            u32 node 36 _ (omega arith) (λ _. u32 node 40 _ (omega arith) (λ _.
              u32 node 44 _ (omega arith) (λ _. u32 node 48 _ (omega arith) (λ _.
                u32 node 52 _ (omega arith) (λ _. u8 node 56 _ (omega arith) (λ _.
                  u8 node 57 _ (omega arith) (λ _. u16 node 58 _ hb (omega arith) (λ _.
                    u32 node 60 _ (omega arith) (λ _. u32 node 64 _ (omega arith) (λ _.
                      Returns->>= _ _ (Returns-slice (take 60 node) node_type obsolete ht)
                        (λ _ _. returned tt))))))))))))))))))

  pub Returns-kind_at :
      (node : Bytes) (node_type total_length : ℕ) (obsolete : Bool)
      → node_type < 65536
      → IsBytes node
      → total_length ≤ length node
      → Returns (λ k. Unit {0}) (kind_at crc node node_type total_length obsolete)
  unfolding kind_at
  Returns-kind_at node node_type total_length obsolete ht hb h =
      Returns-if (bit_and node_type 0x0FFF == jffs2_dirent && leb 40 total_length) _ _
        (λ long.
          Returns-dirent_at node node_type obsolete ht
            (long_enough _ 40 total_length (length node) long h))
        (λ _.
          Returns-if (bit_and node_type 0x0FFF == jffs2_inode && leb 68 total_length) _ _
            (λ long.
              Returns-inode_at node node_type obsolete ht hb
                (long_enough _ 68 total_length (length node) long h))
            (λ _.
              Returns-if (bit_and node_type 0x0FFF == jffs2_cleanmarker) _ _ (λ _. returned tt)
                (λ _. returned tt)))
