-- ===== src/Image/Jffs2/Total.antt =====
-- The scan never raises, and what it finds lies in the partition.
use cc2_camera_fix.Base.{
  ℕ, zero, suc, ◌+◌, ◌-◌, ◌*◌, ◌/◌, ◌%◌, ◌≤◌, ◌<◌, ◌≡◌, refl, arith, bit_and, Bool, true, false,
  not, ◌&&◌, ◌||◌, ◌⊎◌, inl, inr, Option, none, some, List,
}
use cc2_camera_fix.Base.Tests.{ltb, ◌==◌, if◌then◌else◌}
use cc2_camera_fix.Base.Lists.{All, length, take, drop, length-drop}
use cc2_camera_fix.Base.Result.{Result, ok, err}
use cc2_camera_fix.Base.Bytes.{Bytes, IsBytes, IsBytes-drop}
use cc2_camera_fix.Base.Returns.{
  Returns, returned, Returns->>=, Returns-if, Returns-ok, Returns-unpack_u32, Returns-unpack_u16,
}
use cc2_camera_fix.Image.Jffs2.{
  Kind, Node, is_obsolete, made, checked_node_at, node_at, prepend, parse_from, turn_count,
  parse_jffs2, jffs2_magic, jffs2_node_accurate,
}
use cc2_camera_fix.Image.Jffs2.Kinds.{Returns-slice, Returns-kind_at}

-- A node of the partition: at a multiple of four, whole, and either current or obsolete.
pub record IsFound (size : ℕ) (node : Node) : Type 0 where
  pub aligned : node.offset % 4 ≡ 0
  pub has_header : 12 ≤ node.total_length
  pub inside : node.offset + node.total_length ≤ size
  pub one_state :
      ((node.current ≡ true) × (node.obsolete ≡ false))
      ⊎ ((node.current ≡ false) × (node.obsolete ≡ true))

le_minus : (k n m : ℕ) → k + n ≤ m → n ≤ m - k
le_minus k n m h = omega arith

module _ (crc : Bytes → ℕ) where
  -- What a turn finds at `offset`, if it finds a node at all.
  unfoldable IsFoundAt : ℕ → ℕ → Option Node → Type 0
  IsFoundAt size offset none = Unit {0}
  IsFoundAt size offset (some node) = (node.offset ≡ offset) × IsFound size node

  made-IsFoundAt :
      (size offset node_type total_length : ℕ) (current obsolete : Bool) (kind : Option Kind)
      → offset % 4 ≡ 0
      → 12 ≤ total_length
      → offset + total_length ≤ size
      → ((current ≡ true) × (obsolete ≡ false)) ⊎ ((current ≡ false) × (obsolete ≡ true))
      → IsFoundAt size offset (made crc offset node_type total_length current obsolete kind)
  unfolding IsFoundAt
  made-IsFoundAt size offset node_type total_length current obsolete none ha hl hi hs = tt
  made-IsFoundAt size offset node_type total_length current obsolete (some kind) ha hl hi hs =
      (refl, record { aligned = ha; has_header = hl; inside = hi; one_state = hs })

  obsolete-Returns :
      (current old : Bool) (m : Result Bool)
      → Returns (λ _. Unit {0}) m
      → Returns (λ o. current ≡ true → o ≡ false) (if not current && old then m else ok false)
  obsolete-Returns true old m returns = returned (λ _. refl)
  obsolete-Returns false true (ok o) returns = returned (λ h. cc)
  obsolete-Returns false true (err _) returns = elim returns [ ]
  obsolete-Returns false false m returns = returned (λ _. refl)

  Returns-is_obsolete :
      (header : Bytes) (node_type stored_header_crc : ℕ)
      → node_type < 65536
      → Returns (λ o. Unit {0}) (is_obsolete crc header node_type stored_header_crc)
  unfolding is_obsolete
  Returns-is_obsolete header node_type stored_header_crc ht =
      Returns->>= _ _ (Returns-slice header node_type true ht) (λ _ _. returned tt)

  one-state :
      (current obsolete : Bool)
      → (current ≡ true → obsolete ≡ false)
      → (current || obsolete) ≡ true
      → ((current ≡ true) × (obsolete ≡ false)) ⊎ ((current ≡ false) × (obsolete ≡ true))
  one-state true obsolete h k = inl (refl, h refl)
  one-state false true h k = inr (refl, refl)
  one-state false false h k = cc

  Returns-checked_node_at :
      (size offset node_type total_length stored_header_crc : ℕ) (node : Bytes)
      → offset % 4 ≡ 0
      → 12 ≤ total_length
      → offset + total_length ≤ size
      → node_type < 65536
      → IsBytes node
      → total_length ≤ length node
      → Returns
          (IsFoundAt size offset)
          (checked_node_at crc node offset node_type total_length stored_header_crc)
  unfolding checked_node_at IsFoundAt
  Returns-checked_node_at size offset node_type total_length stored_header_crc node ha hl hi ht hb
        hn =
      let current = crc (take 8 node) == stored_header_crc in
      Returns->>= _ _
        (obsolete-Returns current (bit_and node_type jffs2_node_accurate == 0) _
          (Returns-is_obsolete (take 8 node) node_type stored_header_crc ht))
        (λ obsolete h.
          Returns-if (current || obsolete) _ _
            (λ found.
              Returns->>= _ _ (Returns-kind_at crc node node_type total_length obsolete ht hb hn)
                (λ kind _. returned (
                  made-IsFoundAt size offset node_type total_length current obsolete kind ha hl hi
                    (one-state current obsolete h found))))
            (λ _. returned tt))

  Returns-node_at :
      (partition : Bytes) (offset : ℕ)
      → IsBytes partition
      → offset % 4 ≡ 0
      → offset + 12 ≤ length partition
      → Returns (IsFoundAt (length partition) offset) (node_at crc partition offset)
  unfolding node_at IsFoundAt
  Returns-node_at partition offset hb ha h =
      let node = drop offset partition in
      Returns->>= _ _ (Returns-unpack_u16 node 0 (long 2 (omega arith)) bytes) (λ magic _.
        Returns->>= _ _ (Returns-unpack_u16 node 2 (long 4 (omega arith)) bytes) (λ node_type ht.
          Returns-if (not (magic == jffs2_magic)) _ _ (λ _. returned tt)
            (λ _.
              Returns->>= _ _ (Returns-unpack_u32 node 4 (long 8 (omega arith))) (λ total_length _.
                Returns->>= _ _ (Returns-unpack_u32 node 8 (long 12 (omega arith)))
                  (λ stored_header_crc _.
                    Returns-if
                      (ltb total_length 12 || ltb (length partition) (offset + total_length)) _ _
                      (λ _. returned tt)
                      (λ fits.
                        Returns-checked_node_at (length partition) offset node_type total_length
                          stored_header_crc node ha (fitting total_length fits).0
                          (fitting total_length fits).1 ht bytes
                          (rw (length-drop offset partition)
                            (le_minus offset total_length _ (fitting total_length fits).1))))))))
    where
      bytes : IsBytes (drop offset partition)
      bytes = IsBytes-drop offset partition hb

      long : (k : ℕ) → k ≤ 12 → k ≤ length (drop offset partition)
      long k hk = rw (length-drop offset partition) (omega arith)

      fitting :
          (n : ℕ)
          → (ltb n 12 || ltb (length partition) (offset + n)) ≡ false
          → (12 ≤ n) × (offset + n ≤ length partition)
      fitting n fits = ground arith

  Returns-parse_from :
      (turns offset : ℕ) (partition : Bytes)
      → IsBytes partition
      → offset % 4 ≡ 0
      → offset + 4 * turns + 8 ≤ length partition ⊎ (turns ≡ 0)
      → Returns (All (IsFound (length partition))) (parse_from crc turns offset partition)
  unfolding parse_from IsFoundAt
  Returns-parse_from zero offset partition hb ha h = returned tt
  Returns-parse_from (suc turns) offset partition hb ha h =
      Returns->>= _ _ (Returns-node_at partition offset hb ha (ground arith)) (λ found at.
        Returns->>= _ _
          (Returns-parse_from turns (offset + 4) partition hb (omega arith) (inl (ground arith)))
          (λ nodes all. returned (prepended found nodes at all)))
    where
      prepended :
          (found : Option Node) (nodes : List Node)
          → IsFoundAt (length partition) offset found
          → All (IsFound (length partition)) nodes
          → All (IsFound (length partition)) (prepend crc found nodes)
      prepended none nodes at all = all
      prepended (some node) nodes (_, found) all = (found, all)

  -- The scan of a partition of bytes raises nothing. Every node of the result starts at a multiple of
  -- four, has its header and all of its length inside the partition, and is either current or obsolete.
  pub parse_jffs2_total :
      (partition : Bytes)
      → IsBytes partition
      → (nodes : List Node) × (parse_jffs2 crc partition ≡ ok nodes)
        × All (IsFound (length partition)) nodes
  unfolding parse_jffs2 turn_count
  parse_jffs2_total partition hb = Returns-ok (
      Returns-parse_from (turn_count crc (length partition)) 0 partition hb refl
        (enough (length partition) _ refl))
    where
      enough :
          (size turns : ℕ) → turns ≡ (size - 11 + 3) / 4 → (0 + 4 * turns + 8 ≤ size) ⊎ (turns ≡ 0)
      enough size turns h = ground arith
