-- ===== src/Image/Info/Recovers.antt =====
-- The serial number that is read out of a config partition.
use cc2_camera_fix.Base.{
  ℕ, ◌≡◌, refl, sym, ap, ◌∙◌, Bool, true, false, not, ◌&&◌, ◌||◌, Option, none, some, List, [], ◌∷◌,
  map,
}
use cc2_camera_fix.Base.Tests.{if◌then◌else◌, ◌==◌, leb, ltb, and-true}
use cc2_camera_fix.Base.Lists.{length}
use cc2_camera_fix.Base.Result.{ok, ok_injective, no_nodes, unexpected_names}
use cc2_camera_fix.Base.Bytes.{Bytes, equal}
use cc2_camera_fix.Base.Text.{codes}
use cc2_camera_fix.Base.Returns.{WhenOk, when_ok, WhenOk->>=, WhenOk-validate, WhenOk-holds}
use mathlib.Core.List.{Memᴰ}
use mathlib.Core.List.Memᴰ.{head, tail}
use cc2_camera_fix.Image.Order.{filter, any, sort_by}
use cc2_camera_fix.Image.Order.Members.{filter-Mem, sort_by-Mem}
use cc2_camera_fix.Image.Jffs2.{Dirent, Inode, Node, Kind, parse_jffs2}
use cc2_camera_fix.Image.Live.{Decompressed, current_inodes}
use cc2_camera_fix.Image.Info.Unique.{recovered_serial_unique}
use cc2_camera_fix.Image.Info.{
  ConfigInfo, inodes, is_serial_inode, inode_candidates, newest_payload, newest_candidate,
  live_serial, distinct, historical, SerialSource, unique_historical_fallback, only,
  recovered_serial, get_live, extract_serial_and_config_info, valid_dirents, has_unexpected_name,
  current_dirents_of, live_files,
}

-- An inode node of the scan, with the checks of a whole `serial.cfg` passed, that holds the payload.
pub record IsSerialOf (nodes : List Node) (payload : Bytes) : Type 0 where
  pub node : Inode
  pub scanned : Memᴰ node (inodes nodes)
  pub complete : is_serial_inode node ≡ true
  pub holds : node.payload ≡ payload

one_more :
    (kind : Kind) (current : Bool) (earlier all : List Inode) {node : Inode}
    → (Memᴰ node earlier → Memᴰ node all)
    → Memᴰ node (elim kind [
      | Kind.inode found ↦ if current then found ∷ earlier else earlier
      | _ ↦ earlier
    ])
    → Memᴰ node (elim kind [ Kind.inode found ↦ found ∷ all | _ ↦ all ])
one_more (Kind.inode found) true earlier all h (head e) = head e
one_more (Kind.inode found) true earlier all h (tail m) = tail (h m)
one_more (Kind.inode found) false earlier all h m = tail (h m)
one_more (Kind.dirent found) current earlier all h m = h m
one_more Kind.cleanmarker current earlier all h m = h m
one_more (Kind.other n) current earlier all h m = h m

current_inodes-Mem :
    (nodes : List Node) {node : Inode} → Memᴰ node (current_inodes nodes) → Memᴰ node (inodes nodes)
unfolding current_inodes inodes
current_inodes-Mem [] m = elim m [ ]
current_inodes-Mem (node ∷ nodes) m =
    one_more node.kind node.current (current_inodes nodes) (inodes nodes) (current_inodes-Mem nodes)
      m

newest_payload-Mem :
    (candidates : List Inode) {payload : Bytes}
    → newest_payload candidates ≡ ok (some payload)
    → (node : Inode) × Memᴰ node candidates × (node.payload ≡ payload)
newest_payload-Mem [] h = cc
newest_payload-Mem (node ∷ []) h = (node, head refl, some_injective (ok_injective h))
  where
    some_injective : {a b : Bytes} → some a ≡ some b → a ≡ b
    some_injective e = cc
newest_payload-Mem (node ∷ other ∷ rest) h = cc

newest_candidate-Mem :
    (candidates : List Inode) {payload : Bytes}
    → newest_candidate candidates ≡ ok (some payload)
    → (node : Inode) × Memᴰ node candidates × (node.payload ≡ payload)
newest_candidate-Mem [] h = cc
newest_candidate-Mem (first ∷ rest) h =
    let newest = λ (item : Inode). item.version == first.version in
    let (node, m, e) = newest_payload-Mem (filter newest (first ∷ rest)) h in
    (node, (filter-Mem newest (first ∷ rest) m).0, e)

live_serial-IsSerialOf :
    (nodes : List Node) (entry : Option Dirent) {payload : Bytes}
    → live_serial nodes entry ≡ ok (some payload)
    → IsSerialOf nodes payload
unfolding live_serial inode_candidates
live_serial-IsSerialOf nodes none h = cc
live_serial-IsSerialOf nodes (some entry) h =
    let newer = λ (a b : Inode). leb b.version a.version in
    let serial = λ (node : Inode). node.inode == entry.inode && is_serial_inode node in
    let (node, m, e) =
      newest_candidate-Mem (sort_by newer (inode_candidates nodes entry.inode)) h in
    let (inside, t) =
      filter-Mem serial (current_inodes nodes)
        (sort_by-Mem newer (inode_candidates nodes entry.inode) m) in
    record {
      node = node;
      scanned = current_inodes-Mem nodes inside;
      complete = (and-true (node.inode == entry.inode) (is_serial_inode node) t).1;
      holds = e;
    }

distinct_one :
    (known : Bool) (y : Bytes) (rest ys : List Bytes) {x : Bytes}
    → (Memᴰ x rest → Memᴰ x ys)
    → Memᴰ x (if known then rest else y ∷ rest)
    → Memᴰ x (y ∷ ys)
distinct_one true y rest ys h m = tail (h m)
distinct_one false y rest ys h (head e) = head e
distinct_one false y rest ys h (tail m) = tail (h m)

distinct-Mem : (xs : List Bytes) {x : Bytes} → Memᴰ x (distinct xs) → Memᴰ x xs
unfolding distinct
distinct-Mem [] m = m
distinct-Mem (y ∷ ys) m = distinct_one (any (equal y) ys) y (distinct ys) ys (distinct-Mem ys) m

payload-Mem :
    (found : List Inode) {payload : Bytes}
    → Memᴰ payload (map (λ node. node.payload) found)
    → (node : Inode) × Memᴰ node found × (node.payload ≡ payload)
payload-Mem [] m = elim m [ ]
payload-Mem (node ∷ found) (head e) = (node, head refl, sym e)
payload-Mem (node ∷ found) (tail m) =
    let (n, inside, e) = payload-Mem found m in (n, tail inside, e)

only-Mem :
    (payloads : List Bytes) {payload : Bytes} {source : SerialSource}
    → only payloads ≡ ok (payload, source)
    → Memᴰ payload payloads
only-Mem [] h = cc
only-Mem (p ∷ []) h = head (ap (λ r. r.0) (sym (ok_injective h)))
only-Mem (p ∷ q ∷ rest) h = cc

recovered_serial-IsSerialOf :
    (nodes : List Node) (live : Option Bytes) {payload : Bytes} {source : SerialSource}
    → ((p : Bytes) → live ≡ some p → IsSerialOf nodes p)
    → recovered_serial nodes live ≡ ok (payload, source)
    → IsSerialOf nodes payload
unfolding recovered_serial historical
recovered_serial-IsSerialOf nodes (some p) current h =
    current _ (ap some (ap (λ r. r.0) (ok_injective h)))
recovered_serial-IsSerialOf nodes none current h =
    let (node, m, e) =
      payload-Mem (filter is_serial_inode (inodes nodes)) (distinct-Mem _ (only-Mem _ h)) in
    let (inside, t) = filter-Mem is_serial_inode (inodes nodes) m in
    record { node = node; scanned = inside; complete = t; holds = e }

-- What the result says about the scan it comes from.
pub record IsRecovered (crc : Bytes → ℕ) (config : Bytes) (info : ConfigInfo) : Type 0 where
  pub scanned : parse_jffs2 crc config ≡ ok info.nodes
  pub from_node : IsSerialOf info.nodes info.serial_payload
  pub unique :
      info.serial_source ≡ unique_historical_fallback
      → (node : Inode) → Memᴰ node (inodes info.nodes)
      → is_serial_inode node ≡ true
      → node.payload ≡ info.serial_payload

module _ (crc : Bytes → ℕ) (decompress : Bytes → ℕ → Option Decompressed) where
  extracted :
      (config : Bytes) (allow preserve : Bool)
      → WhenOk
          (IsRecovered crc config)
          (extract_serial_and_config_info crc decompress config allow preserve)
  unfolding extract_serial_and_config_info
  extracted config allow preserve = WhenOk->>= (parse_jffs2 crc config) _ (λ nodes hn.
      WhenOk-validate (ltb 0 (length nodes)) no_nodes _ (λ _.
        WhenOk-validate (not (has_unexpected_name (valid_dirents nodes)) || allow) unexpected_names
          _
          (λ _. WhenOk->>= (current_dirents_of (valid_dirents nodes) []) _ (λ current_dirents _.
            WhenOk->>= (live_serial nodes (get_live (codes "serial.cfg") current_dirents)) _
              (λ live hl. WhenOk->>= (recovered_serial nodes live) _ (λ recovered hr.
                WhenOk->>= (live_files crc decompress preserve nodes current_dirents recovered.0) _
                  (λ files _. when_ok _ (record {
                    scanned = hn;
                    from_node =
                        recovered_serial-IsSerialOf nodes live
                          (λ p e. live_serial-IsSerialOf nodes _ (hl ∙ ap ok e)) hr;
                    unique = recovered_serial_unique nodes live hr;
                  }))))))))

  -- If a partition is read without an exception, its serial number comes from an inode node of the
  -- scan that has passed all checks of a whole `serial.cfg`; and if no live one was found, all nodes
  -- that pass the checks, the outdated ones included, hold the same serial number.
  pub extract_serial_and_config_info-IsRecovered :
      (config : Bytes) (allow_unknown_names preserve_live_files : Bool) (info : ConfigInfo)
      → extract_serial_and_config_info crc decompress config allow_unknown_names preserve_live_files
        ≡ ok info
      → IsRecovered crc config info
  extract_serial_and_config_info-IsRecovered config allow preserve info h =
      WhenOk-holds (extracted config allow preserve) h
