-- ===== src/Image/Info/Unique.antt =====
-- When no live serial number is left, all that the partition still holds agree.
use cc2_camera_fix.Base.{
  ◌≡◌, refl, sym, ap, ◌∙◌, Bool, true, false, Option, none, some, List, [], ◌∷◌, map, ◌⊎◌, inl, inr,
}
use cc2_camera_fix.Base.Tests.{if◌then◌else◌}
use cc2_camera_fix.Base.Result.{ok, ok_injective}
use cc2_camera_fix.Base.Bytes.{Bytes, equal, equal_iff, or-cases}
use mathlib.Core.List.{Memᴰ}
use mathlib.Core.List.Memᴰ
use mathlib.Core.List.Memᴰ.{head, tail}
use cc2_camera_fix.Image.Order.{filter, any}
use cc2_camera_fix.Image.Jffs2.{Inode, Node}
use cc2_camera_fix.Image.Info.{
  inodes, is_serial_inode, distinct, historical, SerialSource, live_current,
  unique_historical_fallback, only, recovered_serial,
}

kept :
    {A : Type 0} {x y : A} (rest : List A)
    → x ≡ y
    → (t : Bool) → t ≡ true
    → Memᴰ x (if t then y ∷ rest else rest)
kept rest e true h = head e
kept rest e false h = cc

later :
    {A : Type 0} {x : A} (y : A) (rest : List A) (t : Bool)
    → Memᴰ x rest
    → Memᴰ x (if t then y ∷ rest else rest)
later y rest true m = tail m
later y rest false m = m

filter-Mem_back :
    {A : Type 0} (test : A → Bool) (xs : List A) {x : A}
    → Memᴰ x xs
    → test x ≡ true
    → Memᴰ x (filter test xs)
unfolding filter
filter-Mem_back test [] m t = elim m [ ]
filter-Mem_back test (y ∷ ys) (head e) t = kept (filter test ys) e (test y) (ap test (sym e) ∙ t)
filter-Mem_back test (y ∷ ys) (tail m) t =
    later y (filter test ys) (test y) (filter-Mem_back test ys m t)

any-Mem : (y : Bytes) (ys : List Bytes) → any (equal y) ys ≡ true → Memᴰ y ys
unfolding any
any-Mem y [] h = cc
any-Mem y (z ∷ zs) h = elim (or-cases (equal y z) (any (equal y) zs) h) [
  | inl e ↦ head ((equal_iff y z).0 e)
  | inr m ↦ tail (any-Mem y zs m)
]

distinct_back :
    (known : Bool) (y : Bytes) (rest : List Bytes) {x : Bytes}
    → (known ≡ true → Memᴰ y rest)
    → (x ≡ y) ⊎ Memᴰ x rest
    → Memᴰ x (if known then rest else y ∷ rest)
distinct_back true y rest h (inl e) = Memᴰ.cast e (h refl)
distinct_back true y rest h (inr m) = m
distinct_back false y rest h (inl e) = head e
distinct_back false y rest h (inr m) = tail m

distinct-Mem_back : (xs : List Bytes) {x : Bytes} → Memᴰ x xs → Memᴰ x (distinct xs)
unfolding distinct
distinct-Mem_back [] m = elim m [ ]
distinct-Mem_back (y ∷ ys) (head e) =
    distinct_back (any (equal y) ys) y (distinct ys) (λ k. distinct-Mem_back ys (any-Mem y ys k))
      (inl e)
distinct-Mem_back (y ∷ ys) (tail m) =
    distinct_back (any (equal y) ys) y (distinct ys) (λ k. distinct-Mem_back ys (any-Mem y ys k))
      (inr (distinct-Mem_back ys m))

payload-Mem_back :
    (found : List Inode) {node : Inode}
    → Memᴰ node found
    → Memᴰ node.payload (map (λ n. n.payload) found)
payload-Mem_back [] m = elim m [ ]
payload-Mem_back (n ∷ found) (head e) = head (ap (λ (m : Inode). m.payload) e)
payload-Mem_back (n ∷ found) (tail m) = tail (payload-Mem_back found m)

only_unique :
    (payloads : List Bytes) {payload p : Bytes} {source : SerialSource}
    → only payloads ≡ ok (payload, source)
    → Memᴰ p payloads
    → p ≡ payload
only_unique (q ∷ []) h (head e) = e ∙ ap (λ r. r.0) (ok_injective h)
only_unique (q ∷ []) h (tail m) = elim m [ ]
only_unique [] h m = elim m [ ]
only_unique (q ∷ r ∷ rest) h m = cc

not_live : {B : Type 0} → live_current ≡ unique_historical_fallback → B
not_live e = cc

pub recovered_serial_unique :
    (nodes : List Node) (live : Option Bytes) {payload : Bytes} {source : SerialSource}
    → recovered_serial nodes live ≡ ok (payload, source)
    → source ≡ unique_historical_fallback
    → (node : Inode) → Memᴰ node (inodes nodes)
    → is_serial_inode node ≡ true
    → node.payload ≡ payload
unfolding recovered_serial historical
recovered_serial_unique nodes (some p) h fallback node m t =
    not_live (ap (λ r. r.1) (ok_injective h) ∙ fallback)
recovered_serial_unique nodes none h fallback node m t =
    only_unique (distinct (map (λ n. n.payload) (filter is_serial_inode (inodes nodes)))) h (
      distinct-Mem_back _ (payload-Mem_back _ (filter-Mem_back is_serial_inode (inodes nodes) m t)))
