-- ===== src/Hid/Sends.antt =====
-- What a computation writes to the device, in order, however the device behaves.
use cc2_camera_fix.Base.{◌+◌, ◌≡◌, ◌⊎◌, refl, ap, ◌∙◌, List, [], ◌∷◌, ◌++◌, append-nil}
use cc2_camera_fix.Base.Result.{Result, Exn, ok, err}
use cc2_camera_fix.Base.Lists.{length}
use cc2_camera_fix.Base.Int.{ℤ, pos, negsuc}
use cc2_camera_fix.Base.Bytes.{Bytes}
use cc2_camera_fix.Hid.{Event, wrote, received, Outcome, done, lift, before, and_then, after}

-- The reports of the calls of `write`, the ones that raise or are short included.
abbrev pub writes : List Event → List Bytes
writes [] = []
writes (wrote report result ∷ es) = report ∷ writes es
writes (received timeout reply ∷ es) = writes es

-- The library took all bytes of the report, or all but the report ID.
abbrev pub IsWhole : Bytes → Result ℤ → Type 0
IsWhole report (ok (pos n)) = (n ≡ length report) ⊎ (n + 1 ≡ length report)
IsWhole report (ok (negsuc n)) = (n ≡ 0) × (length report ≡ 0)
IsWhole report (err e) = ⊥

abbrev pub AllWhole : List Event → Type 0
AllWhole [] = Unit {0}
AllWhole (wrote report result ∷ es) = IsWhole report result × AllWhole es
AllWhole (received timeout reply ∷ es) = AllWhole es

AllWhole-append : (es fs : List Event) → AllWhole es → AllWhole fs → AllWhole (es ++ fs)
AllWhole-append [] fs h k = k
AllWhole-append (wrote report result ∷ es) fs (w, h) k = (w, AllWhole-append es fs h k)
AllWhole-append (received timeout reply ∷ es) fs h k = AllWhole-append es fs h k

pub data IsPrefix {A : Type 0} : List A → List A → Type 0 where
  empty : {ys : List A} → IsPrefix [] ys
  next : {x : A} {xs ys : List A} → IsPrefix xs ys → IsPrefix (x ∷ xs) (x ∷ ys)

-- At most `reports` are passed to `write`, in this order, and all of them are written whole if the
-- computation succeeds.
pub data Sends {S A : Type 0} (reports : List Bytes) : Outcome S A → Type 0 where
  sent :
      {a : A} {es : List Event} {s : S}
      → writes es ≡ reports
      → AllWhole es
      → Sends reports (done (ok a) es s)
  failed :
      {e : Exn} {es : List Event} {s : S}
      → IsPrefix (writes es) reports
      → Sends reports (done (err e) es s)

pub writes-append : (es fs : List Event) → writes (es ++ fs) ≡ writes es ++ writes fs
writes-append [] fs = refl
writes-append (wrote report result ∷ es) fs = ap (λ l. report ∷ l) (writes-append es fs)
writes-append (received timeout reply ∷ es) fs = writes-append es fs

pub prefix-more :
    {A : Type 0} {xs ys : List A} (zs : List A) → IsPrefix xs ys → IsPrefix xs (ys ++ zs)
prefix-more zs empty = empty
prefix-more zs (next p) = next (prefix-more zs p)

prefix-append :
    {A : Type 0} {ys zs : List A} (xs : List A) → IsPrefix ys zs → IsPrefix (xs ++ ys) (xs ++ zs)
prefix-append [] p = p
prefix-append (x ∷ xs) p = next (prefix-append xs p)

pub prefix_refl : {A : Type 0} (xs : List A) → IsPrefix xs xs
prefix_refl [] = empty
prefix_refl (x ∷ xs) = next (prefix_refl xs)

prefix-nil : {A : Type 0} {xs : List A} → IsPrefix xs [] → xs ≡ []
prefix-nil empty = refl

silent : (es fs : List Event) → writes fs ≡ [] → writes (es ++ fs) ≡ writes es
silent es fs h = rw (writes-append es fs, h) (append-nil (writes es))

module _ {S : Type 0} where
  pub Sends-before :
      {A : Type 0} (es : List Event) {reports : List Bytes} (o : Outcome S A)
      → AllWhole es
      → Sends reports o
      → Sends (writes es ++ reports) (before es o)
  Sends-before es (done (ok a) fs s) w (sent h v) =
      sent (writes-append es fs ∙ ap (λ l. writes es ++ l) h) (AllWhole-append es fs w v)
  Sends-before es {reports} (done (err e) fs s) w (failed p) =
      failed (rw (writes-append es fs) (prefix-append (writes es) p))

  -- Sequencing appends what is sent.
  pub Sends->>= :
      {A B : Type 0} {reports more : List Bytes} (m : Outcome S A) (f : A → S → Outcome S B)
      → Sends reports m
      → ((a : A) (s : S) → Sends more (f a s))
      → Sends (reports ++ more) (and_then m f)
  Sends->>= {more} (done (ok a) es s) f (sent h w) k = rw (← h) (Sends-before es (f a s) w (k a s))
  Sends->>= {more} (done (err e) es s) f (failed p) k = failed (prefix-more more p)

  -- The rest of a computation that writes no more.
  pub Sends-then :
      {A B : Type 0} {reports : List Bytes} (m : Outcome S A) (f : A → S → Outcome S B)
      → Sends reports m
      → ((a : A) (s : S) → Sends [] (f a s))
      → Sends reports (and_then m f)
  Sends-then {reports} m f h k = rw (← append-nil reports) (Sends->>= m f h k)

  -- A result that is lifted and what follows when it succeeds.
  pub Sends-lift :
      {A B : Type 0} {reports : List Bytes} (r : Result A) (f : A → S → Outcome S B) (s : S)
      → ((a : A) → r ≡ ok a → Sends reports (f a s))
      → Sends reports (and_then (lift r s) f)
  Sends-lift (ok a) f s k = Sends-before [] (f a s) tt (k a refl)
  Sends-lift (err e) f s k = failed empty

  -- A call of the library that is no `write`.
  pub Sends-call : {A : Type 0} (r : Result A) (s : S) → Sends [] (done r [] s)
  Sends-call (ok a) s = sent refl tt
  Sends-call (err e) s = failed empty

  pub Sends-after :
      {A : Type 0} {reports : List Bytes} (m : Outcome S A) (k : S → Outcome S (Unit {0}))
      → Sends reports m
      → ((s : S) → Sends [] (k s))
      → Sends reports (after m k)
  Sends-after (done r es s) k h close = with_exit es r h (k s) (close s)
    where
      with_exit :
          {A : Type 0} {reports : List Bytes} {s : S} (es : List Event) (r : Result A)
          → Sends reports (done r es s)
          → (exit : Outcome S (Unit {0})) → Sends [] exit
          → Sends reports (before es (and_then exit (λ _ t. done r [] t)))
      with_exit es (ok a) (sent h w) (done (ok u) fs t) (sent c v) =
          sent (rw (append-nil fs) (silent es fs c) ∙ h)
            (rw (append-nil fs) (AllWhole-append es fs w v))
      with_exit es (err e) (failed p) (done (ok u) fs t) (sent c v) =
          failed (rw (append-nil fs, silent es fs c) p)
      with_exit es (ok a) (sent h w) (done (err e) fs t) (failed q) =
          failed (rw (silent es fs (prefix-nil q), h) (prefix_refl _))
      with_exit es (err e) (failed p) (done (err d) fs t) (failed q) =
          failed (rw (silent es fs (prefix-nil q)) p)

  abbrev pub events : {A : Type 0} → Outcome S A → List Event
  events (done r es s) = es

  -- What is written for sure, also by a computation that raises.
  pub writes-then :
      {A B : Type 0} {reports : List Bytes} (m : Outcome S A) (f : A → S → Outcome S B)
      → writes (events m) ≡ reports
      → ((a : A) (s : S) → Sends [] (f a s))
      → writes (events (and_then m f)) ≡ reports
  writes-then (done (ok a) es s) f h k = continued es (f a s) (k a s) ∙ h
    where
      continued :
          {B : Type 0} (es : List Event) (o : Outcome S B)
          → Sends [] o
          → writes (events (before es o)) ≡ writes es
      continued es (done (ok b) fs t) (sent c v) = silent es fs c
      continued es (done (err e) fs t) (failed p) = silent es fs (prefix-nil p)
  writes-then (done (err e) es s) f h k = h

  pub writes-lift :
      {A B : Type 0} {reports : List Bytes} (r : Result A) (f : A → S → Outcome S B) (s : S) {a : A}
      → r ≡ ok a
      → writes (events (f a s)) ≡ reports
      → writes (events (and_then (lift r s) f)) ≡ reports
  writes-lift r f s {a} h w = rw h (unchanged (f a s) ∙ w)
    where
      unchanged : {B : Type 0} (o : Outcome S B) → writes (events (before [] o)) ≡ writes (events o)
      unchanged (done x es t) = refl
