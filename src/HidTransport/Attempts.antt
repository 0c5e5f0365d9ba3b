-- ===== src/HidTransport/Attempts.antt =====
-- Exchanges that must be accepted before a last report is tried, as the start of ADB in
-- cc2camera/hid_transport.py makes them.
use cc2_camera_fix.Base.{ℕ, ◌≡◌, refl, sym, ◌∙◌, Bool, true, false, List, [], ◌∷◌, ◌++◌}
use cc2_camera_fix.Base.{append-nil, append_assoc}
use cc2_camera_fix.Base.Tests.{◌==◌, if◌then◌else◌}
use cc2_camera_fix.Base.Lists.{length}
use cc2_camera_fix.Base.Result
use cc2_camera_fix.Base.Result.{Result, Exn, ok, err, guard}
use cc2_camera_fix.Base.Bytes.{Bytes}
use cc2_camera_fix.Protocol.Normal.{NormalFrame}
use cc2_camera_fix.Hid.{Hid, Event, Outcome, done, lift, call, before, and_then, after}
use cc2_camera_fix.Hid.Sends.{
  Sends, failed, IsPrefix, empty, next, writes, writes-append, prefix-more, events,
}
use cc2_camera_fix.Hid.Ensures.{Ensures, returned}
use cc2_camera_fix.HidTransport.Exchange.{Sends-exchange_normal}
use cc2_camera_fix.HidTransport.Replies.{IsExchange, Ensures-exchange_normal}
use cc2_camera_fix.HidTransport.{catching, is_caught, exchange_normal, open_handle, with_handle}

-- Accepted exchanges, one for each request, in order.
pub data Exchanges : List Bytes → List Event → Type 0 where
  over : Exchanges [] []
  exchange :
      {request : Bytes} {requests : List Bytes} {es fs all : List Event}
      → IsExchange request es
      → Exchanges requests fs
      → all ≡ es ++ fs
      → Exchanges (request ∷ requests) all

-- Either the requests were all exchanged and accepted, and then the last report was passed to `write`
-- once, whatever came of it; or an exception was raised, and a first part of the requests was passed
-- to `write` and the last report was not.
pub data Attempts {S A : Type 0} (requests : List Bytes) (last : Bytes) : Outcome S A → Type 0 where
  tried :
      {r : Result A} {es : List Event} {s : S} (fs gs : List Event)
      → es ≡ fs ++ gs
      → Exchanges requests fs
      → writes gs ≡ last ∷ []
      → Attempts requests last (done r es s)
  stopped :
      {e : Exn} {es : List Event} {s : S}
      → IsPrefix (writes es) requests
      → Attempts requests last (done (err e) es s)

-- No report was passed to `write` and none was read.
data Silent {S A : Type 0} : Outcome S A → Type 0 where
  quiet : {r : Result A} {s : S} → Silent (done r [] s)

exchange-writes :
    {request : Bytes} {es : List Event} → IsExchange request es → writes es ≡ request ∷ []
exchange-writes x = let (result, e, whole) = x.taken in rw (x.events_are, e)

module _ {S : Type 0} where
  Silent-done : {A : Type 0} (r : Result A) (s : S) → Silent (done r [] s)
  Silent-done r s = quiet

  -- A request that is built before the device is opened
  pub Attempts-lift :
      {A B : Type 0} {last : Bytes} {requests : List Bytes} (r : Result A) (a : A)
      (f : A → S → Outcome S B) (s : S)
      → r ≡ ok a
      → Attempts requests last (f a s)
      → Attempts requests last (and_then (lift r s) f)
  Attempts-lift {B = B} {last} {requests} r a f s e h = rw e (unchanged (f a s) h)
    where
      unchanged :
          (o : Outcome S B) → Attempts requests last o → Attempts requests last (before [] o)
      unchanged (done r all t) (tried fs gs e xs w) = tried fs gs e xs w
      unchanged (done (err e) fs t) (stopped p) = stopped p

  Silent-then :
      {A B : Type 0} (m : Outcome S A) (f : A → S → Outcome S B)
      → Silent m
      → ((a : A) (s : S) → Silent (f a s))
      → Silent (and_then m f)
  Silent-then (done (ok a) es s) f quiet k = continued (f a s) (k a s)
    where
      continued : {B : Type 0} (o : Outcome S B) → Silent o → Silent (before [] o)
      continued (done r fs t) quiet = quiet
  Silent-then (done (err e) es s) f quiet k = quiet

  Attempts-then :
      {A B : Type 0} {request last : Bytes} {requests : List Bytes} (m : Outcome S A)
      (f : A → S → Outcome S B)
      → Sends (request ∷ []) m
      → Ensures (λ _ es. IsExchange request es) m
      → ((a : A) (s : S) → Attempts requests last (f a s))
      → Attempts (request ∷ requests) last (and_then m f)
  Attempts-then {request} {last} {requests} (done (ok a) es s) f h (returned x) k =
      continued (f a s) (k a s)
    where
      continued :
          {B : Type 0} (o : Outcome S B)
          → Attempts requests last o
          → Attempts (request ∷ requests) last (before es o)
      continued (done r all t) (tried fs gs e xs w) =
          tried (es ++ fs) gs (rw e (sym (append_assoc es fs gs))) (exchange x xs refl) w
      continued (done (err e) fs t) (stopped p) =
          stopped (rw (writes-append es fs, exchange-writes x) (next p))
  Attempts-then {requests} (done (err e) es s) f (failed p) h k = stopped (prefix-more requests p)

  Attempts-quiet :
      {A B : Type 0} {last : Bytes} {requests : List Bytes} (m : Outcome S A)
      (f : A → S → Outcome S B)
      → Silent m
      → ((a : A) (s : S) → Attempts requests last (f a s))
      → Attempts requests last (and_then m f)
  Attempts-quiet (done (ok a) es s) f quiet k = Attempts-lift (ok a) a f s refl (k a s)
  Attempts-quiet (done (err e) es s) f quiet k = stopped empty

  Attempts-after :
      {A : Type 0} {last : Bytes} {requests : List Bytes} (m : Outcome S A)
      (k : S → Result (Unit {0}) × S)
      → Attempts requests last m
      → Attempts requests last (after m (call k))
  Attempts-after {last} {requests} (done r es s) k h = exited r (k s) h
    where
      exited :
          {A : Type 0} (r : Result A) (e : Result (Unit {0}) × S)
          → Attempts requests last (done r es s)
          → Attempts requests last (before es (and_then (done e.0 [] e.1) (λ _ t. done r [] t)))
      exited r (ok u, t) (tried fs gs e xs w) = tried fs gs (append-nil es ∙ e) xs w
      exited r (err x, t) (tried fs gs e xs w) = tried fs gs (append-nil es ∙ e) xs w
      exited (err y) (ok u, t) (stopped p) = stopped (rw (append-nil es) p)
      exited (err y) (err x, t) (stopped p) = stopped (rw (append-nil es) p)

module _ {S D : Type 0} (hid : Hid S D) where
  Silent-open_handle : (vid pid : ℕ) (s : S) → Silent (open_handle hid vid pid s)
  unfolding open_handle
  Silent-open_handle vid pid s =
      Silent-then _ _ (Silent-done (guard hid.importable Result.hid_not_loaded) s) (λ _ t.
        Silent-then _ _ (Silent-done (hid.enumerate vid pid t).0 _) (λ found t1.
          Silent-then _ _ (Silent-done (guard (length found == 1) Result.hid_match_count) t1)
            (λ _ t2. Silent-then _ _ (Silent-done (hid.device t2).0 _) (λ opened t3.
              Silent-then _ _ (Silent-done (hid.open_path opened _ t3).0 _)
                (λ _ t4. Silent-done (ok opened) t4)))))

  pub Attempts-exchange :
      {last : Bytes} {requests : List Bytes} (handle : D) (request : Bytes) (s : S)
      (f : NormalFrame → S → Outcome S (Unit {0}))
      → ((a : NormalFrame) (t : S) → Attempts requests last (f a t))
      → Attempts (request ∷ requests) last (and_then (exchange_normal hid handle request 5000 s) f)
  Attempts-exchange handle request s f k =
      Attempts-then (exchange_normal hid handle request 5000 s) f
        (Sends-exchange_normal hid handle request 5000 s)
        (Ensures-exchange_normal hid handle request s) k

  pub Attempts-catching :
      (last : Bytes) (o : Outcome S NormalFrame)
      → writes (events o) ≡ last ∷ []
      → Attempts [] last (catching hid o)
  Attempts-catching last (done (ok frame) es t) w = tried [] es refl over w
  Attempts-catching last (done (err e) es t) w = caught (is_caught e)
    where
      caught :
          (c : Bool)
          → Attempts {A = Unit {0}} [] last (if c then done (ok tt) es t else done (err e) es t)
      caught true = tried [] es refl over w
      caught false = tried [] es refl over w

  pub Attempts-with_handle :
      {last : Bytes} {requests : List Bytes} (vid pid : ℕ) (body : D → S → Outcome S (Unit {0}))
      (s : S)
      → ((handle : D) (t : S) → Attempts requests last (body handle t))
      → Attempts requests last (with_handle hid vid pid body s)
  unfolding with_handle
  Attempts-with_handle vid pid body s h =
      Attempts-quiet _ _ (Silent-open_handle vid pid s)
        (λ handle t. Attempts-after (body handle t) (hid.close handle) (h handle t))
