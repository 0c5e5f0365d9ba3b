-- ===== src/Hid/Ensures.antt =====
-- What holds of the events of a computation that returns.
use cc2_camera_fix.Base.{◌≡◌, refl, List, [], ◌++◌, append-nil}
use cc2_camera_fix.Base.Result.{Result, Exn, ok, err}
use cc2_camera_fix.Hid.{Event, Outcome, done, lift, call, before, and_then, after}

pub data Ensures {S A : Type 0} (P : A → List Event → Type 0) : Outcome S A → Type 0 where
  returned : {a : A} {es : List Event} {s : S} → P a es → Ensures P (done (ok a) es s)
  raised : {e : Exn} {es : List Event} {s : S} → Ensures P (done (err e) es s)

module _ {S : Type 0} where
  pub Ensures-before :
      {A : Type 0} {P : A → List Event → Type 0} (es : List Event) (o : Outcome S A)
      → Ensures (λ a fs. P a (es ++ fs)) o
      → Ensures P (before es o)
  Ensures-before es (done (ok a) fs s) (returned p) = returned p
  Ensures-before es (done (err e) fs s) raised = raised

  -- A step, and what follows it.
  pub Ensures->>= :
      {A B : Type 0} {P : B → List Event → Type 0} (Q : A → List Event → Type 0) (m : Outcome S A)
      (f : A → S → Outcome S B)
      → Ensures Q m
      → ((a : A) (es : List Event) (s : S) → Q a es → Ensures (λ b fs. P b (es ++ fs)) (f a s))
      → Ensures P (and_then m f)
  Ensures->>= Q (done (ok a) es s) f (returned q) k = Ensures-before es (f a s) (k a es s q)
  Ensures->>= Q (done (err e) es s) f raised k = raised

  -- A step whose events are told by its value, and what follows it.
  pub Ensures-step :
      {A B : Type 0} {P : B → List Event → Type 0} (known : A → List Event) (m : Outcome S A)
      (f : A → S → Outcome S B)
      → Ensures (λ a es. es ≡ known a) m
      → ((a : A) (s : S) → Ensures (λ b fs. P b (known a ++ fs)) (f a s))
      → Ensures P (and_then m f)
  Ensures-step {P} known (done (ok a) es s) f (returned e) k =
      Ensures-before es (f a s) (rw e (k a s))
  Ensures-step known (done (err e) es s) f raised k = raised

  pub Ensures-lift :
      {A B : Type 0} {P : B → List Event → Type 0} (r : Result A) (f : A → S → Outcome S B) (s : S)
      → ((a : A) → r ≡ ok a → Ensures P (f a s))
      → Ensures P (and_then (lift r s) f)
  Ensures-lift (ok a) f s k = Ensures-before [] (f a s) (k a refl)
  Ensures-lift (err e) f s k = raised

  pub Ensures-call : {A : Type 0} (r : Result A) (s : S) → Ensures (λ a es. es ≡ []) (done r [] s)
  Ensures-call (ok a) s = returned refl
  Ensures-call (err e) s = raised

  -- An exit that writes nothing keeps what holds.
  pub Ensures-after :
      {A : Type 0} {P : A → List Event → Type 0} (m : Outcome S A) (k : S → Result (Unit {0}) × S)
      → Ensures P m
      → Ensures P (after m (call k))
  Ensures-after (done r es s) k h = exited r (k s) h
    where
      exited :
          {A : Type 0} {P : A → List Event → Type 0} {es : List Event} {s : S} (r : Result A)
          (e : Result (Unit {0}) × S)
          → Ensures P (done r es s)
          → Ensures P (before es (and_then (done e.0 [] e.1) (λ _ u. done r [] u)))
      exited (ok a) (ok u, v) (returned p) = returned (rw (append-nil _) p)
      exited (err x) (ok u, v) raised = raised
      exited r (err x, v) h = raised

  pub Ensures-done :
      {A : Type 0} {P : A → List Event → Type 0} {o : Outcome S A} {a : A} {es : List Event} {s : S}
      → Ensures P o
      → o ≡ done (ok a) es s
      → P a es
  Ensures-done {a} {es} (returned {a = b} {es = fs} p) h =
      let ea : b ≡ a = cc in let ee : fs ≡ es = cc in rw (← ea, ← ee) p
  Ensures-done raised h = cc

  pub Ensures-map :
      {A : Type 0} {P Q : A → List Event → Type 0} {o : Outcome S A}
      → ((a : A) (es : List Event) → P a es → Q a es)
      → Ensures P o
      → Ensures Q o
  Ensures-map f (returned p) = returned (f _ _ p)
  Ensures-map f raised = raised
