-- ===== src/Adb/Calls.antt =====
-- Which runs of adb a computation makes, and in which order, whatever comes of them.
use cc2_camera_fix.Base.{◌≡◌, refl, sym, ap, ◌∙◌, List, [], ◌∷◌, ◌++◌, append_assoc}
use cc2_camera_fix.Base.Result.{Result, Exn, ok, err}
use cc2_camera_fix.Adb.{Call, Process, Entry, made, Run, ran, before, and_then}

abbrev pub calls_of : List Entry → List Call
calls_of [] = []
calls_of (made c p ∷ es) = c ∷ calls_of es

pub calls_of-append : (es fs : List Entry) → calls_of (es ++ fs) ≡ calls_of es ++ calls_of fs
calls_of-append [] fs = refl
calls_of-append (made c p ∷ es) fs = ap (λ l. c ∷ l) (calls_of-append es fs)

-- All calls of a script are made by a computation that returns, and its value passes `V`; the first
-- ones of a script are made by one that raises.
pub data Makes {S A : Type 0} (IsScript : List Call → Type 0) (V : A → Type 0)
    : Run S A → Type 0 where
  gave :
      {a : A} {es : List Entry} {s : S}
      → V a
      → IsScript (calls_of es)
      → Makes IsScript V (ran (ok a) es s)
  stopped :
      {es : List Entry} {s : S} {e : Exn} (rest : List Call)
      → IsScript (calls_of es ++ rest)
      → Makes IsScript V (ran (err e) es s)

abbrev pub Only : List Call → List Call → Type 0
Only script cs = cs ≡ script

-- One script after another
abbrev pub Then : (List Call → Type 0) → (List Call → Type 0) → List Call → Type 0
Then C D cs = (xs : List Call) × (ys : List Call) × C xs × D ys × (cs ≡ xs ++ ys)

abbrev pub Any : {A : Type 0} → A → Type 0
Any a = Unit {0}

-- One run of adb, whatever the result, and none
pub data Single {S A : Type 0} (c : Call) : Run S A → Type 0 where
  single : {r : Result A} {p : Process} {s : S} → Single c (ran r (made c p ∷ []) s)

pub data Quiet {S A : Type 0} : Run S A → Type 0 where
  quiet : {r : Result A} {s : S} → Quiet (ran r [] s)

module _ {S : Type 0} where
  pub Single-run :
      {A : Type 0} (c : Call) (p : Process) (r : Result A) (s : S)
      → Single c (ran r (made c p ∷ []) s)
  Single-run c p r s = single

  pub Quiet-lift : {A : Type 0} (r : Result A) (s : S) → Quiet (ran r [] s)
  Quiet-lift r s = quiet

  pub Quiet-then :
      {A B : Type 0} (m : Run S A) (f : A → S → Run S B)
      → Quiet m
      → ((a : A) (s : S) → Quiet (f a s))
      → Quiet (and_then m f)
  Quiet-then (ran (ok a) es s) f quiet k = unchanged (f a s) (k a s)
    where
      unchanged : {B : Type 0} (o : Run S B) → Quiet o → Quiet (before [] o)
      unchanged (ran r fs t) quiet = quiet
  Quiet-then (ran (err e) es s) f quiet k = quiet

  pub Single-then :
      {A B : Type 0} {c : Call} (m : Run S A) (f : A → S → Run S B)
      → Single c m
      → ((a : A) (s : S) → Quiet (f a s))
      → Single c (and_then m f)
  Single-then {c} (ran (ok a) es s) f (single {p}) k = extended (f a s) (k a s)
    where
      extended : {B : Type 0} (o : Run S B) → Quiet o → Single c (before (made c p ∷ []) o)
      extended (ran r fs t) quiet = single
  Single-then (ran (err e) es s) f single k = single

  pub Makes-Single :
      {A : Type 0} {c : Call} (o : Run S A) → Single c o → Makes (Only (c ∷ [])) Any o
  Makes-Single (ran (ok a) es s) single = gave tt refl
  Makes-Single (ran (err e) es s) single = stopped [] refl

  pub Makes-none :
      {A : Type 0} {V : A → Type 0} (r : Result A) (s : S)
      → ((a : A) → r ≡ ok a → V a)
      → Makes (Only []) V (ran r [] s)
  Makes-none (ok a) s v = gave (v a refl) refl
  Makes-none (err e) s v = stopped [] refl

  pub Makes->>= :
      {A B : Type 0} {C D : List Call → Type 0} {V : A → Type 0} {W : B → Type 0} (m : Run S A)
      (f : A → S → Run S B)
      → Makes C V m
      → (ys : List Call) × D ys
      → ((a : A) (s : S) → V a → Makes D W (f a s))
      → Makes (Then C D) W (and_then m f)
  Makes->>= {B = B} {C} {D} {W = W} (ran (ok a) es s) f (gave v c) some_rest k =
      sequenced (f a s) (k a s v)
    where
      sequenced : (o : Run S B) → Makes D W o → Makes (Then C D) W (before es o)
      sequenced (ran (ok b) fs t) (gave w d) =
          gave w (calls_of es, calls_of fs, c, d, calls_of-append es fs)
      sequenced (ran (err x) fs t) (stopped rest d) = stopped rest (
        calls_of es,
        calls_of fs ++ rest,
        c,
        d,
        ap (λ l. l ++ rest) (calls_of-append es fs) ∙ append_assoc (calls_of es) (calls_of fs) rest,
      )
  Makes->>= (ran (err x) es s) f (stopped rest c) (ys, d) k =
      stopped (rest ++ ys) (calls_of es ++ rest, ys, c, d, sym (append_assoc (calls_of es) rest ys))

  -- A computation that makes no calls, with what is known of its value, and what follows it
  pub Makes-lift :
      {A B : Type 0} {C : List Call → Type 0} {W : B → Type 0} (r : Result A) (f : A → S → Run S B)
      (s : S)
      → (ys : List Call) × C ys
      → ((a : A) → r ≡ ok a → Makes C W (f a s))
      → Makes C W (and_then (ran r [] s) f)
  Makes-lift {B = B} {C} {W} (ok a) f s some_script k = unchanged (f a s) (k a refl)
    where
      unchanged : (o : Run S B) → Makes C W o → Makes C W (before [] o)
      unchanged (ran (ok b) fs t) (gave w c) = gave w c
      unchanged (ran (err x) fs t) (stopped rest c) = stopped rest c
  Makes-lift (err e) f s (ys, c) k = stopped ys c

  pub Makes-map :
      {A : Type 0} {C D : List Call → Type 0} {V W : A → Type 0} {o : Run S A}
      → ((cs : List Call) → C cs → D cs)
      → ((a : A) → V a → W a)
      → Makes C V o
      → Makes D W o
  Makes-map f g (gave v c) = gave (g _ v) (f _ c)
  Makes-map f g (stopped rest c) = stopped rest (f _ c)
