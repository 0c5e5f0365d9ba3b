-- ===== src/HidTransport/Wait.antt =====
-- The wait for a device: it ends, and it finds a device that comes in time.
use cc2_camera_fix.Base.{
  ℕ, zero, suc, ◌+◌, ◌*◌, ◌≤◌, ◌<◌, ◌≡◌, arith, Bool, true, false, Option, some, List, [], ◌∷◌, inl,
  inr,
}
use cc2_camera_fix.Base.Tests.{ltb, ltb→lt, if-cases, Bool-cases}
use cc2_camera_fix.Base.Result
use cc2_camera_fix.Base.Result.{Result, Exn, ok, err, guard, protocol_error}
use cc2_camera_fix.Hid.{Hid, DeviceInfo, Event, Outcome, done, lift, before, and_then}
use cc2_camera_fix.HidTransport.{wait_loop, wait_for_hid, polled}

-- The clock, in milliseconds, never goes back, and a sleep takes no less than it was asked for.
pub record IsClock {S D : Type 0} (hid : Hid S D) (clock : S → ℕ) : Type 0 where
  pub reads : (s : S) → (hid.monotonic s).0 ≡ clock s
  pub keeps : (s : S) → clock s ≤ clock (hid.monotonic s).1
  pub enumerates : (vid pid : ℕ) (s : S) → clock s ≤ clock (hid.enumerate vid pid s).1
  pub sleeps : (time : ℕ) (s : S) → clock s + time ≤ clock (hid.sleep time s)

-- A library that raises nothing, and a device that is there from the time `arrival` on. Reading the
-- clock, looking for the device and sleeping take at most `turn` together.
pub record IsPresent {S D : Type 0} (hid : Hid S D) (clock : S → ℕ) (vid pid arrival turn : ℕ)
    : Type 0 where
  pub importable : hid.importable ≡ true
  pub quiet : (s : S) → (items : List DeviceInfo) × ((hid.enumerate vid pid s).0 ≡ ok items)
  pub present :
      (s : S)
      → arrival ≤ clock s
      → (item : DeviceInfo) × (items : List DeviceInfo) × ((hid.enumerate vid pid s).0
          ≡ ok (item ∷ items))
  pub short_turn :
      (s : S) → clock (hid.sleep 500 (hid.enumerate vid pid (hid.monotonic s).1).1) ≤ clock s + turn
  pub short_read : (s : S) → clock (hid.monotonic s).1 ≤ clock s + turn

-- The loop has returned.
pub data HasFound {S : Type 0} : Option (Outcome S (Unit {0})) → Type 0 where
  found : {es : List Event} {s : S} → HasFound (some (done (ok tt) es s))

module _ {S D : Type 0} (hid : Hid S D) (clock : S → ℕ) (is_clock : IsClock hid clock)
    (vid pid arrival turn : ℕ) (is_present : IsPresent hid clock vid pid arrival turn) where
  polled_empty :
      (r : Result (List DeviceInfo)) (u : S) (again : S → Option (Outcome S (Unit {0})))
      → (items : List DeviceInfo) × (r ≡ ok items)
      → HasFound (again u)
      → HasFound (polled hid (before [] (done r [] u)) again)
  polled_empty (ok []) u again e next = next
  polled_empty (ok (item ∷ items)) u again e next = found
  polled_empty (err x) u again (items, e) next = cc

  polled_present :
      (r : Result (List DeviceInfo)) (u : S) (again : S → Option (Outcome S (Unit {0})))
      → (item : DeviceInfo) × (items : List DeviceInfo) × (r ≡ ok (item ∷ items))
      → HasFound (polled hid (before [] (done r [] u)) again)
  polled_present (ok []) u again (item, items, e) = cc
  polled_present (ok (item ∷ items)) u again e = found
  polled_present (err x) u again (item, items, e) = cc

  -- A turn in which the library can be loaded
  loaded-HasFound :
      (loaded : Bool) (look : S → Result (List DeviceInfo) × S) (t : S)
      (again : S → Option (Outcome S (Unit {0})))
      → loaded ≡ true
      → HasFound (polled hid (before [] (done (look t).0 [] (look t).1)) again)
      → HasFound (
          polled hid
            (and_then
              (lift (guard loaded Result.hid_not_loaded) t)
              (λ _ v. done (look v).0 [] (look v).1))
            again)
  loaded-HasFound true look t again h next = next
  loaded-HasFound false look t again h next = cc

  wait_loop-HasFound :
      (fuel deadline : ℕ) (s : S)
      → arrival + turn ≤ deadline
      → clock s < deadline
      → deadline ≤ clock s + 500 * fuel
      → HasFound (wait_loop hid fuel vid pid deadline s)
  unfolding wait_loop
  wait_loop-HasFound zero deadline s in_time early enough = absurd (omega arith)
  wait_loop-HasFound (suc fuel) deadline s in_time early enough =
      let now = (hid.monotonic s).0 in
      let t = (hid.monotonic s).1 in
      let u = (hid.enumerate vid pid t).1 in
      let again = λ (v : S). wait_loop hid fuel vid pid deadline (hid.sleep 500 v) in
      if-cases HasFound (ltb now deadline)
        (λ _.
          loaded-HasFound hid.importable (hid.enumerate vid pid) t again is_present.importable
            (elim (Bool-cases (ltb (clock t) arrival)) [
              | inl before_arrival ↦
                  polled_empty (hid.enumerate vid pid t).0 u again (is_present.quiet t) (
                    wait_loop-HasFound fuel deadline (hid.sleep 500 u) in_time
                      (omega (
                        arith,
                        is_present.short_turn s,
                        is_clock.keeps s,
                        ltb→lt (clock t) arrival before_arrival,
                      ))
                      (omega (
                        arith,
                        is_clock.sleeps 500 u,
                        is_clock.keeps s,
                        is_clock.enumerates vid pid t,
                      )))
              | inr arrived ↦
                  polled_present (hid.enumerate vid pid t).0 u again
                    (is_present.present t (not_before (clock t) arrived))
            ]))
        (λ late. absurd (passed now (is_clock.reads s) late))
    where
      not_before : (n : ℕ) → ltb n arrival ≡ false → arrival ≤ n
      not_before n h = ground arith

      passed : (now : ℕ) → now ≡ clock s → ltb now deadline ≡ false → ⊥
      passed now e h = ground arith

  -- A wait finds a device that arrives in time. The clock may not go back, a sleep may not be shorter
  -- than asked for, and the library may not raise; if the device is there for a whole turn of the loop
  -- before the deadline, and a turn is shorter than the timeout, the wait returns, with one unit of
  -- fuel for every 500 ms of the timeout.
  pub wait_for_hid-HasFound :
      (fuel timeout : ℕ) (s : S)
      → timeout ≤ 500 * fuel
      → turn < timeout
      → arrival + turn ≤ clock s + timeout
      → HasFound (wait_for_hid hid fuel vid pid timeout s)
  unfolding wait_for_hid
  wait_for_hid-HasFound fuel timeout s enough longer in_time =
      let e = is_clock.reads s in
      let k = is_clock.keeps s in
      let r = is_present.short_read s in
      wait_loop-HasFound fuel ((hid.monotonic s).0 + timeout) (hid.monotonic s).1 (omega arith)
        (omega arith) (omega arith)
