-- ===== src/Tests/Waits.antt =====
-- A wait for a device that arrives after a second.
use cc2_camera_fix.Base.{
  none, ℕ, ◌+◌, ◌≤◌, ◌≡◌, refl, arith, Bool, true, false, some, List, [], ◌∷◌,
}
use cc2_camera_fix.Base.Tests.{leb, le→leb}
use cc2_camera_fix.Base.Int.{pos}
use cc2_camera_fix.Base.Result.{ok}
use cc2_camera_fix.Hid.{Hid, DeviceInfo}
use cc2_camera_fix.HidTransport.{wait_for_hid}
use cc2_camera_fix.HidTransport.Wait.{IsClock, IsPresent, HasFound, wait_for_hid-HasFound}

abbrev device_info : DeviceInfo
device_info = record {
  vendor_id = some 0xA108;
  product_id = some 0xFF08;
  serial_number = none;
  path = [];
}

seen : Bool → List DeviceInfo
seen true = device_info ∷ []
seen false = []

-- The state is the clock.
abbrev arriving : Hid ℕ (Unit {0})
arriving = record {
  importable = true;
  enumerate_all = λ s. (ok [], s);
  enumerate = λ vid pid s. (ok (seen (leb 1000 s)), s);
  device = λ s. (ok tt, s);
  open_path = λ d path s. (ok tt, s);
  close = λ d s. (ok tt, s);
  write = λ d report s. (ok (pos 0), s);
  read = λ d size timeout s. (ok [], s);
  monotonic = λ s. (s, s);
  sleep = λ n s. s + n;
}

arriving-IsClock : IsClock arriving (λ s. s)
arriving-IsClock = record {
  reads = λ s. refl;
  keeps = λ s. omega arith;
  enumerates = λ vid pid s. omega arith;
  sleeps = λ time s. omega arith;
}

seen-late : (s : ℕ) → 1000 ≤ s → seen (leb 1000 s) ≡ device_info ∷ []
unfolding seen
seen-late s h = rw (le→leb 1000 s h) refl

arriving-IsPresent : IsPresent arriving (λ s. s) 0xA108 0xFF08 1000 500
arriving-IsPresent = record {
  importable = refl;
  quiet = λ s. (seen (leb 1000 s), refl);
  present = λ s h. (device_info, [], rw (seen-late s h) refl);
  short_turn = λ s. omega arith;
  short_read = λ s. omega arith;
}

wait_for_hid-HasFound_example : HasFound (wait_for_hid arriving 6 0xA108 0xFF08 3000 0)
wait_for_hid-HasFound_example =
    wait_for_hid-HasFound arriving (λ s. s) arriving-IsClock 0xA108 0xFF08 1000 500
      arriving-IsPresent 6 3000 0 (omega arith) (omega arith) (omega arith)
