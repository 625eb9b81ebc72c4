-- ===== src/Tests/Reopen.antt =====
-- A bus with two HackRFs: their serial numbers are listed, and one of them is opened again by its own.
use hackrf.Prelude.{ℕ, ◌+◌, ◌≡◌, refl, ap, true, some, [], ◌∷◌, length, take, replicate, arith}
use hackrf.Prelude.Int.{pos}
use hackrf.Platform.{Platform}
use hackrf.Platform.Action.{Library}
use hackrf.Filter.Bounds.{IsEntry}
use hackrf.Device.Lifecycle.{is_hackrf, open_setup}
use hackrf.Device.Lifecycle.Serial.{open_by_serial}
use hackrf.Device.Lists.{
  DeviceList, device_list, list_devices, allocate_arrays, add_devices, add_serial,
}
use hackrf.Device.Lists.Serials.{Bus, Steady, entries, device_list-serials}
use hackrf.Device.Lists.Reopen.{device_list-open_by_serial}
use hackrf.Tests.Platforms.{working, fresh}

-- The serial number of device `d` is one character, 32 times.
abbrev bus : Bus
bus = record {
  devices = 1 ∷ 2 ∷ [];
  descriptor = λ d. record { vendor = 0x1d50; product = 0x6089; serial_index = 3 };
  handle = λ d. d + 6;
  serial = λ d. replicate 32 (d + 96);
}

abbrev answering : Platform
answering = record working {
  device_list = λ log. some (1 ∷ 2 ∷ []);
  open_reply = λ log d. record { result = pos 0; output = d + 6 };
  string_reply = λ log h i. record { result = pos 32; received = replicate 32 (h + 90) };
}

answering-Steady : Steady answering bus
answering-Steady = record {
  lists = λ log. refl;
  describes = λ log d. refl;
  opens = λ log d. refl;
  tells =
      λ log d. ap (λ (c : ℕ). record { result = pos 32; received = replicate 32 c }) (omega arith);
  copies = λ log. refl;
  whole = λ d. refl;
  texts = λ d. ground arith;
}

abbrev both : DeviceList
both = record {
  serials = some (replicate 32 97) ∷ some (replicate 32 98) ∷ [];
  board_ids = 0x6089 ∷ 0x6089 ∷ [];
  device_index = 0 ∷ 1 ∷ [];
  devicecount = 2;
  usb_devices = 1 ∷ 2 ∷ [];
}

lists_both : (device_list answering (replicate 64 0) fresh).0 ≡ some both
unfolding device_list list_devices allocate_arrays add_devices add_serial
lists_both = refl

device_list-serials_example :
    (both.devicecount ≡ length (entries bus (1 ∷ 2 ∷ [])))
    × (take both.devicecount both.serials ≡ entries bus (1 ∷ 2 ∷ []))
device_list-serials_example =
    device_list-serials answering bus answering-Steady (replicate 64 0) fresh both (omega arith)
      (omega arith) lists_both

-- The second one.
device_list-open_by_serial_example :
    (d : ℕ) × IsEntry d (1 ∷ 2 ∷ [])
    × (is_hackrf (bus.descriptor d) ≡ true)
    × (bus.serial d ≡ replicate 32 98)
    × ((u : Library) × (open_by_serial answering (some (replicate 32 98)) true fresh
          ≡ (let r = open_setup answering (bus.handle d) u in (some r.0, r.1))))
device_list-open_by_serial_example =
    device_list-open_by_serial answering bus answering-Steady (replicate 64 0) fresh both 1
      (replicate 32 98) fresh (omega arith) (omega arith) (λ d. ground arith) lists_both
      (omega arith) refl
