-- ===== src/Tests/Lists.antt =====
-- The list of devices and the rates of samples at concrete inputs.
use hackrf.Prelude.{
  ℕ, ◌+◌, ◌*◌, ◌^◌, ◌≤◌, ◌<◌, ◌≡◌, refl, true, none, some, [], ◌∷◌, length, take, replicate, get_or,
  ltb, if◌then◌else◌, arith,
}
use hackrf.Prelude.Int.{pos}
use hackrf.Bytes.{Endian}
use hackrf.Errors.{invalid_param}
use hackrf.Platform.{Descriptor}
use hackrf.Device.Lists.{
  DeviceList, device_list, list_devices, allocate_arrays, add_devices, add_serial, device_list_open,
  open_listed,
}
use hackrf.Device.Lists.Hackrfs.{hackrfs, indices, products, device_list-lists, device_list_open-eq}
use hackrf.Requests.Tuning.{set_sample_rate_manual}
use hackrf.Requests.Tuning.Fraction.{Double, unit_of, set_sample_rate}
use hackrf.Requests.Tuning.Fraction.Accuracy.{set_sample_rate-near}
use hackrf.Tests.Platforms.{working, fresh}

-- The device of the working platform, and the list of it.
abbrev one : ℕ → Descriptor
one d = record { vendor = 0x1d50; product = 0x6089; serial_index = 3 }

abbrev listed : DeviceList
listed = record {
  serials = some (97 ∷ 98 ∷ 99 ∷ 100 ∷ []) ∷ [];
  board_ids = 0x6089 ∷ [];
  device_index = 0 ∷ [];
  devicecount = 1;
  usb_devices = 1 ∷ [];
}

device_list_listed : (device_list working (replicate 64 0) fresh).0 ≡ some listed
unfolding device_list list_devices allocate_arrays add_devices add_serial
device_list_listed = refl

device_list-lists_example :
    (listed.usb_devices ≡ 1 ∷ [])
    × (listed.devicecount ≡ length (indices working one 0 (1 ∷ [])))
    × (take listed.devicecount listed.device_index ≡ indices working one 0 (1 ∷ []))
    × (take listed.devicecount listed.board_ids ≡ products working one (1 ∷ []))
device_list-lists_example =
    device_list-lists working one (λ log d. refl) (1 ∷ []) (replicate 64 0) fresh listed refl
      (omega arith) device_list_listed

device_list_open-eq_example : device_list_open working (some listed) (pos 0) true fresh ≡ (
    if ltb 0 (length (indices working one 0 (1 ∷ [])))
    then open_listed working (get_or (hackrfs working one (1 ∷ [])) 0 0) fresh
    else ((invalid_param, none), fresh))
device_list_open-eq_example =
    device_list_open-eq working one (λ log d. refl) (1 ∷ []) (replicate 64 0) fresh fresh listed 0
      refl (omega arith) device_list_listed

-- 10 MHz, and 10.25 MHz, as doubles.
abbrev ten_mhz : Double
ten_mhz = record { mantissa = 10000000 * 2 ^ 29; exponent = 23 }

abbrev ten_mhz_more : Double
ten_mhz_more = record { mantissa = 10250000 * 2 ^ 29 + 2 ^ 28; exponent = 23 }

ten_mhz_whole : ten_mhz.mantissa ≡ 10000000 * unit_of ten_mhz
unfolding unit_of
ten_mhz_whole = refl

set_sample_rate-near_example :
    let r = ten_mhz_more in
    (hz d : ℕ) × (set_sample_rate working Endian.little 7 r
      ≡ set_sample_rate_manual working Endian.little 7 hz d)
    × (1 ≤ d)
    × (d ≤ 31)
    × (hz < 2 ^ 32)
    × (hz * unit_of r ≤ r.mantissa * d + unit_of r)
    × (r.mantissa * d ≤ hz * unit_of r + unit_of r)
set_sample_rate-near_example =
    set_sample_rate-near working Endian.little 7 ten_mhz_more
      (record { normal = omega arith; fits = omega arith; low = omega arith })
