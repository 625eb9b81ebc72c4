-- ===== src/Requests/Version.antt =====
-- src/lib/hackrf/hackrf.c: `hackrf_usb_api_version_read` and the macro `USB_API_REQUIRED`.
use hackrf.Prelude.{ℕ, Option, none, some, ltb, if◌then◌else◌}
use hackrf.Prelude.Int.{lt_nat}
use hackrf.Errors.{HackrfError, success, libusb}
use hackrf.Platform.{Platform, Call, Reply}
use hackrf.Platform.Action.{Action, ◌>>=◌, pure, ask}

-- What is written through `version`, if anything.
abbrev version_result : Reply → Action (HackrfError × Option ℕ)
version_result r s =
    if lt_nat r.result 0
    then ((libusb, none), record s { last_libusb_error = r.result })
    else ((success, some r.output), s)

abbrev or_zero : Option ℕ → ℕ
or_zero none = 0
or_zero (some v) = v

module _ (p : Platform) where
  unfoldable pub usb_api_version_read : ℕ → Action (HackrfError × Option ℕ)
  usb_api_version_read dev = do
    r ← ask (Call.get_device_descriptor dev) (λ log. p.descriptor_reply log dev)
    version_result r

  -- The macro does not look at the result of the read: a failed read leaves the 0.
  unfoldable pub usb_api_required : {A : Type 0} → ℕ → ℕ → A → Action A → Action A
  unfolding usb_api_version_read
  usb_api_required dev version refused rest = do
    v ← usb_api_version_read dev
    if ltb (or_zero v.1) version then pure refused else rest
