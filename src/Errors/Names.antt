-- ===== src/Errors/Names.antt =====
-- The texts of the result codes: src/lib/hackrf/hackrf.c, `hackrf_error_name`.
use Prim.Native.String.{String}
use mathlib.Core.Bool.{not}
use hackrf.Prelude.{◌≡◌, refl, Option, none, some, ◌==◌, Bool, ◌&&◌, if◌then◌else◌}
use hackrf.Prelude.Int.{ℤ, pos, negsuc, is_zero}
use hackrf.Errors.Codes.{
  HackrfError, success, hackrf_true, invalid_param, not_found, busy, no_mem, libusb, thread,
  streaming_thread_err, streaming_stopped, streaming_exit_called, usb_api_version, not_last_device,
  other, code,
}

-- The cases of the enumerators. `strerror` is `libusb_strerror`, which the code calls only where
-- `has_strerror` (LIBUSB_API_VERSION is 0x01000103 or more); `last` is `last_libusb_error`.
error_text : (ℤ → String) → Bool → ℤ → HackrfError → String
error_text strerror has_strerror last success = "HACKRF_SUCCESS"
error_text strerror has_strerror last hackrf_true = "HACKRF_TRUE"
error_text strerror has_strerror last invalid_param = "invalid parameter(s)"
error_text strerror has_strerror last not_found = "HackRF not found"
error_text strerror has_strerror last busy = "HackRF busy"
error_text strerror has_strerror last no_mem = "insufficient memory"
error_text strerror has_strerror last libusb =
    if has_strerror && not (is_zero last) then strerror last else "USB error"
error_text strerror has_strerror last thread = "transfer thread error"
error_text strerror has_strerror last streaming_thread_err = "streaming thread encountered an error"
error_text strerror has_strerror last streaming_stopped = "streaming stopped"
error_text strerror has_strerror last streaming_exit_called = "streaming terminated"
error_text strerror has_strerror last usb_api_version =
    "feature not supported by installed firmware"
error_text strerror has_strerror last not_last_device = "one or more HackRFs still in use"
error_text strerror has_strerror last other = "unspecified error"

-- The enumerator of a number, or `none`.
abbrev error_of : ℤ → Option HackrfError
error_of (pos n) = if n == 0 then some success else if n == 1 then some hackrf_true else none
error_of (negsuc n) =
    if n == 1
    then some invalid_param
    else if n == 4
    then some not_found
    else if n == 5
    then some busy
    else if n == 10
    then some no_mem
    else if n == 999
    then some libusb
    else if n == 1000
    then some thread
    else if n == 1001
    then some streaming_thread_err
    else if n == 1002
    then some streaming_stopped
    else if n == 1003
    then some streaming_exit_called
    else if n == 1004
    then some usb_api_version
    else if n == 1999
    then some not_last_device
    else if n == 9998
    then some other
    else none

-- `hackrf_error_name` of any number, with its default.
hackrf_error_name : (ℤ → String) → Bool → ℤ → ℤ → String
hackrf_error_name strerror has_strerror last errcode = elim (error_of errcode) [
  | none ↦ "unknown error code"
  | some e ↦ error_text strerror has_strerror last e
]

error_of-code : (e : HackrfError) → error_of (code e) ≡ some e
unfolding code
error_of-code success = refl
error_of-code hackrf_true = refl
error_of-code invalid_param = refl
error_of-code not_found = refl
error_of-code busy = refl
error_of-code no_mem = refl
error_of-code libusb = refl
error_of-code thread = refl
error_of-code streaming_thread_err = refl
error_of-code streaming_stopped = refl
error_of-code streaming_exit_called = refl
error_of-code usb_api_version = refl
error_of-code not_last_device = refl
error_of-code other = refl
