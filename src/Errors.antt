-- ===== src/Errors.antt =====
-- The result codes of the library and their names: include/hackrf.h, `enum hackrf_error`, and
-- src/lib/hackrf/hackrf.c, `hackrf_error_name`.
mod Codes
pub mod Names
use hackrf.Prelude.{Bool, true, false}
pub use Codes.{
  HackrfError, success, hackrf_true, invalid_param, not_found, busy, no_mem, libusb, thread,
  streaming_thread_err, streaming_stopped, streaming_exit_called, usb_api_version, not_last_device,
  other,
}
unfoldable pub use Codes.{code}

-- Whether a call succeeded.
abbrev pub ok : HackrfError → Bool
ok success = true
ok _ = false
