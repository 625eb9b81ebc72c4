-- ===== src/Errors/Codes.antt =====
-- include/hackrf.h, `enum hackrf_error`.
use hackrf.Prelude.Int.{ℤ, pos, negsuc}

pub data HackrfError : Type 0 where
  success hackrf_true invalid_param not_found busy no_mem : HackrfError
  libusb thread streaming_thread_err streaming_stopped streaming_exit_called : HackrfError
  usb_api_version not_last_device other : HackrfError

-- The `int` that an enumerator stands for; `negsuc n` is -(n + 1).
unfoldable pub code : HackrfError → ℤ
code success = pos 0
code hackrf_true = pos 1
code invalid_param = negsuc 1
code not_found = negsuc 4
code busy = negsuc 5
code no_mem = negsuc 10
code libusb = negsuc 999
code thread = negsuc 1000
code streaming_thread_err = negsuc 1001
code streaming_stopped = negsuc 1002
code streaming_exit_called = negsuc 1003
code usb_api_version = negsuc 1004
code not_last_device = negsuc 1999
code other = negsuc 9998
