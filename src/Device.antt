-- ===== src/Device.antt =====
-- `struct hackrf_device` of src/lib/hackrf/hackrf.c: its transfers, its streaming thread and its life
-- from `hackrf_open` to `hackrf_close`.
pub mod Transfers
pub mod Ready
pub mod Streaming
pub mod Lifecycle
pub mod Lists
use hackrf.Prelude.{ℕ, Bool, Option, none, some, List, true, false, ◌&&◌, if◌then◌else◌}
use hackrf.Platform.Action.{Action, pure}

-- The fields of `struct libusb_transfer` that the code sets: the address stands for the structure,
-- and `buffer` is an offset into `device->buffer`.
pub record Transfer : Type 0 where
  pub address : ℕ
  pub endpoint : ℕ
  -- Whether `callback` is `hackrf_libusb_transfer_callback`; otherwise it is NULL.
  pub has_callback : Bool
  pub buffer : ℕ
  pub size : ℕ

abbrev pub transfer_count : ℕ
transfer_count = 4

abbrev pub transfer_buffer_size : ℕ
transfer_buffer_size = 262144

-- A pointer is a number, and 0 is NULL. `pthread_t` and the bytes of the buffer are left out.
pub record Device : Type 0 where
  pub usb_device : ℕ
  pub transfers : Option (List (Option Transfer))
  pub callback : ℕ
  pub transfer_thread_started : Bool
  pub streaming : Bool
  pub rx_ctx : ℕ
  pub tx_ctx : ℕ
  pub do_exit : Bool

unfoldable pub request_exit : Device → Device
request_exit device = record device { do_exit = true }
