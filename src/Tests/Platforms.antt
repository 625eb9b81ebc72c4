-- ===== src/Tests/Platforms.antt =====
-- A platform on which everything works, and others that differ from it in one answer.
use hackrf.Prelude.{ℕ, some, true, false, [], ◌∷◌, replicate}
use hackrf.Prelude.Int.{ℤ, pos, negsuc}
use hackrf.Platform.{Platform, ControlRequest, ControlReply}
use hackrf.Platform.Action.{Library}
use hackrf.Device.{Device}
use hackrf.Device.Streaming.{HackrfTransfer, Completion}
use hackrf.Device.Transfers.{TransferArray}

-- Every transfer moves all its bytes, and the device sends ones.
abbrev answer_all : ControlRequest → ControlReply
answer_all r = record { result = pos r.size; received = replicate r.size 1 }

-- The firmware has version 0x0103; there is one interface with a driver on it, and one device, whose
-- handle is 7.
abbrev pub working : Platform
working = record {
  init_context = λ log. pos 0;
  control_reply = λ log dev r. answer_all r;
  bulk_reply = λ log dev endpoint offset size. pos 0;
  descriptor_reply = λ log dev. record { result = pos 0; output = 0x0103 };
  device_list = λ log. some (1 ∷ []);
  describe = λ log d. record { vendor = 0x1d50; product = 0x6089; serial_index = 3 };
  string_reply = λ log dev i. record { result = pos 4; received = 97 ∷ 98 ∷ 99 ∷ 100 ∷ [] };
  open_with_vid_pid = λ log vid pid. 7;
  open_reply = λ log d. record { result = pos 0; output = 7 };
  config_descriptor_reply = λ log dev. record { result = pos 0; output = 1 };
  driver_active = λ log dev i. pos 1;
  detach_driver = λ log dev i. pos 0;
  configuration_reply = λ log dev. record { result = pos 0; output = 0 };
  configure = λ log dev c. pos 0;
  claim = λ log dev i. pos 0;
  malloc = λ log. true;
  new_transfer = λ log. some 9;
  submit = λ log t. pos 0;
  events = λ log. pos 0;
  create_thread = λ log. pos 0;
  join_thread = λ log. pos 0;
}

-- The transfers fail with LIBUSB_ERROR_PIPE.
abbrev pub stalled : Platform
stalled = record working {
  control_reply = λ log dev r. record { result = negsuc 8; received = [] };
}

abbrev pub fresh : Library
fresh = record { context = true; open_devices = 0; last_libusb_error = pos 0; log = [] }

abbrev pub transfers : TransferArray
transfers =
    some (record { address = 9; endpoint = 0; has_callback = false; buffer = 0; size = 262144 })
    ∷ some
        (record { address = 9; endpoint = 0; has_callback = false; buffer = 262144; size = 262144 })
    ∷ some
        (record { address = 9; endpoint = 0; has_callback = false; buffer = 524288; size = 262144 })
    ∷ some
        (record { address = 9; endpoint = 0; has_callback = false; buffer = 786432; size = 262144 })
    ∷ []

-- A device as `hackrf_open` leaves it, and one that streams.
abbrev pub idle : Device
idle = record {
  usb_device = 7;
  transfers = some transfers;
  callback = 0;
  transfer_thread_started = false;
  streaming = false;
  rx_ctx = 0;
  tx_ctx = 0;
  do_exit = false;
}

abbrev pub streaming : Device
streaming = record idle { callback = 5; transfer_thread_started = true; streaming = true }

-- An application that always agrees to go on.
abbrev pub agree : ℕ → HackrfTransfer → ℤ
agree callback t = pos 0

abbrev pub failed : Completion
failed = record {
  transfer = record {
    address = 9;
    endpoint = 0x81;
    has_callback = true;
    buffer = 0;
    size = 262144;
  };
  completed = false;
  actual_length = 0;
}
