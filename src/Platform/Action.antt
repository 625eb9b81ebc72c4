-- ===== src/Platform/Action.antt =====
-- The globals of src/lib/hackrf/hackrf.c, and actions that read and write them.
use hackrf.Prelude.{ℕ, Bool, List, [], ◌∷◌, if◌then◌else◌}
use hackrf.Prelude.Int.{ℤ, is_zero, lt_nat}
use hackrf.Errors.{HackrfError, success, libusb}
use hackrf.Platform.{
  Platform, Call, ControlRequest, ControlReply, VendorRequest, endpoint_in, endpoint_out,
}

-- `g_libusb_context` (whether it is set), `open_devices` (a uint16_t), `last_libusb_error`, and the
-- calls made so far, newest first.
pub record Library : Type 0 where
  pub context : Bool
  pub open_devices : ℕ
  pub last_libusb_error : ℤ
  pub log : List Call

abbrev pub Action : Type 0 → Type 0
Action A = Library → A × Library

abbrev pub pure : {A : Type 0} → A → Action A
pure a s = (a, s)

infixl 5 ◌>>=◌ ◌>>◌
abbrev pub ◌>>=◌ : {A B : Type 0} → Action A → (A → Action B) → Action B
◌>>=◌ m f s = let (a, t) = m s in f a t

abbrev pub ◌>>◌ : {A B : Type 0} → Action A → Action B → Action B
m >> k = m >>= λ _. k

-- A call of the platform: its answer depends on the earlier calls, and the call is logged.
abbrev pub ask : {A : Type 0} → Call → (List Call → A) → Action A
ask c answer s = (answer s.log, record s { log = c ∷ s.log })

-- A call with no answer.
abbrev pub tell : Call → Action (Unit {0})
tell c s = (tt, record s { log = c ∷ s.log })

-- `last_libusb_error = result; return e;`
abbrev pub fail_with : ℤ → HackrfError → Action HackrfError
fail_with result e s = (e, record s { last_libusb_error = result })

-- The end of most functions: `if (result != 0) { last_libusb_error = result; return
-- HACKRF_ERROR_LIBUSB; } else return HACKRF_SUCCESS;`, and the same with `result < n`.
abbrev pub check_zero : ℤ → Action HackrfError
check_zero result s = if is_zero result then (success, s) else fail_with result libusb s

abbrev pub check_at_least : ℕ → ℤ → Action HackrfError
check_at_least n result s = if lt_nat result n then fail_with result libusb s else (success, s)

-- An OUT request that sends `payload`, and an IN request for `size` bytes.
abbrev pub request_out : VendorRequest → ℕ → ℕ → List ℕ → ℕ → ControlRequest
request_out r v i payload size = record {
  direction = endpoint_out;
  request = r;
  value = v;
  index = i;
  payload = payload;
  size = size;
}

abbrev pub request_in : VendorRequest → ℕ → ℕ → ℕ → ControlRequest
request_in r v i size = record {
  direction = endpoint_in;
  request = r;
  value = v;
  index = i;
  payload = [];
  size = size;
}

module _ (p : Platform) where
  -- `libusb_control_transfer(device->usb_device, …)`
  abbrev pub transfer : ℕ → ControlRequest → Action ControlReply
  transfer dev r = ask (Call.control_transfer dev r) (λ log. p.control_reply log dev r)
