-- ===== src/Device/Lifecycle.antt =====
-- src/lib/hackrf/hackrf.c: `hackrf_init` and `hackrf_exit`, the configuration of a USB device,
-- `hackrf_open` and `hackrf_close`.
pub mod Setup
pub mod Balance
pub mod Closing
pub mod Exit
pub mod Serial
use hackrf.Prelude.{
  ℕ, zero, suc, ◌+◌, ◌%◌, ◌^◌, Bool, true, false, Option, none, some, ◌∷◌, ◌==◌, not, ◌&&◌, ◌||◌,
  if◌then◌else◌,
}
use hackrf.Prelude.Int.{ℤ, pos, negsuc, is_zero, lt_nat, eq_nat}
use hackrf.Errors.{HackrfError, success, libusb, no_mem, invalid_param, not_found, not_last_device}
use hackrf.Platform.{Platform, Call, Descriptor}
use hackrf.Platform.Action.{Action, ◌>>=◌, ◌>>◌, pure, ask, tell, fail_with}
use hackrf.Device.{Device}
use hackrf.Device.Transfers.{allocate_transfers, free_transfers}
use hackrf.Device.Streaming.{stop_rx, stop_tx}

abbrev pub null : ℕ
null = 0

-- The vendor, and the products in the order in which `hackrf_open` looks for them.
abbrev pub usb_vid : ℕ
usb_vid = 0x1d50

abbrev pub one_usb_pid : ℕ
one_usb_pid = 0x6089

abbrev pub jawbreaker_usb_pid : ℕ
jawbreaker_usb_pid = 0x604b

abbrev pub rad1o_usb_pid : ℕ
rad1o_usb_pid = 0xcc15

-- The vendor and one of the three products.
abbrev pub is_hackrf : Descriptor → Bool
is_hackrf d =
    (d.vendor == usb_vid)
    && ((d.product == one_usb_pid)
        || ((d.product == jawbreaker_usb_pid) || d.product == rad1o_usb_pid))

unfoldable pub hackrf_exit : Action HackrfError
hackrf_exit s =
    if s.open_devices == 0
    then if s.context
      then (success, record s { context = false; log = Call.context_exit ∷ s.log })
      else (success, s)
    else (not_last_device, s)

-- LIBUSB_ERROR_NOT_SUPPORTED is -12.
abbrev not_supported : ℤ → Bool
not_supported (pos n) = false
not_supported (negsuc n) = n == 11

-- `open_devices++` and `open_devices--`, on a uint16_t.
abbrev pub count_open : ℕ → ℕ
count_open n = (n + 1) % 2 ^ 16

abbrev pub count_close : ℕ → ℕ
count_close n = (n + 65535) % 2 ^ 16

-- `lib_device` after `malloc`: `rx_ctx` and `tx_ctx` are left unset, here 0.
abbrev pub new_device : ℕ → Device
new_device usb_device = record {
  usb_device = usb_device;
  transfers = none;
  callback = null;
  transfer_thread_started = false;
  streaming = false;
  rx_ctx = 0;
  tx_ctx = 0;
  do_exit = false;
}

module _ (p : Platform) where
  init_result : ℤ → Action HackrfError
  init_result libusb_error s =
      if is_zero libusb_error
      then (success, record s { context = true })
      else fail_with libusb_error libusb s

  unfoldable pub hackrf_init : Action HackrfError
  unfolding init_result
  hackrf_init s =
      if s.context
      then (success, s)
      else (do r ← ask Call.context_init p.init_context; init_result r) s

  -- The loop of `detach_kernel_drivers` over the `n` interfaces from `i` on.
  unfoldable pub detach_each : ℕ → ℕ → ℕ → Action HackrfError
  detach_each dev zero i = pure success
  detach_each dev (suc n) i = do
    active ← ask (Call.kernel_driver_active dev i) (λ log. p.driver_active log dev i)
    elim (lt_nat active 0) [
      | true ↦ if not_supported active then pure success else fail_with active libusb
      | false ↦ elim (eq_nat active 1) [
        | false ↦ detach_each dev n (i + 1)
        | true ↦ do
          result ← ask (Call.detach_kernel_driver dev i) (λ log. p.detach_driver log dev i)
          elim (is_zero result) [
            | false ↦ fail_with result libusb
            | true ↦ detach_each dev n (i + 1)
          ]
      ]
    ]

  unfoldable pub detach_kernel_drivers : ℕ → Action HackrfError
  unfolding detach_each
  detach_kernel_drivers dev = do
    r ← ask (Call.get_active_config_descriptor dev) (λ log. p.config_descriptor_reply log dev)
    if lt_nat r.result 0 then fail_with r.result libusb else detach_each dev r.output 0

  -- `if (curr_config != config)` of `set_hackrf_configuration`.
  unfoldable pub change_configuration : ℕ → ℕ → Action HackrfError
  unfolding detach_kernel_drivers
  change_configuration dev config = do
    e ← detach_kernel_drivers dev
    elim e [
      | success ↦ do
        result ← ask (Call.set_configuration dev config) (λ log. p.configure log dev config)
        if is_zero result then pure success else fail_with result libusb
      | failed ↦ pure failed
    ]

  -- The current configuration is a number that is not negative.
  unfoldable pub set_hackrf_configuration : ℕ → ℕ → Action HackrfError
  unfolding change_configuration detach_kernel_drivers
  set_hackrf_configuration dev config = do
    r ← ask (Call.get_configuration dev) (λ log. p.configuration_reply log dev)
    if is_zero r.result
        then (do
          e ← if r.output == config then pure success else change_configuration dev config
          elim e [ success ↦ detach_kernel_drivers dev | failed ↦ pure failed ])
        else fail_with r.result libusb

  -- `free(lib_device); libusb_release_interface(…); libusb_close(…)`.
  give_up : ℕ → Action (HackrfError × Option Device)
  give_up dev = do
    tell Call.free_device
    tell (Call.release_interface dev 0)
    tell (Call.close dev)
    pure (no_mem, none)

  -- The part of `hackrf_open_setup` after the interface is claimed.
  unfoldable pub setup_claimed : ℕ → Action (HackrfError × Option Device)
  unfolding give_up allocate_transfers
  setup_claimed dev = do
    given ← ask Call.malloc_device p.malloc
    elim given [
      | false ↦ do tell (Call.release_interface dev 0); tell (Call.close dev); pure (no_mem, none)
      | true ↦ do
        r ← allocate_transfers p (new_device dev)
        elim r.0 [
          | success ↦
              λ s. ((success, some r.1), record s { open_devices = count_open s.open_devices })
          | e ↦ give_up dev
        ]
    ]

  -- What is written through `device`, beside the code. USB_CONFIG_STANDARD is 1.
  unfoldable pub open_setup : ℕ → Action (HackrfError × Option Device)
  open_setup dev = do
    e ← set_hackrf_configuration dev 1
    elim e [
      | success ↦ do
        claimed ← ask (Call.claim_interface dev 0) (λ log. p.claim log dev 0)
        if is_zero claimed
            then setup_claimed dev
            else (do e' ← fail_with claimed libusb; tell (Call.close dev); pure (e', none))
      | failed ↦ do tell (Call.close dev); pure (failed, none)
    ]

  abbrev open_pid : ℕ → Action ℕ
  open_pid pid =
      ask (Call.open_device_with_vid_pid usb_vid pid) (λ log. p.open_with_vid_pid log usb_vid pid)

  -- The next attempt of `hackrf_open`, if there is no handle yet.
  abbrev or_else : ℕ → Action ℕ → Action ℕ
  or_else dev next = if dev == null then next else pure dev

  -- `wanted` is `device != NULL`.
  unfoldable pub hackrf_open : Bool → Action (HackrfError × Option Device)
  hackrf_open wanted = if not wanted then pure (invalid_param, none) else do
    a ← open_pid one_usb_pid
    b ← or_else a (open_pid jawbreaker_usb_pid)
    c ← or_else b (open_pid rad1o_usb_pid)
    if c == null then pure (not_found, none) else open_setup c

  -- `if (device->usb_device != NULL)` of `hackrf_close`.
  unfoldable pub release_usb : Device → Action Device
  release_usb device = if device.usb_device == null then pure device else do
    tell (Call.release_interface device.usb_device 0)
    tell (Call.close device.usb_device)
    pure (record device { usb_device = null })

  -- `if (device != NULL)` of `hackrf_close`: the two results of stopping.
  unfoldable pub close_device : Device → Action (HackrfError × HackrfError)
  close_device device = do
    r1 ← stop_rx p device
    r2 ← stop_tx p r1.1
    d ← release_usb r2.1
    free_transfers d
    tell Call.free_device
    pure (r1.0, r2.0)

  abbrev close_results : Option Device → Action (HackrfError × HackrfError)
  close_results none = pure (success, success)
  close_results (some device) = close_device device

  unfoldable pub hackrf_close : Option Device → Action HackrfError
  hackrf_close device = do
    r ← close_results device
    λ s.
        (elim r.1 [ success ↦ r.0 | e ↦ e ], record s { open_devices = count_close s.open_devices })
