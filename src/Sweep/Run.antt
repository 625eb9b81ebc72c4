-- ===== src/Sweep/Run.antt =====
-- src/lib/hackrf/hackrf_sweep.c: `hackRFSweepThread`, which prepares a device, `hackrf_sweep` as a
-- whole, with the loop that waits for its end, and `StartHackRFSweepService`.
pub mod Ends
pub mod Prepare
pub mod Handles
use hackrf.Prelude.{
  ℕ, Bool, true, false, Option, none, some, List, [], ◌∷◌, not, ◌&&◌, ◌||◌, ◌==◌, if◌then◌else◌,
}
use hackrf.Prelude.Int.{ℤ, is_zero}
use hackrf.Bytes.{Endian}
use hackrf.Errors.{ok, HackrfError, success, hackrf_true}
use hackrf.Platform.{Platform, Call}
use hackrf.Platform.Action.{Library, Action, ◌>>=◌, ◌>>◌, pure, ask}
use hackrf.Requests.Tuning.{set_sample_rate_manual}
use hackrf.Requests.Registers.{set_baseband_filter_bandwidth}
use hackrf.Device.{Device}
use hackrf.Device.Streaming.{is_streaming}
use hackrf.Device.Lifecycle.{hackrf_init}
use hackrf.Device.Lifecycle.Serial.{open_by_serial}
use hackrf.Sweep.{Config, configure}
use hackrf.Sweep.Start.{start_sweep, shutdown}

-- What the waiting loop finds in one round: the device and the globals when it tests its condition,
-- and `byte_count` after its sleep.
pub record Sight : Type 0 where
  pub device : Device
  pub library : Library
  pub do_exit : Bool
  pub byte_count : ℕ

-- `hackrf_is_streaming(device) == HACKRF_TRUE`
abbrev pub streams : HackrfError → Bool
streams hackrf_true = true
streams _ = false

-- The loop: whether the exit code is EXIT_SUCCESS, and the round in which it ends. `none` means that
-- the rounds ran out while it still waits.
unfoldable pub wait : List Sight → Option (Bool × Sight)
wait [] = none
wait (o ∷ os) = elim (streams (is_streaming o.device) && not o.do_exit) [
  | false ↦ some (true, o)
  | true ↦ elim (o.byte_count == 0) [ true ↦ some (false, o) | false ↦ wait os ]
]

module _ (p : Platform) where
  -- `InitHackRFDevice`, whose two requests `hackRFSweepThread` repeats: 20 MHz, and 15 MHz.
  unfoldable pub init_device : Endian → Device → Action Bool
  init_device host device = do
    rate ← set_sample_rate_manual p host device.usb_device 20000000 1
    elim rate [
      | success ↦ do
        width ← set_baseband_filter_bandwidth p device.usb_device 15000000
        pure (ok width)
      | _ ↦ pure false
    ]

  -- `hackRFSweepThread`: whether it succeeds, and the device. `serial` is the text at the address
  -- that `serial_number` is taken for; `none` is an access out of bounds.
  unfoldable pub prepare_device : Endian → Option (List ℕ) → Action (Option (Bool × Option Device))
  unfolding init_device
  prepare_device host serial = do
    e ← hackrf_init p
    elim e [
      | success ↦ do
        r ← open_by_serial p serial true
        elim r [
          | none ↦ pure none
          | some (success, some device) ↦ do
            good ← init_device host device
            pure (some (good, some device))
          | some (_, found) ↦ pure (some (false, found))
        ]
      | _ ↦ pure (some (false, none))
    ]

  -- `hackrf_sweep`: whether it returns EXIT_SUCCESS, or `none` while it waits, and the configuration.
  -- `sights` is what the loop finds, given the device that was started.
  unfoldable pub hackrf_sweep :
      ℕ → ℕ → Config → ℕ → ℕ → ℕ → Device → (Device → List Sight) → Action (Option Bool)
  unfolding wait
  hackrf_sweep freq_min freq_max c vga_gain lna_gain callback device sights =
      let planned = configure freq_min freq_max c in
      elim planned.0 [
        | false ↦ pure (some false)
        | true ↦ do
          started ← start_sweep p planned.1 vga_gain lna_gain callback device
          elim started.0 [
            | false ↦ pure (some false)
            | true ↦ elim (wait (sights started.1)) [
              | none ↦ pure none
              | some (code, o) ↦ λ s. (shutdown p o.device >> pure (some code)) o.library
            ]
          ]
      ]

  -- `StartHackRFSweepService`: it takes a 0, which is success, for an error.
  unfoldable pub start_service : Action ℤ
  start_service = do
    result ← ask Call.pthread_create p.create_thread
    if is_zero result
        then pure result
        else (do joined ← ask Call.pthread_join p.join_thread; pure result)
