-- ===== src/Service.antt =====
-- src/lib/hackrf/hackrf_sweep_svc.c: `CheckHackRFStatus`, which opens every HackRF in turn and asks what
-- it is. What it prints is left out.
pub mod Globals
pub mod Balance
pub mod Connection
use hackrf.Prelude.{
  ℕ, zero, suc, ◌+◌, Bool, true, false, Option, none, some, List, ◌∷◌, ◌||◌, ◌==◌, if◌then◌else◌,
}
use hackrf.Prelude.Int.{pos}
use hackrf.Bytes.{Endian}
use hackrf.Errors.{HackrfError, usb_api_version, ok}
use hackrf.Platform.{Platform}
use hackrf.Platform.Action.{Action, ◌>>=◌, ◌>>◌, pure}
use hackrf.Requests.Version.{usb_api_version_read}
use hackrf.Requests.Info.{board_id_read, version_string_read, board_partid_serialno_read}
use hackrf.Requests.Boards.{get_operacake_boards}
use hackrf.Device.{Device}
use hackrf.Device.Lifecycle.{hackrf_init, hackrf_exit, hackrf_close}
use hackrf.Device.Lists.{DeviceList, device_list, device_list_free, device_list_open}

-- How the check returns: EXIT_FAILURE, EXIT_FAILURE with `bNoConnection` set, or EXIT_SUCCESS.
pub data Outcome : Type 0 where
  failure no_connection checked : Outcome

-- `(result != HACKRF_SUCCESS) && (result != HACKRF_ERROR_USB_API_VERSION)` is a failure.
abbrev pub tolerated : HackrfError → Bool
tolerated usb_api_version = true
tolerated e = ok e

module _ (p : Platform) where
  -- What the body of the loop asks of an open device: whether it goes on, and the text in `version`.
  -- `none` is an access out of bounds, here and below.
  unfoldable pub identify : Endian → ℕ → List ℕ → Action (Option (Bool × List ℕ))
  identify host dev version = do
    board ← board_id_read p dev
    elim (ok board.0) [
      | false ↦ pure (some (false, version))
      | true ↦ do
        r ← version_string_read p dev version 255
        elim r [
          | none ↦ pure none
          | some (e, text) ↦ elim (ok e) [
            | false ↦ pure (some (false, text))
            | true ↦ do
              api ← usb_api_version_read p dev
              elim (ok api.0) [
                | false ↦ pure (some (false, text))
                | true ↦ do
                  part ← board_partid_serialno_read p host dev
                  elim (ok part.0) [
                    | false ↦ pure (some (false, text))
                    | true ↦ do
                      cakes ← get_operacake_boards p dev
                      pure (some (tolerated cakes.0, text))
                  ]
              ]
          ]
        ]
    ]

  -- The device at `i`, once it is open; an error of `hackrf_close` is printed only.
  unfoldable pub check_device : Endian → Device → List ℕ → Action (Option (Bool × List ℕ))
  unfolding identify
  check_device host device version = do
    r ← identify host device.usb_device version
    elim r [
      | none ↦ pure none
      | some (false, text) ↦ pure (some (false, text))
      | some (true, text) ↦ hackrf_close p (some device) >> pure (some (true, text))
    ]

  -- The loop, with `n` devices left, from `i` on: whether it reaches its end. A device that cannot be
  -- opened is passed over.
  unfoldable pub check_devices : Endian → DeviceList → ℕ → ℕ → List ℕ → Action (Option Bool)
  unfolding check_device
  check_devices host list zero i version = pure (some true)
  check_devices host list (suc n) i version = do
    opened ← device_list_open p (some list) (pos i) true
    elim (ok opened.0) [
      | false ↦ check_devices host list n (i + 1) version
      | true ↦ elim opened.1 [
        | none ↦ pure none
        | some device ↦ do
          r ← check_device host device version
          elim r [
            | none ↦ pure none
            | some (false, text) ↦ pure (some false)
            | some (true, text) ↦ check_devices host list n (i + 1) text
          ]
      ]
    ]

  -- After `hackrf_device_list`: a NULL list is read all the same.
  unfoldable pub check_list : Endian → Option DeviceList → List ℕ → Action (Option Outcome)
  unfolding check_devices
  check_list host none version = pure none
  check_list host (some list) version = elim (list.devicecount == 0) [
    | true ↦ pure (some Outcome.no_connection)
    | false ↦ do
      r ← check_devices host list list.devicecount 0 version
      elim r [
        | none ↦ pure none
        | some false ↦ pure (some Outcome.failure)
        | some true ↦ do device_list_free list; e ← hackrf_exit; pure (some Outcome.checked)
      ]
  ]

  -- `CheckHackRFStatus`. `version` is the array of 256 characters, and `buffer` the one of
  -- `hackrf_device_list`; both are unset at first.
  unfoldable pub check_status : Endian → List ℕ → List ℕ → Action (Option Outcome)
  unfolding check_list
  check_status host version buffer = do
    e ← hackrf_init p
    elim (ok e) [
      | false ↦ pure (some Outcome.failure)
      | true ↦ do list ← device_list p buffer; check_list host list version
    ]
