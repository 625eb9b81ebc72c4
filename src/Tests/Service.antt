-- ===== src/Tests/Service.antt =====
-- The check of the sweep service, with a HackRF and without one.
use hackrf.Prelude.{ℕ, ◌≡◌, refl, false, some, none, List, [], ◌∷◌, replicate}
use hackrf.Bytes.{Endian}
use hackrf.Platform.Handles.{live}
use hackrf.Errors.{success}
use hackrf.Platform.{Platform, Call, Descriptor}
use hackrf.Requests.Registers.{set_transceiver_mode}
use hackrf.Requests.Version.{usb_api_version_read, usb_api_required}
use hackrf.Requests.Info.{
  board_id_read, version_string_read, version_string_result, board_partid_serialno_read,
}
use hackrf.Requests.Boards.{get_operacake_boards}
use hackrf.Device.Transfers.{allocate_transfers, allocate_from, free_transfers, free_each}
use hackrf.Device.Streaming.{stop_rx, stop_tx, kill_transfer_thread}
use hackrf.Device.Lifecycle.{
  hackrf_init, hackrf_exit, hackrf_close, close_device, release_usb, open_setup, setup_claimed,
  set_hackrf_configuration, detach_kernel_drivers, detach_each, change_configuration,
}
use hackrf.Device.Lists.{
  DeviceList, device_list, list_devices, allocate_arrays, add_devices, add_serial, device_list_open,
  open_listed, device_list_free, free_serials,
}
use hackrf.Service.{Outcome, identify, check_device, check_devices, check_list, check_status}
use hackrf.Service.Balance.{check_status_lets_go}
use hackrf.Tests.Platforms.{working, fresh}

abbrev buffer : List ℕ
buffer = replicate 64 0

abbrev version : List ℕ
version = replicate 256 0

checks : (check_status working Endian.little version buffer fresh).0 ≡ some Outcome.checked
unfolding check_status check_list check_devices check_device identify device_list list_devices
    allocate_arrays add_devices add_serial device_list_open open_listed open_setup setup_claimed
    set_hackrf_configuration detach_kernel_drivers detach_each change_configuration
    allocate_transfers allocate_from hackrf_init hackrf_close close_device stop_rx stop_tx
    set_transceiver_mode kill_transfer_thread release_usb board_id_read version_string_read
    version_string_result usb_api_version_read usb_api_required board_partid_serialno_read
    get_operacake_boards free_transfers free_each device_list_free free_serials hackrf_exit
checks = refl

check_status_lets_go_example :
    let t = (check_status working Endian.little version buffer fresh).1 in
    (t.open_devices ≡ 0)
    × (t.context ≡ false)
    × ((log : List Call) × (t.log ≡ Call.context_exit ∷ log))
    × (live working t.log ≡ [])
unfolding live
check_status_lets_go_example =
    check_status_lets_go working Endian.little version buffer fresh refl checks

-- Another device, and the empty list of HackRFs.
abbrev other : ℕ → Descriptor
other d = record { vendor = 0x1234; product = 0x6089; serial_index = 3 }

abbrev elsewhere : Platform
elsewhere = record working { describe = λ log d. other d }

abbrev unlisted : DeviceList
unlisted = record {
  serials = none ∷ [];
  board_ids = 0 ∷ [];
  device_index = 0 ∷ [];
  devicecount = 0;
  usb_devices = 1 ∷ [];
}

starts : (hackrf_init elsewhere fresh).0 ≡ success
unfolding hackrf_init
starts = refl

lists_none : (device_list elsewhere buffer (hackrf_init elsewhere fresh).1).0 ≡ some unlisted
unfolding device_list list_devices allocate_arrays add_devices add_serial hackrf_init
lists_none = refl

finds_all :
    elsewhere.device_list (Call.calloc_list ∷ (hackrf_init elsewhere fresh).1.log) ≡ some (1 ∷ [])
finds_all = refl
