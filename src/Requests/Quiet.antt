-- ===== src/Requests/Quiet.antt =====
-- No request of src/lib/hackrf/hackrf.c opens or closes anything.
use hackrf.Prelude.{ℕ, zero, suc, ◌+◌, ◌%◌, ◌^◌, List, ◌∷◌, if◌then◌else◌, arith}
use hackrf.Prelude.Int.{lt_nat}
use hackrf.Platform.{Platform, Call}
use hackrf.Platform.Action.{Library}
use hackrf.Platform.Handles.{Quiet, live}
use hackrf.Bytes.{Endian}
use hackrf.Requests.Version.{usb_api_version_read, usb_api_required}
use hackrf.Requests.Info.{version_string_read, version_string_result}
use hackrf.Requests.Flash.{cpld_chunks, cpld_write}
use hackrf.Requests.Flash.Cpld.{mode_request}
use hackrf.Requests.Registers.{set_transceiver_mode, set_baseband_filter_bandwidth}
use hackrf.Requests.Tuning.{set_sample_rate_manual}
use hackrf.Requests.Tuning.Fraction.{Double, set_sample_rate, scaled_rate, divider_of}
use hackrf.Requests.Boards.{get_operacake_boards}
use hackrf.Requests.Commands.{Command, run}
use hackrf.Requests.Protocol.{promised, served}
use hackrf.Requests.Refines.{run-eq-promised}

module _ (p : Platform) where
  pub version_string_read-Quiet :
      (dev : ℕ) (buffer : List ℕ) (n : ℕ) (s : Library)
      → Quiet p s (version_string_read p dev buffer n s).1
  unfolding live version_string_read version_string_result
  version_string_read-Quiet dev buffer n s = ground arith

  pub usb_api_version_read-Quiet :
      (dev : ℕ) (s : Library) → Quiet p s (usb_api_version_read p dev s).1
  unfolding live usb_api_version_read
  usb_api_version_read-Quiet dev s = ground arith

  pub set_sample_rate_manual-Quiet :
      (host : Endian) (dev freq_hz divider : ℕ) (s : Library)
      → Quiet p s (set_sample_rate_manual p host dev freq_hz divider s).1
  unfolding live set_sample_rate_manual set_baseband_filter_bandwidth
  set_sample_rate_manual-Quiet host dev freq_hz divider s = ground arith

  pub set_sample_rate-Quiet :
      (host : Endian) (dev : ℕ) (r : Double) (s : Library)
      → Quiet p s (set_sample_rate p host dev r s).1
  unfolding set_sample_rate
  set_sample_rate-Quiet host dev r s =
      set_sample_rate_manual-Quiet host dev (scaled_rate r (divider_of r)) (divider_of r) s

  cpld_chunks-Quiet :
      (fuel dev total i : ℕ) (s : Library) → Quiet p s (cpld_chunks p fuel dev total i s).1
  unfolding live cpld_chunks
  cpld_chunks-Quiet zero dev total i s = ground arith
  cpld_chunks-Quiet (suc fuel) dev total i s =
      let sent : Library = record s { log = Call.bulk_transfer dev 2 i 512 ∷ s.log } in
      ground (arith, cpld_chunks-Quiet fuel dev total ((i + 512) % 2 ^ 32) sent)

  pub cpld_write-Quiet :
      (fuel dev total : ℕ) (s : Library) → Quiet p s (cpld_write p fuel dev total s).1
  unfolding live cpld_write set_transceiver_mode
  cpld_write-Quiet fuel dev total s =
      let moded : Library = record s { log = Call.control_transfer dev mode_request ∷ s.log } in
      ground (arith, cpld_chunks-Quiet fuel dev total 0 moded)

  pub get_operacake_boards-Quiet :
      (dev : ℕ) (s : Library) → Quiet p s (get_operacake_boards p dev s).1
  unfolding live get_operacake_boards usb_api_required usb_api_version_read
  get_operacake_boards-Quiet dev s = ground arith

  served-Quiet :
      (host : Endian) (dev : ℕ) (c : Command) (s : Library) → Quiet p s (served p host dev c s).1
  unfolding live served
  served-Quiet host dev c s = ground arith

  pub run-Quiet :
      (host : Endian) (dev : ℕ) (c : Command) (s : Library) → Quiet p s (run p host dev c s).1
  unfolding live promised
  run-Quiet host dev c s =
      let asked : Library = record s {
        last_libusb_error =
            if lt_nat (p.descriptor_reply s.log dev).result 0
            then (p.descriptor_reply s.log dev).result
            else s.last_libusb_error;
        log = Call.get_device_descriptor dev ∷ s.log;
      } in
      rw (run-eq-promised p host dev c s)
        (ground (arith, served-Quiet host dev c s, served-Quiet host dev c asked))
