-- ===== src/Service/Globals.antt =====
-- What the calls that `CheckHackRFStatus` (src/lib/hackrf/hackrf_sweep_svc.c) makes do to the count of
-- open devices and to the context.
use hackrf.Prelude.{ℕ, List, arith}
use hackrf.Bytes.{Endian}
use hackrf.Platform.{Platform}
use hackrf.Platform.Action.{Library}
use hackrf.Platform.Handles.{Quiet, live}
use hackrf.Requests.Quiet.{version_string_read-Quiet, get_operacake_boards-Quiet}
use hackrf.Requests.Version.{usb_api_version_read}
use hackrf.Requests.Info.{board_id_read, version_string_read, board_partid_serialno_read}
use hackrf.Service.{identify}

module _ (p : Platform) where
  pub identify-Quiet :
      (host : Endian) (dev : ℕ) (version : List ℕ) (s : Library)
      → Quiet p s (identify p host dev version s).1
  unfolding live identify board_id_read usb_api_version_read board_partid_serialno_read
  identify-Quiet host dev version s =
      let s1 = (board_id_read p dev s).1 in
      let s2 = (version_string_read p dev version 255 s1).1 in
      let s3 = (usb_api_version_read p dev s2).1 in
      let s4 = (board_partid_serialno_read p host dev s3).1 in
      ground
        (arith, version_string_read-Quiet p dev version 255 s1, get_operacake_boards-Quiet p dev s4)
