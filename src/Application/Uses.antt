-- ===== src/Application/Uses.antt =====
-- What happens to an open device (src/lib/hackrf/hackrf.c) leaves its handle and its transfers, and opens or
-- closes nothing.
use hackrf.Prelude.{ℕ, ◌≡◌, refl, List, [], ◌∷◌, arith}
use hackrf.Prelude.Int.{ℤ}
use hackrf.Bytes.{Endian}
use hackrf.Platform.{Platform, Call}
use hackrf.Platform.Action.{Library}
use hackrf.Platform.Handles.{Quiet, live}
use hackrf.Requests.Quiet.{
  run-Quiet, set_sample_rate-Quiet, set_sample_rate_manual-Quiet, usb_api_version_read-Quiet,
}
use hackrf.Device.{Device}
use hackrf.Device.Ready.{IsReady}
use hackrf.Device.Streaming.{HackrfTransfer, Completion, transfer_callback, handle_completions}
use hackrf.Device.Streaming.Stopping.{stop_rx-Stopped, stop_tx-Stopped}
use hackrf.Device.Streaming.Machine.{Step, Reach, here, next, Reach-IsReady}
use hackrf.Application.{
  Use, starts_rx, starts_tx, stops_rx, stops_tx, requests, sets_rate, sets_rate_manual, reads_api,
  polls, use_device,
}
use hackrf.Device.Streaming.Quiet.{start_rx-Quiet, start_tx-Quiet, handle_completions-Quiet}

module _ (p : Platform) (user : ℕ → HackrfTransfer → ℤ) where
  handle_completions-Reach :
      (d : Device) (cs : List Completion) (u : Device) (s : Library)
      → Reach p user d u
      → Reach p user d (handle_completions p user u cs s).0
  unfolding handle_completions
  handle_completions-Reach d [] u s w = w
  handle_completions-Reach d (c ∷ cs) u s w =
      let r = transfer_callback p user u c s in
      handle_completions-Reach d cs r.0 r.1 (next w (Step.completes c s refl))

  -- What is left of an open device and of the library.
  abbrev pub Kept : Device → Library → Device × Library → Type 0
  Kept d s (e, t) = IsReady e × (e.usb_device ≡ d.usb_device) × Quiet p s t

  -- Whatever happens to an open device, it keeps its handle and its transfers, and nothing is opened or
  -- closed.
  pub use_device-Kept :
      (host : Endian) (act : Use) (d : Device) (s : Library)
      → IsReady d
      → Kept d s (use_device p host user act d s)
  unfolding live use_device
  use_device-Kept host (starts_rx callback ctx) d s r =
      let (ready, same) = Reach-IsReady p user (next here (Step.starts_rx callback ctx s refl)) r in
      (ready, same, start_rx-Quiet p d callback ctx s)
  use_device-Kept host (starts_tx callback ctx) d s r =
      let (ready, same) = Reach-IsReady p user (next here (Step.starts_tx callback ctx s refl)) r in
      (ready, same, start_tx-Quiet p d callback ctx s)
  use_device-Kept host stops_rx d s r = ground (arith, stop_rx-Stopped p d s)
  use_device-Kept host stops_tx d s r = ground (arith, stop_tx-Stopped p d s)
  use_device-Kept host (requests c) d s r = ground (arith, run-Quiet p host d.usb_device c s)
  use_device-Kept host (sets_rate x) d s r =
      ground (arith, set_sample_rate-Quiet p host d.usb_device x s)
  use_device-Kept host (sets_rate_manual freq_hz divider) d s r =
      ground (arith, set_sample_rate_manual-Quiet p host d.usb_device freq_hz divider s)
  use_device-Kept host reads_api d s r = ground (arith, usb_api_version_read-Quiet p d.usb_device s)
  use_device-Kept host (polls cs) d s r =
      let asked : Library = record s { log = Call.handle_events ∷ s.log } in
      ground (
        arith,
        handle_completions-Quiet p user d cs asked,
        Reach-IsReady p user (handle_completions-Reach d cs d asked here) r,
      )
