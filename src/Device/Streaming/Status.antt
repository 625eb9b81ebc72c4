-- ===== src/Device/Streaming/Status.antt =====
-- What `hackrf_is_streaming` (src/lib/hackrf/hackrf.c) can say before and after each step of the application or
-- of the streaming thread.
use hackrf.Prelude.{ℕ, ◌≡◌, ◌⊎◌}
use hackrf.Prelude.Int.{ℤ}
use hackrf.Errors.{
  HackrfError, hackrf_true, streaming_thread_err, streaming_stopped, streaming_exit_called,
}
use hackrf.Platform.{Platform}
use hackrf.Device.{Device}
use hackrf.Device.Streaming.{HackrfTransfer}
use hackrf.Device.Streaming.Machine.{
  Step, starts_rx, starts_tx, stops_rx, stops_tx, asks_exit, completes, fails,
}

-- A start leaves the status, or takes it from "no thread" to streaming.
abbrev pub Started : HackrfError → HackrfError → Type 0
Started e f = (f ≡ e) ⊎ ((e ≡ streaming_thread_err) × (f ≡ hackrf_true))

-- A request to exit ends streaming.
abbrev pub Asked : HackrfError → HackrfError → Type 0
Asked e f = (f ≡ e) ⊎ ((e ≡ hackrf_true) × (f ≡ streaming_exit_called))

-- An error of libusb stops streaming, whether an exit was requested or not.
abbrev pub Failed : HackrfError → HackrfError → Type 0
Failed e f = (f ≡ e) ⊎ (((e ≡ hackrf_true) ⊎ (e ≡ streaming_exit_called)) × (f ≡ streaming_stopped))

module _ (p : Platform) (user : ℕ → HackrfTransfer → ℤ) where
  -- What each kind of step may do to the status.
  unfoldable pub Allowed : {d u : Device} → Step p user d u → HackrfError → HackrfError → Type 0
  Allowed (starts_rx callback ctx s e) = Started
  Allowed (starts_tx callback ctx s e) = Started
  Allowed (stops_rx s e) = λ e f. (f ≡ streaming_thread_err) ⊎ Asked e f
  Allowed (stops_tx s e) = λ e f. (f ≡ streaming_thread_err) ⊎ Asked e f
  Allowed (asks_exit e) = Asked
  Allowed (completes c s e) = Asked
  Allowed (fails e) = Failed
