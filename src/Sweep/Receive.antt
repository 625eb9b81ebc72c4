-- ===== src/Sweep/Receive.antt =====
-- src/lib/hackrf/hackrf_sweep.c: what a run of the sweep receives, transfer after transfer, and the signals that
-- come in between.
pub mod Sweeps
use hackrf.Prelude.{ℕ, true, List, [], ◌∷◌, ◌++◌}
use hackrf.Sweep.Blocks.{Settings, Progress, Spectrum, rx_callback}

-- `sigint_callback_handler`: the message is left out.
abbrev pub sigint_callback_handler : Progress → Progress
sigint_callback_handler p = record p { do_exit = true }

-- A call of `rx_callback`, with the bytes of the transfer, the time of day and `valid_length`; or a signal
-- that ends the sweep.
pub data Event : Type 0 where
  transfer : (bytes : ℕ → ℕ) (now_s now_us valid_length : ℕ) → Event
  signal : Event

-- A run: the globals after it, and all blocks that were transformed.
unfoldable pub receive_all : Settings → List Event → Progress → Progress × List Spectrum
receive_all set [] p = (p, [])
receive_all set (transfer bytes now_s now_us valid_length ∷ es) p =
    let (q, xs) = (rx_callback set bytes now_s now_us valid_length p).1 in
    let rest = receive_all set es q in (rest.0, xs ++ rest.1)
receive_all set (signal ∷ es) p = receive_all set es (sigint_callback_handler p)
