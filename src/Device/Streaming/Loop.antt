-- ===== src/Device/Streaming/Loop.antt =====
-- The callback of a finished transfer and the loop of the thread (src/lib/hackrf/hackrf.c,
-- `hackrf_libusb_transfer_callback` and `transfer_threadproc`).
use hackrf.Prelude.{
  ℕ, ◌≡◌, ◌⊎◌, Bool, true, false, not, ◌&&◌, ◌||◌, some, List, [], ◌∷◌, arith, if◌then◌else◌,
}
use hackrf.Prelude.Int.{ℤ, is_zero, lt_nat}
use hackrf.Platform.{Platform, Call}
use hackrf.Platform.Action.{Library}
use hackrf.Device.{Device, request_exit}
use hackrf.Device.Streaming.{
  HackrfTransfer, Completion, fatal, transfer_callback, resubmit, handle_completions,
  transfer_threadproc,
}

module _ (p : Platform) (user : ℕ → HackrfTransfer → ℤ) where
  -- What the application sees of a finished transfer.
  abbrev pub view : Device → Completion → HackrfTransfer
  view d c = record {
    buffer = c.transfer.buffer;
    buffer_length = c.transfer.size;
    valid_length = c.actual_length;
    rx_ctx = d.rx_ctx;
    tx_ctx = d.tx_ctx;
  }

  -- Whether the transfer goes round once more: it completed and the application agreed.
  abbrev pub again : Device → Completion → Bool
  again d c = c.completed && is_zero (user d.callback (view d c))

  -- A finished transfer is submitted again exactly if it completed and the application returned 0.
  -- An exit is requested exactly if it is not submitted, or the submission fails; no other field of
  -- the device changes.
  pub transfer_callback-eq :
      (d : Device) (c : Completion) (s : Library)
      → transfer_callback p user d c s ≡ (
        record d {
          do_exit = d.do_exit || (not (again d c) || lt_nat (p.submit s.log c.transfer.address) 0);
        },
        (if again d c
            then record s { log = Call.submit_transfer c.transfer.address ∷ s.log }
            else s),
      )
  unfolding transfer_callback resubmit request_exit
  transfer_callback-eq d c s = ground arith

  -- Completions never clear a request to exit, and do not touch `streaming`.
  handle_completions_flags :
      (cs : List Completion) (d : Device) (s : Library)
      → let u = (handle_completions p user d cs s).0 in
        ((d.do_exit ≡ false) ⊎ (u.do_exit ≡ true)) × (u.streaming ≡ d.streaming)
  unfolding handle_completions
  handle_completions_flags [] d s = ground arith
  handle_completions_flags (c ∷ cs) d s = ground (
    arith,
    transfer_callback-eq d c s,
    handle_completions_flags cs (transfer_callback p user d c s).0
        (transfer_callback p user d c s).1,
  )

  -- Some transfer of the round did not complete: an error, a time-out, a cancellation, an unplugged
  -- device.
  abbrev pub SomeFailed : List Completion → Type 0
  SomeFailed [] = ⊥
  SomeFailed (c ∷ cs) = (c.completed ≡ false) ⊎ SomeFailed cs

  failed-do_exit :
      (cs : List Completion) (d : Device) (s : Library)
      → SomeFailed cs
      → (handle_completions p user d cs s).0.do_exit ≡ true
  unfolding handle_completions
  failed-do_exit [] d s f = absurd f
  failed-do_exit (c ∷ cs) d s f = ground (
    arith,
    transfer_callback-eq d c s,
    handle_completions_flags cs (transfer_callback p user d c s).0
        (transfer_callback p user d c s).1,
    failed-do_exit cs (transfer_callback p user d c s).0 (transfer_callback p user d c s).1,
  )

  -- The state in which a round of the loop hands its completions over.
  abbrev polled : Library → Library
  polled s = record s { log = Call.handle_events ∷ s.log }

  abbrev next_device : Device → List Completion → Library → Device
  next_device d cs s =
      let u = (handle_completions p user d cs (polled s)).0 in
      if fatal (p.events s.log) then record u { streaming = false } else u

  transfer_threadproc_idle :
      (rounds : List (List Completion)) (d : Device) (s : Library)
      → (d.streaming && not d.do_exit) ≡ false
      → transfer_threadproc p user d rounds s ≡ (some d, s)
  unfolding transfer_threadproc
  transfer_threadproc_idle [] d s h = ground arith
  transfer_threadproc_idle (cs ∷ rounds) d s h = ground arith

  -- The thread ends within a round in which a transfer fails or `libusb_handle_events_timeout`
  -- reports an error other than an interruption, whatever rounds might follow; if the thread was
  -- running, that was its only round.
  pub transfer_threadproc_ends :
      (cs : List Completion) (rounds : List (List Completion)) (d : Device) (s : Library)
      → SomeFailed cs ⊎ (fatal (p.events s.log) ≡ true)
      → (u : Device) × ((transfer_threadproc p user d (cs ∷ rounds) s).0 ≡ some u)
        × ((u.streaming && not u.do_exit) ≡ false)
        × ((transfer_threadproc p user d (cs ∷ rounds) s).1 ≡ (
            if d.streaming && not d.do_exit
            then (handle_completions p user d cs (polled s)).1
            else s))
  unfolding transfer_threadproc
  transfer_threadproc_ends cs rounds d s f = (
    (if d.streaming && not d.do_exit then next_device d cs s else d),
    ground (arith, flags, failed-do_exit cs d (polled s), idle),
    ground (arith, flags, failed-do_exit cs d (polled s)),
    ground (arith, flags, failed-do_exit cs d (polled s), idle),
  )
    where
      flags :
          let u = (handle_completions p user d cs (polled s)).0 in
          ((d.do_exit ≡ false) ⊎ (u.do_exit ≡ true)) × (u.streaming ≡ d.streaming)
      flags = handle_completions_flags cs d (polled s)

      idle :
          ((next_device d cs s).streaming && not (next_device d cs s).do_exit) ≡ false
          → transfer_threadproc p user
              (next_device d cs s)
              rounds
              (handle_completions p user d cs (polled s)).1
            ≡ (some (next_device d cs s), (handle_completions p user d cs (polled s)).1)
      idle = transfer_threadproc_idle rounds (next_device d cs s) _

  -- Whenever the loop ends, streaming is off or an exit was requested.
  transfer_threadproc_stopped :
      (rounds : List (List Completion)) (d u : Device) (s : Library)
      → (transfer_threadproc p user d rounds s).0 ≡ some u
      → (u.streaming && not u.do_exit) ≡ false
  unfolding transfer_threadproc
  transfer_threadproc_stopped [] d u s e = ground arith
  transfer_threadproc_stopped (cs ∷ rounds) d u s e = ground (
    arith,
    transfer_threadproc_stopped rounds (next_device d cs s) u
        (handle_completions p user d cs (polled s)).1,
  )
