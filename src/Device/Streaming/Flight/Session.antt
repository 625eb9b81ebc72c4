-- ===== src/Device/Streaming/Flight/Session.antt =====
-- A session of streaming (src/lib/hackrf/hackrf.c): from a start, over finished transfers, errors and stops, in
-- any order.
use hackrf.Prelude.{ℕ, ◌+◌, ◌≤◌, ◌<◌, ◌≡◌, refl, ◌⊎◌, inr, true, false, List, ◌∷◌, arith}
use hackrf.Prelude.Int.{ℤ}
use hackrf.Errors.{success}
use hackrf.Platform.{Platform}
use hackrf.Platform.Action.{Library}
use hackrf.Platform.Handles.{count}
use hackrf.Device.{Device, request_exit}
use hackrf.Device.Streaming.{join_thread}
use hackrf.Device.Streaming.{
  HackrfTransfer, Completion, start_rx, start_tx, stop_rx, stop_tx, transfer_callback,
}
use hackrf.Device.Streaming.Flight.{
  owned, accepted, Leaves, start_rx-accepted, start_tx-accepted, join_thread-Leaves,
  request_exit-Leaves, stop_rx-Leaves, stop_tx-Leaves, transfer_callback-accepted,
}

module _ (p : Platform) (user : ℕ → HackrfTransfer → ℤ) where
  -- A device and the library in a session, with the addresses of the transfers that came back, the
  -- newest first.
  pub data Session : Device → Library → List ℕ → Type 0 where
    -- A start that succeeds, while libusb has no transfer.
    begins_rx :
        {u : Device} {t : Library} {back : List ℕ} (d : Device) (callback ctx : ℕ) (s : Library)
        → ((a : ℕ) → accepted p a s.log ≡ count a back)
        → start_rx p d callback ctx s ≡ ((success, u), t)
        → Session u t back
    begins_tx :
        {u : Device} {t : Library} {back : List ℕ} (d : Device) (callback ctx : ℕ) (s : Library)
        → ((a : ℕ) → accepted p a s.log ≡ count a back)
        → start_tx p d callback ctx s ≡ ((success, u), t)
        → Session u t back
    -- A transfer that libusb has comes back.
    comes_back :
        {d u : Device} {s t : Library} {back back' : List ℕ} (c : Completion)
        → Session d s back
        → count c.transfer.address back < accepted p c.transfer.address s.log
        → transfer_callback p user d c s ≡ (u, t)
        → back' ≡ c.transfer.address ∷ back
        → Session u t back'
    stops_rx :
        {d u : Device} {s t : Library} {back : List ℕ}
        → Session d s back
        → u ≡ (stop_rx p d s).0.1
        → t ≡ (stop_rx p d s).1
        → Session u t back
    stops_tx :
        {d u : Device} {s t : Library} {back : List ℕ}
        → Session d s back
        → u ≡ (stop_tx p d s).0.1
        → t ≡ (stop_tx p d s).1
        → Session u t back
    -- A stop has asked the thread to exit, and waits for it. The rounds that the thread still runs are
    -- transfers that come back and errors, until the thread has ended and is joined.
    asks_exit :
        {d u : Device} {t : Library} {back : List ℕ}
        → Session d t back
        → u ≡ request_exit d
        → Session u t back
    joins :
        {d u : Device} {s t : Library} {back : List ℕ}
        → Session d s back
        → d.do_exit ≡ true
        → u ≡ (join_thread p d s).0.1
        → t ≡ (join_thread p d s).1
        → Session u t back
    -- The thread meets an error in `libusb_handle_events_timeout`.
    fails :
        {d u : Device} {t : Library} {back : List ℕ}
        → Session d t back
        → u ≡ record d { streaming = false }
        → Session u t back
    -- Anything that submits no transfer: requests, and what other devices do with theirs.
    passes :
        {u : Device} {s t : Library} {back : List ℕ}
        → Session u s back
        → ((a : ℕ) → accepted p a t.log ≡ accepted p a s.log)
        → Session u t back

  -- What libusb has: no more than it was given, each transfer of the device at most once, and every one
  -- of them while no exit is requested.
  pub record InFlight (d : Device) (s : Library) (back : List ℕ) : Type 0 where
    pub given : (a : ℕ) → count a back ≤ accepted p a s.log
    pub once : (a : ℕ) → accepted p a s.log ≤ count a back + owned a d.transfers
    pub all :
        (a : ℕ) → (d.do_exit ≡ true) ⊎ (accepted p a s.log ≡ count a back + owned a d.transfers)

  begun-InFlight :
      (d u : Device) (s t : Library) (back : List ℕ)
      → ((a : ℕ) → accepted p a s.log ≡ count a back)
      → ((a : ℕ)
          → (owned a u.transfers ≡ owned a d.transfers)
            × (accepted p a t.log ≡ owned a d.transfers + accepted p a s.log)
            × (u.do_exit ≡ false))
      → InFlight u t back
  begun-InFlight d u s t back none_there given = record {
    given = λ a. omega (arith, none_there a, given a);
    once = λ a. omega (arith, none_there a, given a);
    all = λ a. inr (omega (arith, none_there a, given a));
  }

  stopped-InFlight :
      (d u : Device) (s t : Library) (back : List ℕ)
      → InFlight d s back
      → ((a : ℕ) → Leaves p a d s (u, t))
      → InFlight u t back
  stopped-InFlight d u s t back w left = record {
    given = λ a. ground (arith, w.given a, left a);
    once = λ a. ground (arith, w.once a, left a);
    all = λ a. ground (arith, w.all a, left a);
  }

  back-InFlight :
      (c : Completion) (d u : Device) (s t : Library) (back : List ℕ)
      → InFlight d s back
      → count c.transfer.address back < accepted p c.transfer.address s.log
      → transfer_callback p user d c s ≡ (u, t)
      → InFlight u t (c.transfer.address ∷ back)
  back-InFlight c d u s t back w had e =
      let step = λ (a : ℕ). transfer_callback-accepted p user a d c s in
      record {
        given = λ a. ground (arith, w.given a, had, e, step a);
        once = λ a. ground (arith, w.once a, e, step a);
        all = λ a. ground (arith, w.all a, e, step a);
      }

  -- Whatever happens in a session of streaming, libusb has each transfer at most as often as it stands in
  -- the array of the device, so never twice at once where the addresses differ; and as long as no exit
  -- is requested it has all of them, so that none is lost.
  pub Session-InFlight :
      {u : Device} {t : Library} {back : List ℕ} → Session u t back → InFlight u t back
  Session-InFlight {u} {t} {back} (begins_rx d callback ctx s none_there e) =
      begun-InFlight d u s t back none_there
        (λ a. ground (arith, e, start_rx-accepted p a d callback ctx s))
  Session-InFlight {u} {t} {back} (begins_tx d callback ctx s none_there e) =
      begun-InFlight d u s t back none_there
        (λ a. ground (arith, e, start_tx-accepted p a d callback ctx s))
  Session-InFlight (comes_back {d} {u} {s} {t} {back} {back'} c w had e more) =
      rw more (back-InFlight c d u s t back (Session-InFlight w) had e)
  Session-InFlight (stops_rx {d} {u} {s} {t} {back} w e e') =
      stopped-InFlight d u s t back (Session-InFlight w)
        (λ a. ground (arith, stop_rx-Leaves p a d s))
  Session-InFlight (stops_tx {d} {u} {s} {t} {back} w e e') =
      stopped-InFlight d u s t back (Session-InFlight w)
        (λ a. ground (arith, stop_tx-Leaves p a d s))
  Session-InFlight (asks_exit {d} {u} {t} {back} w e) =
      stopped-InFlight d u t t back (Session-InFlight w)
        (λ a. ground (arith, e, request_exit-Leaves p a d t))
  Session-InFlight (joins {d} {u} {s} {t} {back} w asked e e') =
      stopped-InFlight d u s t back (Session-InFlight w)
        (λ a. ground (arith, join_thread-Leaves p a d s))
  Session-InFlight (fails {d} {u} {t} {back} w e) =
      stopped-InFlight d u t t back (Session-InFlight w) (λ a. ground arith)
  Session-InFlight (passes {u} {s} {t} {back} w same) =
      stopped-InFlight u u s t back (Session-InFlight w) (λ a. (refl, same a, inr refl))
