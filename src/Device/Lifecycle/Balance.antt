-- ===== src/Device/Lifecycle/Balance.antt =====
-- Opening and closing in balance (src/lib/hackrf/hackrf.c, `hackrf_open`, `hackrf_close`,
-- `hackrf_exit`): which handle is opened, what closing releases, and when the library can exit.
use hackrf.Prelude.{
  ap, ◌∙◌, ℕ, ◌≡◌, ◌≢◌, refl, ◌⊎◌, inl, inr, true, none, some, List, [], ◌∷◌, ◌==◌, if◌then◌else◌,
  Bool-cases, ==_iff, arith,
}
use hackrf.Errors.{not_found}
use hackrf.Platform.{Platform, Call}
use hackrf.Platform.Action.{Library}
use hackrf.Platform.Handles.{Quiet, live, gain, lose, gain_null}
use hackrf.Device.{Device}
use hackrf.Device.Transfers.{TransferArray, free_each, free_transfers}
use hackrf.Device.Streaming.{stop_rx, stop_tx}
use hackrf.Device.Streaming.Stopping.{stop_rx-Stopped, stop_tx-Stopped}
use hackrf.Device.Lifecycle.{
  hackrf_open, hackrf_close, open_setup, close_device, release_usb, count_close,
}
use hackrf.Device.Lifecycle.Setup.{Opens, Ends-Opens, open_setup-Ends}

-- The first handle that is not NULL, over the products in turn, and the calls that it takes.
abbrev pub find_handle : Platform → List ℕ → List Call → ℕ
find_handle p [] log = 0
find_handle p (pid ∷ pids) log =
    let h = p.open_with_vid_pid log 0x1d50 pid in
    if h == 0 then find_handle p pids (Call.open_device_with_vid_pid 0x1d50 pid ∷ log) else h

abbrev find_log : Platform → List ℕ → List Call → List Call
find_log p [] log = log
find_log p (pid ∷ pids) log =
    let asked = Call.open_device_with_vid_pid 0x1d50 pid ∷ log in
    if p.open_with_vid_pid log 0x1d50 pid == 0 then find_log p pids asked else asked

-- HackRF One, Jawbreaker, rad1o.
abbrev pub product_order : List ℕ
product_order = 0x6089 ∷ 0x604b ∷ 0xcc15 ∷ []

-- A log after every transfer of an array has been freed in order, newest first.
abbrev pub free_log : TransferArray → List Call → List Call
free_log [] log = log
free_log (none ∷ ts) log = free_log ts log
free_log (some t ∷ ts) log = free_log ts (Call.free_transfer t.address ∷ log)

free_each-log :
    (ts : TransferArray) (s : Library) → free_each ts s ≡ (tt, record s { log = free_log ts s.log })
unfolding free_each
free_each-log [] s = refl
free_each-log (none ∷ ts) s = free_each-log ts s
free_each-log (some t ∷ ts) s =
    free_each-log ts (record s { log = Call.free_transfer t.address ∷ s.log })

module _ (p : Platform) where
  hackrf_open-eq :
      (s : Library)
      → let h = find_handle p product_order s.log in
        let t : Library = record s { log = find_log p product_order s.log } in
        hackrf_open p true s ≡ (if h == 0 then ((not_found, none), t) else open_setup p h t)
  unfolding hackrf_open
  hackrf_open-eq s = ground arith

  find_handle-live :
      (pids : List ℕ) (log : List Call)
      → live p (find_log p pids log) ≡ gain (find_handle p pids log) (live p log)
  unfolding live gain
  find_handle-live [] log = refl
  find_handle-live (pid ∷ pids) log =
      ground (arith, find_handle-live pids (Call.open_device_with_vid_pid 0x1d50 pid ∷ log))

  -- `hackrf_open` takes the first product that gives a handle, HackRF One before Jawbreaker before
  -- rad1o, and sets that handle up: on success it is the one more that is open, and on failure it has
  -- been closed again. Where no product gives one, it reports that no device was found. A failure
  -- changes neither the count of open devices, nor the context, nor which handles are open.
  pub hackrf_open-Opens :
      (s : Library)
      → let h = find_handle p product_order s.log in
        ((h ≡ 0)
          × ((hackrf_open p true s).0 ≡ (not_found, none))
          × Quiet p s (hackrf_open p true s).1)
        ⊎ ((h ≢ 0) × Opens p h s (hackrf_open p true s))
  hackrf_open-Opens s =
      let h = find_handle p product_order s.log in
      let log = find_log p product_order s.log in
      let t : Library = record s { log = log } in
      let gained = find_handle-live product_order s.log in
      elim (Bool-cases (h == 0)) [
        | inl e ↦
            let none_open : h ≡ 0 = (==_iff h 0).0 e in
            let same : gain h (live p s.log) ≡ live p s.log =
              ap (λ (x : ℕ). gain x (live p s.log)) none_open ∙ gain_null (live p s.log) in
            rw (hackrf_open-eq s, e) (inl (none_open, refl, (refl, refl, gained ∙ same)))
        | inr e ↦
            rw (hackrf_open-eq s, e)
              (inr (
                ground arith,
                Ends-Opens p h s t (open_setup p h t) refl refl gained (open_setup-Ends p h t),
              ))
      ]

  free_log-live : (ts : TransferArray) (log : List Call) → live p (free_log ts log) ≡ live p log
  unfolding live
  free_log-live [] log = refl
  free_log-live (none ∷ ts) log = free_log-live ts log
  free_log-live (some t ∷ ts) log = free_log-live ts (Call.free_transfer t.address ∷ log)

  -- What closing does after its two stops.
  pub hackrf_close-log :
      (d : Device) (ts : TransferArray) (s : Library)
      → d.transfers ≡ some ts
      → d.usb_device ≢ 0
      → let r1 = stop_rx p d s in
        let h = d.usb_device in
        (hackrf_close p (some d) s).1.log
        ≡ Call.free_device
          ∷ Call.free_transfer_array
          ∷ free_log ts (Call.close h ∷ Call.release_interface h 0 ∷ (stop_tx p r1.0.1 r1.1).1.log)
  unfolding hackrf_close close_device release_usb free_transfers
  hackrf_close-log d ts s has handle =
      let r1 = stop_rx p d s in
      let r2 = stop_tx p r1.0.1 r1.1 in
      let t : Library = record r2.1 {
        log = Call.close d.usb_device ∷ Call.release_interface d.usb_device 0 ∷ r2.1.log;
      } in
      ground (arith, stop_rx-Stopped p d s, stop_tx-Stopped p r1.0.1 r1.1, free_each-log ts t)

  -- Closing a device with transfers and a handle, whatever stopping it answers: the last calls
  -- release the interface, close the handle, free every transfer, each once and in order, then the
  -- array and the device; one device less is counted,
  -- and the handle is no longer open.
  pub hackrf_close-releases :
      (d : Device) (ts : TransferArray) (s : Library)
      → d.transfers ≡ some ts
      → d.usb_device ≢ 0
      → let t = (hackrf_close p (some d) s).1 in
        let h = d.usb_device in
        (log : List Call) × (t.log
          ≡ Call.free_device
            ∷ Call.free_transfer_array
            ∷ free_log ts (Call.close h ∷ Call.release_interface h 0 ∷ log))
        × (t.open_devices ≡ count_close s.open_devices)
        × (t.context ≡ s.context)
        × (live p t.log ≡ lose h (live p s.log))
  unfolding live hackrf_close close_device release_usb free_transfers
  hackrf_close-releases d ts s has handle =
      let r1 = stop_rx p d s in
      let r2 = stop_tx p r1.0.1 r1.1 in
      let t : Library = record r2.1 {
        log = Call.close d.usb_device ∷ Call.release_interface d.usb_device 0 ∷ r2.1.log;
      } in
      (
        r2.1.log,
        hackrf_close-log d ts s has handle,
        ground (arith, stop_rx-Stopped p d s, stop_tx-Stopped p r1.0.1 r1.1, free_each-log ts t),
        ground (arith, stop_rx-Stopped p d s, stop_tx-Stopped p r1.0.1 r1.1, free_each-log ts t),
        ground (
          arith,
          stop_rx-Stopped p d s,
          stop_tx-Stopped p r1.0.1 r1.1,
          free_each-log ts t,
          free_log-live ts t.log,
        ),
      )
