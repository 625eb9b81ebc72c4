-- ===== src/Sweep/Run/Ends.antt =====
-- How a sweep ends (src/lib/hackrf/hackrf_sweep.c, `hackrf_sweep`).
use hackrf.Prelude.{
  ℕ, ◌≡◌, ◌≢◌, refl, ◌⊎◌, inl, inr, Bool, true, false, Option, none, some, List, [], ◌∷◌, not, ◌&&◌,
  ◌||◌, ◌==◌, ◌∙◌, sym, ap, Bool-cases, arith,
}
use hackrf.Prelude.Int.{ℤ}
use hackrf.Platform.{Platform, Call}
use hackrf.Platform.Action.{Library}
use hackrf.Requests.Gains.{set_vga_gain, set_lna_gain}
use hackrf.Device.{Device}
use hackrf.Device.Transfers.{TransferArray}
use hackrf.Device.Ready.{IsReady}
use hackrf.Device.Streaming.{HackrfTransfer, is_streaming, start_rx}
use hackrf.Device.Streaming.Machine.{Step, Reach, here, next, Reach-IsReady}
use hackrf.Sweep.{Config, configure}
use hackrf.Sweep.Start.{start_sweep, begin_sweep-device, shutdown, shutdown_exits}
use hackrf.Platform.Handles.{Quiet, live, lose}
use hackrf.Sweep.Run.Handles.{start_sweep-Quiet, shutdown-loses}
use hackrf.Sweep.Run.{Sight, streams, wait, hackrf_sweep}

-- A round in which the loop ends: the device does not stream, an exit was requested, or no bytes came.
abbrev pub stops : Sight → Bool
stops o = not (streams (is_streaming o.device)) || (o.do_exit || o.byte_count == 0)

abbrev SomeStops : List Sight → Type 0
SomeStops [] = ⊥
SomeStops (o ∷ os) = (stops o ≡ true) ⊎ SomeStops os

module _ (p : Platform) (user : ℕ → HackrfTransfer → ℤ) where
  -- What the loop finds after a start that left the library `t`: the device has come from the started
  -- one in any number of steps, and nothing was opened or closed.
  pub record Follows (u : Device) (t : Library) (o : Sight) : Type 0 where
    pub reached : Reach p user u o.device
    pub quiet : Quiet p t o.library

  abbrev AllFollow : Device → Library → List Sight → Type 0
  AllFollow u t [] = Unit {0}
  AllFollow u t (o ∷ os) = Follows u t o × AllFollow u t os

  wait_ends :
      (u : Device) (t : Library) (os : List Sight)
      → SomeStops os
      → AllFollow u t os
      → (code : Bool) × ((o : Sight) × ((wait os ≡ some (code, o)) × Follows u t o))
  unfolding wait
  wait_ends u t [] s f = absurd s
  wait_ends u t (o ∷ os) s (f, fs) =
      elim (Bool-cases (streams (is_streaming o.device) && not o.do_exit)) [
        | inr e ↦ (true, (o, (ground (arith, e), f)))
        | inl e ↦ elim (Bool-cases (o.byte_count == 0)) [
          | inl z ↦ (false, (o, (ground (arith, e, z), f)))
          | inr z ↦
              let later : SomeStops os = ground (arith, e, z) in
              let (code, (o', (same, g))) = wait_ends u t os later fs in
              (code, (o', (ground (arith, e, z, same), g)))
        ]
      ]

  shutdown_ready :
      (d : Device) (s : Library)
      → IsReady d
      → d.usb_device ≢ 0
      → s.open_devices ≡ 1
      → s.context ≡ true
      → let t = (shutdown p d s).1 in
        (t.open_devices ≡ 0)
        × (t.context ≡ false)
        × ((log : List Call) × (t.log ≡ Call.context_exit ∷ log))
  shutdown_ready d s ready handle one there = find d.transfers refl
    where
      find :
          (o : Option TransferArray)
          → d.transfers ≡ o
          → let t = (shutdown p d s).1 in
            (t.open_devices ≡ 0)
            × (t.context ≡ false)
            × ((log : List Call) × (t.log ≡ Call.context_exit ∷ log))
      find none e = absurd (ground arith)
      find (some ts) e =
          let (ended, counted, dropped, last) = shutdown_exits p d ts s e handle one there in
          (counted, dropped, last)

  start_sweep-IsReady :
      (c : Config) (vga_gain lna_gain callback : ℕ) (d : Device) (s : Library)
      → IsReady d
      → let u = (start_sweep p c vga_gain lna_gain callback d s).0.1 in
        IsReady u × (u.usb_device ≡ d.usb_device)
  unfolding start_sweep
  start_sweep-IsReady c vga_gain lna_gain callback d s h =
      let s1 = (set_vga_gain p d.usb_device vga_gain s).1 in
      let s2 = (set_lna_gain p d.usb_device lna_gain s1).1 in
      let r = start_rx p d callback 0 s2 in
      let ready =
        Reach-IsReady p user {u = r.0.1} (next here (Step.starts_rx callback 0 s2 refl)) h in
      ground (arith, ready, begin_sweep-device p c r.0.1 r.1)

  -- The whole, where the loop ends in a round.
  hackrf_sweep-eq :
      (freq_min freq_max : ℕ) (c : Config) (vga_gain lna_gain callback : ℕ) (d : Device)
      (sights : Device → List Sight) (s : Library) (code : Bool) (o : Sight)
      → let planned = configure freq_min freq_max c in
        let started = (start_sweep p planned.1 vga_gain lna_gain callback d s).0 in
        planned.0 ≡ true
        → started.0 ≡ true
        → wait (sights started.1) ≡ some (code, o)
        → hackrf_sweep p freq_min freq_max c vga_gain lna_gain callback d sights s
          ≡ (some code, (shutdown p o.device o.library).1)
  unfolding hackrf_sweep
  hackrf_sweep-eq freq_min freq_max c vga_gain lna_gain callback d sights s code o ok go ends =
      ground (arith, ok, go, ends)

  -- A sweep that has started ends, if in one of the rounds of its waiting loop the device does not
  -- stream, an exit was requested or no bytes came. It has then let go of libusb: no device is counted,
  -- the context is gone, that was the last call, and the handle of the device is closed. In every round
  -- the device may have come from the started one by any steps of the application and the thread, as
  -- long as nothing else is opened or closed. The device was ready and has a handle; it was the only
  -- one open, and there was a context.
  pub hackrf_sweep_ends :
      (freq_min freq_max : ℕ) (c : Config) (vga_gain lna_gain callback : ℕ) (d : Device)
      (sights : Device → List Sight) (s : Library)
      → let planned = configure freq_min freq_max c in
        let begun = start_sweep p planned.1 vga_gain lna_gain callback d s in
        let r = hackrf_sweep p freq_min freq_max c vga_gain lna_gain callback d sights s in
        IsReady d
        → d.usb_device ≢ 0
        → s.open_devices ≡ 1
        → s.context ≡ true
        → planned.0 ≡ true
        → begun.0.0 ≡ true
        → SomeStops (sights begun.0.1)
        → AllFollow begun.0.1 begun.1 (sights begun.0.1)
        → (code : Bool) × ((r.0 ≡ some code)
            × (r.1.open_devices ≡ 0)
            × (r.1.context ≡ false)
            × ((log : List Call) × (r.1.log ≡ Call.context_exit ∷ log))
            × (live p r.1.log ≡ lose d.usb_device (live p s.log)))
  hackrf_sweep_ends freq_min freq_max c vga_gain lna_gain callback d sights s ready handle one there
        ok go some_stop all =
      let planned = (configure freq_min freq_max c).1 in
      let begun = start_sweep p planned vga_gain lna_gain callback d s in
      let u = begun.0.1 in
      let (code, (o, (ends, f))) = wait_ends u begun.1 (sights u) some_stop all in
      let (ready', same) = start_sweep-IsReady planned vga_gain lna_gain callback d s ready in
      let (ready'', same') = Reach-IsReady p user f.reached ready' in
      let held : o.device.usb_device ≡ d.usb_device = same' ∙ same in
      let quiet = start_sweep-Quiet p planned vga_gain lna_gain callback d s in
      let (counted, dropped, last) =
        shutdown_ready o.device o.library ready'' (λ z. handle (sym held ∙ z))
          (f.quiet.0 ∙ (quiet.0 ∙ one)) (f.quiet.1 ∙ (quiet.1 ∙ there)) in
      let lost = shutdown-loses p o.device o.library in
      let left : live p (shutdown p o.device o.library).1.log ≡ lose d.usb_device (live p s.log) =
        lost
        ∙ (ap (λ (h : ℕ). lose h (live p o.library.log)) held
            ∙ ap (lose d.usb_device) (f.quiet.2 ∙ quiet.2)) in
      let same'' =
        hackrf_sweep-eq freq_min freq_max c vga_gain lna_gain callback d sights s code o ok go
          ends in
      (code, rw same'' (refl, counted, dropped, last, left))
