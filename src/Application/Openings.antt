-- ===== src/Application/Openings.antt =====
-- What the calls of src/lib/hackrf/hackrf.c that an application opens with leave of the handles.
use hackrf.Prelude.{ℕ, ◌≡◌, sym, Option, some, List, true, inl, inr}
use hackrf.Errors.{HackrfError}
use hackrf.Platform.{Platform}
use hackrf.Platform.Action.{Library}
use hackrf.Device.{Device}
use hackrf.Device.Lifecycle.{hackrf_open}
use hackrf.Device.Lifecycle.Setup.{Opening, Opens-Opening}
use hackrf.Device.Lifecycle.Balance.{find_handle, product_order, hackrf_open-Opens}
use hackrf.Device.Lifecycle.Serial.{open_by_serial}
use hackrf.Device.Lifecycle.Serial.Matches.{open_by_serial-Opens}
use mathlib.Core.Path.{subst}

module _ (p : Platform) where
  pub hackrf_open-Opening : (s : Library) → Opening p s (hackrf_open p true s)
  hackrf_open-Opening s = elim (hackrf_open-Opens p s) [
    | inl (none_open, e, same) ↦ rw e same
    | inr (nz, o) ↦ Opens-Opening p (find_handle p product_order s.log) s (hackrf_open p true s) o
  ]

  pub open_by_serial-Opening :
      (desired : List ℕ) (s : Library) (o : HackrfError × Option Device)
      → (open_by_serial p (some desired) true s).0 ≡ some o
      → Opening p s (o, (open_by_serial p (some desired) true s).1)
  open_by_serial-Opening desired s o e =
      let t = (open_by_serial p (some desired) true s).1 in
      elim (open_by_serial-Opens p desired s o e) [
        | inl (gone, same) ↦
            subst (λ (x : HackrfError × Option Device). Opening p s (x, t)) (sym gone) same
        | inr (handle, nz, short, m, opened) ↦ Opens-Opening p handle s (o, t) opened
      ]
