-- ===== src/Application/Runs.antt =====
-- Any sequence of acts of an application of libhackrf (src/lib/hackrf/hackrf.c), and when it can end.
use hackrf.Prelude.{
  ℕ, ◌≡◌, ◌≢◌, refl, ap, ◌∙◌, Option, none, some, List, [], ◌∷◌, length, false, arith,
}
use hackrf.Prelude.Int.{ℤ}
use hackrf.Bytes.{Endian}
use hackrf.Errors.{success}
use hackrf.Platform.{Platform}
use hackrf.Platform.Handles.{live, count}
use hackrf.Device.Streaming.{HackrfTransfer}
use hackrf.Device.Lifecycle.{hackrf_exit}
use hackrf.Device.Lifecycle.Exit.{hackrf_exit-eq, hackrf_exit-quiet}
use mathlib.Core.Option.{some-injective}
use mathlib.Core.Path.{subst}
use hackrf.Application.{Act, AllSpareNull, World, perform, perform_all}
use hackrf.Application.Counts.{no_holders}
use hackrf.Application.Consistent.{IsConsistent, perform-IsConsistent}

module _ (p : Platform) (host : Endian) (user : ℕ → HackrfTransfer → ℤ) where
  perform_all-cons :
      (a : Act) (acts : List Act) (w v : World)
      → perform_all p host user (a ∷ acts) w ≡ some v
      → (u : World) × (perform p host user a w ≡ some u) × (perform_all p host user acts u ≡ some v)
  unfolding perform_all
  perform_all-cons a acts w v e = go (perform p host user a w) refl e
    where
      go :
          (o : Option World)
          → perform p host user a w ≡ o
          → (elim o [ none ↦ none | some u ↦ perform_all p host user acts u ]) ≡ some v
          → (u : World) × (perform p host user a w ≡ some u)
            × (perform_all p host user acts u ≡ some v)
      go none e' f = absurd (ground arith)
      go (some u) e' f = (u, e', f)

  -- After any sequence of acts of `Act` that never closes NULL, on any devices and whatever libusb, the
  -- threads and the devices answer, if no act is an access out of bounds or a write of the CPLD that does
  -- not end, the library is consistent if it was before: it counts as many open devices as there are, in a
  -- uint16_t, each with its four transfers, and libusb has exactly their handles open. So no failed
  -- open, no search by serial number and no list of devices leaks a handle or a count.
  pub perform_all-IsConsistent :
      (acts : List Act) (w v : World)
      → AllSpareNull acts
      → IsConsistent p host user w
      → perform_all p host user acts w ≡ some v
      → IsConsistent p host user v
  unfolding perform_all
  perform_all-IsConsistent [] w v spare c e =
      subst (IsConsistent p host user) (some-injective w v e) c
  perform_all-IsConsistent (a ∷ acts) w v (spares, spare) c e =
      let (u, first, rest) = perform_all-cons a acts w v e in
      perform_all-IsConsistent acts u v spare
        (perform-IsConsistent p host user a w u spares c first) rest

  -- Where the library was consistent before, and after a sequence of acts of `Act` that never closes NULL,
  -- none of them an access out of bounds or a write of the CPLD that does not end, the application has no
  -- device left open, the library exits successfully and gives up its context, and no handle is left
  -- open.
  pub perform_all_exits :
      (acts : List Act) (w v : World)
      → AllSpareNull acts
      → IsConsistent p host user w
      → perform_all p host user acts w ≡ some v
      → length v.devices ≡ 0
      → ((hackrf_exit v.library).0 ≡ success)
        × ((hackrf_exit v.library).1.context ≡ false)
        × ((h : ℕ) → h ≢ 0 → count h (live p (hackrf_exit v.library).1.log) ≡ 0)
  perform_all_exits acts w v spare c e none_open =
      let done = perform_all-IsConsistent acts w v spare c e in
      let left = hackrf_exit-quiet p v.library in
      (
        ground (arith, hackrf_exit-eq v.library, done.counted),
        ground (arith, hackrf_exit-eq v.library, done.counted),
        λ h nz. ap (count h) left.1 ∙ done.held h nz ∙ no_holders h v.devices none_open,
      )
