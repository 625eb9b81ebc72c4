-- ===== src/Service/Connection.antt =====
-- When the check of the sweep service (src/lib/hackrf/hackrf_sweep_svc.c, `CheckHackRFStatus`) finds that
-- there is no connection.
use hackrf.Prelude.{ℕ, ◌+◌, ◌≤◌, ◌≡◌, refl, some, List, [], ◌∷◌, length, ◌↔◌, Option, Bool, arith}
use hackrf.Bytes.{Endian}
use hackrf.Errors.{success}
use hackrf.Platform.{Platform, Call, Descriptor}
use hackrf.Platform.Action.{Library}
use hackrf.Device.Lifecycle.{hackrf_init}
use hackrf.Device.Lists.{DeviceList, device_list}
use hackrf.Device.Lists.Hackrfs.{hackrfs, indices, device_list-lists}
use hackrf.Service.{Outcome, check_devices, check_list, check_status}

module _ (p : Platform) where
  check_list_no_connection :
      (host : Endian) (l : DeviceList) (version : List ℕ) (s : Library)
      → ((check_list p host (some l) version s).0 ≡ some Outcome.no_connection)
        ↔ (l.devicecount ≡ 0)
  unfolding check_list
  check_list_no_connection host l version s =
      find (check_devices p host l l.devicecount 0 version s).0 refl
    where
      find :
          (r : Option Bool)
          → (check_devices p host l l.devicecount 0 version s).0 ≡ r
          → ((check_list p host (some l) version s).0 ≡ some Outcome.no_connection)
            ↔ (l.devicecount ≡ 0)
      find r e = ground (arith, e)

  indices_none :
      (desc : ℕ → Descriptor) (i : ℕ) (ds : List ℕ)
      → (length (indices p desc i ds) ≡ 0) ↔ (hackrfs p desc ds ≡ [])
  indices_none desc i [] = ground arith
  indices_none desc i (d ∷ ds) = ground (arith, indices_none desc (i + 1) ds)

  -- Where the library can start and list the devices, of which there are at most 256 and each has one
  -- descriptor, the check reports that there is no connection exactly if no device is a HackRF.
  check_status-no_connection_iff :
      (desc : ℕ → Descriptor) (stable : (log : List Call) (d : ℕ) → p.describe log d ≡ desc d)
      (host : Endian) (version buffer ds : List ℕ) (s : Library) (l : DeviceList)
      → let u = (hackrf_init p s).1 in
        (hackrf_init p s).0 ≡ success
        → p.device_list (Call.calloc_list ∷ u.log) ≡ some ds
        → length ds ≤ 256
        → (device_list p buffer u).0 ≡ some l
        → ((check_status p host version buffer s).0 ≡ some Outcome.no_connection)
          ↔ (hackrfs p desc ds ≡ [])
  unfolding check_status
  check_status-no_connection_iff desc stable host version buffer ds s l ok found few e =
      let u = (hackrf_init p s).1 in
      let (devices, counted, places, boards) =
        device_list-lists p desc stable ds buffer u l found few e in
      let r = device_list p buffer u in
      ground
        (arith, ok, e, counted, indices_none desc 0 ds, check_list_no_connection host l version r.1)
