-- ===== src/Application.antt =====
-- An application of libhackrf (src/lib/hackrf/hackrf.c): any sequence of the calls of `Act` on any number of
-- devices, with what their streaming threads do in between.
pub mod Uses
pub mod Counts
pub mod Openings
pub mod Consistent
pub mod Runs
pub mod Total
use hackrf.Prelude.{
  ℕ, zero, suc, ◌+◌, Bool, true, false, Option, none, some, List, [], ◌∷◌, map, if◌then◌else◌,
}
use hackrf.Prelude.Int.{ℤ, pos}
use hackrf.Bytes.{Endian}
use hackrf.Errors.{HackrfError}
use hackrf.Platform.{Platform, Call}
use hackrf.Platform.Action.{Library, Action, ◌>>=◌, ◌>>◌, pure, ask}
use hackrf.Requests.Commands.{Command, run}
use hackrf.Requests.Version.{usb_api_version_read}
use hackrf.Requests.Info.{version_string_read}
use hackrf.Requests.Flash.{cpld_write}
use hackrf.Requests.Flash.Cpld.{chunk_count}
use hackrf.Requests.Tuning.{set_sample_rate_manual}
use hackrf.Requests.Tuning.Fraction.{Double, set_sample_rate}
use hackrf.Device.{Device}
use hackrf.Device.Streaming.{
  HackrfTransfer, Completion, fatal, start_rx, start_tx, stop_rx, stop_tx, handle_completions,
}
use hackrf.Device.Lifecycle.{hackrf_init, hackrf_exit, hackrf_open, hackrf_close}
use hackrf.Device.Lifecycle.Serial.{open_by_serial}
use hackrf.Device.Lists.{DeviceList, device_list, device_list_free, device_list_open}

-- What happens to an open device: calls, a request, and one round of the streaming thread.
pub data Use : Type 0 where
  starts_rx starts_tx : ℕ → ℕ → Use
  stops_rx stops_tx : Use
  requests : Command → Use
  -- `hackrf_set_sample_rate`, `hackrf_set_sample_rate_manual` and `hackrf_usb_api_version_read`.
  sets_rate : Double → Use
  sets_rate_manual : ℕ → ℕ → Use
  reads_api : Use
  polls : List Completion → Use

-- What the application calls. A device is named by its position among the open ones, the newest
-- first.
pub data Act : Type 0 where
  inits exits opens : Act
  opens_serial : List ℕ → Act
  opens_entry : DeviceList → ℕ → Act
  -- `hackrf_device_list`, with what its buffer holds at first.
  lists : List ℕ → Act
  frees : DeviceList → Act
  closes : ℕ → Act
  -- `hackrf_close(NULL)`
  closes_null : Act
  -- `hackrf_version_string_read`, with the memory at `version` and the length that is told, and
  -- `hackrf_cpld_write` of so many bytes.
  reads_version : ℕ → List ℕ → ℕ → Act
  writes_cpld : ℕ → ℕ → Act
  uses : ℕ → Use → Act

-- The act does not close NULL.
abbrev pub SparesNull : Act → Type 0
SparesNull closes_null = ⊥
SparesNull _ = Unit {0}

abbrev pub AllSpareNull : List Act → Type 0
AllSpareNull [] = Unit {0}
AllSpareNull (a ∷ acts) = SparesNull a × AllSpareNull acts

pub record World : Type 0 where
  pub library : Library
  pub devices : List Device

-- What an open gives, taken up.
abbrev pub adopt : List Device → (HackrfError × Option Device) × Library → World
adopt ds ((e, none), t) = record { library = t; devices = ds }
adopt ds ((e, some d), t) = record { library = t; devices = d ∷ ds }

abbrev pub pick : ℕ → List Device → Option (Device × List Device)
pick i [] = none
pick zero (d ∷ ds) = some (d, ds)
pick (suc i) (d ∷ ds) = elim (pick i ds) [ none ↦ none | some (x, rest) ↦ some (x, d ∷ rest) ]

module _ (p : Platform) (host : Endian) (user : ℕ → HackrfTransfer → ℤ) where
  unfoldable pub use_device : Use → Device → Action Device
  use_device (starts_rx callback ctx) d = do r ← start_rx p d callback ctx; pure r.1
  use_device (starts_tx callback ctx) d = do r ← start_tx p d callback ctx; pure r.1
  use_device stops_rx d = do r ← stop_rx p d; pure r.1
  use_device stops_tx d = do r ← stop_tx p d; pure r.1
  use_device (requests c) d = run p host d.usb_device c >> pure d
  use_device (sets_rate r) d = set_sample_rate p host d.usb_device r >> pure d
  use_device (sets_rate_manual freq_hz divider) d =
      set_sample_rate_manual p host d.usb_device freq_hz divider >> pure d
  use_device reads_api d = usb_api_version_read p d.usb_device >> pure d
  use_device (polls cs) d = do
    error ← ask Call.handle_events p.events
    e ← handle_completions p user d cs
    pure (if fatal error then record e { streaming = false } else e)

  -- One act. `none` is an access out of bounds, which opening by serial number and reading the version
  -- can make, or a write of the CPLD that has not ended after all chunks of the data; a position without
  -- a device names nothing.
  unfoldable pub perform : Act → World → Option World
  unfolding use_device
  perform inits w = some (record w { library = (hackrf_init p w.library).1 })
  perform exits w = some (record w { library = (hackrf_exit w.library).1 })
  perform opens w = some (adopt w.devices (hackrf_open p true w.library))
  perform (opens_serial desired) w =
      let r = open_by_serial p (some desired) true w.library in
      elim r.0 [ none ↦ none | some o ↦ some (adopt w.devices (o, r.1)) ]
  perform (opens_entry list i) w =
      some (adopt w.devices (device_list_open p (some list) (pos i) true w.library))
  perform (lists buffer) w = some (record w { library = (device_list p buffer w.library).1 })
  perform (frees list) w = some (record w { library = (device_list_free list w.library).1 })
  perform (closes i) w = elim (pick i w.devices) [
    | none ↦ some w
    | some (d, rest) ↦
        some (record { library = (hackrf_close p (some d) w.library).1; devices = rest })
  ]
  perform closes_null w = some (record w { library = (hackrf_close p none w.library).1 })
  perform (reads_version i buffer size) w = elim (pick i w.devices) [
    | none ↦ some w
    | some (d, rest) ↦
        let r = version_string_read p d.usb_device buffer size w.library in
        elim r.0 [ none ↦ none | some v ↦ some (record w { library = r.1 }) ]
  ]
  perform (writes_cpld i total) w = elim (pick i w.devices) [
    | none ↦ some w
    | some (d, rest) ↦
        let r = cpld_write p (suc (chunk_count total)) d.usb_device total w.library in
        elim r.0 [ none ↦ none | some e ↦ some (record w { library = r.1 }) ]
  ]
  perform (uses i u) w = elim (pick i w.devices) [
    | none ↦ some w
    | some (d, rest) ↦
        let r = use_device u d w.library in some (record { library = r.1; devices = r.0 ∷ rest })
  ]

  unfoldable pub perform_all : List Act → World → Option World
  unfolding perform
  perform_all [] w = some w
  perform_all (a ∷ acts) w = elim (perform a w) [ none ↦ none | some v ↦ perform_all acts v ]
