-- ===== src/Requests/Bounds.antt =====
-- What goes over the wire fits where libusb and the device put it: `wValue`, `wIndex` and `wLength`
-- are uint16_t, and an OUT transfer reads `wLength` bytes.
use hackrf.Prelude.{ℕ, ◌*◌, ◌^◌, ◌≤◌, ◌<◌, ◌≡◌, ◌++◌, List, [], ◌∷◌, length}
use hackrf.Prelude.Int.{pos}
use hackrf.Bytes.{IsBytes}
use hackrf.Platform.{Platform, Call, ControlRequest, Direction, endpoint_in, endpoint_out}
use hackrf.Platform.Action.{Library}
use hackrf.Requests.Commands.{Command}

-- The arguments fit their C types, and pointers point to as much data as the call says.
abbrev pub IsTyped : Command → Type 0
IsTyped (Command.max2837_read r) = r < 2 ^ 8
IsTyped (Command.si5351c_read r) = r < 2 ^ 16
IsTyped (Command.rffc5071_read r) = r < 2 ^ 8
IsTyped (Command.max2837_write r v) = (r < 2 ^ 8) × (v < 2 ^ 16)
IsTyped (Command.si5351c_write r v) = (r < 2 ^ 16) × (v < 2 ^ 16)
IsTyped (Command.rffc5071_write r v) = (r < 2 ^ 8) × (v < 2 ^ 16)
IsTyped (Command.set_baseband_filter_bandwidth f) = f < 2 ^ 32
IsTyped (Command.spiflash_write a n contents) =
    (a < 2 ^ 32) × (n < 2 ^ 16) × IsBytes contents × (length contents ≡ n)
IsTyped (Command.spiflash_read a n) = (a < 2 ^ 32) × (n < 2 ^ 16)
IsTyped (Command.set_freq f) = f < 2 ^ 64
IsTyped (Command.set_freq_explicit padding i l path) =
    (i < 2 ^ 64) × (l < 2 ^ 64) × IsBytes padding × (length padding ≡ 7)
IsTyped (Command.set_amp_enable v) = v < 2 ^ 8
IsTyped (Command.set_antenna_enable v) = v < 2 ^ 8
IsTyped (Command.set_hw_sync_mode v) = v < 2 ^ 8
IsTyped (Command.set_clkout_enable v) = v < 2 ^ 8
IsTyped (Command.operacake_gpio_test a) = a < 2 ^ 8
IsTyped (Command.init_sweep fs (pos n) num_bytes step_width offset style) = n * 2 ≤ length fs
IsTyped (Command.set_operacake_ports a pa pb) = (a < 2 ^ 8) × (pa < 2 ^ 8) × (pb < 2 ^ 8)
IsTyped (Command.set_operacake_ranges rs n) = (n < 2 ^ 8) × IsBytes rs × (length rs ≡ n)
IsTyped _ = Unit {0}

-- An OUT transfer sends as many bytes as it says.
abbrev Carries : Direction → List ℕ → ℕ → Type 0
Carries endpoint_in payload size = payload ≡ []
Carries endpoint_out payload size = length payload ≡ size

pub record Fits (r : ControlRequest) : Type 0 where
  pub value : r.value < 2 ^ 16
  pub index : r.index < 2 ^ 16
  pub size : r.size < 2 ^ 16
  pub octets : IsBytes r.payload
  pub carries : Carries r.direction r.payload r.size

-- Every control transfer among some calls fits.
abbrev CallFits : Call → Type 0
CallFits (Call.control_transfer dev r) = Fits r
CallFits _ = Unit {0}

abbrev AllFit : List Call → Type 0
AllFit [] = Unit {0}
AllFit (c ∷ cs) = CallFits c × AllFit cs

-- The calls that a function made are in front of the log.
pub record Sends (s t : Library) : Type 0 where
  pub calls : List Call
  pub added : t.log ≡ calls ++ s.log
  pub fit : AllFit calls
