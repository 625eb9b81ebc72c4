-- ===== src/Requests/Commands.antt =====
-- One type for the requests of src/lib/hackrf/hackrf.c that make one control transfer, and what each of
-- them is called with. `run` is the library's function for a command, with its result code and what it writes through a pointer.
use hackrf.Prelude.{ℕ, Option, none, some, List, [], ◌∷◌}
use hackrf.Prelude.Int.{ℤ}
use hackrf.Bytes.{Endian}
use hackrf.Errors.{HackrfError}
use hackrf.Platform.{Platform}
use hackrf.Platform.Action.{Action, ◌>>=◌, pure}
use hackrf.Requests.Registers
use hackrf.Requests.Registers.{TransceiverMode}
use hackrf.Requests.Flash
use hackrf.Requests.Tuning
use hackrf.Requests.Gains
use hackrf.Requests.Info
use hackrf.Requests.InitSweep
use hackrf.Requests.Boards

pub data Command : Type 0 where
  set_transceiver_mode : TransceiverMode → Command
  max2837_read si5351c_read rffc5071_read : ℕ → Command
  max2837_write si5351c_write rffc5071_write : ℕ → ℕ → Command
  set_baseband_filter_bandwidth : ℕ → Command
  spiflash_erase spiflash_status spiflash_clear_status : Command
  spiflash_write : ℕ → ℕ → List ℕ → Command
  spiflash_read : ℕ → ℕ → Command
  board_id_read board_partid_serialno_read : Command
  set_freq : ℕ → Command
  set_freq_explicit : List ℕ → ℕ → ℕ → ℕ → Command
  set_amp_enable set_antenna_enable set_lna_gain set_vga_gain set_txvga_gain : ℕ → Command
  set_hw_sync_mode set_clkout_enable operacake_gpio_test : ℕ → Command
  init_sweep : List ℕ → ℤ → ℕ → ℕ → ℕ → ℕ → Command
  get_operacake_boards reset cpld_checksum : Command
  set_operacake_ports : ℕ → ℕ → ℕ → Command
  set_operacake_ranges : List ℕ → ℕ → Command

-- Functions with nothing but a result code, and those that write one number, or several, where they
-- succeed.
abbrev plain : Action HackrfError → Action (HackrfError × List ℕ)
plain m = do e ← m; pure (e, [])

abbrev one : Option ℕ → List ℕ
one none = []
one (some x) = x ∷ []

abbrev several : Option (List ℕ) → List ℕ
several none = []
several (some xs) = xs

abbrev with_one : Action (HackrfError × Option ℕ) → Action (HackrfError × List ℕ)
with_one m = do r ← m; pure (r.0, one r.1)

abbrev with_several : Action (HackrfError × Option (List ℕ)) → Action (HackrfError × List ℕ)
with_several m = do r ← m; pure (r.0, several r.1)

module _ (p : Platform) (host : Endian) (dev : ℕ) where
  unfoldable pub run : Command → Action (HackrfError × List ℕ)
  run (Command.set_transceiver_mode m) = plain (Registers.set_transceiver_mode p dev m)
  run (Command.max2837_read r) = Registers.max2837_read p dev r
  run (Command.si5351c_read r) = with_one (Registers.si5351c_read p dev r)
  run (Command.rffc5071_read r) = Registers.rffc5071_read p dev r
  run (Command.max2837_write r v) = plain (Registers.max2837_write p dev r v)
  run (Command.si5351c_write r v) = plain (Registers.si5351c_write p dev r v)
  run (Command.rffc5071_write r v) = plain (Registers.rffc5071_write p dev r v)
  run (Command.set_baseband_filter_bandwidth f) =
      plain (Registers.set_baseband_filter_bandwidth p dev f)
  run Command.spiflash_erase = plain (Flash.spiflash_erase p dev)
  run Command.spiflash_status = Flash.spiflash_status p dev
  run Command.spiflash_clear_status = plain (Flash.spiflash_clear_status p dev)
  run (Command.spiflash_write a n contents) = plain (Flash.spiflash_write p dev a n contents)
  run (Command.spiflash_read a n) = Flash.spiflash_read p dev a n
  run Command.board_id_read = Info.board_id_read p dev
  run Command.board_partid_serialno_read = with_several (Info.board_partid_serialno_read p host dev)
  run (Command.set_freq f) = plain (Tuning.set_freq p host dev f)
  run (Command.set_freq_explicit padding i l path) =
      plain (Tuning.set_freq_explicit p host dev padding i l path)
  run (Command.set_amp_enable v) = plain (Gains.set_amp_enable p dev v)
  run (Command.set_antenna_enable v) = plain (Gains.set_antenna_enable p dev v)
  run (Command.set_lna_gain v) = plain (Gains.set_lna_gain p dev v)
  run (Command.set_vga_gain v) = plain (Gains.set_vga_gain p dev v)
  run (Command.set_txvga_gain v) = plain (Gains.set_txvga_gain p dev v)
  run (Command.set_hw_sync_mode v) = plain (Boards.set_hw_sync_mode p dev v)
  run (Command.set_clkout_enable v) = plain (Boards.set_clkout_enable p dev v)
  run (Command.operacake_gpio_test a) = Boards.operacake_gpio_test p dev a
  run (Command.init_sweep fs n num_bytes step_width offset style) =
      plain (InitSweep.init_sweep p dev fs n num_bytes step_width offset style)
  run Command.get_operacake_boards = Boards.get_operacake_boards p dev
  run Command.reset = plain (Boards.reset p dev)
  run Command.cpld_checksum = with_one (Boards.cpld_checksum p host dev)
  run (Command.set_operacake_ports a pa pb) = plain (Boards.set_operacake_ports p dev a pa pb)
  run (Command.set_operacake_ranges rs n) = plain (Boards.set_operacake_ranges p dev rs n)
