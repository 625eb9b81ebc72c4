-- ===== src/Requests/Refines.antt =====
-- Every command keeps its promise: the functions of src/lib/hackrf/hackrf.c against Requests/Protocol.
use hackrf.Prelude.{ℕ, ◌*◌, ◌-◌, ◌/◌, ◌%◌, ◌^◌, ◌≡◌, List, arith}
use hackrf.Prelude.Int.{ℤ, pos, negsuc}
use hackrf.Bytes.{Endian, memory-to_le}
use hackrf.Platform.{Platform}
use hackrf.Platform.Action.{Library}
use hackrf.Requests.Registers
use hackrf.Requests.Flash
use hackrf.Requests.Tuning
use hackrf.Requests.Gains
use hackrf.Requests.Gains.Masks.{lna_mask, vga_mask}
use hackrf.Requests.Info
use hackrf.Requests.InitSweep
use hackrf.Requests.InitSweep.Layout.{sweep_data-eq}
use hackrf.Requests.Boards
use hackrf.Requests.Boards.Ports.{ports_joined}
use hackrf.Requests.Commands.{Command, run}
use hackrf.Requests.Protocol.{promised}

module _ (p : Platform) (host : Endian) (dev : ℕ) where
  -- The two sides of the refinement at one command.
  abbrev Keeps : Command → Type 0
  Keeps c = (s : Library) → run p host dev c s ≡ promised p host dev c s

  set_freq-Keeps : (f : ℕ) → Keeps (Command.set_freq f)
  unfolding run promised Tuning.set_freq
  set_freq-Keeps f s = ground (
    arith,
    memory-to_le host (f / 1000000 % 2 ^ 32),
    memory-to_le host ((f - f / 1000000 % 2 ^ 32 * 1000000) % 2 ^ 32),
  )

  set_freq_explicit-Keeps :
      (padding : List ℕ) (i l path : ℕ) → Keeps (Command.set_freq_explicit padding i l path)
  unfolding run promised Tuning.set_freq_explicit
  set_freq_explicit-Keeps padding i l path s = ground arith

  set_lna_gain-Keeps : (v : ℕ) → Keeps (Command.set_lna_gain v)
  unfolding run promised Gains.set_lna_gain
  set_lna_gain-Keeps v s = ground (arith, lna_mask v)

  set_vga_gain-Keeps : (v : ℕ) → Keeps (Command.set_vga_gain v)
  unfolding run promised Gains.set_vga_gain
  set_vga_gain-Keeps v s = ground (arith, vga_mask v)

  init_sweep-Keeps :
      (fs : List ℕ) (n : ℤ) (num_bytes step_width offset style : ℕ)
      → Keeps (Command.init_sweep fs n num_bytes step_width offset style)
  unfolding run promised InitSweep.init_sweep
  init_sweep-Keeps fs (pos n) num_bytes step_width offset style s =
      ground (arith, sweep_data-eq n fs step_width offset style)
  init_sweep-Keeps fs (negsuc n) num_bytes step_width offset style s = ground arith

  set_operacake_ports-Keeps : (a pa pb : ℕ) → Keeps (Command.set_operacake_ports a pa pb)
  unfolding run promised Boards.set_operacake_ports
  set_operacake_ports-Keeps a pa pb s = ground (arith, ports_joined pa pb)

  -- Every command of `Command`, on every state, does what `promised` says: where the firmware is too old
  -- or an argument is out of range it makes no transfer, and otherwise it makes the one transfer
  -- `wire`, reads the answer by `good`, and passes on what `passed_on` says. A refusal by the device is
  -- an error of libusb, whose number is recorded, but for the three gains, which report a wrong
  -- parameter and record nothing.
  pub run-eq-promised : (c : Command) (s : Library) → run p host dev c s ≡ promised p host dev c s
  unfolding run promised Registers.set_transceiver_mode Registers.max2837_read
      Registers.max2837_write Registers.si5351c_read Registers.si5351c_write Registers.rffc5071_read
      Registers.rffc5071_write Registers.set_baseband_filter_bandwidth Flash.spiflash_erase
      Flash.spiflash_write Flash.spiflash_read Flash.spiflash_status Flash.spiflash_clear_status
      Info.board_id_read Info.board_partid_serialno_read Gains.set_amp_enable Gains.set_txvga_gain
      Gains.set_antenna_enable Boards.set_hw_sync_mode Boards.set_clkout_enable
      Boards.operacake_gpio_test Boards.get_operacake_boards Boards.reset Boards.cpld_checksum
      Boards.set_operacake_ranges
  run-eq-promised (Command.set_freq f) s = set_freq-Keeps f s
  run-eq-promised (Command.set_freq_explicit padding i l path) s =
      set_freq_explicit-Keeps padding i l path s
  run-eq-promised (Command.set_lna_gain v) s = set_lna_gain-Keeps v s
  run-eq-promised (Command.set_vga_gain v) s = set_vga_gain-Keeps v s
  run-eq-promised (Command.init_sweep fs n num_bytes step_width offset style) s =
      init_sweep-Keeps fs n num_bytes step_width offset style s
  run-eq-promised (Command.set_operacake_ports a pa pb) s = set_operacake_ports-Keeps a pa pb s
  run-eq-promised _ s = ground arith
