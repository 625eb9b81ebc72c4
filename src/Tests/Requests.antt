-- ===== src/Tests/Requests.antt =====
-- The requests at concrete arguments.
use hackrf.Prelude.Int.{pos}
use hackrf.Prelude.{suc, ◌≡◌, refl, none, some, [], ◌∷◌, arith}
use hackrf.Bytes.{little}
use hackrf.Errors.{success, invalid_param}
use hackrf.Platform.{Call, VendorRequest}
use hackrf.Platform.Action.{request_in}
use hackrf.Requests.Commands.{Command, run}
use hackrf.Requests.Protocol.{promised}
use hackrf.Requests.Refines.{run-eq-promised}
use hackrf.Requests.Gains.{set_lna_gain}
use hackrf.Requests.Flash.{cpld_write}
use hackrf.Requests.Flash.Cpld.{chunk_log, mode_request, cpld_write_sends, cpld_write_endless}
use hackrf.Tests.Platforms.{working, fresh}

-- A gain of 23 dB is sent as 16; 41 dB is refused, and nothing is sent.
set_lna_gain_rounds : set_lna_gain working 7 23 fresh ≡ (
  success,
  record fresh {
    log = Call.control_transfer 7 (request_in VendorRequest.set_lna_gain 0 16 1) ∷ [];
  },
)
unfolding set_lna_gain
set_lna_gain_rounds = refl

set_lna_gain_refuses : set_lna_gain working 7 41 fresh ≡ (invalid_param, fresh)
unfolding set_lna_gain
set_lna_gain_refuses = refl

run-eq-promised_example :
    run working little 7 (Command.set_operacake_ports 0 1 6) fresh
    ≡ promised working little 7 (Command.set_operacake_ports 0 1 6) fresh
run-eq-promised_example = run-eq-promised working little 7 (Command.set_operacake_ports 0 1 6) fresh

abbrev sweep : Command
sweep = Command.init_sweep (2400 ∷ 2500 ∷ []) (pos 1) 16384 20000000 7500000 1

cpld_write_sends_example : cpld_write working (suc 2) 7 1000 fresh ≡ (
  some success,
  record fresh { log = chunk_log 7 2 0 (Call.control_transfer 7 mode_request ∷ []) },
)
cpld_write_sends_example = cpld_write_sends working 7 1000 fresh (λ log k. refl) refl (omega arith)

cpld_write_endless_example : (cpld_write working 100 7 4294967295 fresh).0 ≡ none
cpld_write_endless_example =
    cpld_write_endless working 7 4294967295 100 fresh (λ log k. refl) refl (omega arith)
