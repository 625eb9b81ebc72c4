-- ===== src/Tests/Flight.antt =====
-- A session of streaming with four transfers of different addresses: a start, a transfer that goes
-- round, and a stop.
use hackrf.Prelude.{ℕ, ◌≡◌, ◌<◌, refl, true, Option, some, [], ◌∷◌, arith}
use hackrf.Errors.{HackrfError, success}
use hackrf.Platform.Action.{Library}
use hackrf.Platform.Handles.{count}
use hackrf.Requests.Registers.{set_transceiver_mode}
use hackrf.Device.{Device, Transfer, request_exit}
use hackrf.Device.Transfers.{prepare_each, prepare_transfers}
use hackrf.Device.Streaming.{
  Completion, create_transfer_thread, start_thread, start_rx, join_thread, transfer_callback,
}
use hackrf.Device.Streaming.Flight.{accepted}
use hackrf.Device.Streaming.Flight.Session.{Session, InFlight, Session-InFlight}
use hackrf.Tests.Platforms.{agree, working, fresh, idle}

abbrev quarter : ℕ → ℕ → Option Transfer
quarter address buffer = some (record {
  address = address;
  endpoint = 0x81;
  has_callback = true;
  buffer = buffer;
  size = 262144;
})

abbrev four : Device
four = record idle {
  transfers = some (quarter 11 0 ∷ quarter 12 262144 ∷ quarter 13 524288 ∷ quarter 14 786432 ∷ []);
}

abbrev flying : Device
flying = (start_rx working four 5 3 fresh).0.1

abbrev given : Library
given = (start_rx working four 5 3 fresh).1

abbrev finished : Completion
finished = record {
  transfer = record {
    address = 12;
    endpoint = 0x81;
    has_callback = true;
    buffer = 262144;
    size = 262144;
  };
  completed = true;
  actual_length = 262144;
}

abbrev again : Device
again = (transfer_callback working agree flying finished given).0

abbrev round : Library
round = (transfer_callback working agree flying finished given).1

starts : start_rx working four 5 3 fresh ≡ ((success, flying), given)
unfolding start_rx create_transfer_thread start_thread prepare_transfers prepare_each
    set_transceiver_mode
starts = refl

has_second : count 12 [] < accepted working 12 given.log
unfolding accepted start_rx create_transfer_thread start_thread prepare_transfers prepare_each
    set_transceiver_mode
has_second = omega arith

none_there : (a : ℕ) → accepted working a fresh.log ≡ count a []
unfolding accepted
none_there a = refl

one_round : Session working agree again round (12 ∷ [])
one_round =
    Session.comes_back finished (Session.begins_rx four 5 3 fresh none_there starts) has_second refl
      refl

-- A stop asks for the exit while that transfer is out, it comes back once more, and the thread is joined.
abbrev asked : Device
asked = request_exit again

abbrev last : Device × Library
last = transfer_callback working agree asked finished round

abbrev joined : (HackrfError × Device) × Library
joined = join_thread working last.0 last.1

has_again : count 12 (12 ∷ []) < accepted working 12 round.log
unfolding accepted start_rx create_transfer_thread start_thread prepare_transfers prepare_each
    set_transceiver_mode transfer_callback
has_again = omega arith

exit_asked : last.0.do_exit ≡ true
unfolding transfer_callback request_exit
exit_asked = refl

stopping : Session working agree joined.0.1 joined.1 (12 ∷ 12 ∷ [])
stopping =
    Session.joins
      (Session.comes_back finished (Session.asks_exit one_round refl) has_again refl refl)
      exit_asked refl refl

Session-InFlight_example : InFlight working agree joined.0.1 joined.1 (12 ∷ 12 ∷ [])
Session-InFlight_example = Session-InFlight working agree stopping
