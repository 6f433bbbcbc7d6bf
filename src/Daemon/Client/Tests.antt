-- ===== src/Daemon/Client/Tests.antt =====
-- A client's connection over a channel that keeps all it was sent, and signals as numbers.
use hytch.Common.{◌≡◌, refl, some, List, [], ◌∷◌, ◌++◌, true, false, arith}
use hytch.Common.Bits.{is_power_of_two}
use hytch.Ring
use hytch.Fanout
use hytch.Fanout.{Fanout}
use hytch.Fanout.LogChannel.{log_channel}
use hytch.Fanout.Delivery.{Call, run_calls}
use hytch.Daemon.Signals.{numbers}
use hytch.Daemon.Client.{on_attach, handle_event}
use hytch.Daemon.Client.Stream.{Session, Steps}

abbrev empty : Fanout log_channel
empty = record {
  ring = record { buf = 0 ∷ 0 ∷ []; head = 0; len = 0 };
  tx = record { room = 4; chunks = [] };
}

new_two : Fanout.new log_channel 2 4 ≡ some empty
unfolding Fanout.new Ring.new is_power_of_two
new_two = refl

abbrev before : List Call
before = Call.pushed (1 ∷ 2 ∷ 3 ∷ []) ∷ []

abbrev at_attach : Session log_channel numbers
at_attach =
    let r = on_attach log_channel numbers true false (run_calls log_channel empty before) in
    record { fanout = r.fanout; rx = 1; seen = r.wrote }

-- After `4` was pushed and came to the client.
abbrev at_end : Session log_channel numbers
at_end = record {
  fanout = Fanout.push log_channel at_attach.fanout (4 ∷ []);
  rx = 2;
  seen = at_attach.seen ++ (4 ∷ []);
}

one_push : Steps log_channel numbers at_attach (4 ∷ []) at_end
unfolding on_attach run_calls Fanout.push Fanout.attach handle_event
one_push =
    Steps.received (4 ∷ []) [] (Steps.pushed (4 ∷ []) Steps.start (omega arith)) refl refl refl
