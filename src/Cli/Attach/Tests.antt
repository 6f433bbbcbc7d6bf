-- ===== src/Cli/Attach/Tests.antt =====
-- Attaches of a terminal whose attributes are a number, which raw mode sets to zero.
use hytch.Common.{
  ℕ, ◌≡◌, refl, Option, none, some, List, [], ◌∷◌, ◌++◌, true, false, arith, append-nil,
}
use hytch.Ring
use hytch.Fanout.{Fanout}
use hytch.Fanout.LogChannel.{log_channel}
use hytch.Daemon.Signals.{numbers}
use hytch.Daemon.Client.{on_message}
use hytch.Common.Results.{ok}
use hytch.Proto.ListBytes.{list_bytes}
use hytch.Proto.Message.{Message}
use hytch.Proto.Codec.{default_max_frame_len}
use hytch.Proto.Codec.Stream.{receive}
use hytch.Session.{ancestry_contains}
use hytch.Client.RawMode.{TermiosCrate}
use hytch.Client.Resize.{Winsize}
use hytch.Client.Attach.Happening.{Happening, typed}
use hytch.Cli.Attach.{Answers, attach_foreground, replay_log_to_stdout}
use hytch.Cli.Attach.Terminal.{Kept, attach_foreground-Kept}
use hytch.Cli.Attach.Once.{all_well, history, history_once}

abbrev cells : TermiosCrate
cells = record { Termios = ℕ; make_raw = λ n. 0 }

abbrev keys : List Happening
keys = typed (b'x' ∷ 0x1c ∷ []) ∷ []

abbrev window : Winsize
window = record { ws_row = 30; ws_col = 100; ws_xpixel = 0; ws_ypixel = 0 }

abbrev answers : Answers
answers = all_well none true (ok window) keys

abbrev socket : List ℕ
socket = b'/' ∷ b's' ∷ []

attach_foreground-Kept_example :
    Kept list_bytes cells true 7
      (attach_foreground list_bytes cells answers socket (some 0x1c) true false 7)
attach_foreground-Kept_example =
    attach_foreground-Kept list_bytes cells answers socket (some 0x1c) true false 7 refl

abbrev fanout : Fanout log_channel
fanout = record {
  ring = record { buf = 5 ∷ 6 ∷ []; head = 0; len = 2 };
  tx = record { room = 4; chunks = [] };
}

outside : ancestry_contains none socket ≡ false
outside = unfold ancestry_contains in refl

abbrev log : Option (List ℕ)
log = some (1 ∷ 2 ∷ [])

abbrev wire : List ℕ
wire =
    (attach_foreground list_bytes cells answers socket (some 0x1c) (replay_log_to_stdout log).0
      false 7).link.wire

history_once_example :
    (m : Message) × (rest : List Message) × (receive list_bytes default_max_frame_len [] (wire ∷ [])
      ≡ (m ∷ rest, none, []))
    × ((replay_log_to_stdout log).1 ++ (on_message log_channel numbers true m none fanout).wrote
        ≡ history log (Ring.snapshot fanout.ring))
history_once_example =
    history_once list_bytes cells log_channel numbers none true (ok window) keys socket (some 0x1c)
      false 7 log fanout (wire ∷ []) outside (omega arith, omega arith) (omega arith, tt)
      (append-nil wire)
