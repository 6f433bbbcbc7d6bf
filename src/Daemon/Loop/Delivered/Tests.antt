-- ===== src/Daemon/Loop/Delivered/Tests.antt =====
-- Typed keys, and a push of two reads, that come while the child writes.
use hytch.Common.{
  ℕ, ◌≡◌, refl, some, none, Option, List, [], ◌∷◌, ◌++◌, true, concat, map, arith, append-nil,
}
use hytch.Proto.ListBytes.{list_bytes}
use hytch.Proto.Message.{RedrawMethod}
use hytch.Proto.Codec.{default_max_frame_len}
use hytch.Proto.Codec.Stream.{receive}
use hytch.Fanout.LogChannel.{log_channel}
use hytch.Daemon.Signals.{numbers}
use hytch.Daemon.Client.Requests.{handle_all}
use hytch.Daemon.Loop.{Ready, gave, took, round, late_branches, loop}
use hytch.Daemon.Loop.Tests.{fresh, quiet, speaks}
use hytch.Daemon.Loop.Delivered.{typed_delivered, push_delivered}
use hytch.Client.Attach.{AttachOptions, AttachOutcome, run}
use hytch.Client.Attach.Special.{UpTo}
use hytch.Daemon.Loop.Written.{input_bytes}
use hytch.Client.Attach.Happening.{Happening, typed, size, event_of, after, handshake, new_link}
use hytch.Client.Attach.Sent.{Sent, typed_all}
use hytch.Cli.Push.{push}
use hytch.Cli.Push.Received.{rounds_of}

abbrev options : AttachOptions
options = record {
  detach_char = some 0x1c;
  suspend_char = none;
  redraw_method = RedrawMethod.none;
  rows = 24;
  cols = 80;
  skip_ring = true;
}

-- An `x`, a new size, and a `y` with the detach character.
abbrev keys : List Happening
keys = typed (b'x' ∷ []) ∷ size 30 100 ∷ typed (b'y' ∷ 0x1c ∷ b'z' ∷ []) ∷ []

-- The round in which chunks come, and two in which the loop writes to the pty.
abbrev rounds_with : List (List ℕ) → List (Ready log_channel numbers)
rounds_with pushes = record (speaks (1 ∷ [])) { new_pushes = pushes } ∷ quiet ∷ quiet ∷ []

rounds_with-goes_on :
    (pushes : List (List ℕ)) → (loop log_channel numbers (rounds_with pushes) fresh).0 ≡ none
unfolding loop round late_branches
rounds_with-goes_on [] = refl
rounds_with-goes_on (x ∷ []) = refl
rounds_with-goes_on (x ∷ y ∷ pushes) = refl

-- The two chunks are written.
two_written :
    (loop log_channel numbers (rounds_with ((7 ∷ []) ∷ (8 ∷ []) ∷ [])) fresh).1.pty
    ≡ gave (1 ∷ []) ∷ took (7 ∷ []) none ∷ took (8 ∷ []) none ∷ []
unfolding loop round late_branches
two_written = refl

-- The handler's chunks.
abbrev bringing : List (List ℕ) → List (Ready log_channel numbers)
bringing chunks =
    rounds_with
      (handle_all log_channel numbers (receive list_bytes default_max_frame_len [] chunks).0 none
        fresh.fanout).pushes

bringing-goes_on :
    (chunks : List (List ℕ)) → (loop log_channel numbers (bringing chunks) fresh).0 ≡ none
bringing-goes_on chunks =
    rounds_with-goes_on
      (handle_all log_channel numbers (receive list_bytes default_max_frame_len [] chunks).0 none
        fresh.fanout).pushes

abbrev typed_wire : List (List ℕ)
typed_wire = (run list_bytes options none none (map event_of keys) new_link).1.wire ∷ []

typed_delivered_example :
    (sent : Sent options keys
      (after new_link (handshake options) [])
      (run list_bytes options none none (map event_of keys) new_link))
    × (keys_sent : List ℕ) × (outcome : Option AttachOutcome) × UpTo options.detach_char
        options.suspend_char
        (typed_all sent.used)
        keys_sent
        outcome
    × (input_bytes (loop log_channel numbers (bringing typed_wire) fresh).1
        ≡ input_bytes fresh ++ keys_sent)
typed_delivered_example =
    typed_delivered log_channel numbers list_bytes options keys typed_wire fresh.fanout
      (bringing typed_wire) fresh (omega arith, omega arith)
      (omega arith, ((omega arith, omega arith), (omega arith, tt))) (append-nil _) (append-nil _)
      (refl, (refl, (refl, tt))) (bringing-goes_on typed_wire)

abbrev input : List (List ℕ)
input = (1 ∷ 2 ∷ []) ∷ (3 ∷ []) ∷ []

abbrev pushed_wire : List (List ℕ)
pushed_wire = (push list_bytes true (rounds_of input)).1 ∷ []

push_delivered_example :
    ((push list_bytes true (rounds_of input)).0 ≡ some 0)
    × (input_bytes (loop log_channel numbers (bringing pushed_wire) fresh).1
        ≡ input_bytes fresh ++ concat input)
push_delivered_example =
    push_delivered log_channel numbers list_bytes input pushed_wire fresh.fanout
      (bringing pushed_wire) fresh (omega arith, omega arith, (omega arith, omega arith, tt))
      (append-nil _) (append-nil _) (refl, (refl, (refl, tt))) (bringing-goes_on pushed_wire)
