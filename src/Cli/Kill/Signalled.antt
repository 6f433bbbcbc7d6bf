-- ===== src/Cli/Kill/Signalled.antt =====
-- The way of a signal, from the command to the pty.
use hytch.Common.{
  ℕ, ◌<◌, ◌≡◌, sym, ap, ◌∙◌, none, some, List, [], ◌∷◌, ◌++◌, Bool, true, false, concat, arith,
  if◌then◌else◌, append-nil, map, length,
}
use hytch.Proto.Buffer.{BytesCrate}
use hytch.Proto.Message.{Message}
use hytch.Proto.Codec.{default_max_frame_len}
use hytch.Proto.Codec.Frame.{payload_of, frame, encode-frame}
use hytch.Proto.Codec.Stream.{receive, frames, receive-frames}
use hytch.Fanout.{Fanout}
use hytch.Fanout.Broadcast.{BroadcastCrate}
use hytch.Daemon.Signals.{SignalCrate}
use hytch.Daemon.Client.{ControlCommand, signal}
use hytch.Daemon.Client.Requests.{handle_all, handle_all-kill}
use hytch.Daemon.Loop.Queue.{loop-reaches}
use hytch.Daemon.Loop.{Daemon, Ready, signalled, call_of, loop}
use hytch.Cli.Kill.{send_control}

abbrev pub signal_number : Bool → ℕ
signal_number force = if force then 9 else 15

abbrev pub signal_meant : (s : SignalCrate) → Bool → s.Signal
signal_meant s force = if force then s.kill else s.term

send_control-frame :
    (b : BytesCrate) (n : ℕ)
    → n < 256
    → (send_control b true (Message.kill n) none).1 ≡ frames (Message.kill n ∷ [])
unfolding send_control frames
send_control-frame b n fits =
    let coded = encode-frame b (Message.kill n) [] fits in
    rw coded (ap (λ p. p.1) coded ∙ sym (append-nil (frame (Message.kill n))))

from_raw-meant :
    (s : SignalCrate) (force : Bool)
    → s.from_raw (signal_number force) ≡ some (signal_meant s force)
from_raw-meant s true = s.from_raw-kill
from_raw-meant s false = s.from_raw-term

signal_number_lt : (force : Bool) → signal_number force < 256
signal_number_lt true = omega arith
signal_number_lt false = omega arith

module _ (c : BroadcastCrate) (s : SignalCrate) where
  -- A signal that `kill` sends, `SIGKILL` if forced and else `SIGTERM`, reaches the pty: however the
  -- handler's reads cut the bytes, the handler asks the loop for that signal, and the loop does not
  -- stop before it has signalled the pty. With the round in which the request comes, it needs one round
  -- more than there were commands in its queue, which it carries out first, in order, and it does nothing else to the
  -- pty in those rounds, whatever they bring. The sends are granted.
  pub kill-signalled :
      (b : BytesCrate) (force : Bool) (chunks : List (List ℕ)) (f : Fanout c) (d : Daemon c s)
      (r : Ready c s) (rs : List (Ready c s)) (more : List (ControlCommand c s))
      → concat chunks ≡ (send_control b true (Message.kill (signal_number force)) none).1
      → r.new_controls
        ≡ (handle_all c s (receive b default_max_frame_len [] chunks).0 none f).controls ++ more
      → length rs ≡ length d.controls
      → ((loop c s (r ∷ rs) d).0 ≡ none)
        × ((loop c s (r ∷ rs) d).1.pty
            ≡ d.pty ++ (map (call_of c s) d.controls ++ (signalled (signal_meant s force) ∷ [])))
  unfolding payload_of
  kill-signalled b force chunks f d r rs more e sent same =
      let n = signal_number force in
      let small = signal_number_lt force in
      let got =
        receive-frames b default_max_frame_len chunks (Message.kill n ∷ []) (small, omega arith, tt)
          (e ∙ send_control-frame b n small) in
      let asked =
        sent
        ∙ ap (λ m. (handle_all c s m.0 none f).controls ++ more) got
        ∙ ap (λ l. l ++ more)
            (handle_all-kill c s n (signal_meant s force) none f (from_raw-meant s force)) in
      loop-reaches c s r rs d (signal (signal_meant s force)) more asked same
