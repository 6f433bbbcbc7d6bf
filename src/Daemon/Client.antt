-- ===== src/Daemon/Client.antt =====
-- `handle_client` of crates/daemon/src/daemon.rs: one client's connection. What `select!` delivers is
-- an event, with whether the call that the handler makes in answer succeeds.
pub mod Stream
pub mod Requests
pub mod Reactions
mod Tests
use hytch.Common.{
  ◌≡◌, refl, ℕ, Option, none, some, List, [], ◌∷◌, ◌++◌, Bool, true, false, not, ◌&&◌,
  if◌then◌else◌,
}
use hytch.Common.Results.{Result, ok, err}
use hytch.Proto.Message.{RedrawMethod, Message}
use hytch.Proto.Codec.{InvalidData}
use hytch.Ring
use hytch.Fanout
use hytch.Fanout.{Fanout}
use hytch.Fanout.Broadcast.{BroadcastCrate}
use hytch.Daemon.Signals.{SignalCrate}

-- `broadcast::error::RecvError`.
pub data RecvError : Type 0 where
  lagged : ℕ → RecvError
  closed : RecvError

-- The two arms of the handler's `select!`. `recv_next` never answers while nothing is attached.
pub data ClientEvent : Type 0 where
  next : Option (Result InvalidData Message) → ClientEvent
  item : Result RecvError (List ℕ) → ClientEvent

module _ (c : BroadcastCrate) (s : SignalCrate) where
  pub data ControlCommand : Type 0 where
    resize : ℕ → ℕ → ControlCommand
    signal : s.Signal → ControlCommand

  -- What the handler leaves after an event: `attached` is `none` when it has returned, and else its
  -- local variable. Then the fanout, and what it wrote to the client and sent to the daemon's loop.
  pub record Reaction : Type 0 where
    pub attached : Option (Option c.Receiver)
    pub fanout : Fanout c
    pub wrote : List ℕ
    pub pushes : List (List ℕ)
    pub controls : List ControlCommand

  -- Returning, or going on with nothing done.
  abbrev pub returned : Fanout c → Reaction
  returned f = record { attached = none; fanout = f; wrote = []; pushes = []; controls = [] }

  abbrev pub going_on : Option c.Receiver → Fanout c → Reaction
  going_on a f = record { attached = some a; fanout = f; wrote = []; pushes = []; controls = [] }

  unfoldable pub on_attach : Bool → Bool → Fanout c → Reaction
  on_attach sent skip_ring f =
      let (snapshot, rx, f') = Fanout.attach c f in
      if not skip_ring && not sent
      then returned f'
      else record (going_on (some rx) f') { wrote = if skip_ring then [] else snapshot }

  unfoldable pub send_control : Bool → ControlCommand → Option c.Receiver → Fanout c → Reaction
  send_control sent command a f =
      if sent then record (going_on a f) { controls = command ∷ [] } else returned f

  -- `Signal::from_raw(signal as i32).unwrap_or(Signal::Term)`.
  pub signal_of : ℕ → s.Signal
  signal_of n = elim (s.from_raw n) [ some sig ↦ sig | none ↦ s.term ]

  unfoldable pub on_message : Bool → Message → Option c.Receiver → Fanout c → Reaction
  on_message sent (Message.attach skip_ring) a f = on_attach sent skip_ring f
  on_message sent Message.detach a f = going_on none f
  on_message sent (Message.push bytes) a f =
      if sent then record (going_on a f) { pushes = bytes ∷ [] } else returned f
  on_message sent (Message.winch rows cols) a f = send_control sent (resize rows cols) a f
  on_message sent (Message.redraw RedrawMethod.none rows cols) a f = going_on a f
  on_message sent (Message.redraw _ rows cols) a f = send_control sent (resize rows cols) a f
  on_message sent (Message.kill n) a f = send_control sent (signal (signal_of n)) a f

  -- One round of the loop.
  unfoldable pub handle_event : Bool → ClientEvent → Option c.Receiver → Fanout c → Reaction
  handle_event sent (next (some (ok m))) a f = on_message sent m a f
  handle_event sent (next (some (err e))) a f = returned f
  handle_event sent (next none) a f = returned f
  handle_event sent (item (ok bytes)) a f =
      if sent then record (going_on a f) { wrote = bytes } else returned f
  handle_event sent (item (err e)) a f = returned f

  -- What a granted `Attach` replays.
  pub on_attach-wrote :
      (skip_ring : Bool) (a : Option c.Receiver) (f : Fanout c)
      → (on_message true (Message.attach skip_ring) a f).wrote
        ≡ (if skip_ring then [] else Ring.snapshot f.ring)
  unfolding on_message on_attach Fanout.attach
  on_attach-wrote true a f = refl
  on_attach-wrote false a f = refl
