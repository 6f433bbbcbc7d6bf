-- ===== src/Daemon/System.antt =====
-- The tasks of crates/daemon/src/daemon.rs together: the loop of `run`, and a task of `handle_client` for
-- every connection, interleaved in any order over the fanout and the two queues.
pub mod View
pub mod Lagging
pub mod Heard
pub mod Serves
pub mod Invariant
pub mod Room
pub mod Queues
pub mod Screen
pub mod Tests
use hytch.Common.{
  ℕ, ◌<◌, ◌≤◌, ◌≡◌, Option, none, some, List, [], ◌∷◌, ◌++◌, Bool, true, false, length, concat,
  ◌==◌, if◌then◌else◌,
}
use hytch.Common.Results.{Result, ok, err}
use hytch.Proto.Message.{Message}
use hytch.Proto.Codec.{InvalidData}
use hytch.Fanout.{Fanout}
use hytch.Fanout.Broadcast.{BroadcastCrate}
use hytch.Daemon.Signals.{SignalCrate}
use hytch.Daemon.Client.{RecvError, ControlCommand, ClientEvent, next, item, Reaction, handle_event}
use hytch.Daemon.Client.Reactions.{offered, asked}
use hytch.Daemon.Loop.{Daemon, Ready, start, round}
use hytch.Daemon.Loop.Output.{output_of}

-- The room of the two channels.
abbrev pub control_room : ℕ
control_room = 16

abbrev pub push_room : ℕ
push_room = 256

module _ (c : BroadcastCrate) (s : SignalCrate) where
  -- A connection's task: its local variable, `none` once it has returned, and all that it has written.
  -- The other fields are only history: of its last `Attach` what was written before, how much output there
  -- had been, and whether the ring was to be skipped; and the chunks and commands it was granted to send.
  pub record Handler : Type 0 where
    pub attached : Option (Option c.Receiver)
    pub wrote : List ℕ
    pub earlier : List ℕ
    pub joined : ℕ
    pub skipped : Bool
    pub pushed : List (List ℕ)
    pub commanded : List (ControlCommand c s)

  -- The connections are numbered in the order in which they were accepted.
  pub record System : Type 0 where
    pub daemon : Daemon c s
    pub handlers : ℕ → Handler

  abbrev pub idle : Handler
  idle = record {
    attached = some none;
    wrote = [];
    earlier = [];
    joined = 0;
    skipped = false;
    pushed = [];
    commanded = [];
  }

  abbrev pub init : Daemon c s → System
  init d = record { daemon = d; handlers = λ i. idle }

  -- All that was read from the pty.
  abbrev pub output : Daemon c s → List ℕ
  output d = concat (output_of d.pty)

  unfoldable pub update : (ℕ → Handler) → ℕ → Handler → ℕ → Handler
  update handlers i h j = if i == j then h else handlers j

  -- A task waits until there is room for what it sends.
  abbrev pub Fits : Daemon c s → Type 0
  Fits d = (length d.controls ≤ control_room) × (length d.pushes ≤ push_room)

  abbrev pub remember : Option (Result InvalidData Message) → ℕ → Handler → Handler
  remember (some (ok (Message.attach skip_ring))) n h = record h {
    earlier = h.wrote;
    joined = n;
    skipped = skip_ring;
  }
  remember _ n h = h

  abbrev pub note : List (List ℕ) → List (ControlCommand c s) → Handler → Handler
  note chunks commands h = record h {
    pushed = h.pushed ++ chunks;
    commanded = h.commanded ++ commands;
  }

  abbrev pub react : Reaction c s → Handler → Handler
  react r h = record h { attached = r.attached; wrote = h.wrote ++ r.wrote }

  abbrev pub sending : Reaction c s → Daemon c s → Daemon c s
  sending r d = record d {
    fanout = r.fanout;
    controls = d.controls ++ r.controls;
    pushes = d.pushes ++ r.pushes;
  }

  abbrev pub reacting : System → ℕ → Handler → Reaction c s → System
  reacting t i h r = record {
    daemon = sending r t.daemon;
    handlers = update t.handlers i (react r h);
  }

  -- A connection's task after a message, or the end of its stream.
  abbrev pub taken :
      System → ℕ → Bool → Option (Result InvalidData Message) → Option c.Receiver → System
  taken t i sent o a =
      reacting t i
        (note (offered sent o) (asked c s sent o)
          (remember o (length (output t.daemon)) (t.handlers i)))
        (handle_event c s sent (next o) a t.daemon.fanout)

  -- After a chunk of output.
  abbrev pub given : System → ℕ → Bool → c.Receiver → System
  given t i sent rx =
      let (bytes, rx') = c.recv t.daemon.fanout.tx rx in
      reacting t i (t.handlers i)
        (handle_event c s sent (item (ok bytes)) (some rx') t.daemon.fanout)

  -- After an error of its receiver.
  abbrev pub failing : System → ℕ → Bool → c.Receiver → RecvError → System
  failing t i sent rx e =
      reacting t i (t.handlers i) (handle_event c s sent (item (err e)) (some rx) t.daemon.fanout)

  -- One step: a round of the loop, or of a connection's task.
  pub data Step (t : System) : System → Type 0 where
    loops : (r : Ready c s) → Step t (record t { daemon = (round c s r t.daemon).1 })
    takes :
        (i : ℕ) (sent : Bool) (o : Option (Result InvalidData Message)) (a : Option c.Receiver)
        → i < t.daemon.clients
        → (t.handlers i).attached ≡ some a
        → Fits (taken t i sent o a).daemon
        → Step t (taken t i sent o a)
    gives :
        (i : ℕ) (sent : Bool) (rx : c.Receiver) (d : List ℕ) (ds : List (List ℕ))
        → i < t.daemon.clients
        → (t.handlers i).attached ≡ some (some rx)
        → c.backlog t.daemon.fanout.tx rx ≡ d ∷ ds
        → Step t (given t i sent rx)
    fails :
        (i : ℕ) (sent : Bool) (rx : c.Receiver) (e : RecvError)
        → i < t.daemon.clients
        → (t.handlers i).attached ≡ some (some rx)
        → Step t (failing t i sent rx e)

  -- From a daemon that has just started.
  pub data Reach (d : Daemon c s) : System → Type 0 where
    here : Reach d (init d)
    later : {t u : System} → Reach d t → Step t u → Reach d u
