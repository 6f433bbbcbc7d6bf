-- ===== src/Daemon/System/Room.antt =====
-- The two queues of crates/daemon/src/daemon.rs, at every point of every interleaving.
use hytch.Common.{ℕ, ◌≤◌, ◌≡◌, ap, Option, some, Bool, true, false, length, append-nil, arith}
use hytch.Fanout.Broadcast.{BroadcastCrate}
use hytch.Daemon.Signals.{SignalCrate}
use hytch.Daemon.Client.{resize, signal}
use hytch.Daemon.Client.Reactions.{handle_event-item, handle_event-lost}
use hytch.Daemon.Loop.{ShutdownReason, Daemon, Ready, start}
use hytch.Daemon.Loop.Step.{Step, round-Step}
use hytch.Daemon.Loop.Output.{start_empty}
use hytch.Daemon.System.{control_room, push_room, Fits, System, Reach}
use hytch.Daemon.System

module _ {c : BroadcastCrate} {s : SignalCrate} where
  start-Fits : (logging : Bool) (n : ℕ) (d : Daemon c s) → start c s logging n ≡ some d → Fits c s d
  start-Fits logging n d e =
      let (no_commands, no_chunks, quiet) = start_empty logging n d e in
      (omega (arith, ap length no_commands), omega (arith, ap length no_chunks))

  -- A round only takes from them.
  Step-Fits :
      {reason : Option ShutdownReason} {r : Ready c s} {d d' : Daemon c s}
      → Step c s r d reason d'
      → Fits c s d
      → Fits c s d'
  Step-Fits (Step.control (resize rows cols) rest e) (h, h') = (omega (arith, ap length e), h')
  Step-Fits (Step.control (signal sig) rest e) (h, h') = (omega (arith, ap length e), h')
  Step-Fits (Step.output chunk e) h = h
  Step-Fits (Step.exit answer e e' ended) h = h
  Step-Fits (Step.accept true e e') h = h
  Step-Fits (Step.accept false e e') h = h
  Step-Fits (Step.push chunk rest e e' e'') (h, h') = (h, omega (arith, ap length e''))
  Step-Fits (Step.signals e e' e'') h = h

  System-Fits : {t u : System c s} → System.Step c s t u → Fits c s t.daemon → Fits c s u.daemon
  System-Fits {t} (System.Step.loops r) h = Step-Fits (round-Step c s r t.daemon) h
  System-Fits (System.Step.takes i sent o a known had fits) h = fits
  System-Fits {t} (System.Step.gives i true rx d ds known had has) h =
      let (bytes, rx') = c.recv t.daemon.fanout.tx rx in
      rw
        (
          (handle_event-item c s bytes (some rx') t.daemon.fanout).0,
          append-nil t.daemon.controls,
          append-nil t.daemon.pushes,
        )
        h
  System-Fits {t} (System.Step.gives i false rx d ds known had has) h =
      let (bytes, rx') = c.recv t.daemon.fanout.tx rx in
      rw
        (
          (handle_event-item c s bytes (some rx') t.daemon.fanout).1,
          append-nil t.daemon.controls,
          append-nil t.daemon.pushes,
        )
        h
  System-Fits {t} (System.Step.fails i sent rx e known had) h =
      rw
        (
          handle_event-lost c s sent e (some rx) t.daemon.fanout,
          append-nil t.daemon.controls,
          append-nil t.daemon.pushes,
        )
        h

module _ (c : BroadcastCrate) (s : SignalCrate) where
  -- Whatever the loop and the connections' tasks did since the daemon started, in any order, at most 16
  -- commands and 256 chunks of input wait for the loop.
  pub queues-Fits :
      {d : Daemon c s} {t : System c s} (logging : Bool) (n : ℕ)
      → Reach c s d t
      → start c s logging n ≡ some d
      → (length t.daemon.controls ≤ 16) × (length t.daemon.pushes ≤ 256)
  queues-Fits {d} logging n Reach.here e = start-Fits logging n d e
  queues-Fits logging n (Reach.later r st) e = System-Fits st (queues-Fits logging n r e)
