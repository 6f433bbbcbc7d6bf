-- ===== src/Daemon/System/Lagging.antt =====
-- A client that keeps up, as a receiver of crates/daemon/src/fanout.rs: it is never so far behind that
-- the channel drops a chunk it has not been given.
use hytch.Common.{ℕ, ◌<◌, ◌≡◌, some, length}
use hytch.Fanout.Broadcast.{BroadcastCrate}
use hytch.Daemon.Signals.{SignalCrate}
use hytch.Daemon.Loop.{Daemon}
use hytch.Daemon.System.{System, Step, Reach}

module _ (c : BroadcastCrate) (s : SignalCrate) (i : ℕ) where
  -- A chunk would find room in the backlog of the client's receiver.
  abbrev pub HasRoom : System c s → Type 0
  HasRoom t =
      (rx : c.Receiver)
      → (t.handlers i).attached ≡ some (some rx)
      → length (c.backlog t.daemon.fanout.tx rx) < c.room t.daemon.fanout.tx

module _ {c : BroadcastCrate} {s : SignalCrate} (i : ℕ) where
  -- Only the loop sends to the receivers.
  unfoldable pub InTime : {t u : System c s} → Step c s t u → Type 0
  InTime {t} (Step.loops r) = HasRoom c s i t
  InTime (Step.takes _ _ _ _ _ _ _) = Unit {0}
  InTime (Step.gives _ _ _ _ _ _ _ _) = Unit {0}
  InTime (Step.fails _ _ _ _ _ _) = Unit {0}

  unfoldable pub NeverLags : {d : Daemon c s} {t : System c s} → Reach c s d t → Type 0
  unfolding InTime
  NeverLags Reach.here = Unit {0}
  NeverLags (Reach.later r st) = NeverLags r × InTime st
