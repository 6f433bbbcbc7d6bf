-- ===== src/Fanout.antt =====
-- crates/daemon/src/fanout.rs: pty output goes to the scrollback ring and to a broadcast channel.
-- Both methods hold the ring's lock throughout, so each is one step on the pair.
pub mod Broadcast
pub mod LogChannel
pub mod Delivery
use hytch.Common.{ℕ, Option, none, some, List}
use hytch.Ring
use hytch.Ring.{RingBuffer}
use Broadcast.{BroadcastCrate}

module _ (c : BroadcastCrate) where
  pub record Fanout : Type 0 where
    pub ring : RingBuffer
    pub tx : c.Sender

  -- `none` is the panic of `RingBuffer::new`.
  unfoldable pub new : ℕ → ℕ → Option Fanout
  new scrollback_capacity broadcast_capacity = elim (Ring.new scrollback_capacity) [
    | none ↦ none
    | some r ↦ some (record { ring = r; tx = c.channel broadcast_capacity })
  ]

  unfoldable pub push : Fanout → List ℕ → Fanout
  push f bytes = record { ring = Ring.append f.ring bytes; tx = c.send f.tx bytes }

  -- The snapshot and the receiver, beside the new state.
  unfoldable pub attach : Fanout → List ℕ × c.Receiver × Fanout
  attach f = let (tx, rx) = c.subscribe f.tx in (Ring.snapshot f.ring, rx, record f { tx = tx })
