-- ===== src/Proto/Message.antt =====
-- crates/proto/src/message.rs: the control messages from a client to the daemon.
use hytch.Common.{
  ℕ, ◌^◌, ◌<◌, ◌≡◌, refl, Option, some, List, Bool, length, ◌==◌, if◌then◌else◌, arith,
}

-- How the daemon is asked to force a redraw.
pub data RedrawMethod : Type 0 where
  unspecified none ctrl_l winch : RedrawMethod

-- A byte is a number below 256; `rows` and `cols` are below 2 ^ 16.
pub data Message : Type 0 where
  push : List ℕ → Message
  attach : Bool → Message
  detach : Message
  winch : ℕ → ℕ → Message
  redraw : RedrawMethod → ℕ → ℕ → Message
  kill : ℕ → Message

unfoldable pub to_u8 : RedrawMethod → ℕ
to_u8 RedrawMethod.unspecified = 0
to_u8 RedrawMethod.none = 1
to_u8 RedrawMethod.ctrl_l = 2
to_u8 RedrawMethod.winch = 3

unfoldable pub from_u8 : ℕ → Option RedrawMethod
from_u8 byte =
    if byte == 0
    then some RedrawMethod.unspecified
    else if byte == 1
    then some RedrawMethod.none
    else if byte == 2
    then some RedrawMethod.ctrl_l
    else if byte == 3
    then some RedrawMethod.winch
    else Option.none

-- The ranges of the fields' Rust types, with a payload whose length a frame header can state.
abbrev pub IsMessage : Message → Type 0
IsMessage (push payload) = length payload < 2 ^ 32
IsMessage (attach skip_ring) = Unit
IsMessage detach = Unit
IsMessage (Message.winch rows cols) = (rows < 2 ^ 16) × (cols < 2 ^ 16)
IsMessage (redraw method rows cols) = (rows < 2 ^ 16) × (cols < 2 ^ 16)
IsMessage (kill signal) = signal < 256

pub to_u8-lt : (m : RedrawMethod) → to_u8 m < 4
unfolding to_u8
to_u8-lt RedrawMethod.unspecified = omega arith
to_u8-lt _ = omega arith

pub from_u8-to_u8 : (m : RedrawMethod) → from_u8 (to_u8 m) ≡ some m
unfolding from_u8 to_u8
from_u8-to_u8 RedrawMethod.unspecified = refl
from_u8-to_u8 _ = refl

-- A byte that names a method is the byte that the method is sent as.
pub to_u8-from_u8 : (byte : ℕ) {m : RedrawMethod} → from_u8 byte ≡ some m → to_u8 m ≡ byte
unfolding from_u8 to_u8
to_u8-from_u8 byte e = ground arith
