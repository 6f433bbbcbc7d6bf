-- ===== src/Proto/Codec.antt =====
-- crates/proto/src/codec.rs: a frame is a type byte, a 4-byte big-endian payload length and the
-- payload. A call returns its result beside the buffer that it leaves behind.
pub mod Frame
pub mod RoundTrip
pub mod Framing
pub mod Stream
pub mod Accepts
mod Tests
use hytch.Common.{
  ℕ, ◌+◌, ◌*◌, ◌%◌, ◌^◌, Option, none, some, List, Bool, true, false, length, get_or, ltb, ◌==◌,
  if◌then◌else◌, not,
}
use hytch.Common.Results.{Result, ok, err, ◌>>=◌, ◌>>◌, map_ok}
use hytch.Proto.Buffer.{BytesCrate}
use hytch.Proto.Message.{RedrawMethod, Message, push, attach, detach, redraw, kill, to_u8, from_u8}

abbrev pub default_max_frame_len : ℕ
default_max_frame_len = 64 * 1024

abbrev pub header_len : ℕ
header_len = 5

abbrev pub type_push : ℕ
type_push = 0

abbrev pub type_attach : ℕ
type_attach = 1

abbrev pub type_detach : ℕ
type_detach = 2

abbrev pub type_winch : ℕ
type_winch = 3

abbrev pub type_redraw : ℕ
type_redraw = 4

abbrev pub type_kill : ℕ
type_kill = 5

-- The `io::Error`s of `decode`: all are of kind `InvalidData`, told apart by their text.
pub data InvalidData : Type 0 where
  frame_too_long : ℕ → ℕ → InvalidData
  wrong_payload_len : ℕ → ℕ → InvalidData
  unknown_redraw_method : ℕ → InvalidData
  unknown_message_type : ℕ → InvalidData

-- `u32::from_be_bytes`.
abbrev pub from_be_bytes : ℕ → ℕ → ℕ → ℕ → ℕ
from_be_bytes a b c d = a * 2 ^ 24 + b * 2 ^ 16 + c * 2 ^ 8 + d

pub require_len : List ℕ → ℕ → Result InvalidData (Unit {0})
require_len payload expected =
    if length payload == expected then ok tt else err (wrong_payload_len expected (length payload))

-- `Option::ok_or_else` on the method byte.
pub known_method : ℕ → Result InvalidData RedrawMethod
known_method byte = elim (from_u8 byte) [ none ↦ err (unknown_redraw_method byte) | some m ↦ ok m ]

-- The length that the header of `src` states.
abbrev pub claimed_len : List ℕ → ℕ
claimed_len src = from_be_bytes (get_or src 1 0) (get_or src 2 0) (get_or src 3 0) (get_or src 4 0)

abbrev pub bool_byte : Bool → ℕ
bool_byte true = 1
bool_byte false = 0

module _ (b : BytesCrate) where
  pub write_header : List ℕ → ℕ → ℕ → List ℕ
  write_header dst ty len = b.put_u32 (b.put_u8 dst ty) (len % 2 ^ 32)

  -- `Encoder::encode`, which cannot fail: `ok` and the buffer with the frame added.
  pub encode : Message → List ℕ → Result InvalidData (Unit {0}) × List ℕ
  encode (push payload) dst =
      (ok tt, b.extend_from_slice (write_header dst type_push (length payload)) payload)
  encode (attach skip_ring) dst =
      (ok tt, b.put_u8 (write_header dst type_attach 1) (bool_byte skip_ring))
  encode detach dst = (ok tt, write_header dst type_detach 0)
  encode (Message.winch rows cols) dst =
      (ok tt, b.put_u16 (b.put_u16 (write_header dst type_winch 4) rows) cols)
  encode (redraw method rows cols) dst =
      let header = b.put_u8 (write_header dst type_redraw 5) (to_u8 method) in
      (ok tt, b.put_u16 (b.put_u16 header rows) cols)
  encode (kill signal) dst = (ok tt, b.put_u8 (write_header dst type_kill 1) signal)

  pub decode_winch : List ℕ → Result InvalidData Message
  decode_winch payload = do
    require_len payload 4
    let (rows, more) = b.get_u16 payload
    let (cols, rest) = b.get_u16 more
    ok (Message.winch rows cols)

  pub decode_redraw : List ℕ → Result InvalidData Message
  decode_redraw payload = do
    require_len payload 5
    let (method_byte, size) = b.get_u8 payload
    method ← known_method method_byte
    let (rows, more) = b.get_u16 size
    let (cols, rest) = b.get_u16 more
    ok (redraw method rows cols)

  pub decode_payload : ℕ → List ℕ → Result InvalidData Message
  decode_payload ty payload =
      if ty == type_push
      then ok (push payload)
      else if ty == type_attach
      then (do require_len payload 1; ok (attach (not (get_or payload 0 0 == 0))))
      else if ty == type_detach
      then (do require_len payload 0; ok detach)
      else if ty == type_winch
      then decode_winch payload
      else if ty == type_redraw
      then decode_redraw payload
      else if ty == type_kill
      then (do require_len payload 1; ok (kill (get_or payload 0 0)))
      else err (unknown_message_type ty)

  -- `Decoder::decode` of a codec with `max_frame_len`. `src.reserve` changes no content.
  pub decode : ℕ → List ℕ → Result InvalidData (Option Message) × List ℕ
  decode max_frame_len src =
      let ty = get_or src 0 0 in
      let len = claimed_len src in
      let (frame, rest) = b.split_to src (header_len + len) in
      if ltb (length src) header_len
      then (ok none, src)
      else if ltb max_frame_len len
      then (err (frame_too_long len max_frame_len), src)
      else if ltb (length src) (header_len + len)
      then (ok none, src)
      else (map_ok some (decode_payload ty (b.advance frame header_len)), rest)
